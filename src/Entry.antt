-- ===== src/Entry.antt =====
-- webapp/services/daily_entry_status_service.py and webapp/models/daily_entry_status.py: the
-- ownership lock and the completion of one entry, which is one product in one period. The table's
-- unique constraint makes the period and the product a key, so the table is a partial function of
-- it; the column `id` is left out. A time is a number of microseconds, and `now` is what `_utcnow()`
-- returns in the call. Messages keep the time as it is stored, unformatted.
pub mod Races
pub mod History
pub mod Lock
pub mod Overview
pub mod Completed
mod Tests
use text.Mathlib.Text.{◌==◌ as str_eq}
use daily_figures.Common.{
  ℕ, ◌+◌, ◌*◌, Bool, true, false, not, ◌&&◌, Option, none, some, List, [], ◌∷◌, String, ltb, ◌==◌,
  if◌then◌else◌, Result, ok, raise, ◌>>=◌, ◌>>◌, raise_if, find_first,
}
use daily_figures.Records.{Shift, same_shift, User, is_elevated}

pub data CompletionType : Type 0 where
  with_data no_activity : CompletionType

pub record EntryStatus : Type 0 where
  pub lock_user_id : Option ℕ
  pub lock_acquired_at : Option ℕ
  pub completed : Bool
  pub completion_type : Option CompletionType
  pub completed_by : Option ℕ
  pub completed_at : Option ℕ
  pub reopened_by : Option ℕ
  pub reopened_at : Option ℕ
  pub reopen_reason : Option String

pub record EntryKey : Type 0 where
  pub date : ℕ
  pub shift : Shift
  pub product_id : ℕ

abbrev pub same_key : EntryKey → EntryKey → Bool
same_key j k = j.date == k.date && (same_shift j.shift k.shift && j.product_id == k.product_id)

-- What `record_audit` is given.
pub data EntryAudit : Type 0 where
  no_activity_today : (actor : ℕ) → EntryKey → EntryAudit
  lock_taken_over : (actor : ℕ) → EntryKey → (before_user before_at : Option ℕ) → EntryAudit
  entry_reopened :
      (actor : ℕ) → EntryKey → (before : EntryStatus) → (reason : Option String) → EntryAudit

pub record Entries : Type 0 where
  pub row_at : EntryKey → Option EntryStatus
  pub users : List User
  pub audits : List EntryAudit

-- `DailyEntryStatusConflict` and `DailyEntryStatusError`, by their messages.
pub data EntryError : Type 0 where
  already_inputted : (who : String) → (when_ : Option ℕ) → EntryError
  being_entered : (who : String) → EntryError
  takeover_forbidden reopen_forbidden reason_required not_completed : EntryError

abbrev pub lock_stale_after : ℕ
lock_stale_after = 15 * 60 * 1000000

unfoldable pub is_stale : (now : ℕ) → (lock_acquired_at : Option ℕ) → Bool
is_stale now none = true
is_stale now (some at) = ltb (at + lock_stale_after) now

abbrev pub new_row : EntryStatus
new_row = record {
  lock_user_id = none;
  lock_acquired_at = none;
  completed = false;
  completion_type = none;
  completed_by = none;
  completed_at = none;
  reopened_by = none;
  reopened_at = none;
  reopen_reason = none;
}

-- Writing the row of a key.
abbrev pub set_row : EntryKey → EntryStatus → Entries → Entries
set_row k row db = record db { row_at = λ j. if same_key j k then some row else db.row_at j }

abbrev pub add_audit : EntryAudit → Entries → Entries
add_audit a db = record db { audits = a ∷ db.audits }

-- The insert: where another session has made the row, the unique constraint refuses it, and the row
-- is read again.
abbrev pub insert_row : EntryKey → Entries → Entries × EntryStatus
insert_row k db = elim (db.row_at k) [
  | none ↦ (set_row k new_row db, new_row)
  | some row ↦ (db, row)
]

-- `seen` is what the query at the start returned.
abbrev pub get_or_create : (seen : Option EntryStatus) → EntryKey → Entries → Entries × EntryStatus
get_or_create none k db = insert_row k db
get_or_create (some row) k db = (db, row)

abbrev pub user_name : Option User → String
user_name none = "a former user"
user_name (some u) = u.username

unfoldable pub user_label : Entries → Option ℕ → Option String
user_label db none = none
user_label db (some id) = some (user_name (find_first (λ u. u.id == id) db.users))

-- `_user_label(...) or "another user"`
abbrev pub or_another_user : Option String → String
or_another_user none = "another user"
or_another_user (some name) = if str_eq name "" then "another user" else name

abbrev pub completed_conflict : Entries → EntryStatus → EntryError
completed_conflict db row =
    already_inputted (or_another_user (user_label db row.completed_by)) row.completed_at

-- `row.lock_user_id is not None and row.lock_user_id != user.id`
abbrev pub is_other : Option ℕ → User → Bool
is_other none user = false
is_other (some id) user = not (id == user.id)

abbrev pub is_held : Option ℕ → Bool
is_held none = false
is_held (some id) = true

abbrev pub operator_conflict_of : (now : ℕ) → Entries → User → EntryStatus → Option EntryError
operator_conflict_of now db user row =
    if row.completed
    then some (completed_conflict db row)
    else if is_other row.lock_user_id user && not (is_stale now row.lock_acquired_at)
    then some (being_entered (or_another_user (user_label db row.lock_user_id)))
    else none

unfoldable pub check_operator_conflict : (now : ℕ) → EntryKey → User → Entries → Option EntryError
check_operator_conflict now k user db = elim (db.row_at k) [
  | none ↦ none
  | some row ↦ operator_conflict_of now db user row
]

abbrev pub raise_conflict : Option EntryError → Result EntryError Unit
raise_conflict none = ok tt
raise_conflict (some e) = raise e

abbrev pub take_lock : (now : ℕ) → User → EntryStatus → EntryStatus
take_lock now user row = record row { lock_user_id = some user.id; lock_acquired_at = some now }

unfoldable pub acquire_lock : (now : ℕ) → EntryKey → User → Entries → Result EntryError Entries
acquire_lock now k user db = do
  let (db', row) = get_or_create (db.row_at k) k db
  raise_conflict (check_operator_conflict now k user db')
  ok (set_row k (take_lock now user row) db')

abbrev pub clear_lock : EntryStatus → EntryStatus
clear_lock row = record row { lock_user_id = none; lock_acquired_at = none }

-- `row.lock_user_id == user.id`
abbrev pub is_owner : Option ℕ → User → Bool
is_owner none user = false
is_owner (some id) user = id == user.id

unfoldable pub release_lock : EntryKey → User → Entries → Entries
release_lock k user db = elim (db.row_at k) [
  | none ↦ db
  | some row ↦ if not (is_owner row.lock_user_id user) then db else set_row k (clear_lock row) db
]

abbrev pub complete_row : (now : ℕ) → User → CompletionType → EntryStatus → EntryStatus
complete_row now user type row = record row {
  completed = true;
  completion_type = some type;
  completed_by = some user.id;
  completed_at = some now;
  lock_user_id = none;
  lock_acquired_at = none;
}

-- `claim_completion`, up to its UPDATE.
unfoldable pub claim_select :
    (seen : Option EntryStatus) → EntryKey → Entries → Result EntryError Entries
claim_select seen k db = do
  let (db', row) = get_or_create seen k db
  raise_if row.completed (completed_conflict db' row)
  ok db'

-- The UPDATE ... WHERE completed = 0 and the test of its row count. No code deletes a row, so a row
-- is there to be read again.
unfoldable pub claim_update :
    (now : ℕ) → EntryKey → User → CompletionType → Entries → Result EntryError Entries
claim_update now k user type db = elim (db.row_at k) [
  | none ↦ raise (already_inputted "another user" none)
  | some row ↦
      if row.completed
      then raise (completed_conflict db row)
      else ok (set_row k (complete_row now user type row) db)
]

unfoldable pub claim_completion :
    (now : ℕ) → EntryKey → User → CompletionType → Entries → Result EntryError Entries
unfolding claim_select claim_update
claim_completion now k user type db =
    claim_select (db.row_at k) k db >>= λ db'. claim_update now k user type db'

unfoldable pub mark_no_activity : (now : ℕ) → EntryKey → User → Entries → Result EntryError Entries
unfolding claim_completion
mark_no_activity now k user db = do
  db' ← claim_completion now k user no_activity db
  ok (add_audit (no_activity_today user.id k) db')

unfoldable pub mark_completed_with_data :
    (now : ℕ) → EntryKey → User → Entries → Result EntryError Entries
unfolding claim_completion
mark_completed_with_data now k user db = claim_completion now k user with_data db

-- `except DailyEntryStatusConflict: return get_or_create(...)`
abbrev pub or_get : EntryKey → Entries → Result EntryError Entries → Entries
or_get k db (ok db') = db'
or_get k db (raise e) = (get_or_create (db.row_at k) k db).0

unfoldable pub mark_completed_with_data_if_not_already :
    (now : ℕ) → EntryKey → User → Entries → Entries
unfolding claim_completion
mark_completed_with_data_if_not_already now k user db = elim (db.row_at k) [
  | none ↦ or_get k db (claim_completion now k user with_data db)
  | some row ↦ if row.completed then db else or_get k db (claim_completion now k user with_data db)
]

unfoldable pub takeover_lock : EntryKey → User → Entries → Result EntryError Entries
takeover_lock k actor db = do
  raise_if (not (is_elevated actor.role)) takeover_forbidden
  let (db', row) = get_or_create (db.row_at k) k db
  ok (
      add_audit (lock_taken_over actor.id k row.lock_user_id row.lock_acquired_at)
        (set_row k (clear_lock row) db'))

abbrev pub reopen_row : (now : ℕ) → User → (reason : Option String) → EntryStatus → EntryStatus
reopen_row now actor reason row = record {
  lock_user_id = none;
  lock_acquired_at = none;
  completed = false;
  completion_type = none;
  completed_by = none;
  completed_at = none;
  reopened_by = some actor.id;
  reopened_at = some now;
  reopen_reason = reason;
}

-- `if not reason`
abbrev pub is_blank : Option String → Bool
is_blank none = true
is_blank (some text) = str_eq text ""

unfoldable pub reopen :
    (now : ℕ) → EntryKey → User → (reason : Option String) → Entries → Result EntryError Entries
reopen now k actor reason db = do
  raise_if (not (is_elevated actor.role)) reopen_forbidden
  raise_if (is_blank reason) reason_required
  let (db', row) = get_or_create (db.row_at k) k db
  raise_if (not row.completed) not_completed
  ok (
      add_audit (entry_reopened actor.id k row reason)
        (set_row k (reopen_row now actor reason row) db'))

unfoldable pub clear_for_reset :
    (now : ℕ) → EntryKey → User → (reason : Option String) → Entries → Entries
clear_for_reset now k actor reason db = elim (db.row_at k) [
  | none ↦ db
  | some row ↦ set_row k (reopen_row now actor reason row) db
]
