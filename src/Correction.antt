-- ===== src/Correction.antt =====
-- webapp/services/correction_request_service.py and the columns of webapp/models/correction_request.py
-- that it reads and writes: an operator's request to correct an old record, and the edit grant of 24
-- hours that its approval starts. Requests are for corrections: the void requests that older versions
-- made are left out, and so are the entries of the audit log. Times are numbers of microseconds.
pub mod Sweep
pub mod Single
pub mod Run
pub mod Live
pub mod Grant
mod Tests
use Prim.Native.String.{len}
use text.Mathlib.Text.{◌==◌ as str_eq}
use daily_figures.Common.{
  ℕ, ◌+◌, ◌*◌, suc, zero, Bool, true, false, not, ◌&&◌, ◌||◌, Option, none, some, List, [], ◌∷◌,
  ◌++◌, String, ltb, ◌==◌, if◌then◌else◌, Result, ok, raise, ◌>>=◌, ◌>>◌, raise_if, filter_where,
  ids_below,
}
use daily_figures.Records.{User}

-- `RECORD_TYPES`
pub data RecordType : Type 0 where
  dispatch returns production : RecordType

abbrev pub same_type : RecordType → RecordType → Bool
same_type dispatch dispatch = true
same_type returns returns = true
same_type production production = true
same_type _ _ = false

pub data RequestStatus : Type 0 where
  pending approved rejected completed expired : RequestStatus

abbrev pub is_pending : RequestStatus → Bool
is_pending pending = true
is_pending _ = false

abbrev pub is_approved : RequestStatus → Bool
is_approved approved = true
is_approved _ = false

-- `status.in_([STATUS_PENDING, STATUS_APPROVED])`
abbrev pub is_open : RequestStatus → Bool
is_open s = is_pending s || is_approved s

pub record CorrectionRequest : Type 0 where
  pub record_type : RecordType
  pub record_id : ℕ
  pub requested_by : ℕ
  pub reason : String
  pub payload_json : String
  pub before_snapshot_json : String
  pub status : RequestStatus
  pub reviewed_by : Option ℕ
  pub reviewed_at : Option ℕ
  pub review_note : Option String
  pub completed_at : Option ℕ

-- The table, by the ids of its rows, which the engine counts up.
pub record Requests : Type 0 where
  pub row_at : ℕ → Option CorrectionRequest
  pub next_id : ℕ

pub data RequestError : Type 0 where
  record_not_found reason_required reason_too_short changes_required : RequestError
  already_pending already_granted already_reviewed note_required : RequestError
  no_longer_active missing_request : RequestError

-- `timedelta(hours=24)`
abbrev pub grant_window : ℕ
grant_window = 24 * 3600000000

abbrev pub set_row : ℕ → CorrectionRequest → Requests → Requests
set_row id row db = record db {
  row_at = λ other. if other == id then some row else db.row_at other;
}

-- An UPDATE of the row with this id `AND status = 'approved'`.
abbrev pub update_approved :
    (CorrectionRequest → CorrectionRequest) → ℕ → Requests → Option CorrectionRequest → Requests
update_approved f id db none = db
update_approved f id db (some row) = if is_approved row.status then set_row id (f row) db else db

abbrev pub expired_row : CorrectionRequest → CorrectionRequest
expired_row row = record row { status = expired }

-- `now < reviewed_at + GRANT_WINDOW`, where a row was not reviewed it does not expire
abbrev pub is_in_window : (now : ℕ) → CorrectionRequest → Bool
is_in_window now row = elim row.reviewed_at [
  | none ↦ true
  | some start ↦ ltb now (start + grant_window)
]

unfoldable pub expire_if_needed : (now id : ℕ) → CorrectionRequest → Requests → Requests
expire_if_needed now id row db =
    if not (is_approved row.status)
    then db
    else if is_in_window now row
    then db
    else update_approved expired_row id db (db.row_at id)

abbrev pub is_own : RecordType → (record_id user_id : ℕ) → CorrectionRequest → Bool
is_own type record_id user_id row =
    same_type row.record_type type
    && ((row.record_id == record_id) && (row.requested_by == user_id))

abbrev pub row_passes : (CorrectionRequest → Bool) → Option CorrectionRequest → Bool
row_passes test none = false
row_passes test (some row) = test row

-- The ids that a query selects.
abbrev pub select : (CorrectionRequest → Bool) → Requests → List ℕ
select test db = filter_where (λ id. row_passes test (db.row_at id)) (ids_below db.next_id)

pub record GrantSearch : Type 0 where
  pub after : Requests
  pub grant : Option ℕ

-- A row is read again after it may have expired.
abbrev pub swept_at : (now id : ℕ) → Requests → Option CorrectionRequest → Requests
swept_at now id db none = db
swept_at now id db (some row) = expire_if_needed now id row db

unfoldable pub first_live : (now : ℕ) → List ℕ → Requests → GrantSearch
unfolding expire_if_needed
first_live now [] db = record { after = db; grant = none }
first_live now (id ∷ ids) db =
    let swept = swept_at now id db (db.row_at id) in
    let rest = first_live now ids swept in
    if row_passes (λ row. is_approved row.status) (swept.row_at id)
    then record { after = swept; grant = some id }
    else rest

unfoldable pub get_active_grant :
    (now : ℕ) → RecordType → (record_id : ℕ) → User → Requests → GrantSearch
unfolding first_live
get_active_grant now type record_id user db =
    first_live now (select (λ row. is_own type record_id user.id row && is_approved row.status) db)
      db

-- `expire_if_needed`, and the refusals of a row that is still pending or approved
abbrev pub refuse_open : Option CorrectionRequest → Result RequestError Unit
refuse_open none = ok tt
refuse_open (some row) =
    if is_pending row.status
    then raise already_pending
    else raise_if (is_approved row.status) already_granted

unfoldable pub check_none_open : (now : ℕ) → List ℕ → Requests → Result RequestError Requests
check_none_open now [] db = ok db
check_none_open now (id ∷ ids) db =
    let swept = swept_at now id db (db.row_at id) in
    refuse_open (swept.row_at id) >> check_none_open now ids swept

abbrev pub new_request :
    RecordType → (record_id : ℕ) → User → (reason payload snapshot : String) → CorrectionRequest
new_request type record_id user reason payload snapshot = record {
  record_type = type;
  record_id = record_id;
  requested_by = user.id;
  reason = reason;
  payload_json = payload;
  before_snapshot_json = snapshot;
  status = pending;
  reviewed_by = none;
  reviewed_at = none;
  review_note = none;
  completed_at = none;
}

abbrev pub add_request : CorrectionRequest → Requests → Requests
add_request row db = record {
  row_at = (set_row db.next_id row db).row_at;
  next_id = db.next_id + 1;
}

abbrev pub text_of : Option String → String
text_of none = ""
text_of (some text) = text

abbrev pub required : {A : Type 0} → Option A → RequestError → Result RequestError A
required none err = raise err
required (some a) err = ok a

-- `snapshot` is the record in JSON, if there is one, and `payload` the changes, if there are any;
-- `strip` is Python's `str.strip`.
unfoldable pub create_request :
    (strip : String → String)
    → (now : ℕ) → RecordType
    → (record_id : ℕ) → (snapshot reason payload : Option String) → User
    → Requests
    → Result RequestError Requests
create_request strip now type record_id snapshot reason payload user db = do
  before ← required snapshot record_not_found
  raise_if (str_eq (strip (text_of reason)) "") reason_required
  raise_if (ltb (len (strip (text_of reason))) 10) reason_too_short
  changes ← required payload changes_required
  swept ←
      check_none_open now
        (select (λ row. is_own type record_id user.id row && is_open row.status) db) db
  ok (add_request (new_request type record_id user (strip (text_of reason)) changes before) swept)

abbrev pub reviewed_row :
    RequestStatus
    → (now : ℕ) → User
    → (note : Option String) → CorrectionRequest
    → CorrectionRequest
reviewed_row status now reviewer note row = record row {
  status = status;
  reviewed_by = some reviewer.id;
  reviewed_at = some now;
  review_note = note;
}

unfoldable pub approve_request :
    (now id : ℕ)
    → CorrectionRequest
    → User
    → (note : Option String) → Requests
    → Result RequestError Requests
approve_request now id row reviewer note db = do
  raise_if (not (is_pending row.status)) already_reviewed
  ok (set_row id (reviewed_row approved now reviewer note row) db)

abbrev pub is_blank : Option String → Bool
is_blank none = true
is_blank (some text) = str_eq text ""

unfoldable pub reject_request :
    (now id : ℕ)
    → CorrectionRequest
    → User
    → (note : Option String) → Requests
    → Result RequestError Requests
reject_request now id row reviewer note db = do
  raise_if (not (is_pending row.status)) already_reviewed
  raise_if (is_blank note) note_required
  ok (set_row id (reviewed_row rejected now reviewer note row) db)

abbrev pub completed_row : (now : ℕ) → CorrectionRequest → CorrectionRequest
completed_row now row = record row { status = completed; completed_at = some now }

-- `result.rowcount == 0` where no row with the id is approved
unfoldable pub consume_grant : (now id : ℕ) → Requests → Result RequestError Requests
consume_grant now id db =
    if row_passes (λ row. is_approved row.status) (db.row_at id)
    then ok (update_approved (completed_row now) id db (db.row_at id))
    else raise no_longer_active

-- `pending_count`
abbrev count_list : List ℕ → ℕ
count_list [] = 0
count_list (id ∷ ids) = suc (count_list ids)

unfoldable pub pending_count : Requests → ℕ
pending_count db = count_list (select (λ row. is_pending row.status) db)
