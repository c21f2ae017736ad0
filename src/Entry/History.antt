-- ===== src/Entry/History.antt =====
-- daily_entry_status_service.py: sequences of its operations.
use daily_figures.Common.{
  ℕ, ◌≡◌, ◌≢◌, refl, sym, ap, inl, inr, Bool, true, false, Option, none, some, List, [], ◌∷◌,
  String, Bool-cases, Option-cases, Result, ok, raise, Result-cases,
}
use daily_figures.Records.{User, is_elevated}
use daily_figures.Entry.Races.{
  claim_completion-new, claim_completion-open, claim_completion-completed,
}
use daily_figures.Entry.Lock.{acquire_lock-new, acquire_lock-found}
use daily_figures.Entry.{
  operator_conflict_of, or_get, with_data, no_activity, CompletionType, EntryStatus, EntryKey,
  same_key, Entries, EntryError, EntryAudit, is_blank, set_row, add_audit, get_or_create,
  insert_row, new_row, complete_row, clear_lock, take_lock, reopen_row, is_held, is_owner,
  acquire_lock, release_lock, claim_select, claim_update, claim_completion, mark_no_activity,
  mark_completed_with_data, mark_completed_with_data_if_not_already, takeover_lock, reopen,
  clear_for_reset,
}

-- One step of one session. `select` and `update` are the two halves of a claim, between which other
-- sessions may take steps.
pub data Event : Type 0 where
  acquire : (now : ℕ) → EntryKey → User → Event
  release : EntryKey → User → Event
  select : (seen : Option EntryStatus) → EntryKey → Event
  update : (now : ℕ) → EntryKey → User → CompletionType → Event
  no_activity_mark : (now : ℕ) → EntryKey → User → Event
  data_mark : (now : ℕ) → EntryKey → User → Event
  data_mark_if_not_already : (now : ℕ) → EntryKey → User → Event
  takeover : EntryKey → User → Event
  reopening : (now : ℕ) → EntryKey → User → Option String → Event
  reset : (now : ℕ) → EntryKey → User → Option String → Event

-- A session that raises rolls its transaction back.
abbrev pub or_rolled_back : Entries → Result EntryError Entries → Entries
or_rolled_back db (ok db') = db'
or_rolled_back db (raise e) = db

unfoldable pub run_event : Event → Entries → Entries
run_event (acquire now k user) db = or_rolled_back db (acquire_lock now k user db)
run_event (release k user) db = release_lock k user db
run_event (select seen k) db = or_rolled_back db (claim_select seen k db)
run_event (update now k user type) db = or_rolled_back db (claim_update now k user type db)
run_event (no_activity_mark now k user) db = or_rolled_back db (mark_no_activity now k user db)
run_event (data_mark now k user) db = or_rolled_back db (mark_completed_with_data now k user db)
run_event (data_mark_if_not_already now k user) db =
    mark_completed_with_data_if_not_already now k user db
run_event (takeover k actor) db = or_rolled_back db (takeover_lock k actor db)
run_event (reopening now k actor reason) db = or_rolled_back db (reopen now k actor reason db)
run_event (reset now k actor reason) db = clear_for_reset now k actor reason db

unfoldable pub run_events : List Event → Entries → Entries
unfolding run_event
run_events [] db = db
run_events (e ∷ es) db = run_events es (run_event e db)

-- A completed row holds no lock and says who completed it, when and how; an open row says none of
-- these, and holds a lock with its time or none.
abbrev pub IsConsistent : Bool → EntryStatus → Type 0
IsConsistent true row =
    (row.lock_user_id ≡ none)
    × (row.lock_acquired_at ≡ none)
    × (is_held row.completed_by ≡ true)
    × (is_held row.completed_at ≡ true)
    × (row.completion_type ≢ none)
IsConsistent false row =
    (row.completed_by ≡ none)
    × (row.completed_at ≡ none)
    × (row.completion_type ≡ none)
    × (is_held row.lock_user_id ≡ is_held row.lock_acquired_at)

pub record AreConsistent (db : Entries) : Type 0 where
  pub at_key :
      (k : EntryKey) (row : EntryStatus) → db.row_at k ≡ some row → IsConsistent row.completed row

abbrev row_or : EntryStatus → Option EntryStatus → EntryStatus
row_or row none = row
row_or row (some r) = r

AreConsistent-set_row :
    (k : EntryKey) (row : EntryStatus) (db : Entries)
    → IsConsistent row.completed row
    → AreConsistent db
    → AreConsistent (set_row k row db)
AreConsistent-set_row k row db c h = record {
  at_key = λ j row' e. elim (Bool-cases (same_key j k)) [
    | inl here ↦ rw (ap (λ (o : Option EntryStatus). row_or row o) (sym (rw here at e))) c
    | inr elsewhere ↦ h.at_key j row' (rw elsewhere at e)
  ];
}

-- The audit log is no part of the table.
AreConsistent-add_audit :
    (a : EntryAudit) (db : Entries) → AreConsistent db → AreConsistent (add_audit a db)
AreConsistent-add_audit a db h = record { at_key = h.at_key }

new_row-IsConsistent : IsConsistent false new_row
new_row-IsConsistent = (refl, refl, refl, refl)

complete_row-IsConsistent :
    (now : ℕ) (user : User) (type : CompletionType) (row : EntryStatus)
    → IsConsistent true (complete_row now user type row)
complete_row-IsConsistent now user type row = (refl, refl, refl, refl, λ e. cc)

clear_lock-IsConsistent :
    (row : EntryStatus)
    → IsConsistent row.completed row
    → IsConsistent row.completed (clear_lock row)
clear_lock-IsConsistent row c = by_completed row.completed c
  where
    by_completed : (b : Bool) → IsConsistent b row → IsConsistent b (clear_lock row)
    by_completed true c = let (_, _, by, at, type) = c in (refl, refl, by, at, type)
    by_completed false c = let (by, at, type, _) = c in (by, at, type, refl)

get_or_create-AreConsistent :
    (seen : Option EntryStatus) (k : EntryKey) (db : Entries)
    → AreConsistent db
    → AreConsistent (get_or_create seen k db).0
get_or_create-AreConsistent (some row) k db h = h
get_or_create-AreConsistent none k db h = elim (Option-cases (db.row_at k)) [
  | inl missing ↦
      rw (missing, insert_row) (AreConsistent-set_row k new_row db new_row-IsConsistent h)
  | inr (row, found) ↦ rw (found, insert_row) h
]

get_or_create-IsConsistent :
    (k : EntryKey) (db : Entries)
    → AreConsistent db
    → let row = (get_or_create (db.row_at k) k db).1 in IsConsistent row.completed row
get_or_create-IsConsistent k db h = elim (Option-cases (db.row_at k)) [
  | inl missing ↦ rw missing (rw (missing, insert_row) new_row-IsConsistent)
  | inr (row, found) ↦ rw found (h.at_key k row found)
]

-- What is written after `get_or_create` is consistent where the new row is.
write-AreConsistent :
    (k : EntryKey) (change : EntryStatus → EntryStatus) (db : Entries)
    → ((row : EntryStatus)
        → IsConsistent row.completed row
        → IsConsistent (change row).completed (change row))
    → AreConsistent db
    → AreConsistent (
        set_row k
          (change (get_or_create (db.row_at k) k db).1)
          (get_or_create (db.row_at k) k db).0)
write-AreConsistent k change db keeps h =
    AreConsistent-set_row k _ _ (keeps _ (get_or_create-IsConsistent k db h))
      (get_or_create-AreConsistent (db.row_at k) k db h)

reopen-AreConsistent :
    (now : ℕ) (k : EntryKey) (actor : User) (reason : Option String) (db : Entries)
    → AreConsistent db
    → AreConsistent (or_rolled_back db (reopen now k actor reason db))
unfolding reopen
reopen-AreConsistent now k actor reason db h =
    let row = (get_or_create (db.row_at k) k db).1 in
    elim (Bool-cases (is_elevated actor.role)) [
      | inr forbidden ↦ rw (forbidden, reopen) h
      | inl allowed ↦ elim (Bool-cases (is_blank reason)) [
        | inl blank ↦ rw (allowed, reopen) (rw blank h)
        | inr given ↦ elim (Bool-cases row.completed) [
          | inr never ↦ rw (allowed, reopen) (rw given (rw never h))
          | inl done ↦
              rw (allowed, reopen)
                (rw given (
                  rw done (
                    AreConsistent-add_audit _ _ (
                      write-AreConsistent k (reopen_row now actor reason) db
                        (λ row c. (refl, refl, refl, refl)) h))))
        ]
      ]
    ]

takeover_lock-AreConsistent :
    (k : EntryKey) (actor : User) (db : Entries)
    → AreConsistent db
    → AreConsistent (or_rolled_back db (takeover_lock k actor db))
unfolding takeover_lock
takeover_lock-AreConsistent k actor db h = elim (Bool-cases (is_elevated actor.role)) [
  | inl allowed ↦
      rw (allowed, takeover_lock)
        (AreConsistent-add_audit _ _
          (write-AreConsistent k clear_lock db clear_lock-IsConsistent h))
  | inr forbidden ↦ rw (forbidden, takeover_lock) h
]

claim_select-AreConsistent :
    (seen : Option EntryStatus) (k : EntryKey) (db : Entries)
    → AreConsistent db
    → AreConsistent (or_rolled_back db (claim_select seen k db))
unfolding claim_select
claim_select-AreConsistent seen k db h = elim (Bool-cases (get_or_create seen k db).1.completed) [
  | inl done ↦ rw (done, claim_select) h
  | inr unclaimed ↦ rw (unclaimed, claim_select) (get_or_create-AreConsistent seen k db h)
]

claim_update-AreConsistent :
    (now : ℕ) (k : EntryKey) (user : User) (type : CompletionType) (db : Entries)
    → AreConsistent db
    → AreConsistent (or_rolled_back db (claim_update now k user type db))
unfolding claim_update
claim_update-AreConsistent now k user type db h = elim (Option-cases (db.row_at k)) [
  | inl missing ↦ rw (missing, claim_update) h
  | inr (row, found) ↦ elim (Bool-cases row.completed) [
    | inl done ↦ rw (found, claim_update) (rw done h)
    | inr unclaimed ↦
        rw (found, claim_update)
          (rw unclaimed
            (AreConsistent-set_row k _ db (complete_row-IsConsistent now user type row) h))
  ]
]

claim_completion-AreConsistent :
    (now : ℕ) (k : EntryKey) (user : User) (type : CompletionType) (db : Entries)
    → AreConsistent db
    → AreConsistent (or_rolled_back db (claim_completion now k user type db))
claim_completion-AreConsistent now k user type db h = elim (Option-cases (db.row_at k)) [
  | inl missing ↦ rw (claim_completion-new now k user type db missing) (
      AreConsistent-set_row k _ _ (complete_row-IsConsistent now user type new_row)
        (AreConsistent-set_row k new_row db new_row-IsConsistent h))
  | inr (row, found) ↦ elim (Bool-cases row.completed) [
    | inl done ↦ rw (claim_completion-completed now k user type row db found done) h
    | inr unclaimed ↦
        rw (claim_completion-open now k user type row db found unclaimed)
          (AreConsistent-set_row k _ db (complete_row-IsConsistent now user type row) h)
  ]
]

acquire_lock-AreConsistent :
    (now : ℕ) (k : EntryKey) (user : User) (db : Entries)
    → AreConsistent db
    → AreConsistent (or_rolled_back db (acquire_lock now k user db))
acquire_lock-AreConsistent now k user db h = elim (Option-cases (db.row_at k)) [
  | inl missing ↦ rw (acquire_lock-new now k user db missing) (
      AreConsistent-set_row k _ _ (refl, refl, refl, refl)
        (AreConsistent-set_row k new_row db new_row-IsConsistent h))
  | inr (row, found) ↦ elim (Option-cases (operator_conflict_of now db user row)) [
    | inr (conflict, c) ↦ rw (acquire_lock-found now k user row db found) (rw c h)
    | inl free ↦
        let unclaimed : row.completed ≡ false = elim (Bool-cases row.completed) [
          | inl done ↦ absurd (cc (rw done at free))
          | inr f ↦ f
        ] in
        let (by, at, type, _) : IsConsistent false row = rw unclaimed at (h.at_key k row found) in
        rw (acquire_lock-found now k user row db found) (
          rw free (
            AreConsistent-set_row k (take_lock now user row) db (rw unclaimed (by, at, type, refl))
              h))
  ]
]

release_lock-AreConsistent :
    (k : EntryKey) (user : User) (db : Entries)
    → AreConsistent db
    → AreConsistent (release_lock k user db)
unfolding release_lock
release_lock-AreConsistent k user db h = elim (Option-cases (db.row_at k)) [
  | inl missing ↦ rw (missing, release_lock) h
  | inr (row, found) ↦ elim (Bool-cases (is_owner row.lock_user_id user)) [
    | inl own ↦
        rw (found, release_lock)
          (rw own
            (AreConsistent-set_row k _ db (clear_lock-IsConsistent row (h.at_key k row found)) h))
    | inr other ↦ rw (found, release_lock) (rw other h)
  ]
]

clear_for_reset-AreConsistent :
    (now : ℕ) (k : EntryKey) (actor : User) (reason : Option String) (db : Entries)
    → AreConsistent db
    → AreConsistent (clear_for_reset now k actor reason db)
unfolding clear_for_reset
clear_for_reset-AreConsistent now k actor reason db h = elim (Option-cases (db.row_at k)) [
  | inl missing ↦ rw (missing, clear_for_reset) h
  | inr (row, found) ↦
      rw (found, clear_for_reset) (AreConsistent-set_row k _ db (refl, refl, refl, refl) h)
]

mark_no_activity-AreConsistent :
    (now : ℕ) (k : EntryKey) (user : User) (db : Entries)
    → AreConsistent db
    → AreConsistent (or_rolled_back db (mark_no_activity now k user db))
unfolding mark_no_activity
mark_no_activity-AreConsistent now k user db h =
    let claimed = claim_completion-AreConsistent now k user no_activity db h in
    elim (Result-cases (claim_completion now k user no_activity db)) [
      | inl (db', e) ↦ rw (e, mark_no_activity) (AreConsistent-add_audit _ db' (rw e at claimed))
      | inr (err, e) ↦ rw (e, mark_no_activity) h
    ]

if_not_already-AreConsistent :
    (now : ℕ) (k : EntryKey) (user : User) (db : Entries)
    → AreConsistent db
    → AreConsistent (mark_completed_with_data_if_not_already now k user db)
unfolding mark_completed_with_data_if_not_already
if_not_already-AreConsistent now k user db h = elim (Option-cases (db.row_at k)) [
  | inl missing ↦ rw (missing, mark_completed_with_data_if_not_already) or_get-AreConsistent
  | inr (row, found) ↦ elim (Bool-cases row.completed) [
    | inl done ↦ rw (found, mark_completed_with_data_if_not_already) (rw done h)
    | inr unclaimed ↦
        rw (found, mark_completed_with_data_if_not_already) (rw unclaimed or_get-AreConsistent)
  ]
]
  where
    or_get-AreConsistent : AreConsistent (or_get k db (claim_completion now k user with_data db))
    or_get-AreConsistent = elim (Result-cases (claim_completion now k user with_data db)) [
      | inl (db', e) ↦ rw e (rw e at (claim_completion-AreConsistent now k user with_data db h))
      | inr (err, e) ↦ rw e (get_or_create-AreConsistent (db.row_at k) k db h)
    ]

run_event-AreConsistent :
    (e : Event) (db : Entries) → AreConsistent db → AreConsistent (run_event e db)
unfolding run_event mark_completed_with_data
run_event-AreConsistent (acquire now k user) db h = acquire_lock-AreConsistent now k user db h
run_event-AreConsistent (release k user) db h = release_lock-AreConsistent k user db h
run_event-AreConsistent (select seen k) db h = claim_select-AreConsistent seen k db h
run_event-AreConsistent (update now k user type) db h =
    claim_update-AreConsistent now k user type db h
run_event-AreConsistent (no_activity_mark now k user) db h =
    mark_no_activity-AreConsistent now k user db h
run_event-AreConsistent (data_mark now k user) db h =
    claim_completion-AreConsistent now k user with_data db h
run_event-AreConsistent (data_mark_if_not_already now k user) db h =
    if_not_already-AreConsistent now k user db h
run_event-AreConsistent (takeover k actor) db h = takeover_lock-AreConsistent k actor db h
run_event-AreConsistent (reopening now k actor reason) db h =
    reopen-AreConsistent now k actor reason db h
run_event-AreConsistent (reset now k actor reason) db h =
    clear_for_reset-AreConsistent now k actor reason db h

-- From consistent rows, every sequence of operations by any users, the halves of a claim apart or
-- together, leads to consistent rows.
pub run_events-AreConsistent :
    (es : List Event) (db : Entries) → AreConsistent db → AreConsistent (run_events es db)
unfolding run_events
run_events-AreConsistent [] db h = h
run_events-AreConsistent (e ∷ es) db h =
    run_events-AreConsistent es (run_event e db) (run_event-AreConsistent e db h)
