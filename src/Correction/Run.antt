-- ===== src/Correction/Run.antt =====
-- correction_request_service.py: the operations as events on one table, in any order.
use daily_figures.Common.{
  ℕ, ◌≡◌, refl, ap, inl, inr, true, false, not, Option, none, some, List, [], ◌∷◌, String,
  Bool-cases, Option-cases, Result-cases, Result, ok, raise, raise_if_ok, arith,
}
use daily_figures.Records.{User}
use daily_figures.Correction.{
  RecordType, RequestStatus, is_pending, is_approved, is_open, CorrectionRequest, Requests,
  RequestError, create_request, approve_request, reject_request, consume_grant, expire_if_needed,
  already_reviewed, note_required, missing_request, reviewed_row, completed_row, approved, rejected,
  is_blank,
}
use daily_figures.Correction.Sweep.{Narrows, set_row-Narrows, expire_if_needed-Narrows}
use daily_figures.Correction.Single.{IsSingle, Narrows-IsSingle, create_request-IsSingle}

abbrev value : Requests → Result RequestError Requests → Requests
value d (ok db) = db
value d (raise e) = d

-- What users do; the sweep is a reading of the row, which may find that its grant has expired.
pub data Event : Type 0 where
  request :
      (now : ℕ)
      → RecordType
      → (record_id : ℕ) → (snapshot reason payload : Option String) → User
      → Event
  approve : (now id : ℕ) → User → Option String → Event
  reject : (now id : ℕ) → User → Option String → Event
  consume : (now id : ℕ) → Event
  sweep : (now id : ℕ) → Event

-- An operation on the row that is read; a row that is not there is answered by the route.
abbrev pub on_row :
    Option CorrectionRequest
    → (CorrectionRequest → Result RequestError Requests)
    → Result RequestError Requests
on_row none f = raise missing_request
on_row (some row) f = f row

unfoldable pub handle : (strip : String → String) → Event → Requests → Result RequestError Requests
handle strip (request now type record_id snapshot reason payload user) db =
    create_request strip now type record_id snapshot reason payload user db
handle strip (approve now id user note) db =
    on_row (db.row_at id) (λ row. approve_request now id row user note db)
handle strip (reject now id user note) db =
    on_row (db.row_at id) (λ row. reject_request now id row user note db)
handle strip (consume now id) db = consume_grant now id db
handle strip (sweep now id) db = on_row (db.row_at id) (λ row. ok (expire_if_needed now id row db))

-- An event that raises changes nothing.
abbrev pub after : Requests → Result RequestError Requests → Requests
after db (ok db') = db'
after db (raise e) = db

unfoldable pub handle_all : (strip : String → String) → List Event → Requests → Requests
handle_all strip [] db = db
handle_all strip (e ∷ es) db = handle_all strip es (after db (handle strip e db))

pending-open : (s : RequestStatus) → not (is_pending s) ≡ false → is_open s ≡ true
pending-open s h = ground arith

approved-open : (s : RequestStatus) → is_approved s ≡ true → is_open s ≡ true
approved-open s h = ground arith

pub approve_request-Narrows :
    (now id : ℕ) (row : CorrectionRequest) (user : User) (note : Option String) (db db' : Requests)
    → db.row_at id ≡ some row
    → approve_request now id row user note db ≡ ok db'
    → Narrows db db'
unfolding approve_request
approve_request-Narrows now id row user note db db' found e =
    let (waiting, e1) = raise_if_ok (not (is_pending row.status)) already_reviewed _ e in
    rw (← ap (value db) e1) (
      set_row-Narrows id row (reviewed_row approved now user note row) db found
        (pending-open row.status waiting)
        record { same_type = refl; same_record = refl; same_operator = refl })

pub reject_request-Narrows :
    (now id : ℕ) (row : CorrectionRequest) (user : User) (note : Option String) (db db' : Requests)
    → db.row_at id ≡ some row
    → reject_request now id row user note db ≡ ok db'
    → Narrows db db'
unfolding reject_request
reject_request-Narrows now id row user note db db' found e =
    let (waiting, e1) = raise_if_ok (not (is_pending row.status)) already_reviewed _ e in
    let (_, e2) = raise_if_ok (is_blank note) note_required _ e1 in
    rw (← ap (value db) e2) (
      set_row-Narrows id row (reviewed_row rejected now user note row) db found
        (pending-open row.status waiting)
        record { same_type = refl; same_record = refl; same_operator = refl })

pub consume_grant-Narrows :
    (now id : ℕ) (db db' : Requests) → consume_grant now id db ≡ ok db' → Narrows db db'
unfolding consume_grant
consume_grant-Narrows now id db db' e = elim (Option-cases (db.row_at id)) [
  | inl missing ↦ cc (rw (missing, consume_grant) at e)
  | inr (row, found) ↦ elim (Bool-cases (is_approved row.status)) [
    | inr other ↦ cc (rw other at (rw (found, consume_grant) at e))
    | inl granted ↦ rw (← ap (value db) (rw granted at (rw (found, consume_grant) at e))) (
        set_row-Narrows id row (completed_row now row) db found (approved-open row.status granted)
          record { same_type = refl; same_record = refl; same_operator = refl })
  ]
]

pub on_row-ok :
    (o : Option CorrectionRequest) (f : CorrectionRequest → Result RequestError Requests)
    (db' : Requests)
    → on_row o f ≡ ok db'
    → (row : CorrectionRequest) × (o ≡ some row) × (f row ≡ ok db')
on_row-ok none f db' e = absurd (cc)
on_row-ok (some row) f db' e = (row, refl, e)

pub handle-IsSingle :
    (strip : String → String) (event : Event) (db db' : Requests)
    → IsSingle db
    → handle strip event db ≡ ok db'
    → IsSingle db'
unfolding handle
handle-IsSingle strip (request now type record_id snapshot reason payload user) db db' s e =
    create_request-IsSingle strip now type record_id snapshot reason payload user db db' s e
handle-IsSingle strip (approve now id user note) db db' s e =
    let (row, found, done) =
      on_row-ok (db.row_at id) (λ row. approve_request now id row user note db) db' e in
    Narrows-IsSingle db db' (approve_request-Narrows now id row user note db db' found done) s
handle-IsSingle strip (reject now id user note) db db' s e =
    let (row, found, done) =
      on_row-ok (db.row_at id) (λ row. reject_request now id row user note db) db' e in
    Narrows-IsSingle db db' (reject_request-Narrows now id row user note db db' found done) s
handle-IsSingle strip (consume now id) db db' s e =
    Narrows-IsSingle db db' (consume_grant-Narrows now id db db' e) s
handle-IsSingle strip (sweep now id) db db' s e =
    let (row, found, done) =
      on_row-ok (db.row_at id) (λ row. ok (expire_if_needed now id row db)) db' e in
    rw (← ap (value db) done) (
      Narrows-IsSingle db (expire_if_needed now id row db)
        (expire_if_needed-Narrows now id row db found) s)

-- Whatever requests, reviews, uses and sweeps come, at whatever times, an operator never has two
-- requests for one record that are still open: pending, or approved with a grant that was not used.
pub handle_all-IsSingle :
    (strip : String → String) (events : List Event) (db : Requests)
    → IsSingle db
    → IsSingle (handle_all strip events db)
unfolding handle_all
handle_all-IsSingle strip [] db s = s
handle_all-IsSingle strip (event ∷ rest) db s =
    handle_all-IsSingle strip rest (after db (handle strip event db))
      (elim (Result-cases (handle strip event db)) [
        | inl (db', done) ↦ rw done (handle-IsSingle strip event db db' s done)
        | inr (err, refused) ↦ rw refused s
      ])
