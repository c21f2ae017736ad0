-- ===== src/Correction/Grant.antt =====
-- correction_request_service.py, `consume_grant`: how often the grant of a request can be used.
use daily_figures.Common.{
  ℕ, ◌+◌, ◌<◌, ◌≤◌, ◌≡◌, refl, sym, ◌∙◌, ap, inl, inr, Bool, true, false, ◌&&◌, Option, none, some,
  List, [], ◌∷◌, String, ◌==◌, ==_iff, eq_refl, &&_left, &&_right, Bool-cases, Option-cases,
  Result-cases, Result, ok, raise, arith,
}
use daily_figures.Correction.{
  is_open, is_approved, CorrectionRequest, Requests, RequestError, no_longer_active, consume_grant,
  approve_request, reject_request, expire_if_needed, row_passes,
}
use daily_figures.Correction.Sweep.{Narrows, Narrows-closed, open_at, expire_if_needed-Narrows}
use daily_figures.Correction.Single.{IsSingle, create_request-added}
use daily_figures.Correction.Run.{
  Event, request, approve, reject, consume, sweep, handle, after, on_row-ok, handle-IsSingle,
  approve_request-Narrows, reject_request-Narrows, consume_grant-Narrows,
}

-- Whether an event is a use of the grant that succeeds.
abbrev is_ok : Result RequestError Requests → Bool
is_ok (ok db) = true
is_ok (raise e) = false

abbrev is_use : ℕ → Event → Bool
is_use id (consume now other) = other == id
is_use id _ = false

abbrev used : Bool → ℕ
used true = 1
used false = 0

-- How many of the events are uses of the grant that succeed.
unfoldable pub uses : (strip : String → String) → ℕ → List Event → Requests → ℕ
uses strip id [] db = 0
uses strip id (e ∷ es) db =
    used (is_use id e && is_ok (handle strip e db))
    + uses strip id es (after db (handle strip e db))

-- A request that was made and is open no more.
abbrev IsClosed : ℕ → Requests → Type 0
IsClosed id db = (open_at id db ≡ false) × (id < db.next_id)

Narrows-IsClosed : (db db' : Requests) (id : ℕ) → Narrows db db' → IsClosed id db → IsClosed id db'
Narrows-IsClosed db db' id n c = (Narrows-closed db db' id n c.0, omega (arith, c.1, n.same_next))

approved-open :
    (o : Option CorrectionRequest)
    → row_passes (λ r. is_open r.status) o ≡ false
    → row_passes (λ r. is_approved r.status) o ≡ false
approved-open none h = refl
approved-open (some row) h = ground arith

consume_grant-closed :
    (now id : ℕ) (db : Requests) → IsClosed id db → consume_grant now id db ≡ raise no_longer_active
unfolding consume_grant
consume_grant-closed now id db c = rw (approved-open (db.row_at id) c.0, consume_grant) refl

handle-IsClosed :
    (strip : String → String) (event : Event) (db db' : Requests) (id : ℕ)
    → IsClosed id db
    → handle strip event db ≡ ok db'
    → IsClosed id db'
unfolding handle
handle-IsClosed strip (request now type record_id snapshot reason payload user) db db' id c e =
    let (row, swept, n, added) =
      create_request-added strip now type record_id snapshot reason payload user db db' e in
    let (closed, made) = Narrows-IsClosed db swept id n c in
    rw added (elim (Bool-cases (id == swept.next_id)) [
      | inl new ↦ let same = (==_iff id swept.next_id).0 new in absurd (omega arith)
      | inr old ↦ (rw old closed, omega arith)
    ])
handle-IsClosed strip (approve now i user note) db db' id c e =
    let (row, found, done) =
      on_row-ok (db.row_at i) (λ row. approve_request now i row user note db) db' e in
    Narrows-IsClosed db db' id (approve_request-Narrows now i row user note db db' found done) c
handle-IsClosed strip (reject now i user note) db db' id c e =
    let (row, found, done) =
      on_row-ok (db.row_at i) (λ row. reject_request now i row user note db) db' e in
    Narrows-IsClosed db db' id (reject_request-Narrows now i row user note db db' found done) c
handle-IsClosed strip (consume now i) db db' id c e =
    Narrows-IsClosed db db' id (consume_grant-Narrows now i db db' e) c
handle-IsClosed strip (sweep now i) db db' id c e =
    let (row, found, done) =
      on_row-ok (db.row_at i) (λ row. ok (expire_if_needed now i row db)) db' e in
    rw (← ap (after db) done) (
      Narrows-IsClosed db (expire_if_needed now i row db) id
        (expire_if_needed-Narrows now i row db found) c)

closed_use :
    (strip : String → String) (event : Event) (db : Requests) (id : ℕ)
    → IsClosed id db
    → (is_use id event && is_ok (handle strip event db)) ≡ false
unfolding handle
closed_use strip (request _ _ _ _ _ _ _) db id c = refl
closed_use strip (approve _ _ _ _) db id c = refl
closed_use strip (reject _ _ _ _) db id c = refl
closed_use strip (sweep _ _) db id c = refl
closed_use strip (consume now i) db id c = elim (Bool-cases (i == id)) [
  | inr other ↦ rw other refl
  | inl own ↦
      let same = (==_iff i id).0 own in
      rw own
        (ap is_ok (ap (λ (k : ℕ). consume_grant now k db) same ∙ consume_grant-closed now id db c))
]

no_more_uses :
    (strip : String → String) (id : ℕ) (events : List Event) (db : Requests)
    → IsClosed id db
    → uses strip id events db ≡ 0
unfolding uses
no_more_uses strip id [] db c = refl
no_more_uses strip id (event ∷ rest) db c =
    let rest_unused =
      (no_more_uses strip id rest (after db (handle strip event db))
        (elim (Result-cases (handle strip event db)) [
          | inl (db', done) ↦ rw done (handle-IsClosed strip event db db' id c done)
          | inr (err, refused) ↦ rw refused c
        ])) in
    rw (closed_use strip event db id c) (omega arith)

-- A use that succeeds closes the request.
consume_grant-IsClosed :
    (now id : ℕ) (db db' : Requests)
    → IsSingle db
    → consume_grant now id db ≡ ok db'
    → IsClosed id db'
unfolding consume_grant
consume_grant-IsClosed now id db db' s e = elim (Option-cases (db.row_at id)) [
  | inl missing ↦ cc (rw (missing, consume_grant) at e)
  | inr (row, found) ↦ elim (Bool-cases (is_approved row.status)) [
    | inr other ↦ cc (rw other at (rw (found, consume_grant) at e))
    | inl granted ↦
        rw (← ap (after db) (rw granted at (rw (found, consume_grant) at e)))
          (rw (eq_refl id) refl, s.below id row found)
  ]
]

use_closes :
    (strip : String → String) (event : Event) (db : Requests) (id : ℕ)
    → IsSingle db
    → (is_use id event && is_ok (handle strip event db)) ≡ true
    → IsClosed id (after db (handle strip event db))
unfolding handle
use_closes strip (request _ _ _ _ _ _ _) db id s h = absurd (cc)
use_closes strip (approve _ _ _ _) db id s h = absurd (cc)
use_closes strip (reject _ _ _ _) db id s h = absurd (cc)
use_closes strip (sweep _ _) db id s h = absurd (cc)
use_closes strip (consume now i) db id s h = elim (Result-cases (consume_grant now i db)) [
  | inr (err, refused) ↦
      absurd (cc (rw refused at (&&_right (i == id) (is_ok (consume_grant now i db)) h)))
  | inl (db', done) ↦
      let same = (==_iff i id).0 (&&_left (i == id) (is_ok (consume_grant now i db)) h) in
      rw done (
        consume_grant-IsClosed now id db db' s
          (ap (λ (k : ℕ). consume_grant now k db) (sym same) ∙ done))
]

-- However often and by whomever a grant is used, among all else that happens to the requests, at most
-- one use of it succeeds.
pub consume_grant-once :
    (strip : String → String) (id : ℕ) (events : List Event) (db : Requests)
    → IsSingle db
    → uses strip id events db ≤ 1
unfolding uses
consume_grant-once strip id [] db s = omega arith
consume_grant-once strip id (event ∷ rest) db s =
    let next = after db (handle strip event db) in
    elim (Bool-cases (is_use id event && is_ok (handle strip event db))) [
      | inl used_now ↦
          let none_later =
            no_more_uses strip id rest next (use_closes strip event db id s used_now) in
          rw (used_now, none_later) (omega arith)
      | inr not_now ↦
          let later =
            (consume_grant-once strip id rest next (elim (Result-cases (handle strip event db)) [
              | inl (db', done) ↦ rw done (handle-IsSingle strip event db db' s done)
              | inr (err, refused) ↦ rw refused s
            ])) in
          rw not_now (omega arith)
    ]
