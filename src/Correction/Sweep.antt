-- ===== src/Correction/Sweep.antt =====
-- correction_request_service.py, `expire_if_needed` and the loops that call it: what they change.
use daily_figures.Common.{
  ℕ, ◌≡◌, refl, ◌∙◌, ap, inl, inr, Bool, true, false, Option, none, some, List, [], ◌∷◌, ◌==◌,
  ==_iff, Bool-cases, Option-cases, Result, ok, raise, bind_ok, Member, arith,
}
use daily_figures.Correction.{
  RequestStatus, is_approved, is_open, CorrectionRequest, Requests, RequestError, set_row,
  expired_row, is_in_window, expire_if_needed, row_passes, swept_at, refuse_open, check_none_open,
}

-- The record and the operator of a request.
pub record SameOwner (a b : CorrectionRequest) : Type 0 where
  pub same_type : a.record_type ≡ b.record_type
  pub same_record : a.record_id ≡ b.record_id
  pub same_operator : a.requested_by ≡ b.requested_by

-- The rows that are open after a change were open before, with the same owner.
pub record Narrows (db db' : Requests) : Type 0 where
  pub was_open :
      (id : ℕ) (b : CorrectionRequest)
      → db'.row_at id ≡ some b
      → is_open b.status ≡ true
      → (a : CorrectionRequest) × (db.row_at id ≡ some a)
        × (is_open a.status ≡ true)
        × SameOwner a b
  pub had_row :
      (id : ℕ) (b : CorrectionRequest)
      → db'.row_at id ≡ some b
      → (a : CorrectionRequest) × (db.row_at id ≡ some a)
  pub same_next : db'.next_id ≡ db.next_id

pub Narrows-refl : (db : Requests) → Narrows db db
Narrows-refl db = record {
  was_open = λ id b found live.
      (b, found, live, record { same_type = refl; same_record = refl; same_operator = refl });
  had_row = λ id b found. (b, found);
  same_next = refl;
}

pub Narrows-trans : (db mid db' : Requests) → Narrows db mid → Narrows mid db' → Narrows db db'
Narrows-trans db mid db' first rest = record {
  was_open = λ id b found live.
      let (m, there, still, o) = rest.was_open id b found live in
      let (a, here, before, o') = first.was_open id m there still in
      (
        a,
        here,
        before,
        record {
          same_type = o'.same_type ∙ o.same_type;
          same_record = o'.same_record ∙ o.same_record;
          same_operator = o'.same_operator ∙ o.same_operator;
        },
      );
  had_row = λ id b found. let (m, there) = rest.had_row id b found in first.had_row id m there;
  same_next = rest.same_next ∙ first.same_next;
}

abbrev given : CorrectionRequest → Option CorrectionRequest → CorrectionRequest
given d none = d
given d (some r) = r

abbrev value : Requests → Result RequestError Requests → Requests
value d (ok db) = db
value d (raise e) = d

-- A row that was open is changed, and keeps its owner.
pub set_row-Narrows :
    (id : ℕ) (old new : CorrectionRequest) (db : Requests)
    → db.row_at id ≡ some old
    → is_open old.status ≡ true
    → SameOwner old new
    → Narrows db (set_row id new db)
set_row-Narrows id old new db found live owner = record {
  was_open = λ i b e open'. elim (Bool-cases (i == id)) [
    | inr other ↦ (Narrows-refl db).was_open i b (rw other at e) open'
    | inl own ↦
        let same : new ≡ b = ap (given new) (rw own at e) in
        (old, ap db.row_at ((==_iff i id).0 own) ∙ found, live, rw same at owner)
  ];
  had_row = λ i b e. elim (Bool-cases (i == id)) [
    | inr other ↦ (b, rw other at e)
    | inl own ↦ (old, ap db.row_at ((==_iff i id).0 own) ∙ found)
  ];
  same_next = refl;
}

approved-open : (s : RequestStatus) → is_approved s ≡ true → is_open s ≡ true
approved-open s h = ground arith

SameOwner-refl : (a b : CorrectionRequest) → a ≡ b → SameOwner a b
SameOwner-refl a b e = record {
  same_type = ap (λ (r : CorrectionRequest). r.record_type) e;
  same_record = ap (λ (r : CorrectionRequest). r.record_id) e;
  same_operator = ap (λ (r : CorrectionRequest). r.requested_by) e;
}

pub expire_if_needed-Narrows :
    (now id : ℕ) (row : CorrectionRequest) (db : Requests)
    → db.row_at id ≡ some row
    → Narrows db (expire_if_needed now id row db)
unfolding expire_if_needed
expire_if_needed-Narrows now id row db found = elim (Bool-cases (is_approved row.status)) [
  | inr done ↦ rw (done, expire_if_needed) (Narrows-refl db)
  | inl granted ↦ elim (Bool-cases (is_in_window now row)) [
    | inl early ↦ rw (granted, expire_if_needed) (rw early (Narrows-refl db))
    | inr late ↦
        rw (granted, expire_if_needed)
          (rw late (
            rw found (
              rw granted (
                set_row-Narrows id row (expired_row row) db found (approved-open row.status granted)
                  record { same_type = refl; same_record = refl; same_operator = refl }))))
  ]
]

pub swept_at-Narrows : (now id : ℕ) (db : Requests) → Narrows db (swept_at now id db (db.row_at id))
swept_at-Narrows now id db = elim (Option-cases (db.row_at id)) [
  | inl missing ↦ rw missing (Narrows-refl db)
  | inr (row, found) ↦ rw found (expire_if_needed-Narrows now id row db found)
]

abbrev pub open_at : ℕ → Requests → Bool
open_at id db = row_passes (λ row. is_open row.status) (db.row_at id)

-- What is not open stays so.
pub Narrows-closed :
    (db db' : Requests) (id : ℕ) → Narrows db db' → open_at id db ≡ false → open_at id db' ≡ false
Narrows-closed db db' id n closed = elim (Option-cases (db'.row_at id)) [
  | inl missing ↦ rw missing refl
  | inr (b, found) ↦ elim (Bool-cases (is_open b.status)) [
    | inr done ↦ rw found done
    | inl live ↦
        let (a, before, was, _) = n.was_open id b found live in
        absurd (cc (was, (rw before at closed)))
  ]
]

refuse_open-ok :
    (o : Option CorrectionRequest)
    → refuse_open o ≡ ok tt
    → row_passes (λ row. is_open row.status) o ≡ false
refuse_open-ok none e = refl
refuse_open-ok (some row) e = ground arith

-- Where the check passes, none of the rows that it went through is open.
pub check_none_open-ok :
    (now : ℕ) (ids : List ℕ) (db db' : Requests)
    → check_none_open now ids db ≡ ok db'
    → Narrows db db' × ((id : ℕ) → Member id ids → open_at id db' ≡ false)
unfolding check_none_open
check_none_open-ok now [] db db' e = (rw (← ap (value db) e) (Narrows-refl db), λ id m. absurd m)
check_none_open-ok now (id ∷ ids) db db' e =
    let swept = swept_at now id db (db.row_at id) in
    let (_, closed, rest) = bind_ok (refuse_open (swept.row_at id)) _ e in
    let (later, all) = check_none_open-ok now ids swept db' rest in
    (
      Narrows-trans db swept db' (swept_at-Narrows now id db) later,
      λ i m. elim m [
        | inl same ↦ rw same (Narrows-closed swept db' id later (refuse_open-ok _ closed))
        | inr among ↦ all i among
      ],
    )
