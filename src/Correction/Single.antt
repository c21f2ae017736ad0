-- ===== src/Correction/Single.antt =====
-- correction_request_service.py, `create_request`: the open requests of one operator for one record.
use daily_figures.Common.{
  ids_below, ids_below-Member, ℕ, ◌<◌, ◌≡◌, refl, sym, ◌∙◌, ap, inl, inr, Bool, true, false, ◌&&◌,
  Option, none, some, String, ltb, ◌==◌, ==_iff, eq_refl, Bool-cases, Result, ok, raise, bind_ok,
  raise_if_ok, Member-filter_intro, arith,
}
use Prim.Native.String.{len}
use text.Mathlib.Text.{◌==◌ as str_eq}
use daily_figures.Records.{User}
use daily_figures.Correction.{
  RecordType, same_type, is_open, CorrectionRequest, Requests, RequestError, is_own, row_passes,
  select, new_request, add_request, create_request, check_none_open, required, record_not_found,
  reason_required, reason_too_short, changes_required, text_of,
}
use daily_figures.Correction.Sweep.{SameOwner, Narrows, open_at, check_none_open-ok}

abbrev value : Requests → Result RequestError Requests → Requests
value d (ok db) = db
value d (raise e) = d

-- An operator has one open request at most for a record; the ids are below the engine's next one.
pub record IsSingle (db : Requests) : Type 0 where
  pub below : (id : ℕ) (a : CorrectionRequest) → db.row_at id ≡ some a → id < db.next_id
  pub single :
      (i j : ℕ) (a b : CorrectionRequest)
      → db.row_at i ≡ some a
      → db.row_at j ≡ some b
      → is_open a.status ≡ true
      → is_open b.status ≡ true
      → SameOwner a b
      → i ≡ j

pub Narrows-IsSingle : (db db' : Requests) → Narrows db db' → IsSingle db → IsSingle db'
Narrows-IsSingle db db' n s = record {
  below = λ id b found.
      let (a, before) = n.had_row id b found in
      let h = s.below id a before in omega (arith, n.same_next);
  single = λ i j a b at_i at_j open_a open_b o.
      let (a', before_i, was_i, own_a) = n.was_open i a at_i open_a in
      let (b', before_j, was_j, own_b) = n.was_open j b at_j open_b in
      s.single i j a' b' before_i before_j was_i was_j record {
        same_type = own_a.same_type ∙ o.same_type ∙ sym own_b.same_type;
        same_record = own_a.same_record ∙ o.same_record ∙ sym own_b.same_record;
        same_operator = own_a.same_operator ∙ o.same_operator ∙ sym own_b.same_operator;
      };
}

-- A new request of an owner who has no open one.
add_request-IsSingle :
    (row : CorrectionRequest) (db : Requests)
    → IsSingle db
    → ((id : ℕ) (a : CorrectionRequest)
        → db.row_at id ≡ some a
        → SameOwner a row
        → open_at id db ≡ false)
    → IsSingle (add_request row db)
add_request-IsSingle row db s none_open = record {
  below = λ id a found. elim (Bool-cases (id == db.next_id)) [
    | inl new ↦ let same = (==_iff id db.next_id).0 new in omega arith
    | inr old ↦ let h = s.below id a (rw old at found) in omega arith
  ];
  single = λ i j a b at_i at_j open_a open_b o. elim (Bool-cases (i == db.next_id)) [
    | inl new_i ↦ elim (Bool-cases (j == db.next_id)) [
      | inl new_j ↦ (==_iff i db.next_id).0 new_i ∙ sym ((==_iff j db.next_id).0 new_j)
      | inr old_j ↦
          let e = ap (given row) (rw new_i at at_i) in
          absurd (clash j b (rw old_j at at_j) open_b (turn (rw (← e) at o)))
    ]
    | inr old_i ↦ elim (Bool-cases (j == db.next_id)) [
      | inl new_j ↦
          let e = ap (given row) (rw new_j at at_j) in
          absurd (clash i a (rw old_i at at_i) open_a (rw (← e) at o))
      | inr old_j ↦ s.single i j a b (rw old_i at at_i) (rw old_j at at_j) open_a open_b o
    ]
  ];
}
  where
    given : CorrectionRequest → Option CorrectionRequest → CorrectionRequest
    given d none = d
    given d (some r) = r

    turn : {x y : CorrectionRequest} → SameOwner x y → SameOwner y x
    turn o = record {
      same_type = sym o.same_type;
      same_record = sym o.same_record;
      same_operator = sym o.same_operator;
    }

    clash :
        (id : ℕ) (x : CorrectionRequest)
        → db.row_at id ≡ some x
        → is_open x.status ≡ true
        → SameOwner x row
        → ⊥
    clash id x found live o = cc (live, (rw found at (none_open id x found o)))

same_type_refl : (t : RecordType) → same_type t t ≡ true
same_type_refl t = ground arith

is_own-SameOwner :
    (type : RecordType) (record_id : ℕ) (user : User) (reason payload before : String)
    (a : CorrectionRequest)
    → SameOwner a (new_request type record_id user reason payload before)
    → is_own type record_id user.id a ≡ true
is_own-SameOwner type record_id user reason payload before a o =
    rw (o.same_type, o.same_record, o.same_operator)
      (rw (same_type_refl type, eq_refl record_id, eq_refl user.id) refl)

pub create_request-IsSingle :
    (strip : String → String) (now : ℕ) (type : RecordType) (record_id : ℕ)
    (snapshot reason payload : Option String) (user : User) (db db' : Requests)
    → IsSingle db
    → create_request strip now type record_id snapshot reason payload user db ≡ ok db'
    → IsSingle db'
unfolding create_request
create_request-IsSingle strip now type record_id snapshot reason payload user db db' s e =
    let (before, _, e1) = bind_ok (required snapshot record_not_found) _ e in
    let (_, e2) = raise_if_ok (str_eq (strip (text_of reason)) "") reason_required _ e1 in
    let (_, e3) = raise_if_ok (ltb (len (strip (text_of reason))) 10) reason_too_short _ e2 in
    let (changes, _, e4) = bind_ok (required payload changes_required) _ e3 in
    let test : CorrectionRequest → Bool =
      λ row. is_own type record_id user.id row && is_open row.status in
    let (swept, checked, e5) = bind_ok (check_none_open now (select test db) db) _ e4 in
    let (n, closed) = check_none_open-ok now (select test db) db swept checked in
    rw (← ap (value db) e5) (
      add_request-IsSingle (new_request type record_id user (strip (text_of reason)) changes before)
        swept (Narrows-IsSingle db swept n s)
        (λ id a found o. elim (Bool-cases (is_open a.status)) [
          | inr done ↦ rw found done
          | inl live ↦
              let (a', there, was, own) = n.was_open id a found live in
              closed id (
                Member-filter_intro (λ i. row_passes test (db.row_at i)) id (ids_below db.next_id)
                  (ids_below-Member db.next_id id (s.below id a' there))
                  (rw there (
                    rw
                      (
                        is_own-SameOwner type record_id user (strip (text_of reason)) changes before
                            a' (own_of own o),
                        was,
                      )
                      refl)))
        ]))
  where
    own_of : {x y z : CorrectionRequest} → SameOwner x y → SameOwner y z → SameOwner x z
    own_of o o' = record {
      same_type = o.same_type ∙ o'.same_type;
      same_record = o.same_record ∙ o'.same_record;
      same_operator = o.same_operator ∙ o'.same_operator;
    }

-- A request that is accepted is added after the sweep.
pub create_request-added :
    (strip : String → String) (now : ℕ) (type : RecordType) (record_id : ℕ)
    (snapshot reason payload : Option String) (user : User) (db db' : Requests)
    → create_request strip now type record_id snapshot reason payload user db ≡ ok db'
    → (row : CorrectionRequest) × (swept : Requests) × Narrows db swept
      × (db' ≡ add_request row swept)
unfolding create_request
create_request-added strip now type record_id snapshot reason payload user db db' e =
    let (before, _, e1) = bind_ok (required snapshot record_not_found) _ e in
    let (_, e2) = raise_if_ok (str_eq (strip (text_of reason)) "") reason_required _ e1 in
    let (_, e3) = raise_if_ok (ltb (len (strip (text_of reason))) 10) reason_too_short _ e2 in
    let (changes, _, e4) = bind_ok (required payload changes_required) _ e3 in
    let test : CorrectionRequest → Bool =
      λ row. is_own type record_id user.id row && is_open row.status in
    let (swept, checked, e5) = bind_ok (check_none_open now (select test db) db) _ e4 in
    (
      new_request type record_id user (strip (text_of reason)) changes before,
      swept,
      (check_none_open-ok now (select test db) db swept checked).0,
      sym (ap (value db) e5),
    )
