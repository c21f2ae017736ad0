-- ===== src/Dispatching/Number.antt =====
-- dispatch_service.py: the numbers of the dispatches of one book.
use text.Mathlib.Text.{◌==◌ as str_eq}
use daily_figures.Common.{
  ℕ, ◌<◌, ◌≡◌, refl, sym, ◌∙◌, ap, inl, inr, true, false, not, ◌&&◌, Option, none, some, ◌==◌,
  ==_iff, Bool-cases, find_first-none, ids_below, ids_below-Member, arith,
}
use daily_figures.Records.{is_void}
use daily_figures.Dispatching.{
  DispatchRow, Book, set_row, is_excluded, has_number, find_duplicate_number,
}
use daily_figures.Dispatching.Making.{add_dispatch}

-- Rows that are not void and have one number.
pub record SameNumber (a b : DispatchRow) : Type 0 where
  pub first_live : is_void a.entry.status ≡ false
  pub second_live : is_void b.entry.status ≡ false
  pub same_number : str_eq a.dispatch_number b.dispatch_number ≡ true

-- Of two dispatches that are not void and have one number, the later one is marked as an override.
pub record IsNumbered (db : Book) : Type 0 where
  pub below : (id : ℕ) (a : DispatchRow) → db.row_at id ≡ some a → id < db.next_id
  pub overridden :
      (i j : ℕ) (a b : DispatchRow)
      → i < j
      → db.row_at i ≡ some a
      → db.row_at j ≡ some b
      → SameNumber a b
      → b.duplicate_override ≡ true

-- A row that keeps its number and its mark, and is not brought back from void.
pub record KeepsNumber (a b : DispatchRow) : Type 0 where
  pub number : b.dispatch_number ≡ a.dispatch_number
  pub mark : b.duplicate_override ≡ a.duplicate_override
  pub stays_void : is_void b.entry.status ≡ false → is_void a.entry.status ≡ false

pub record Keeps (db db' : Book) : Type 0 where
  pub was :
      (id : ℕ) (b : DispatchRow)
      → db'.row_at id ≡ some b
      → (a : DispatchRow) × (db.row_at id ≡ some a) × KeepsNumber a b
  pub same_next : db'.next_id ≡ db.next_id

pub Keeps-IsNumbered : (db db' : Book) → Keeps db db' → IsNumbered db → IsNumbered db'
Keeps-IsNumbered db db' k n = record {
  below = λ id b found.
      let (a, before, _) = k.was id b found in
      let h = n.below id a before in omega (arith, k.same_next);
  overridden = λ i j a b order at_i at_j s.
      let (a', before_i, keep_i) = k.was i a at_i in
      let (b', before_j, keep_j) = k.was j b at_j in
      keep_j.mark
      ∙ n.overridden i j a' b' order before_i before_j record {
        first_live = keep_i.stays_void s.first_live;
        second_live = keep_j.stays_void s.second_live;
        same_number = rw (keep_i.number, keep_j.number) at s.same_number;
      };
}

abbrev given : DispatchRow → Option DispatchRow → DispatchRow
given d none = d
given d (some r) = r

pub KeepsNumber-refl : (a b : DispatchRow) → a ≡ b → KeepsNumber a b
KeepsNumber-refl a b e = record {
  number = ap (λ (r : DispatchRow). r.dispatch_number) (sym e);
  mark = ap (λ (r : DispatchRow). r.duplicate_override) (sym e);
  stays_void = λ h. ap (λ (r : DispatchRow). is_void r.entry.status) e ∙ h;
}

pub set_row-Keeps :
    (id : ℕ) (old new : DispatchRow) (db : Book)
    → db.row_at id ≡ some old
    → KeepsNumber old new
    → Keeps db (set_row id new db)
set_row-Keeps id old new db found keep = record {
  was = λ i b e. elim (Bool-cases (i == id)) [
    | inr other ↦ (b, rw other at e, KeepsNumber-refl b b refl)
    | inl own ↦
        let same : new ≡ b = ap (given new) (rw own at e) in
        (old, ap db.row_at ((==_iff i id).0 own) ∙ found, rw same at keep)
  ];
  same_next = refl;
}

-- A dispatch is added with a number that is free, or with the mark of an override.
pub add_dispatch-IsNumbered :
    (row : DispatchRow) (db : Book)
    → IsNumbered db
    → (row.duplicate_override ≡ false → find_duplicate_number row.dispatch_number none db ≡ none)
    → IsNumbered (add_dispatch row db)
unfolding find_duplicate_number
add_dispatch-IsNumbered row db n free = record {
  below = λ id a found. elim (Bool-cases (id == db.next_id)) [
    | inl new ↦ let same = (==_iff id db.next_id).0 new in omega arith
    | inr old ↦ let h = n.below id a (rw old at found) in omega arith
  ];
  overridden = λ i j a b order at_i at_j s. elim (Bool-cases (j == db.next_id)) [
    | inr old_j ↦
        let h = n.below j b (rw old_j at at_j) in
        elim (Bool-cases (i == db.next_id)) [
          | inl new_i ↦ let same = (==_iff i db.next_id).0 new_i in absurd (omega arith)
          | inr old_i ↦ n.overridden i j a b order (rw old_i at at_i) (rw old_j at at_j) s
        ]
    | inl new_j ↦ elim (Bool-cases (i == db.next_id)) [
      | inl new_i ↦
          let same_i = (==_iff i db.next_id).0 new_i in
          let same_j = (==_iff j db.next_id).0 new_j in absurd (omega arith)
      | inr old_i ↦
          let at = rw old_i at at_i in
          let is_new : row ≡ b = ap (given row) (rw new_j at at_j) in
          elim (Bool-cases b.duplicate_override) [
            | inl marked ↦ marked
            | inr plain ↦
                let refused =
                  find_first-none
                    (λ id.
                      has_number row.dispatch_number (db.row_at id) && not (is_excluded none id))
                    (ids_below db.next_id) i
                    (free (ap (λ (r : DispatchRow). r.duplicate_override) is_new ∙ plain))
                    (ids_below-Member db.next_id i (n.below i a at)) in
                let number : str_eq a.dispatch_number row.dispatch_number ≡ true =
                  ap (λ (r : DispatchRow). str_eq a.dispatch_number r.dispatch_number) is_new
                  ∙ s.same_number in
                absurd (cc (rw (at, number, s.first_live) at refused))
          ]
    ]
  ];
}
