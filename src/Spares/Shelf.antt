-- ===== src/Spares/Shelf.antt =====
-- spare_part_movement_service.py: the operations of the ledger as requests, and the description of each
-- by the stocks and the caches that it moves.
use text.Mathlib.Text.{◌==◌ as str_eq}
use daily_figures.Common.{
  ℕ, ◌≡◌, refl, ◌∙◌, ap, inl, inr, Bool, true, false, not, Option, none, some, List, String, ℤ, pos,
  negsuc, arith, is_negative, ◌+ℤ◌, abs, ◌==◌, ==_iff, find_first-Member, if◌then◌else◌, find_first,
  Result, ok, raise, raise_if_ok, bind_ok, Bool-cases, Option-cases,
}
use daily_figures.Records.{User}
use daily_figures.Spares.{
  SparePart, MovementType, is_increasing, stock_in, stock_out, adjustment_in, adjustment_out,
  Fields, Movement, Ledger, current_stock,
}
use daily_figures.Spares.Amounts.{Decimal, Engine, difference, magnitude}
use daily_figures.Spares.Record.{
  MovementError, requester_required, inactive_part, count_reason_required, Direction, inward,
  outward, check_machine, is_blank, record_stock_in, record_stock_out, record_adjustment,
  record_opening_balance, record_stock_count, void_movement, validate_quantity_for_unit, text_of,
  correct_stock, create_movement, count_type, count_fields, zero_quantity,
}
use daily_figures.Spares.Balance.{has_id}
use daily_figures.Spares.Effect.{
  delta, Move, Posted, posting, given_back, new_row-stock, validate_quantity_for_unit-ok,
  create_movement-Posted, void_movement-Posted,
}

-- A request, with what the caller chose.
pub data Request (S : Type 0) : Type 0 where
  receive :
      SparePart S
      → Option Decimal
      → User
      → (business_date : ℕ) → Option ℕ
      → Option String
      → Option String
      → Request S
  issue :
      SparePart S
      → Option Decimal
      → User
      → (business_date : ℕ) → Option String
      → Option String
      → Option String
      → Option ℕ
      → Option ℕ
      → Request S
  adjust :
      SparePart S
      → Option Decimal
      → Direction
      → User
      → (business_date : ℕ) → Option String
      → Option String
      → Request S
  open_balance :
      SparePart S → Option Decimal → User → (business_date : ℕ) → Option String → Request S
  count :
      SparePart S
      → Option Decimal
      → User
      → (business_date : ℕ) → Option String
      → Option String
      → Request S
  cancel : (now : ℕ) → (id : ℕ) → User → Option String → Request S

-- `db.session.get(SparePartMovement, id)`; the routes answer a missing one themselves.
abbrev pub void_by_id :
    {S : Type 0}
    → Engine S
    → ℕ
    → User
    → Option String
    → Ledger S
    → Option Movement
    → Result MovementError (Ledger S)
void_by_id engine now user reason db none = ok db
void_by_id engine now user reason db (some m) = void_movement engine now m user reason db

unfoldable pub handle :
    {S : Type 0}
    → Engine S
    → (strip : String → String) → Request S
    → Ledger S
    → Result MovementError (Ledger S)
handle engine strip (receive part q user date supplier reference remarks) db =
    record_stock_in engine part q user date supplier reference remarks db
handle engine strip (issue part q user date requested approved remarks department machine) db =
    record_stock_out engine part q user date requested approved remarks department machine db
handle engine strip (adjust part q direction user date reason remarks) db =
    record_adjustment engine part q direction user date reason remarks db
handle engine strip (open_balance part q user date remarks) db =
    record_opening_balance engine part q user date remarks db
handle engine strip (count part q user date reason remarks) db =
    record_stock_count engine strip part q user date reason remarks db
handle engine strip (cancel now id user reason) db =
    void_by_id engine now user reason db (find_first (has_id id) db.movements)

-- What a request moves, by its quantity alone; a count by what it finds beside the stock, and a void by
-- the row that it names. A count that finds what the ledger holds leaves the cache alone.
abbrev pub with_quantity : Option Decimal → (Decimal → Option Move) → Option Move
with_quantity none f = none
with_quantity (some q) f = f q

abbrev pub moved : {S : Type 0} → Engine S → Bool → ℕ → Decimal → Option Move
moved engine is_up id q = some (posting is_up id q (engine.read_back q))

abbrev pub counted_move : {S : Type 0} → Engine S → ℕ → (off : Decimal) → Move
counted_move engine id off =
    if abs off.units == 0
    then record { is_up = true; id = id; amount = none; units = engine.read_back zero_quantity }
    else posting (not (is_negative off.units)) id (magnitude off) (engine.read_back (magnitude off))

abbrev pub undo : Option Movement → Option Move
undo none = none
undo (some m) = some (given_back m)

unfoldable pub effect_of : {S : Type 0} → Engine S → Request S → List Movement → Option Move
effect_of engine (receive part q _ _ _ _ _) ms = with_quantity q (moved engine true part.id)
effect_of engine (issue part q _ _ _ _ _ _ _) ms = with_quantity q (moved engine false part.id)
effect_of engine (adjust part q inward _ _ _ _) ms = with_quantity q (moved engine true part.id)
effect_of engine (adjust part q outward _ _ _ _) ms = with_quantity q (moved engine false part.id)
effect_of engine (open_balance part q _ _ _) ms = with_quantity q (moved engine true part.id)
effect_of engine (count part q _ _ _ _) ms =
    with_quantity q
      (λ n. some (counted_move engine part.id (difference n (current_stock part.id ms))))
effect_of engine (cancel _ id _ _) ms = undo (find_first (has_id id) ms)

-- Nothing moves, or what the move says.
abbrev pub Follows : {S : Type 0} → Engine S → Option Move → (db db' : Ledger S) → Type 0
Follows engine none db db' = db ≡ db'
Follows engine (some move) db db' = Posted engine move db db'

module _ {S : Type 0} (engine : Engine S) where
  create_movement-Follows :
      (part : SparePart S) (type : MovementType) (quantity : Option Decimal) (user : User)
      (date : ℕ) (fields : Fields) (db db' : Ledger S)
      → create_movement engine part type quantity user date fields db ≡ ok db'
      → Follows engine (with_quantity quantity (moved engine (is_increasing type) part.id)) db db'
  create_movement-Follows part type quantity user date fields db db' e =
      let (q, given, p) =
        create_movement-Posted engine part type quantity user date fields db db' e in
      rw given p

  record_stock_out-ok :
      (part : SparePart S) (q : Option Decimal) (user : User) (date : ℕ)
      (requested approved remarks : Option String) (department machine : Option ℕ)
      (db db' : Ledger S)
      → record_stock_out engine part q user date requested approved remarks department machine db
        ≡ ok db'
      → (fields : Fields) × (create_movement engine part stock_out q user date fields db ≡ ok db')
  unfolding record_stock_out
  record_stock_out-ok part q user date requested approved remarks department machine db db' e =
      let (_, e1) = raise_if_ok (is_blank requested) requester_required _ e in
      let (_, _, e2) = bind_ok (check_machine machine department db) _ e1 in (_, e2)

  record_stock_count-ok :
      (strip : String → String) (part : SparePart S) (q : Option Decimal) (user : User) (date : ℕ)
      (reason remarks : Option String) (db db' : Ledger S)
      → record_stock_count engine strip part q user date reason remarks db ≡ ok db'
      → (counted : Decimal) × (q ≡ some counted)
        × (correct_stock engine part counted
              (current_stock part.id db.movements)
              user
              date
              (strip (text_of reason))
              remarks
              db
            ≡ ok db')
  unfolding record_stock_count
  record_stock_count-ok strip part q user date reason remarks db db' e =
      let (counted, valid, e1) = bind_ok (validate_quantity_for_unit q part.unit true) _ e in
      let (_, e2) = raise_if_ok (not part.active) inactive_part _ e1 in
      let (_, e3) = raise_if_ok (str_eq (strip (text_of reason)) "") count_reason_required _ e2 in
      (counted, validate_quantity_for_unit-ok q part.unit true counted valid, e3)

  abbrev value : Ledger S → Result MovementError (Ledger S) → Ledger S
  value d (ok db) = db
  value d (raise e) = d

  by_sign : (d : ℤ) → is_increasing (count_type d) ≡ not (is_negative d)
  by_sign d = elim (Bool-cases (is_negative d)) [ inl down ↦ rw down refl | inr up ↦ rw up refl ]

  zero_counted : (d : ℤ) → (abs d == 0) ≡ true → count_type d ≡ adjustment_in
  zero_counted (pos n) h = refl
  zero_counted (negsuc n) h = absurd (ground arith)

  pub correct_stock-Posted :
      (part : SparePart S) (counted : Decimal) (before : ℤ) (user : User) (date : ℕ)
      (reason : String) (remarks : Option String) (db db' : Ledger S)
      → correct_stock engine part counted before user date reason remarks db ≡ ok db'
      → Posted engine (counted_move engine part.id (difference counted before)) db db'
  unfolding correct_stock
  correct_stock-Posted part counted before user date reason remarks db db' e =
      let off = difference counted before in
      let fields = count_fields reason remarks before (engine.read_back counted) in
      elim (Bool-cases (abs off.units == 0)) [
        | inl even ↦ rw even (
            rw (← ap (value db) (rw even at e)) record {
              caches = λ i. refl;
              gate = λ q h. absurd (cc);
              stock = λ i.
                  new_row-stock engine part (count_type off.units) (engine.read_back zero_quantity)
                    user date fields db i
                  ∙ ap
                      (λ (type : MovementType).
                        current_stock i db.movements
                        +ℤ (if i == part.id
                            then delta (is_increasing type) (engine.read_back zero_quantity)
                            else pos 0))
                      (zero_counted off.units even);
            })
        | inr uneven ↦
            let (q, given, p) =
              create_movement-Posted engine part (count_type off.units) (some (magnitude off)) user
                date fields db db' (rw uneven at e) in
            rw uneven (
              let same : magnitude off ≡ q = ap (amount_or q) given in
              rw (by_sign off.units) at (rw (← same) at p))
      ]
    where
      amount_or : Decimal → Option Decimal → Decimal
      amount_or d none = d
      amount_or d (some x) = x

  -- A request that the ledger accepts moves the stock of its part by what the column holds of its
  -- quantity, and the part's cache by the engine's sum or difference, and no other stock or cache. An
  -- amount is taken only if the engine finds that much in the cache, a count moves both by what it finds
  -- beside the ledger's stock, none of the caches if that is zero, and a void undoes the row it names.
  pub handle-Follows :
      (strip : String → String) (request : Request S) (db db' : Ledger S)
      → handle engine strip request db ≡ ok db'
      → Follows engine (effect_of engine request db.movements) db db'
  unfolding handle effect_of record_stock_in record_adjustment record_opening_balance
  handle-Follows strip (receive part q user date supplier reference remarks) db db' e =
      create_movement-Follows part stock_in q user date _ db db' e
  handle-Follows strip (issue part q user date requested approved remarks department machine) db db'
        e =
      let (fields, done) =
        record_stock_out-ok part q user date requested approved remarks department machine db db'
          e in
      create_movement-Follows part stock_out q user date fields db db' done
  handle-Follows strip (adjust part q inward user date reason remarks) db db' e =
      create_movement-Follows part adjustment_in q user date _ db db' e
  handle-Follows strip (adjust part q outward user date reason remarks) db db' e =
      create_movement-Follows part adjustment_out q user date _ db db' e
  handle-Follows strip (open_balance part q user date remarks) db db' e =
      create_movement-Follows part adjustment_in q user date _ db db' e
  handle-Follows strip (count part q user date reason remarks) db db' e =
      let (counted, given, done) =
        record_stock_count-ok strip part q user date reason remarks db db' e in
      rw given (
        correct_stock-Posted part counted (current_stock part.id db.movements) user date
          (strip (text_of reason)) remarks db db' done)
  handle-Follows strip (cancel now id user reason) db db' e =
      elim (Option-cases (find_first (has_id id) db.movements)) [
        | inl missing ↦ rw missing (ap (value db) (rw missing at e))
        | inr (m, found) ↦
            let own = (==_iff m.id id).0 (find_first-Member (has_id id) db.movements m found).1 in
            rw found (
              void_movement-Posted engine now m user reason db db'
                (ap (λ (k : ℕ). find_first (has_id k) db.movements) own ∙ found) (rw found at e))
      ]
