-- ===== src/Spares/Record.antt =====
-- spare_part_movement_service.py: the operations that write the ledger. A quantity that the code would
-- find to be None or not finite is `none`. The arithmetic on the cached stock is the engine's. The business date of a movement, which the code may take
-- from the clock, is an argument.
use text.Mathlib.Text.{◌==◌ as str_eq}
use daily_figures.Common.{
  ℕ, ◌+◌, Bool, true, false, not, ◌&&◌, ◌||◌, Option, none, some, List, [], ◌∷◌, String, ℤ, pos,
  abs, is_negative, is_zero, ◌==◌, if◌then◌else◌, Result, ok, raise, ◌>>=◌, ◌>>◌, raise_if,
  map_error,
}
use daily_figures.Records.{User}
use daily_figures.Spares.{
  PartUnit, is_discrete_unit, SparePart, MovementType, stock_in, stock_out, adjustment_in,
  adjustment_out, is_increasing, active, void, is_active, Fields, Movement, Ledger, current_stock,
}
use daily_figures.Spares.Amounts.{
  Decimal, Engine, is_whole, difference, magnitude, from_thousandths,
}

-- `SparePartMovementError`, by its message; `insufficient_stock` is `InsufficientStockError`.
pub data MovementError : Type 0 where
  not_finite not_positive not_whole inactive_part insufficient_stock : MovementError
  requester_required unknown_machine other_department : MovementError
  count_reason_required already_void void_reason_required void_below_zero : MovementError

unfoldable pub validate_quantity_for_unit :
    (quantity : Option Decimal) → PartUnit → (allow_zero : Bool) → Result MovementError Decimal
validate_quantity_for_unit none unit allow_zero = raise not_finite
validate_quantity_for_unit (some q) unit allow_zero = do
  raise_if (is_negative q.units || (is_zero q.units && not allow_zero)) not_positive
  raise_if (is_discrete_unit unit && not (is_whole q)) not_whole
  ok q

abbrev pub set_cache : {S : Type 0} → S → SparePart S → SparePart S
set_cache cache part = record part { current_stock_cache = cache }

abbrev pub set_part : {S : Type 0} → ℕ → SparePart S → Ledger S → Ledger S
set_part id part db = record db {
  part_at = λ other. if other == id then some part else db.part_at other;
}

-- An UPDATE of a part that is not there changes no row.
unfoldable pub increase_cache :
    {S : Type 0} → Engine S → (spare_part_id : ℕ) → Decimal → Ledger S → Ledger S
increase_cache engine id quantity db = elim (db.part_at id) [
  | none ↦ db
  | some part ↦ set_part id (set_cache (engine.add part.current_stock_cache quantity) part) db
]

unfoldable pub decrease_cache :
    {S : Type 0}
    → Engine S
    → (spare_part_id : ℕ) → Decimal
    → Ledger S
    → Result MovementError (Ledger S)
decrease_cache engine id quantity db = elim (db.part_at id) [
  | none ↦ raise insufficient_stock
  | some part ↦
      if engine.at_least part.current_stock_cache quantity
      then ok (set_part id (set_cache (engine.subtract part.current_stock_cache quantity) part) db)
      else raise insufficient_stock
]

-- `_decrease_cache` for the types that decrease, else `_increase_cache`
abbrev pub move_cache :
    {S : Type 0}
    → Engine S
    → MovementType
    → ℕ
    → Decimal
    → Ledger S
    → Result MovementError (Ledger S)
move_cache engine type id quantity db =
    if is_increasing type
    then ok (increase_cache engine id quantity db)
    else decrease_cache engine id quantity db

abbrev pub movement_row :
    {S : Type 0}
    → SparePart S
    → MovementType
    → ℤ
    → User
    → (business_date : ℕ) → Fields
    → (id : ℕ) → Movement
movement_row part type quantity user date fields id = record {
  id = id;
  business_date = date;
  spare_part_id = part.id;
  movement_type = type;
  quantity = quantity;
  unit_snapshot = part.unit;
  entered_by_user_id = user.id;
  fields = fields;
  status = active;
  voided_by = none;
  voided_at = none;
  void_reason = none;
}

abbrev pub add_movement :
    {S : Type 0}
    → SparePart S
    → MovementType
    → ℤ
    → User
    → (business_date : ℕ) → Fields
    → Ledger S
    → Ledger S
add_movement part type quantity user date fields db = record db {
  movements = movement_row part type quantity user date fields db.next_movement_id ∷ db.movements;
  next_movement_id = db.next_movement_id + 1;
}

unfoldable pub create_movement :
    {S : Type 0}
    → Engine S
    → SparePart S
    → MovementType
    → (quantity : Option Decimal) → User
    → (business_date : ℕ) → Fields
    → Ledger S
    → Result MovementError (Ledger S)
unfolding validate_quantity_for_unit increase_cache decrease_cache
create_movement engine part type quantity user date fields db = do
  q ← validate_quantity_for_unit quantity part.unit false
  raise_if (not part.active) inactive_part
  db' ← move_cache engine type part.id q db
  ok (add_movement part type (engine.read_back q) user date fields db')

abbrev pub no_fields : Fields
no_fields = record {
  supplier_id = none;
  reference_doc = none;
  department_id = none;
  machine_id = none;
  requested_by = none;
  approved_by = none;
  reason = none;
  remarks = none;
  system_quantity_before = none;
  counted_quantity = none;
}

unfoldable pub record_stock_in :
    {S : Type 0}
    → Engine S
    → SparePart S
    → (quantity : Option Decimal) → User
    → (business_date : ℕ) → (supplier_id : Option ℕ) → (reference_doc remarks : Option String)
    → Ledger S
    → Result MovementError (Ledger S)
unfolding create_movement
record_stock_in engine part quantity user date supplier reference remarks =
    create_movement engine part stock_in quantity user date
      (record no_fields { supplier_id = supplier; reference_doc = reference; remarks = remarks })

-- `not text`
abbrev pub is_blank : Option String → Bool
is_blank none = true
is_blank (some text) = str_eq text ""

abbrev of_other_department : Option ℕ → ℕ → Bool
of_other_department none department = false
of_other_department (some own) department = not (own == department)

-- The check of a machine against the department that is chosen with it.
abbrev pub check_machine :
    {S : Type 0} → (machine_id department_id : Option ℕ) → Ledger S → Result MovementError Unit
check_machine none department db = ok tt
check_machine (some machine) none db = ok tt
check_machine (some machine) (some department) db = elim (db.machine_at machine) [
  | none ↦ raise unknown_machine
  | some m ↦ raise_if (of_other_department m.department_id department) other_department
]

unfoldable pub record_stock_out :
    {S : Type 0}
    → Engine S
    → SparePart S
    → (quantity : Option Decimal) → User
    → (business_date : ℕ) → (requested_by approved_by remarks : Option String)
    → (department_id machine_id : Option ℕ) → Ledger S
    → Result MovementError (Ledger S)
unfolding create_movement
record_stock_out engine part quantity user date requested approved remarks department machine db =
    do
      raise_if (is_blank requested) requester_required
      check_machine machine department db
      create_movement engine part stock_out quantity user date
          (record no_fields {
            requested_by = requested;
            approved_by = approved;
            remarks = remarks;
            department_id = department;
            machine_id = machine;
          })
          db

-- A direction that is neither is refused at the call.
pub data Direction : Type 0 where
  inward outward : Direction

abbrev pub adjustment_type : Direction → MovementType
adjustment_type inward = adjustment_in
adjustment_type outward = adjustment_out

unfoldable pub record_adjustment :
    {S : Type 0}
    → Engine S
    → SparePart S
    → (quantity : Option Decimal) → Direction
    → User
    → (business_date : ℕ) → (reason remarks : Option String) → Ledger S
    → Result MovementError (Ledger S)
unfolding create_movement
record_adjustment engine part quantity direction user date reason remarks =
    create_movement engine part (adjustment_type direction) quantity user date
      (record no_fields { reason = reason; remarks = remarks })

unfoldable pub record_opening_balance :
    {S : Type 0}
    → Engine S
    → SparePart S
    → (quantity : Option Decimal) → User
    → (business_date : ℕ) → (remarks : Option String) → Ledger S
    → Result MovementError (Ledger S)
unfolding record_adjustment
record_opening_balance engine part quantity user date remarks =
    record_adjustment engine part quantity inward user date (some "opening_balance") remarks

-- `difference >= 0`
abbrev pub count_type : ℤ → MovementType
count_type difference = if is_negative difference then adjustment_out else adjustment_in

-- The fields of a count: its reason, and both quantities that were compared.
abbrev pub count_fields :
    (reason : String) → (remarks : Option String) → (before counted : ℤ) → Fields
count_fields reason remarks before counted = record no_fields {
  reason = some reason;
  remarks = remarks;
  system_quantity_before = some before;
  counted_quantity = some counted;
}

-- `Decimal("0")`
abbrev pub zero_quantity : Decimal
zero_quantity = record { units = pos 0; decimals = 0 }

unfoldable pub correct_stock :
    {S : Type 0}
    → Engine S
    → SparePart S
    → (counted : Decimal) → (before : ℤ) → User
    → (business_date : ℕ) → (reason : String) → (remarks : Option String) → Ledger S
    → Result MovementError (Ledger S)
correct_stock engine part counted before user date reason remarks db =
    let off = difference counted before in
    let type = count_type off.units in
    let fields = count_fields reason remarks before (engine.read_back counted) in
    if abs off.units == 0
    then ok (add_movement part type (engine.read_back zero_quantity) user date fields db)
    else create_movement engine part type (some (magnitude off)) user date fields db

-- `(reason or "")`
abbrev pub text_of : Option String → String
text_of none = ""
text_of (some text) = text

-- `strip` is Python's `str.strip`.
unfoldable pub record_stock_count :
    {S : Type 0}
    → Engine S
    → (strip : String → String) → SparePart S
    → (counted_quantity : Option Decimal) → User
    → (business_date : ℕ) → (reason remarks : Option String) → Ledger S
    → Result MovementError (Ledger S)
record_stock_count engine strip part counted_quantity user date reason remarks db = do
  counted ← validate_quantity_for_unit counted_quantity part.unit true
  raise_if (not part.active) inactive_part
  raise_if (str_eq (strip (text_of reason)) "") count_reason_required
  correct_stock engine part counted (current_stock part.id db.movements) user date
      (strip (text_of reason)) remarks db

-- `except InsufficientStockError: raise SparePartMovementError(...)`
abbrev pub below_zero : MovementError → MovementError
below_zero e = void_below_zero

abbrev pub inverse_cache :
    {S : Type 0} → Engine S → Movement → Ledger S → Result MovementError (Ledger S)
inverse_cache engine m db =
    if is_increasing m.movement_type
    then map_error below_zero
        (decrease_cache engine m.spare_part_id (from_thousandths m.quantity) db)
    else ok (increase_cache engine m.spare_part_id (from_thousandths m.quantity) db)

abbrev pub void_row : (now : ℕ) → User → (reason : Option String) → Movement → Movement
void_row now user reason m = record m {
  status = void;
  voided_by = some user.id;
  voided_at = some now;
  void_reason = reason;
}

-- The UPDATE of the row with this id.
abbrev pub replace_row : ℕ → (Movement → Movement) → List Movement → List Movement
replace_row id f [] = []
replace_row id f (m ∷ ms) = if m.id == id then f m ∷ ms else m ∷ replace_row id f ms

unfoldable pub void_movement :
    {S : Type 0}
    → Engine S
    → (now : ℕ) → Movement
    → User
    → (reason : Option String) → Ledger S
    → Result MovementError (Ledger S)
unfolding increase_cache decrease_cache
void_movement engine now m user reason db = do
  raise_if (not (is_active m.status)) already_void
  raise_if (is_blank reason) void_reason_required
  db' ← inverse_cache engine m db
  ok (record db' { movements = replace_row m.id (void_row now user reason) db'.movements })
