-- ===== src/Spares.antt =====
-- webapp/services/spare_part_movement_service.py, the ledger of spare part movements, with the columns
-- it reads and writes of webapp/models/spare_part.py and webapp/models/spare_part_movement.py. This
-- file has the tables and the reading of the stock. What is read from the columns has three decimals:
-- it is an integer, in thousandths.
pub mod Amounts
pub mod Record
pub mod Balance
pub mod Cache
pub mod Effect
pub mod Shelf
pub mod Count
mod Tests
use Prim.Native.Nat.{ℕ}
use daily_figures.Common.{
  Bool, true, false, ◌&&◌, Option, none, some, List, [], ◌∷◌, String, ℤ, pos, ◌+ℤ◌, ◌-ℤ◌, leb_ℤ,
  ◌==◌, if◌then◌else◌, filter_where,
}

-- `UNITS`
pub data PartUnit : Type 0 where
  pcs rolls metres sets litres other : PartUnit

-- `DISCRETE_UNITS`, of which the units above have `pcs` and `sets`
abbrev pub is_discrete_unit : PartUnit → Bool
is_discrete_unit pcs = true
is_discrete_unit sets = true
is_discrete_unit _ = false

-- `Stored` are the values of the column of the cached stock.
pub record SparePart (Stored : Type 0) : Type 0 where
  pub id : ℕ
  pub unit : PartUnit
  pub minimum_stock : Option ℤ
  pub active : Bool
  pub current_stock_cache : Stored

-- `MOVEMENT_TYPES`
pub data MovementType : Type 0 where
  stock_in stock_out adjustment_in adjustment_out : MovementType

-- `movement_type in INCREASING_TYPES`; the others are `DECREASING_TYPES`.
abbrev pub is_increasing : MovementType → Bool
is_increasing stock_in = true
is_increasing stock_out = false
is_increasing adjustment_in = true
is_increasing adjustment_out = false

pub data MovementStatus : Type 0 where
  active void : MovementStatus

abbrev pub is_active : MovementStatus → Bool
is_active active = true
is_active void = false

-- The columns that `_create_movement` takes as `**fields`.
pub record Fields : Type 0 where
  pub supplier_id : Option ℕ
  pub reference_doc : Option String
  pub department_id : Option ℕ
  pub machine_id : Option ℕ
  pub requested_by : Option String
  pub approved_by : Option String
  pub reason : Option String
  pub remarks : Option String
  pub system_quantity_before : Option ℤ
  pub counted_quantity : Option ℤ

pub record Movement : Type 0 where
  pub id : ℕ
  pub business_date : ℕ
  pub spare_part_id : ℕ
  pub movement_type : MovementType
  pub quantity : ℤ
  pub unit_snapshot : PartUnit
  pub entered_by_user_id : ℕ
  pub fields : Fields
  pub status : MovementStatus
  pub voided_by : Option ℕ
  pub voided_at : Option ℕ
  pub void_reason : Option String

-- The machines that a stock out may name, by their department.
pub record Machine : Type 0 where
  pub department_id : Option ℕ

-- The tables: the parts and the machines by their ids, and the ledger with the newest row first.
pub record Ledger (Stored : Type 0) : Type 0 where
  pub part_at : ℕ → Option (SparePart Stored)
  pub machine_at : ℕ → Option Machine
  pub movements : List Movement
  pub next_movement_id : ℕ

-- `total += quantity` or `total -= quantity`
abbrev pub apply_movement : MovementType → ℤ → ℤ → ℤ
apply_movement type quantity total =
    if is_increasing type then total +ℤ quantity else total -ℤ quantity

unfoldable pub stock_loop : List Movement → (total : ℤ) → ℤ
stock_loop [] total = total
stock_loop (m ∷ ms) total = stock_loop ms (apply_movement m.movement_type m.quantity total)

abbrev pub is_of : (spare_part_id : ℕ) → Movement → Bool
is_of spare_part_id m = (m.spare_part_id == spare_part_id) && is_active m.status

unfoldable pub current_stock : (spare_part_id : ℕ) → List Movement → ℤ
unfolding stock_loop
current_stock spare_part_id movements =
    stock_loop (filter_where (is_of spare_part_id) movements) (pos 0)

-- A dictionary of totals.
abbrev pub Totals : Type 0
Totals = ℕ → Option ℤ

abbrev pub set_total : ℕ → ℤ → Totals → Totals
set_total key total totals = λ id. if id == key then some total else totals id

-- `{pid: Decimal("0") for pid in ids}`
abbrev pub zero_totals : List ℕ → Totals
zero_totals [] = λ _. none
zero_totals (id ∷ ids) = set_total id (pos 0) (zero_totals ids)

-- `spare_part_id IN ids`
abbrev pub is_in : List ℕ → ℕ → Bool
is_in [] id = false
is_in (x ∷ xs) id = if id == x then true else is_in xs id

-- `stocks.get(spare_part_id, Decimal("0"))`
abbrev pub total_or_zero : Option ℤ → ℤ
total_or_zero none = pos 0
total_or_zero (some total) = total

unfoldable pub bulk_loop : List Movement → Totals → Totals
bulk_loop [] totals = totals
bulk_loop (m ∷ ms) totals = bulk_loop ms (
    set_total m.spare_part_id
      (apply_movement m.movement_type m.quantity (total_or_zero (totals m.spare_part_id))) totals)

unfoldable pub bulk_current_stock : (spare_part_ids : List ℕ) → List Movement → Totals
unfolding bulk_loop
bulk_current_stock [] movements = zero_totals []
bulk_current_stock (id ∷ ids) movements =
    bulk_loop (filter_where (λ m. is_in (id ∷ ids) m.spare_part_id && is_active m.status) movements)
      (zero_totals (id ∷ ids))

pub data StockStatus : Type 0 where
  no_stock low healthy : StockStatus

-- `minimum_stock is not None and stock <= minimum_stock`
abbrev pub at_most : ℤ → Option ℤ → Bool
at_most stock none = false
at_most stock (some minimum) = leb_ℤ stock minimum

-- `current_stock(...) if stock is None else stock`
abbrev given_or : Option ℤ → ℤ → ℤ
given_or none read = read
given_or (some stock) read = stock

unfoldable pub stock_status_for :
    {Stored : Type 0} → SparePart Stored → (stock : Option ℤ) → List Movement → StockStatus
unfolding current_stock
stock_status_for part given movements =
    let stock = given_or given (current_stock part.id movements) in
    if leb_ℤ stock (pos 0)
    then no_stock
    else if at_most stock part.minimum_stock
    then low
    else healthy

abbrev pub is_low : StockStatus → Bool
is_low low = true
is_low _ = false

unfoldable pub is_low_stock :
    {Stored : Type 0} → SparePart Stored → (stock : Option ℤ) → List Movement → Bool
unfolding stock_status_for
is_low_stock part stock movements = is_low (stock_status_for part stock movements)
