-- ===== src/Packaging.antt =====
-- webapp/services/packaging.py and the shape of webapp/models/packaging_rule.py: quantities in
-- cartons, packs and pieces, and their exact total in pieces.
-- The database's check constraint admits two shapes of rule, which are the two constructors.
-- A missing number counts as 0 in the code (`int(cartons or 0)`); here it is the 0.
pub mod Canonical
mod Tests
use daily_figures.Common.{
  ℕ, ◌+◌, ◌*◌, ◌/◌, ◌%◌, ◌<◌, Bool, true, false, not, ◌||◌, Result, ok, raise, ◌>>=◌, ◌>>◌,
  raise_if, leb, ◌==◌, if◌then◌else◌, ℤ, is_negative, abs,
}

pub data PackagingRule : Type 0 where
  pack_tier : (id cartons_to_packs packs_to_pieces : ℕ) → PackagingRule
  no_pack_tier : (id carton_to_pieces : ℕ) → PackagingRule

abbrev pub rule_id : PackagingRule → ℕ
rule_id (pack_tier id _ _) = id
rule_id (no_pack_tier id _) = id

abbrev pub has_pack_tier : PackagingRule → Bool
has_pack_tier (pack_tier _ _ _) = true
has_pack_tier (no_pack_tier _ _) = false

unfoldable pub pieces_per_carton : PackagingRule → ℕ
pieces_per_carton (pack_tier _ cartons_to_packs packs_to_pieces) =
    cartons_to_packs * packs_to_pieces
pieces_per_carton (no_pack_tier _ carton_to_pieces) = carton_to_pieces

-- What the product form accepts: every ratio is at least 1.
abbrev pub IsPositive : PackagingRule → Type 0
IsPositive (pack_tier _ cartons_to_packs packs_to_pieces) =
    (0 < cartons_to_packs) × (0 < packs_to_pieces)
IsPositive (no_pack_tier _ carton_to_pieces) = 0 < carton_to_pieces

-- `PackagingError` by its message, and Python's own error for a ratio of 0.
pub data PackagingError : Type 0 where
  negative_part no_pack_unit negative_total zero_division : PackagingError

pub record Quantity : Type 0 where
  pub cartons : ℕ
  pub packs : ℕ
  pub pieces : ℕ

-- `divmod(n, d)`
divmod : ℕ → ℕ → Result PackagingError (ℕ × ℕ)
divmod n d = if d == 0 then raise zero_division else ok (n / d, n % d)

-- `if low >= ratio: high += low // ratio; low = low % ratio`
unfoldable pub roll_up : (ratio high low : ℕ) → Result PackagingError (ℕ × ℕ)
roll_up ratio high low =
    if leb ratio low
    then if ratio == 0 then raise zero_division else ok (high + low / ratio, low % ratio)
    else ok (high, low)

-- `if cartons < 0 or packs < 0 or pieces < 0: raise PackagingError(...)`
abbrev any_negative : (cartons packs pieces : ℤ) → Bool
any_negative cartons packs pieces = is_negative cartons || is_negative packs || is_negative pieces

unfoldable pub normalize_counts :
    (cartons packs pieces : ℕ) → PackagingRule → Result PackagingError Quantity
unfolding roll_up
normalize_counts cartons packs pieces (pack_tier _ cartons_to_packs packs_to_pieces) = do
  (packs', pieces') ← roll_up packs_to_pieces packs pieces
  (cartons', packs'') ← roll_up cartons_to_packs cartons packs'
  ok (record { cartons = cartons'; packs = packs''; pieces = pieces' })
normalize_counts cartons packs pieces (no_pack_tier _ carton_to_pieces) = do
  raise_if (not (packs == 0)) no_pack_unit
  (cartons', pieces') ← roll_up carton_to_pieces cartons pieces
  ok (record { cartons = cartons'; packs = packs; pieces = pieces' })

unfoldable pub normalize :
    (cartons packs pieces : ℤ) → PackagingRule → Result PackagingError Quantity
unfolding normalize_counts
normalize cartons packs pieces rule = do
  raise_if (any_negative cartons packs pieces) negative_part
  normalize_counts (abs cartons) (abs packs) (abs pieces) rule

unfoldable pub count_base_units :
    (cartons packs pieces : ℕ) → PackagingRule → Result PackagingError ℕ
count_base_units cartons packs pieces (pack_tier _ cartons_to_packs packs_to_pieces) =
    ok ((cartons * cartons_to_packs + packs) * packs_to_pieces + pieces)
count_base_units cartons packs pieces (no_pack_tier _ carton_to_pieces) = do
  raise_if (not (packs == 0)) no_pack_unit
  ok (cartons * carton_to_pieces + pieces)

unfoldable pub to_base_units : (cartons packs pieces : ℤ) → PackagingRule → Result PackagingError ℕ
unfolding count_base_units
to_base_units cartons packs pieces rule = do
  raise_if (any_negative cartons packs pieces) negative_part
  count_base_units (abs cartons) (abs packs) (abs pieces) rule

split_base_units : (total_pieces : ℕ) → PackagingRule → Result PackagingError Quantity
unfolding divmod
split_base_units total_pieces (pack_tier _ cartons_to_packs packs_to_pieces) = do
  (total_packs, pieces) ← divmod total_pieces packs_to_pieces
  (cartons, packs) ← divmod total_packs cartons_to_packs
  ok (record { cartons = cartons; packs = packs; pieces = pieces })
split_base_units total_pieces (no_pack_tier _ carton_to_pieces) = do
  (cartons, pieces) ← divmod total_pieces carton_to_pieces
  ok (record { cartons = cartons; packs = 0; pieces = pieces })

unfoldable pub from_base_units : (total_pieces : ℤ) → PackagingRule → Result PackagingError Quantity
unfolding split_base_units
from_base_units total_pieces rule = do
  raise_if (is_negative total_pieces) negative_total
  split_base_units (abs total_pieces) rule
