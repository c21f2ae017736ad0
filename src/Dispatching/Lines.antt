-- ===== src/Dispatching/Lines.antt =====
-- dispatch_service.py, `build_line` and `replace_lines`.
use daily_figures.Common.{
  ℕ, not, Option, none, some, List, [], ◌∷◌, pos, ◌==◌, Result, ok, raise, ◌>>=◌, ◌>>◌, raise_if,
  map_error,
}
use daily_figures.Packaging.{PackagingRule, rule_id, normalize, to_base_units}
use daily_figures.Records.{Product, current_packaging_rule, User, Line, is_draft}
use daily_figures.Production.{LineInput, active_product}
use daily_figures.Dispatching.{
  DispatchError, product_missing, no_packaging_rule, zero_quantity, packaging, lines_not_draft,
  no_lines, DispatchRow, is_empty,
}

abbrev pub rule_of : (at : ℕ) → Option Product → Result DispatchError PackagingRule
rule_of at none = raise product_missing
rule_of at (some p) = elim (current_packaging_rule p at) [
  | none ↦ raise no_packaging_rule
  | some rule ↦ ok rule
]

unfoldable pub build_line : List Product → (at : ℕ) → LineInput → Result DispatchError Line
build_line products at l = do
  rule ← rule_of at (active_product products l.product_id)
  q ← map_error packaging (normalize l.cartons l.packs l.pieces rule)
  n ← map_error packaging (to_base_units (pos q.cartons) (pos q.packs) (pos q.pieces) rule)
  raise_if (n == 0) zero_quantity
  ok (record {
    product_id = l.product_id;
    quantity = q;
    base_unit_qty = pos n;
    packaging_rule_id = rule_id rule;
  })

-- `[build_line(**line, at=now) for line in lines]`
unfoldable pub build_lines :
    List Product → (at : ℕ) → List LineInput → Result DispatchError (List Line)
build_lines products at [] = ok []
build_lines products at (l ∷ ls) =
    let rest = build_lines products at ls in
    do line ← build_line products at l; lines ← rest; ok (line ∷ lines)

abbrev pub with_lines : User → List Line → DispatchRow → DispatchRow
with_lines user lines r = record r {
  entry = record r.entry { lines = lines };
  updated_by = some user.id;
}

-- The lines are built before any is taken away.
unfoldable pub replace_lines :
    List Product
    → (now : ℕ) → DispatchRow
    → List LineInput
    → User
    → Result DispatchError DispatchRow
replace_lines products now r lines user = do
  raise_if (not (is_draft r.entry.status)) lines_not_draft
  raise_if (is_empty lines) no_lines
  built ← build_lines products now lines
  ok (with_lines user built r)

-- `build_line` on the parts of a line that is copied
abbrev pub as_input : Line → LineInput
as_input l = record {
  product_id = l.product_id;
  cartons = pos l.quantity.cartons;
  packs = pos l.quantity.packs;
  pieces = pos l.quantity.pieces;
}

abbrev pub as_inputs : List Line → List LineInput
as_inputs [] = []
as_inputs (l ∷ ls) = as_input l ∷ as_inputs ls
