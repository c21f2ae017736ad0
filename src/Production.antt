-- ===== src/Production.antt =====
-- webapp/services/production_service.py: the Production Book, from the entry of a line to the life
-- cycle draft, finalized, void of a record. A line's notes are left out.
pub mod Posting
mod Tests
use Prim.Native.String.{◌++◌}
use text.Mathlib.Text.{◌==◌ as str_eq}
use daily_figures.Common.{
  ℕ, Bool, true, false, not, ◌&&◌, ◌||◌, Option, none, some, List, [], ◌∷◌, String, ℤ, pos, ◌==◌,
  if◌then◌else◌, Result, ok, raise, ◌>>=◌, ◌>>◌, raise_if, map_error, find_first,
}
use daily_figures.Packaging.{PackagingRule, rule_id, PackagingError, normalize, to_base_units}
use daily_figures.Records.{
  Shift, Status, draft, finalized, void, is_draft, is_finalized, is_void, Line, ProductionRecord,
  Product, current_packaging_rule, User, is_elevated,
}

-- `ProductionError`, by its message.
pub data ProductionError : Type 0 where
  product_missing no_packaging_rule zero_quantity no_lines : ProductionError
  header_not_draft finalize_not_draft finalize_without_lines : ProductionError
  reopen_not_finalized reopen_reason_required already_void void_reason_required : ProductionError
  delete_reason_required : ProductionError
  packaging : PackagingError → ProductionError

abbrev is_user : Option ℕ → User → Bool
is_user none user = false
is_user (some id) user = id == user.id

unfoldable pub can_edit : ProductionRecord → User → Bool
can_edit r user = is_elevated user.role || (is_draft r.status && is_user r.created_by user)

pub record LineInput : Type 0 where
  pub product_id : ℕ
  pub cartons : ℤ
  pub packs : ℤ
  pub pieces : ℤ

-- `db.session.get(Product, product_id)`, and the test that it is active
abbrev pub active_product : List Product → ℕ → Option Product
active_product products id = elim (find_first (λ p. p.id == id) products) [
  | none ↦ none
  | some p ↦ if p.active then some p else none
]

unfoldable pub line_of : PackagingRule → LineInput → Result ProductionError Line
line_of rule l = do
  q ← map_error packaging (normalize l.cartons l.packs l.pieces rule)
  n ← map_error packaging (to_base_units (pos q.cartons) (pos q.packs) (pos q.pieces) rule)
  raise_if (n == 0) zero_quantity
  ok (record {
    product_id = l.product_id;
    quantity = q;
    base_unit_qty = pos n;
    packaging_rule_id = rule_id rule;
  })

unfoldable pub build_line : List Product → (at : ℕ) → LineInput → Result ProductionError Line
unfolding line_of
build_line products at l = elim (active_product products l.product_id) [
  | none ↦ raise product_missing
  | some p ↦ elim (current_packaging_rule p at) [
    | none ↦ raise no_packaging_rule
    | some rule ↦ line_of rule l
  ]
]

-- `[build_line(**line, at=now) for line in lines]`
unfoldable pub build_lines :
    List Product → (at : ℕ) → List LineInput → Result ProductionError (List Line)
unfolding build_line
build_lines products at [] = ok []
build_lines products at (l ∷ ls) =
    let rest = build_lines products at ls in
    do line ← build_line products at l; lines ← rest; ok (line ∷ lines)

abbrev pub is_empty : {A : Type 0} → List A → Bool
is_empty [] = true
is_empty (x ∷ xs) = false

unfoldable pub create_production :
    List Product
    → (id now date : ℕ) → Shift
    → (remarks : Option String) → List LineInput
    → User
    → Result ProductionError ProductionRecord
unfolding build_lines
create_production products id now date shift remarks lines user = do
  raise_if (is_empty lines) no_lines
  built ← build_lines products now lines
  ok (record {
    id = id;
    date = date;
    shift = shift;
    remarks = remarks;
    status = draft;
    created_by = some user.id;
    updated_by = some user.id;
    finalized_by = none;
    finalized_at = none;
    voided_by = none;
    voided_at = none;
    void_reason = none;
    lines = built;
  })

abbrev given_or : {A : Type 0} → Option A → A → A
given_or none old = old
given_or (some new) old = new

abbrev remarks_or : Option String → Option String → Option String
remarks_or none old = old
remarks_or (some new) old = some new

unfoldable pub update_header :
    ProductionRecord
    → (date : Option ℕ) → (shift : Option Shift) → (remarks : Option String) → User
    → Result ProductionError ProductionRecord
update_header r date shift remarks user = do
  raise_if (not (is_draft r.status)) header_not_draft
  ok (record r {
    date = given_or date r.date;
    shift = given_or shift r.shift;
    remarks = remarks_or remarks r.remarks;
    updated_by = some user.id;
  })

abbrev pub finalized_row : (now : ℕ) → User → ProductionRecord → ProductionRecord
finalized_row now user r = record r {
  status = finalized;
  finalized_by = some user.id;
  finalized_at = some now;
  updated_by = some user.id;
}

unfoldable pub finalize_production :
    (now : ℕ) → ProductionRecord → User → Result ProductionError ProductionRecord
finalize_production now r user = do
  raise_if (not (is_draft r.status)) finalize_not_draft
  raise_if (is_empty r.lines) finalize_without_lines
  ok (finalized_row now user r)

-- `if not reason`
abbrev pub is_blank : Option String → Bool
is_blank none = true
is_blank (some text) = str_eq text ""

abbrev separated : Option String → String
separated none = ""
separated (some text) = if str_eq text "" then "" else text ++ "\n\n"

abbrev text_of : Option String → String
text_of none = ""
text_of (some text) = text

abbrev pub reopened_row : User → (reason : Option String) → ProductionRecord → ProductionRecord
reopened_row user reason r = record r {
  status = draft;
  finalized_by = none;
  finalized_at = none;
  remarks = some (separated r.remarks ++ ("Reopened: " ++ text_of reason));
  updated_by = some user.id;
}

unfoldable pub reopen_production :
    ProductionRecord → User → (reason : Option String) → Result ProductionError ProductionRecord
reopen_production r user reason = do
  raise_if (not (is_finalized r.status)) reopen_not_finalized
  raise_if (is_blank reason) reopen_reason_required
  ok (reopened_row user reason r)

abbrev pub voided_row :
    (now : ℕ) → User → (reason : Option String) → ProductionRecord → ProductionRecord
voided_row now user reason r = record r {
  status = void;
  voided_by = some user.id;
  voided_at = some now;
  void_reason = reason;
  updated_by = some user.id;
}

unfoldable pub void_production :
    (now : ℕ)
    → ProductionRecord
    → User
    → (reason : Option String) → Result ProductionError ProductionRecord
void_production now r user reason = do
  raise_if (is_void r.status) already_void
  raise_if (is_blank reason) void_reason_required
  ok (voided_row now user reason r)

abbrev remove_record : ℕ → List ProductionRecord → List ProductionRecord
remove_record id [] = []
remove_record id (r ∷ rest) = if r.id == id then rest else r ∷ remove_record id rest

unfoldable pub delete_production :
    ProductionRecord
    → (reason : Option String) → List ProductionRecord
    → Result ProductionError (List ProductionRecord)
delete_production r reason records = do
  raise_if (is_blank reason) delete_reason_required
  ok (remove_record r.id records)
