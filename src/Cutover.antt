-- ===== src/Cutover.antt =====
-- webapp/services/ledger_cutover_service.py: the life cycle draft, verified, activated or cancelled of a
-- ledger cutover, whose activation writes the openings of a period. The tables are those of Stock, the
-- products are an argument; the audit log's entries are left out.
pub mod Order
pub mod Written
pub mod Activation
pub mod Life
mod Tests
use text.Mathlib.Text.{◌==◌ as str_eq}
use daily_figures.Common.{
  ℕ, ◌+◌, Bool, true, false, not, ◌&&◌, ◌||◌, Option, none, some, List, [], ◌∷◌, String, ℤ, pos,
  leb, ltb, ◌==◌, if◌then◌else◌, Result, ok, raise, ◌>>=◌, ◌>>◌, raise_if, map_error, exists_where,
  find_first, filter_where,
}
use daily_figures.Packaging.{
  PackagingRule, rule_id, PackagingError, Quantity, normalize, to_base_units,
}
use daily_figures.Records.{
  Shift, sort_key, Product, current_packaging_rule, User, is_elevated, Balance, LedgerCutover,
  CutoverStatus, is_activated, DailyFigure, ledger_cutover,
}
use daily_figures.Stock.Database.{Database}
use daily_figures.Stock.Anchor.{figure_at}
use daily_figures.Stock.View.{cutover_key, latest_cutover}
use daily_figures.Stock.Upsert.{figure_or_new, put_figure, next_id_after, set_opening, is_given}

-- `LedgerCutoverError`, by its message, `LedgerCutoverConflict`, and Python's own error for a None.
pub data CutoverError : Type 0 where
  not_elevated date_required reason_required missing_cutover not_draft : CutoverError
  missing_product no_packaging_rule not_ready not_cancellable : CutoverError
  backup_required already_activated not_verified wrong_confirmation : CutoverError
  stale_preview period_governed attribute_error : CutoverError
  packaging : PackagingError → CutoverError

abbrev pub is_draft : CutoverStatus → Bool
is_draft CutoverStatus.draft = true
is_draft _ = false

abbrev pub is_verified : CutoverStatus → Bool
is_verified CutoverStatus.verified = true
is_verified _ = false

-- `_require_elevated`, of an actor who may be missing
abbrev pub require_elevated : Option User → Result CutoverError User
require_elevated none = raise not_elevated
require_elevated (some actor) = if is_elevated actor.role then ok actor else raise not_elevated

abbrev pub new_cutover : (id now date : ℕ) → Shift → Option String → User → LedgerCutover
new_cutover id now date shift reason actor = record {
  id = id;
  effective_date = date;
  effective_shift = shift;
  status = CutoverStatus.draft;
  reason = reason;
  created_by = some actor.id;
  verified_by = none;
  verified_at = none;
  activated_by = none;
  activated_at = none;
  cancelled_by = none;
  cancelled_at = none;
  updated_at = now;
  balances = [];
}

-- `id` is the key that the engine gives the row. A shift that is neither is refused at the call.
unfoldable pub create_draft :
    (id now : ℕ)
    → (effective_date : Option ℕ) → (effective_shift : Shift) → (reason : Option String)
    → Option User
    → Database
    → Result CutoverError Database
create_draft id now none shift reason actor db = require_elevated actor >>= λ _. raise date_required
create_draft id now (some date) shift reason actor db = do
  user ← require_elevated actor
  raise_if (not (is_given reason)) reason_required
  ok (record db { cutovers = new_cutover id now date shift reason user ∷ db.cutovers })

-- `db.session.get(LedgerCutover, cutover_id)`
abbrev pub get_cutover : ℕ → Database → Option LedgerCutover
get_cutover id db = find_first (λ c. c.id == id) db.cutovers

abbrev pub required_cutover : Option LedgerCutover → Result CutoverError LedgerCutover
required_cutover none = raise missing_cutover
required_cutover (some c) = ok c

-- The UPDATE of the row with the id of `c`.
abbrev pub put_cutover : LedgerCutover → List LedgerCutover → List LedgerCutover
put_cutover c [] = []
put_cutover c (x ∷ xs) = if x.id == c.id then c ∷ xs else x ∷ put_cutover c xs

abbrev pub with_cutover : LedgerCutover → Database → Database
with_cutover c db = record db { cutovers = put_cutover c db.cutovers }

-- `get_active_cutover(on_or_before_date, on_or_before_shift)`
unfoldable pub get_active_cutover_at : (date : ℕ) → Shift → Database → Option LedgerCutover
unfolding latest_cutover
get_active_cutover_at date shift db = latest_cutover (
    filter_where (λ c. leb (cutover_key c) (sort_key date shift))
      (filter_where (λ c. is_activated c.status) db.cutovers))

abbrev pub find_product : List Product → ℕ → Option Product
find_product products id = find_first (λ p. p.id == id) products

abbrev pub is_balance_of : ℕ → Balance → Bool
is_balance_of product_id b = b.product_id == product_id

-- The balance of a product is updated where there is one, else added in the order of the products.
abbrev pub put_balance : (now : ℕ) → User → ℕ → Quantity → ℕ → List Balance → List Balance
put_balance now user product_id q base_qty [] =
    record {
      product_id = product_id;
      quantity = q;
      base_qty = base_qty;
      created_by = some user.id;
      updated_by = some user.id;
      updated_at = now;
    }
    ∷ []
put_balance now user product_id q base_qty (b ∷ bs) =
    if b.product_id == product_id
    then record b { quantity = q; base_qty = base_qty; updated_by = some user.id; updated_at = now }
      ∷ bs
    else if ltb product_id b.product_id
    then record {
      product_id = product_id;
      quantity = q;
      base_qty = base_qty;
      created_by = some user.id;
      updated_by = some user.id;
      updated_at = now;
    }
      ∷ b
      ∷ bs
    else b ∷ put_balance now user product_id q base_qty bs

-- `product.current_packaging_rule()`, with the two refusals of `set_balance`
abbrev pub balance_rule : (now : ℕ) → Option Product → Result CutoverError PackagingRule
balance_rule now none = raise missing_product
balance_rule now (some p) = elim (current_packaging_rule p now) [
  | none ↦ raise no_packaging_rule
  | some rule ↦ ok rule
]

unfoldable pub set_balance :
    List Product
    → (now cutover_id product_id : ℕ) → (cartons packs pieces : ℤ) → Option User
    → Database
    → Result CutoverError Database
set_balance products now cutover_id product_id cartons packs pieces actor db = do
  user ← require_elevated actor
  c ← required_cutover (get_cutover cutover_id db)
  raise_if (not (is_draft c.status)) not_draft
  rule ← balance_rule now (find_product products product_id)
  q ← map_error packaging (normalize cartons packs pieces rule)
  n ← map_error packaging (to_base_units (pos q.cartons) (pos q.packs) (pos q.pieces) rule)
  ok (with_cutover (record c { balances = put_balance now user product_id q n c.balances }) db)

-- `cutover_status_report(...)["ready"]`: no active product is without a balance.
unfoldable pub is_ready : List Product → LedgerCutover → Bool
is_ready products c =
    not
      (exists_where (λ p. p.active && not (exists_where (is_balance_of p.id) c.balances)) products)

unfoldable pub verify_cutover :
    List Product → (now cutover_id : ℕ) → Option User → Database → Result CutoverError Database
verify_cutover products now cutover_id actor db = do
  user ← require_elevated actor
  c ← required_cutover (get_cutover cutover_id db)
  raise_if (not (is_draft c.status)) not_draft
  raise_if (not (is_ready products c)) not_ready
  ok (
      with_cutover
        (record c {
          status = CutoverStatus.verified;
          verified_by = some user.id;
          verified_at = some now;
          updated_at = now;
        })
        db)

unfoldable pub cancel_cutover :
    (now cutover_id : ℕ)
    → (reason : Option String) → Option User
    → Database
    → Result CutoverError Database
cancel_cutover now cutover_id reason actor db = do
  user ← require_elevated actor
  c ← required_cutover (get_cutover cutover_id db)
  raise_if (not (is_draft c.status || is_verified c.status)) not_cancellable
  raise_if (not (is_given reason)) reason_required
  ok (
      with_cutover
        (record c {
          status = CutoverStatus.cancelled;
          cancelled_by = some user.id;
          cancelled_at = some now;
          updated_at = now;
        })
        db)

-- The row of daily_figures that activation writes for a balance.
abbrev pub cutover_row : LedgerCutover → PackagingRule → User → Balance → DailyFigure → DailyFigure
cutover_row c rule user b figure =
    record (set_opening figure b.quantity (pos b.base_qty) ledger_cutover true) {
      cutover_id = some c.id;
      packaging_rule_id = rule_id rule;
      updated_by = some user.id;
    }

-- `product.current_packaging_rule()` and `rule.id`, where a None has no attribute
abbrev pub written_rule : (now : ℕ) → Option Product → Result CutoverError PackagingRule
written_rule now none = raise attribute_error
written_rule now (some p) = elim (current_packaging_rule p now) [
  | none ↦ raise attribute_error
  | some rule ↦ ok rule
]

abbrev pub store_row : Option DailyFigure → DailyFigure → Database → Database
store_row figure saved db = record db {
  figures = put_figure saved db.figures;
  next_id = next_id_after figure db.next_id;
}

abbrev pub balance_saved : LedgerCutover → PackagingRule → User → Balance → Database → DailyFigure
balance_saved c rule user b db = cutover_row c rule user b (
    figure_or_new db b.product_id c.effective_date c.effective_shift user
      (figure_at db b.product_id c.effective_date c.effective_shift))

-- The body of the loop over the balances.
unfoldable pub write_balance :
    List Product
    → (now : ℕ) → LedgerCutover
    → User
    → Balance
    → Database
    → Result CutoverError Database
write_balance products now c user b db = do
  rule ← written_rule now (find_product products b.product_id)
  ok (
      store_row (figure_at db b.product_id c.effective_date c.effective_shift)
        (balance_saved c rule user b db) db)

unfoldable pub write_balances :
    List Product
    → (now : ℕ) → LedgerCutover
    → User
    → List Balance
    → Database
    → Result CutoverError Database
write_balances products now c user [] db = ok db
write_balances products now c user (b ∷ bs) db =
    write_balance products now c user b db >>= λ db'. write_balances products now c user bs db'

-- An activated cutover at or after a period.
abbrev pub is_governing : (key : ℕ) → LedgerCutover → Bool
is_governing key other = is_activated other.status && leb key (cutover_key other)

abbrev pub activated_row : (now : ℕ) → User → LedgerCutover → LedgerCutover
activated_row now user c = record c {
  status = CutoverStatus.activated;
  activated_by = some user.id;
  activated_at = some now;
  updated_at = now;
}

-- `not preview_token or current_token != preview_token`
abbrev pub is_stale : String → Option String → Bool
is_stale current none = true
is_stale current (some token) = str_eq token "" || not (str_eq current token)

abbrev pub is_text : String → Option String → Bool
is_text expected none = false
is_text expected (some text) = str_eq text expected

-- `fingerprint` is the digest of a cutover's status and balances, `confirmation` the text that the
-- user has to type.
unfoldable pub activate_cutover :
    (fingerprint confirmation : LedgerCutover → String)
    → List Product
    → (now cutover_id : ℕ) → Option User
    → (preview_token confirmation_text : Option String) → (backup_confirmed : Bool)
    → (reason : Option String) → Database
    → Result CutoverError Database
activate_cutover fingerprint confirmation products now cutover_id actor token text backup reason
      db =
    do
      user ← require_elevated actor
      raise_if (not (is_given reason)) reason_required
      raise_if (not backup) backup_required
      c ← required_cutover (get_cutover cutover_id db)
      raise_if (is_activated c.status) already_activated
      raise_if (not (is_verified c.status)) not_verified
      raise_if (not (is_text (confirmation c) text)) wrong_confirmation
      raise_if (is_stale (fingerprint c) token) stale_preview
      raise_if (not (is_ready products c)) not_ready
      raise_if (exists_where (is_governing (cutover_key c)) db.cutovers) period_governed
      db' ← write_balances products now c user c.balances db
      ok (with_cutover (activated_row now user c) db')
