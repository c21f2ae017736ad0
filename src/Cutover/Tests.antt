-- ===== src/Cutover/Tests.antt =====
-- Tests of ledger_cutover_service.py: a verified cutover of one product, activated over a day on which
-- an opening was corrected.
use daily_figures.Common.{
  ◌<◌, ◌≡◌, ◌⊎◌, refl, inl, true, none, some, [], ◌∷◌, String, pos, Result, ok, raise, Member,
  arith,
}
use daily_figures.Records.{
  day, current_packaging_rule, LedgerCutover, CutoverStatus, Balance, is_activated,
}
use daily_figures.Stock.Database.{Database}
use daily_figures.Stock.Carry.{opening_base_qty_at}
use daily_figures.Stock.View.{cutover_key, get_active_cutover}
use daily_figures.Stock.Tests.{juice, chief, books}
use daily_figures.Cutover.{
  CutoverError, get_cutover, activated_row, new_cutover, create_draft, is_ready, write_balance,
  write_balances, activate_cutover,
}
use daily_figures.Cutover.Written.{IsKeyed}
use daily_figures.Cutover.Activation.{activate_cutover-openings, activate_cutover-governs}
use daily_figures.Cutover.Life.{draft, then, here, Steps-activated}

abbrev counted : Balance
counted = record {
  product_id = 7;
  quantity = record { cartons = 2; packs = 6; pieces = 0 };
  base_qty = 300;
  created_by = some 3;
  updated_by = some 3;
  updated_at = 50;
}

abbrev ready : LedgerCutover
ready = record {
  id = 5;
  effective_date = 100;
  effective_shift = day;
  status = CutoverStatus.verified;
  reason = some "count";
  created_by = some 3;
  verified_by = some 3;
  verified_at = some 60;
  activated_by = none;
  activated_at = none;
  cancelled_by = none;
  cancelled_at = none;
  updated_at = 60;
  balances = counted ∷ [];
}

abbrev before : Database
before = record books { cutovers = ready ∷ [] }

abbrev digest : LedgerCutover → String
digest c = "f0"

abbrev phrase : LedgerCutover → String
phrase c = "ACTIVATE"

abbrev after : Result CutoverError Database → Database
after (ok db) = db
after (raise e) = before

abbrev activation : Result CutoverError Database
activation =
    activate_cutover digest phrase (juice ∷ []) 70 5 (some chief) (some "f0") (some "ACTIVATE") true
      (some "go live") before

succeeds : activation ≡ ok (after activation)
unfolding activate_cutover write_balances write_balance is_ready current_packaging_rule
succeeds = refl

before-IsKeyed : IsKeyed before
before-IsKeyed = record { distinct = (tt, tt); below = (omega arith, tt) }

activate_cutover-openings_example :
    (b : Balance) × Member b ready.balances
    × (b.product_id ≡ 7)
    × (opening_base_qty_at (after activation) 7 100 day ≡ pos b.base_qty)
activate_cutover-openings_example =
    activate_cutover-openings digest phrase (juice ∷ []) 70 5 (some chief) (some "f0")
      (some "ACTIVATE") true (some "go live") ready before (after activation) before-IsKeyed refl
      (tt, tt) succeeds juice (inl refl) refl

activate_cutover-governs_example :
    (row : LedgerCutover) × (get_active_cutover (after activation) ≡ some row)
    × (row.id ≡ 5)
    × ((x : LedgerCutover)
        → Member x (after activation).cutovers
        → is_activated x.status ≡ true
        → (x ≡ row) ⊎ (cutover_key x < cutover_key row))
activate_cutover-governs_example =
    activate_cutover-governs digest phrase (juice ∷ []) 70 5 (some chief) (some "f0")
      (some "ACTIVATE") true (some "go live") before (after activation) succeeds

abbrev live : LedgerCutover
live = activated_row 70 chief ready

abbrev governed : Database
governed = record books { cutovers = live ∷ [] }

abbrev next_draft : Database
next_draft = record books { cutovers = new_cutover 6 80 120 day (some "recount") chief ∷ live ∷ [] }

drafted : create_draft 6 80 (some 120) day (some "recount") (some chief) governed ≡ ok next_draft
unfolding create_draft
drafted = refl

Steps-activated_example : get_cutover 5 next_draft ≡ some live
Steps-activated_example =
    Steps-activated digest phrase governed next_draft 5 live
      (then (draft 6 80 (some 120) day (some "recount") (some chief) refl drafted) here) refl refl
