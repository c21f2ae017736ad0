-- ===== src/Spares/Tests.antt =====
-- Tests of spare_part_movement_service.py, on an engine that calculates in thousandths.
use daily_figures.Common.{
  ℕ, ◌≡◌, refl, true, false, none, some, [], ◌∷◌, String, ℤ, pos, ◌==◌, if◌then◌else◌, Result, ok,
  raise, ◌⊎◌, is_negative, leb_ℤ, arith, List,
}
use daily_figures.Common.Int.{◌+ℤ◌, ◌-ℤ◌}
use daily_figures.Stock.Tests.{chief}
use daily_figures.Spares.{
  litres, SparePart, Ledger, stock_loop, current_stock, bulk_current_stock, stock_status_for, low,
}
use daily_figures.Spares.Amounts.{Decimal, Engine, to_thousandths, difference, magnitude}
use daily_figures.Spares.Record.{
  MovementError, insufficient_stock, increase_cache, decrease_cache, create_movement,
  validate_quantity_for_unit, record_stock_in, record_stock_out, record_stock_count, correct_stock,
}
use daily_figures.Spares.Balance.{bulk_current_stock-eq}
use daily_figures.Spares.Count.{ReadsBack, Counted, NewestCompares, Short, record_stock_count-exact}
use daily_figures.Spares.Shelf.{
  issue, Request, receive, count, handle, effect_of, Follows, handle-Follows,
}

abbrev engine : Engine ℤ
engine = record {
  add = λ c q. c +ℤ to_thousandths q;
  subtract = λ c q. c -ℤ to_thousandths q;
  at_least = λ c q. leb_ℤ (to_thousandths q) c;
  read_back = to_thousandths;
}

engine-ReadsBack : ReadsBack engine
engine-ReadsBack = record { exact = λ d few fits. refl }

abbrev oil : SparePart ℤ
oil = record {
  id = 7;
  unit = litres;
  minimum_stock = some (pos 5000);
  active = true;
  current_stock_cache = pos 0;
}

abbrev empty_store : Ledger ℤ
empty_store = record {
  part_at = λ id. if id == 7 then some oil else none;
  machine_at = λ _. none;
  movements = [];
  next_movement_id = 1;
}

abbrev as_given : String → String
as_given text = text

abbrev tenths : ℕ → Decimal
tenths n = record { units = pos n; decimals = 1 }

abbrev received : Request ℤ
received = receive oil (some (tenths 45)) chief 20 none none none

abbrev counted : Request ℤ
counted = count oil (some (tenths 40)) chief 21 (some "shelf count") none

abbrev issued : Request ℤ
issued = issue oil (some (tenths 95)) chief 22 (some "Moses") none none none none

abbrev after : Ledger ℤ → Result MovementError (Ledger ℤ) → Ledger ℤ
after db (ok db') = db'
after db (raise e) = db

abbrev run : List (Request ℤ) → Ledger ℤ → Ledger ℤ
run [] db = db
run (r ∷ rs) db = run rs (after db (handle engine as_given r db))

-- Of two deliveries, a count and an issue that is too large, the issue leaves nothing behind.
stock_after :
    current_stock 7 (run (received ∷ received ∷ counted ∷ issued ∷ []) empty_store).movements
    ≡ pos 4000
unfolding current_stock stock_loop handle record_stock_in record_stock_out record_stock_count
    correct_stock create_movement validate_quantity_for_unit increase_cache decrease_cache
    difference ◌+ℤ◌ ◌-ℤ◌
stock_after = refl

status_after : stock_status_for oil (some (pos 5000)) [] ≡ low
unfolding stock_status_for
status_after = refl

handle-Follows_example :
    Follows engine
      (effect_of engine received [])
      empty_store
      (after empty_store (handle engine as_given received empty_store))
unfolding handle record_stock_in create_movement validate_quantity_for_unit increase_cache
handle-Follows_example =
    handle-Follows engine as_given received empty_store
      (after empty_store (handle engine as_given received empty_store)) refl

bulk_current_stock-eq_example : bulk_current_stock (7 ∷ 8 ∷ []) [] 8 ≡ some (current_stock 8 [])
bulk_current_stock-eq_example = bulk_current_stock-eq (7 ∷ 8 ∷ []) [] 8

counting : Counted as_given oil (tenths 40) (some "shelf count") empty_store
unfolding current_stock stock_loop difference ◌-ℤ◌
counting = record {
  in_use = refl;
  positive = refl;
  whole = refl;
  whole_difference = refl;
  for_reason = refl;
  three_decimals = omega arith;
  fits = omega arith;
}

record_stock_count-exact_example :
    ((db' : Ledger ℤ) × (record_stock_count engine as_given oil
          (some (tenths 40))
          chief
          21
          (some "shelf count")
          none
          empty_store
        ≡ ok db')
      × (current_stock 7 db'.movements ≡ to_thousandths (tenths 40))
      × ((id : ℕ) → (id == 7) ≡ false → current_stock id db'.movements ≡ current_stock id [])
      × NewestCompares db'.movements (current_stock 7 []) (to_thousandths (tenths 40)))
    ⊎ ((record_stock_count engine as_given oil
            (some (tenths 40))
            chief
            21
            (some "shelf count")
            none
            empty_store
          ≡ raise insufficient_stock)
        × (is_negative (to_thousandths (tenths 40) -ℤ current_stock 7 []) ≡ true)
        × Short engine 7 (magnitude (difference (tenths 40) (current_stock 7 []))) empty_store)
record_stock_count-exact_example =
    record_stock_count-exact engine as_given oil (tenths 40) chief 21 (some "shelf count") none
      empty_store engine-ReadsBack counting
