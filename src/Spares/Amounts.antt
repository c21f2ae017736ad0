-- ===== src/Spares/Amounts.antt =====
-- spare_part_movement_service.py: its numbers. An amount that is entered is a Python `Decimal` of any
-- number of decimals; the columns hold three, and what is read from them is in thousandths.
use Prim.Native.Nat.{ℕ, ◌*◌, ◌-◌, ◌^◌, ◌%◌}
use daily_figures.Common.{Bool, suc, ℤ, pos, negsuc, ◌-ℤ◌, abs, leb, if◌then◌else◌, ◌==◌}

-- The number `units / 10 ** decimals`.
pub record Decimal : Type 0 where
  pub units : ℤ
  pub decimals : ℕ

abbrev pub scale : ℤ → ℕ → ℤ
scale (pos n) k = pos (n * k)
scale (negsuc n) k = pos 0 -ℤ pos (suc n * k)

abbrev pub from_thousandths : ℤ → Decimal
from_thousandths n = record { units = n; decimals = 3 }

-- The number of thousandths, for a number of three decimals at most.
abbrev pub to_thousandths : Decimal → ℤ
to_thousandths d = scale d.units (10 ^ (3 - d.decimals))

-- `counted_quantity - before`, with as many decimals as the operand that has more
unfoldable pub difference : Decimal → (before : ℤ) → Decimal
difference a before =
    if leb a.decimals 3
    then record { units = to_thousandths a -ℤ before; decimals = 3 }
    else record { units = a.units -ℤ scale before (10 ^ (a.decimals - 3)); decimals = a.decimals }

-- `abs(difference)`
abbrev pub magnitude : Decimal → Decimal
magnitude d = record d { units = pos (abs d.units) }

-- `quantity == quantity.to_integral_value()`
abbrev pub is_whole : Decimal → Bool
is_whole d = abs d.units % 10 ^ d.decimals == 0

-- What the database engine does with the column of a cached stock, whose values are `Stored`, and what
-- a `Decimal` that is written to a column of three decimals is read back as.
pub record Engine (Stored : Type 0) : Type 0 where
  pub add : Stored → Decimal → Stored
  pub subtract : Stored → Decimal → Stored
  pub at_least : Stored → Decimal → Bool
  pub read_back : Decimal → ℤ
