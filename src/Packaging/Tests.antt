-- ===== src/Packaging/Tests.antt =====
-- Packaging quantities of one product with a pack tier and of one without.
use daily_figures.Common.{◌≡◌, refl, ok, raise, ◌>>=◌, pos, negsuc, arith}
use daily_figures.Packaging.{
  PackagingRule, pack_tier, no_pack_tier, negative_part, normalize, to_base_units, from_base_units,
  normalize_counts, roll_up,
}
use daily_figures.Packaging.Canonical.{
  IsCanonical, count_again, normalize-eq-split, from_base_units-to_base_units,
  normalize-IsCanonical, normalize-to_base_units,
}

-- 12 packs to a carton, 10 pieces to a pack.
abbrev boxes : PackagingRule
boxes = pack_tier 1 12 10

-- 24 pieces to a carton.
abbrev bags : PackagingRule
bags = no_pack_tier 2 24

normalize-carries :
    normalize (pos 1) (pos 11) (pos 25) boxes ≡ ok (record { cartons = 2; packs = 1; pieces = 5 })
unfolding normalize normalize_counts roll_up
normalize-carries = refl

normalize-refuses : normalize (pos 1) (negsuc 0) (pos 0) boxes ≡ raise negative_part
unfolding normalize
normalize-refuses = refl

normalize-eq-split_example :
    normalize (pos 1) (pos 11) (pos 25) boxes
    ≡ (to_base_units (pos 1) (pos 11) (pos 25) boxes >>= λ n. from_base_units (pos n) boxes)
normalize-eq-split_example =
    normalize-eq-split (pos 1) (pos 11) (pos 25) boxes (omega arith, omega arith)

from_base_units-to_base_units_example :
    (from_base_units (pos 100) bags >>= count_again bags) ≡ ok 100
from_base_units-to_base_units_example = from_base_units-to_base_units 100 bags (omega arith)

normalize-IsCanonical_example : IsCanonical boxes (record { cartons = 2; packs = 1; pieces = 5 })
normalize-IsCanonical_example =
    normalize-IsCanonical (pos 1) (pos 11) (pos 25) boxes (omega arith, omega arith)
      normalize-carries

normalize-to_base_units_example :
    (normalize (pos 1) (pos 0) (pos 25) bags >>= count_again bags)
    ≡ to_base_units (pos 1) (pos 0) (pos 25) bags
normalize-to_base_units_example =
    normalize-to_base_units (pos 1) (pos 0) (pos 25) bags (omega arith)
