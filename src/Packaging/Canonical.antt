-- ===== src/Packaging/Canonical.antt =====
-- webapp/services/packaging.py: the canonical split of a total, and normalising.
use native.Mathlib.Nat.{
  div-eq_of_lt, mod-eq_of_lt, mul-add-div_right, mul-add-mod_self_right, add_assoc, div-add-mod',
  mod-lt,
}
use daily_figures.Common.{
  ℕ, ◌+◌, ◌*◌, ◌/◌, ◌%◌, ◌<◌, ◌≡◌, refl, Result, ok, ◌>>=◌, ℤ, pos, negsuc, arith, inl, inr, ◌==◌,
  Bool-cases, Result-cases, Result, ==_iff,
}
use daily_figures.Packaging.{
  PackagingRule, pack_tier, no_pack_tier, IsPositive, PackagingError, Quantity, divmod, roll_up,
  normalize_counts, normalize, count_base_units, to_base_units, split_base_units, from_base_units,
}

-- With a positive ratio the carry is a division with remainder, whether or not the code carries.
roll_up-eq-divmod :
    (ratio high low : ℕ) → 0 < ratio → roll_up ratio high low ≡ ok (high + low / ratio, low % ratio)
unfolding roll_up
roll_up-eq-divmod ratio high low h =
    ground (arith, div-eq_of_lt {n = low} {m = ratio}, mod-eq_of_lt {n = low} {m = ratio})

divmod_mul_add :
    (ratio high low : ℕ)
    → 0 < ratio
    → divmod (high * ratio + low) ratio ≡ ok (high + low / ratio, low % ratio)
unfolding divmod
divmod_mul_add ratio high low h =
    ground (arith, mul-add-div_right h high low, mul-add-mod_self_right high ratio low)

-- On counts, normalising is splitting the total.
normalize_counts-eq :
    (cartons packs pieces : ℕ) (rule : PackagingRule)
    → IsPositive rule
    → normalize_counts cartons packs pieces rule
      ≡ (count_base_units cartons packs pieces rule >>= λ n. split_base_units n rule)
unfolding normalize_counts count_base_units split_base_units
normalize_counts-eq c p s (pack_tier _ cp pp) h = rw (roll_up-eq-divmod pp p s h.1) (
    rw (roll_up-eq-divmod cp c (p + s / pp) h.0) (
      rw (divmod_mul_add pp (c * cp + p) s h.1)
        (rw (add_assoc (c * cp) p (s / pp)) (rw (divmod_mul_add cp c (p + s / pp) h.0)))))
normalize_counts-eq c p s (no_pack_tier _ cp) h =
    rw (roll_up-eq-divmod cp c s h) (elim (Bool-cases (p == 0)) [
      | inl none_left ↦ rw (none_left, divmod_mul_add cp c s h) (rw ((==_iff p 0).0 none_left))
      | inr packs_left ↦ rw packs_left
    ])

-- The parts of a split, counted again.
abbrev pub count_again : PackagingRule → Quantity → Result PackagingError ℕ
count_again rule q = to_base_units (pos q.cartons) (pos q.packs) (pos q.pieces) rule

-- With positive ratios, normalising is converting to pieces and splitting the total again: the same
-- quantity, and the same error on a negative part or on packs that the product does not have.
pub normalize-eq-split :
    (cartons packs pieces : ℤ) (rule : PackagingRule)
    → IsPositive rule
    → normalize cartons packs pieces rule
      ≡ (to_base_units cartons packs pieces rule >>= λ n. from_base_units (pos n) rule)
unfolding normalize to_base_units from_base_units
normalize-eq-split (pos c) (pos p) (pos s) rule h = normalize_counts-eq c p s rule h
normalize-eq-split (pos c) (pos p) (negsuc s) rule h = refl
normalize-eq-split (pos c) (negsuc p) s rule h = refl
normalize-eq-split (negsuc c) p s rule h = refl

divmod_pos : (n d : ℕ) → 0 < d → divmod n d ≡ ok (n / d, n % d)
unfolding divmod
divmod_pos n d h = ground arith

-- With positive ratios, splitting a total of pieces succeeds, and counting the parts gives it back.
pub from_base_units-to_base_units :
    (n : ℕ) (rule : PackagingRule)
    → IsPositive rule
    → (from_base_units (pos n) rule >>= count_again rule) ≡ ok n
unfolding to_base_units from_base_units divmod count_base_units split_base_units
from_base_units-to_base_units n (pack_tier _ cp pp) h =
    rw (divmod_pos n pp h.1)
      (rw (divmod_pos (n / pp) cp h.0) (rw (div-add-mod' (n / pp) cp) (rw (div-add-mod' n pp))))
from_base_units-to_base_units n (no_pack_tier _ cp) h =
    rw (divmod_pos n cp h) (rw (div-add-mod' n cp))

-- Each part of a canonical split fits below the next unit.
abbrev pub IsCanonical : PackagingRule → Quantity → Type 0
IsCanonical (pack_tier _ cartons_to_packs packs_to_pieces) q =
    (q.packs < cartons_to_packs) × (q.pieces < packs_to_pieces)
IsCanonical (no_pack_tier _ carton_to_pieces) q = (q.packs ≡ 0) × (q.pieces < carton_to_pieces)

from_base_units-IsCanonical :
    (n : ℕ) (rule : PackagingRule) {q : Quantity}
    → IsPositive rule
    → from_base_units (pos n) rule ≡ ok q
    → IsCanonical rule q
unfolding from_base_units
from_base_units-IsCanonical n (pack_tier _ cp pp) h e =
    ground
      (arith, divmod_pos n pp h.1, divmod_pos (n / pp) cp h.0, mod-lt (n / pp) h.0, mod-lt n h.1)
from_base_units-IsCanonical n (no_pack_tier _ cp) h e =
    ground (arith, divmod_pos n cp h, mod-lt n h)

-- With positive ratios, what `normalize` returns has packs and pieces below the product's ratios,
-- and no packs where the product has none.
pub normalize-IsCanonical :
    (cartons packs pieces : ℤ) (rule : PackagingRule) {q : Quantity}
    → IsPositive rule
    → normalize cartons packs pieces rule ≡ ok q
    → IsCanonical rule q
normalize-IsCanonical c p s rule h e = elim (Result-cases (to_base_units c p s rule)) [
  | inl (n, counted) ↦
      from_base_units-IsCanonical n rule h
        (rw counted at (rw (normalize-eq-split c p s rule h) at e))
  | inr (err, failed) ↦ absurd (cc (normalize-eq-split c p s rule h))
]

-- With positive ratios, normalising drops no pack and no piece: the parts that it returns count up
-- to the total of the parts that it was given, and it fails where that total has none.
pub normalize-to_base_units :
    (cartons packs pieces : ℤ) (rule : PackagingRule)
    → IsPositive rule
    → (normalize cartons packs pieces rule >>= count_again rule)
      ≡ to_base_units cartons packs pieces rule
normalize-to_base_units c p s rule h =
    rw (normalize-eq-split c p s rule h) (elim (Result-cases (to_base_units c p s rule)) [
      | inl (n, counted) ↦ rw counted (from_base_units-to_base_units n rule h)
      | inr (err, failed) ↦ rw failed
    ])
