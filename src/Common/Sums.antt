-- ===== src/Common/Sums.antt =====
-- `SELECT coalesce(sum(qty), 0) ... WHERE test`: the sum over the rows that pass a test.
use Prim.Native.Nat.{ℕ, ◌+◌}
use mathlib.Core.Path.{◌≡◌, refl, ◌∙◌}
use mathlib.Core.Logic.{inl, inr}
use mathlib.Core.Bool.{Bool, true, false, ◌||◌, ◌&&◌}
use mathlib.Core.Option.{Option, none, some}
use mathlib.Core.List.{List, [], ◌∷◌}
use native.Mathlib.Omega.{arith}
use daily_figures.Common.Tests.{if◌then◌else◌, Bool-cases}
use daily_figures.Common.Int.{ℤ, pos, ◌+ℤ◌, int_laws}

-- 1 where a row counts, 0 where it does not.
abbrev pub count_of : Bool → ℕ
count_of true = 1
count_of false = 0

split_term :
    (a b c : Bool) (v s t : ℤ)
    → count_of c ≡ count_of a + count_of b
    → (if c then v else pos 0) +ℤ (s +ℤ t)
      ≡ ((if a then v else pos 0) +ℤ s) +ℤ ((if b then v else pos 0) +ℤ t)
split_term false false false v s t h = omega int_laws
split_term true false false v s t h = absurd (omega arith)
split_term false true false v s t h = absurd (omega arith)
split_term true true false v s t h = absurd (omega arith)
split_term false false true v s t h = absurd (omega arith)
split_term true false true v s t h = omega int_laws
split_term false true true v s t h = omega int_laws
split_term true true true v s t h = absurd (omega arith)

module _ {A : Type 0} where
  abbrev pub sum_where : (A → Bool) → (A → ℤ) → List A → ℤ
  sum_where p q [] = pos 0
  sum_where p q (x ∷ xs) = (if p x then q x else pos 0) +ℤ sum_where p q xs

  -- `SELECT EXISTS (... WHERE test)`
  abbrev pub exists_where : (A → Bool) → List A → Bool
  exists_where p [] = false
  exists_where p (x ∷ xs) = p x || exists_where p xs

  abbrev pub filter_where : (A → Bool) → List A → List A
  filter_where p [] = []
  filter_where p (x ∷ xs) = let rest = filter_where p xs in if p x then x ∷ rest else rest

  abbrev pub find_first : (A → Bool) → List A → Option A
  find_first p [] = none
  find_first p (x ∷ xs) = if p x then some x else find_first p xs

  -- A sum splits as its test does.
  pub sum_where-split :
      (c a b : A → Bool) (q : A → ℤ) (xs : List A)
      → ((x : A) → count_of (c x) ≡ count_of (a x) + count_of (b x))
      → sum_where c q xs ≡ sum_where a q xs +ℤ sum_where b q xs
  sum_where-split c a b q [] h = omega int_laws
  sum_where-split c a b q (x ∷ xs) h =
      rw (sum_where-split c a b q xs h)
        (split_term (a x) (b x) (c x) (q x) (sum_where a q xs) (sum_where b q xs) (h x))

  pub sum_where-congr :
      (c a : A → Bool) (q : A → ℤ) (xs : List A)
      → ((x : A) → c x ≡ a x)
      → sum_where c q xs ≡ sum_where a q xs
  sum_where-congr c a q [] h = refl
  sum_where-congr c a q (x ∷ xs) h = rw (h x, sum_where-congr c a q xs h)

  -- Where no row passes, the sum is zero.
  pub sum_where-none :
      (c : A → Bool) (q : A → ℤ) (xs : List A)
      → exists_where c xs ≡ false
      → sum_where c q xs ≡ pos 0
  sum_where-none c q [] h = refl
  sum_where-none c q (x ∷ xs) h = elim (Bool-cases (c x)) [
    | inl passes ↦ cc
    | inr fails ↦ rw fails (rw (sum_where-none c q xs (rw fails at h)) (omega int_laws))
  ]

  pub sum_where-zero :
      (c : A → Bool) (q : A → ℤ) (xs : List A) → ((x : A) → c x ≡ false) → sum_where c q xs ≡ pos 0
  sum_where-zero c q [] h = refl
  sum_where-zero c q (x ∷ xs) h = rw (h x, sum_where-zero c q xs h) (omega int_laws)

  pub sum_where-filter :
      (c p : A → Bool) (q : A → ℤ) (xs : List A)
      → sum_where p q (filter_where c xs) ≡ sum_where (λ x. c x && p x) q xs
  sum_where-filter c p q [] = refl
  sum_where-filter c p q (x ∷ xs) = elim (Bool-cases (c x)) [
    | inl kept ↦ rw (kept, sum_where-filter c p q xs)
    | inr dropped ↦ rw dropped (sum_where-filter c p q xs ∙ omega int_laws)
  ]
