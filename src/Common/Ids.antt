-- ===== src/Common/Ids.antt =====
-- The ids of a table whose engine counts them up.
use Prim.Native.Nat.{ℕ, zero, suc, ◌<◌}
use mathlib.Core.Logic.{◌⊎◌, inl, inr}
use mathlib.Core.List.{List, [], ◌∷◌, ◌++◌}
use native.Mathlib.Omega.{arith}
use daily_figures.Common.Tests.{◌==◌, ==_iff, Bool-cases}
use daily_figures.Common.Ordering.{Member}

-- In their order.
abbrev pub ids_below : ℕ → List ℕ
ids_below zero = []
ids_below (suc n) = ids_below n ++ (n ∷ [])

Member-append : (x : ℕ) (xs ys : List ℕ) → Member x xs ⊎ Member x ys → Member x (xs ++ ys)
Member-append x [] ys (inl m) = absurd m
Member-append x [] ys (inr m) = m
Member-append x (z ∷ zs) ys (inl (inl e)) = inl e
Member-append x (z ∷ zs) ys (inl (inr m)) = inr (Member-append x zs ys (inl m))
Member-append x (z ∷ zs) ys (inr m) = inr (Member-append x zs ys (inr m))

pub ids_below-Member : (n id : ℕ) → id < n → Member id (ids_below n)
ids_below-Member zero id h = absurd (omega arith)
ids_below-Member (suc n) id h = elim (Bool-cases (id == n)) [
  | inl last ↦ Member-append id (ids_below n) (n ∷ []) (inr (inl ((==_iff id n).0 last)))
  | inr before ↦
      Member-append id (ids_below n) (n ∷ []) (inl (ids_below-Member n id (ground arith)))
]
