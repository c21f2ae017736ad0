-- ===== src/Common/Ordering.antt =====
-- `sorted(rows, key=..., reverse=True)` and the scan for the first row that passes a test: together
-- they find the greatest row that passes.
use Prim.Native.Nat.{ℕ, ◌≤◌}
use mathlib.Core.Path.{◌≡◌, refl}
use mathlib.Core.Logic.{◌⊎◌, inl, inr}
use mathlib.Core.Bool.{Bool, true, false}
use mathlib.Core.Option.{none, some}
use mathlib.Core.List.{List, [], ◌∷◌}
use native.Mathlib.Omega.{arith}
use daily_figures.Common.Tests.{leb, if◌then◌else◌, Bool-cases}
use daily_figures.Common.Sums.{filter_where, find_first, exists_where}

module _ {A : Type 0} where
  -- `a` is one of the rows.
  abbrev pub Member : A → List A → Type 0
  Member a [] = ⊥
  Member a (x ∷ xs) = (a ≡ x) ⊎ Member a xs

  pub Member-filter :
      (p : A → Bool) (a : A) (xs : List A)
      → Member a (filter_where p xs)
      → Member a xs × (p a ≡ true)
  Member-filter p a [] m = absurd m
  Member-filter p a (x ∷ xs) m = ground (arith, Member-filter p a xs)

  pub Member-filter_intro :
      (p : A → Bool) (a : A) (xs : List A) → Member a xs → p a ≡ true → Member a (filter_where p xs)
  Member-filter_intro p a [] m h = absurd m
  Member-filter_intro p a (x ∷ xs) (inl e) h = rw (← e) (rw h (inl refl))
  Member-filter_intro p a (x ∷ xs) (inr m) h = elim (Bool-cases (p x)) [
    | inl passes ↦ rw passes (inr (Member-filter_intro p a xs m h))
    | inr fails ↦ rw fails (Member-filter_intro p a xs m h)
  ]

  pub find_first-Member :
      (p : A → Bool) (xs : List A) (a : A) → find_first p xs ≡ some a → Member a xs × (p a ≡ true)
  find_first-Member p [] a e = absurd (cc)
  find_first-Member p (x ∷ xs) a e = ground (arith, find_first-Member p xs a)

  pub find_first-none :
      (p : A → Bool) (xs : List A) (b : A) → find_first p xs ≡ none → Member b xs → p b ≡ false
  find_first-none p [] b e m = absurd m
  find_first-none p (x ∷ xs) b e (inl same) = ground arith
  find_first-none p (x ∷ xs) b e (inr m) = ground (arith, find_first-none p xs b)

  pub exists_where-Member :
      (p : A → Bool) (xs : List A) → exists_where p xs ≡ true → (a : A) × Member a xs × (p a ≡ true)
  exists_where-Member p [] h = absurd (cc)
  exists_where-Member p (x ∷ xs) h = elim (Bool-cases (p x)) [
    | inl passes ↦ (x, inl refl, passes)
    | inr fails ↦
        let (a, m, passes) = exists_where-Member p xs (rw fails at h) in (a, inr m, passes)
  ]

  pub exists_where-none :
      (p : A → Bool) (xs : List A) (a : A) → exists_where p xs ≡ false → Member a xs → p a ≡ false
  exists_where-none p [] a h m = absurd m
  exists_where-none p (x ∷ xs) a h m = ground (arith, exists_where-none p xs a)

module _ {A : Type 0} (key : A → ℕ) where
  -- Rows with equal keys keep their order, as Python's stable sort keeps it under `reverse=True`.
  abbrev pub insert_desc : A → List A → List A
  insert_desc x [] = x ∷ []
  insert_desc x (y ∷ ys) = if leb (key y) (key x) then x ∷ y ∷ ys else y ∷ insert_desc x ys

  abbrev pub sort_desc : List A → List A
  sort_desc [] = []
  sort_desc (x ∷ xs) = insert_desc x (sort_desc xs)

  Bounds : ℕ → List A → Type 0
  Bounds k [] = Unit
  Bounds k (x ∷ xs) = (key x ≤ k) × Bounds k xs

  IsDesc : List A → Type 0
  IsDesc [] = Unit
  IsDesc (x ∷ xs) = Bounds (key x) xs × IsDesc xs

  Bounds-trans : (j k : ℕ) (xs : List A) → j ≤ k → Bounds j xs → Bounds k xs
  unfolding Bounds
  Bounds-trans j k [] h b = tt
  Bounds-trans j k (x ∷ xs) h b = (omega arith, Bounds-trans j k xs h b.1)

  Bounds-Member : (k : ℕ) (xs : List A) (a : A) → Bounds k xs → Member a xs → key a ≤ k
  unfolding Bounds
  Bounds-Member k [] a b m = absurd m
  Bounds-Member k (x ∷ xs) a b (inl e) = rw e b.0
  Bounds-Member k (x ∷ xs) a b (inr m) = Bounds-Member k xs a b.1 m

  Bounds-insert :
      (k : ℕ) (x : A) (xs : List A) → key x ≤ k → Bounds k xs → Bounds k (insert_desc x xs)
  unfolding Bounds
  Bounds-insert k x [] h b = (h, tt)
  Bounds-insert k x (y ∷ ys) h b = ground (arith, Bounds-insert k x ys h b.1)

  IsDesc-insert : (x : A) (xs : List A) → IsDesc xs → IsDesc (insert_desc x xs)
  unfolding IsDesc Bounds
  IsDesc-insert x [] d = (tt, tt)
  IsDesc-insert x (y ∷ ys) d =
      ground
        (arith, Bounds-trans (key y) (key x) ys, Bounds-insert (key y) x ys, IsDesc-insert x ys d.1)

  IsDesc-sort : (xs : List A) → IsDesc (sort_desc xs)
  unfolding IsDesc
  IsDesc-sort [] = tt
  IsDesc-sort (x ∷ xs) = IsDesc-insert x (sort_desc xs) (IsDesc-sort xs)

  Member-insert : (a x : A) (xs : List A) → Member a (insert_desc x xs) → (a ≡ x) ⊎ Member a xs
  Member-insert a x [] m = m
  Member-insert a x (y ∷ ys) m = ground (arith, Member-insert a x ys)

  Member-insert_intro :
      (a x : A) (xs : List A) → (a ≡ x) ⊎ Member a xs → Member a (insert_desc x xs)
  Member-insert_intro a x [] m = m
  Member-insert_intro a x (y ∷ ys) m = ground (arith, Member-insert_intro a x ys)

  Member-sort : (a : A) (xs : List A) → Member a (sort_desc xs) → Member a xs
  Member-sort a [] m = m
  Member-sort a (x ∷ xs) m = ground (arith, Member-insert a x (sort_desc xs) m, Member-sort a xs)

  Member-sort_intro : (a : A) (xs : List A) → Member a xs → Member a (sort_desc xs)
  Member-sort_intro a [] m = m
  Member-sort_intro a (x ∷ xs) m =
      ground (arith, Member-insert_intro a x (sort_desc xs), Member-sort_intro a xs)

  module _ (p : A → Bool) where
    find_first-greatest :
        (xs : List A) (a b : A)
        → IsDesc xs
        → find_first p xs ≡ some a
        → Member b xs
        → p b ≡ true
        → key b ≤ key a
    unfolding IsDesc
    find_first-greatest [] a b d e m h = absurd m
    find_first-greatest (x ∷ xs) a b d e (inl same) h = ground arith
    find_first-greatest (x ∷ xs) a b d e (inr m) h = elim (Bool-cases (p x)) [
      | inl passes ↦ ground (arith, Bounds-Member (key x) xs b d.0 m)
      | inr fails ↦ find_first-greatest xs a b d.1 (rw fails at e) m h
    ]

    -- Filtering, sorting from the greatest and taking the first that passes gives a row ...
    pub first_of_sorted-Member :
        (c : A → Bool) (xs : List A) (a : A)
        → find_first p (sort_desc (filter_where c xs)) ≡ some a
        → Member a xs × (c a ≡ true) × (p a ≡ true)
    first_of_sorted-Member c xs a e =
        let (m, h) = find_first-Member p (sort_desc (filter_where c xs)) a e in
        let (m', h') = Member-filter c a xs (Member-sort a (filter_where c xs) m) in (m', h', h)

    -- ... that is the greatest of those that pass,
    pub first_of_sorted-greatest :
        (c : A → Bool) (xs : List A) (a b : A)
        → find_first p (sort_desc (filter_where c xs)) ≡ some a
        → Member b xs
        → c b ≡ true
        → p b ≡ true
        → key b ≤ key a
    first_of_sorted-greatest c xs a b e m hc hp =
        find_first-greatest (sort_desc (filter_where c xs)) a b (IsDesc-sort (filter_where c xs)) e
          (Member-sort_intro b (filter_where c xs) (Member-filter_intro c b xs m hc)) hp

    -- ... or nothing, where no row passes.
    pub first_of_sorted-none :
        (c : A → Bool) (xs : List A) (b : A)
        → find_first p (sort_desc (filter_where c xs)) ≡ none
        → Member b xs
        → c b ≡ true
        → p b ≡ false
    first_of_sorted-none c xs b e m hc =
        find_first-none p (sort_desc (filter_where c xs)) b e
          (Member-sort_intro b (filter_where c xs) (Member-filter_intro c b xs m hc))
