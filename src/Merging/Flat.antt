-- ===== src/Merging/Flat.antt =====
-- customer_service.py: tables where each chain of links is one link long.
use daily_figures.Common.{
  ℕ, suc, ◌≡◌, refl, sym, ◌∙◌, ap, inl, inr, true, false, Option, none, some, [], ◌==◌, Bool-cases,
  Option-cases, Result, ok, raise, bind_ok, raise_if_ok, arith,
}
use daily_figures.Merging.{
  MergeError, into_itself, resolves_to_source, Customer, Customers, Walk, found, gone, unfinished,
  resolve_loop, resolve_canonical, root_or_error, is_merged_into, repointed, merged_table, Merged,
  merged, merge_customers,
}

-- Each customer that is merged is linked to one that is not.
pub record IsFlat (db : Customers) : Type 0 where
  pub own_id : (id : ℕ) (c : Customer) → db.customer_at id ≡ some c → c.id ≡ id
  pub roots :
      (id m : ℕ) (c : Customer)
      → db.customer_at id ≡ some c
      → c.merged_into_id ≡ some m
      → (r : Customer) × (db.customer_at m ≡ some r) × (r.merged_into_id ≡ none)

-- The id of the customer that stands for one, where chains are one link long.
abbrev pub root_id : Customer → ℕ
root_id c = elim c.merged_into_id [ none ↦ c.id | some m ↦ m ]

-- Where chains are one link long the walk from any customer ends, with two turns or any more, at a
-- customer of the table that is not merged itself.
pub resolve_loop-root :
    (fuel id : ℕ) (c : Customer) (db : Customers)
    → IsFlat db
    → db.customer_at id ≡ some c
    → (r : Customer) × (resolve_loop (suc (suc fuel)) [] c db ≡ found r)
      × (resolve_canonical c db ≡ found r)
      × (db.customer_at r.id ≡ some r)
      × (r.merged_into_id ≡ none)
      × (r.id ≡ root_id c)
unfolding resolve_loop resolve_canonical
resolve_loop-root fuel id c db flat at = elim (Option-cases c.merged_into_id) [
  | inl alone ↦ (c, cc, cc, ap db.customer_at (flat.own_id id c at) ∙ at, alone, cc)
  | inr (m, linked) ↦
      let (r, at_m, alone) = flat.roots id m c at linked in
      (
        r,
        ground (arith, linked, at_m, alone),
        ground (arith, linked, at_m, alone),
        ap db.customer_at (flat.own_id m r at_m) ∙ at_m,
        alone,
        flat.own_id m r at_m ∙ cc,
      )
]

abbrev merged_or : Merged → Result MergeError Merged → Merged
merged_or d (ok x) = x
merged_or d (raise err) = d

abbrev walked : Walk → Customer → Customer
walked (found c) d = c
walked gone d = d
walked unfinished d = d

pub merge_customers-ok :
    (source target : Customer) (tid : ℕ) (db : Customers) (result : Merged)
    → IsFlat db
    → db.customer_at tid ≡ some target
    → merge_customers source target db ≡ ok result
    → (root : Customer) × (merged source root.id db ≡ result)
      × (db.customer_at root.id ≡ some root)
      × (root.merged_into_id ≡ none)
      × ((root.id == source.id) ≡ false)
      × (resolve_canonical target db ≡ found root)
unfolding merge_customers
merge_customers-ok source target tid db result flat at e =
    let (root, _, walk, own, alone, _) = resolve_loop-root 0 tid target db flat at in
    let (_, e1) = raise_if_ok (source.id == target.id) into_itself _ e in
    let (found_root, is_root, e2) = bind_ok (root_or_error (resolve_canonical target db)) _ e1 in
    let (apart, e3) = raise_if_ok (found_root.id == source.id) resolves_to_source _ e2 in
    let same : root ≡ found_root = ap (root_or target) (rw walk at is_root) in
    (
      root,
      ap (λ (r : Customer). merged source r.id db) same
          ∙ ap (merged_or (merged source found_root.id db)) e3,
      own,
      alone,
      ap (λ (r : Customer). r.id == source.id) same ∙ apart,
      walk,
    )
  where
    root_or : Customer → Result MergeError Customer → Customer
    root_or d (ok c) = c
    root_or d (raise err) = d

repointed-none :
    (source target : ℕ) (r : Customer)
    → r.merged_into_id ≡ none
    → repointed source target (some r) ≡ some r
repointed-none source target r alone = cc

-- The row of a customer after a merge.
pub merged_row :
    (source : Customer) (target id : ℕ) (db : Customers)
    → (id == source.id) ≡ false
    → (merged_table source target db).customer_at id
      ≡ repointed source.id target (db.customer_at id)
merged_row source target id db other = rw other refl

pub root_kept :
    (source : Customer) (target id : ℕ) (r : Customer) (db : Customers)
    → db.customer_at id ≡ some r
    → r.merged_into_id ≡ none
    → (id == source.id) ≡ false
    → (merged_table source target db).customer_at id ≡ some r
root_kept source target id r db at alone other =
    merged_row source target id db other
    ∙ ap (repointed source.id target) at
    ∙ repointed-none source.id target r alone

-- Where a customer's link goes after a merge: as before, unless it went to the source.
pub data Relinked (source target : ℕ) (a c : Customer) : Type 0 where
  kept : a ≡ c → is_merged_into (some a) source ≡ false → Relinked source target a c
  moved :
      c.merged_into_id ≡ some target
      → c.id ≡ a.id
      → is_merged_into (some a) source ≡ true
      → Relinked source target a c

pub repointed-Relinked :
    (source target : ℕ) (o : Option Customer) (c : Customer)
    → repointed source target o ≡ some c
    → (a : Customer) × (o ≡ some a) × Relinked source target a c
repointed-Relinked source target none c e = absurd (cc)
repointed-Relinked source target (some a) c e = elim (Bool-cases (is_merged_into (some a) source)) [
  | inl dependent ↦
      let same = ap (given a) (rw dependent at e) in
      (
        a,
        refl,
        moved (ap (λ (x : Customer). x.merged_into_id) (sym same))
            (ap (λ (x : Customer). x.id) (sym same)) dependent,
      )
  | inr other ↦ (a, refl, kept (ap (given a) (rw other at e)) other)
]
  where
    given : Customer → Option Customer → Customer
    given d none = d
    given d (some x) = x
