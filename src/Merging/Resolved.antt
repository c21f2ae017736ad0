-- ===== src/Merging/Resolved.antt =====
-- customer_service.py: where the walks of resolve_canonical end after a merge.
use daily_figures.Common.{
  ℕ, ◌≡◌, refl, sym, ◌∙◌, ap, inl, inr, Bool, false, ◌||◌, Option, none, some, ◌==◌, if◌then◌else◌,
  Bool-cases, ok,
}
use daily_figures.Merging.{
  Customer, Customers, found, resolve_canonical, repointed, merged_customer, merged_table, Merged,
  merge_customers,
}
use daily_figures.Merging.Flat.{root_id, resolve_loop-root, IsFlat, merge_customers-ok, merged_row}
use daily_figures.Merging.Run.{merged_table-IsFlat}

abbrev customer_of : (id : ℕ) → (active : Bool) → (merged_into_id : Option ℕ) → Customer
customer_of id active link = record { id = id; active = active; merged_into_id = link }

relinked_root :
    (source root id : ℕ) (active : Bool) (link : Option ℕ)
    → (id == source) ≡ false
    → (after : Customer) × (repointed source root (some (customer_of id active link)) ≡ some after)
      × (root_id after ≡ (
          if root_id (customer_of id active link) == source
          then root
          else root_id (customer_of id active link)))
relinked_root source root id active none other = (customer_of id active none, refl, rw other refl)
relinked_root source root id active (some m) other = elim (Bool-cases (m == source)) [
  | inl dependent ↦ (customer_of id active (some root), rw dependent refl, rw dependent refl)
  | inr elsewhere ↦ (customer_of id active (some m), rw elsewhere refl, rw elsewhere refl)
]

-- After a merge that is accepted, the walk from the source ends where the walk from the target did, and
-- so does the walk from each customer whose walk ended at the source; all other walks end where they
-- did.
pub merge_customers-resolve_canonical :
    (source target : Customer) (db : Customers) (result : Merged) (id : ℕ) (c : Customer)
    → IsFlat db
    → db.customer_at target.id ≡ some target
    → db.customer_at id ≡ some c
    → merge_customers source target db ≡ ok result
    → (root : Customer) × (old : Customer) × (after : Customer) × (new : Customer)
      × (resolve_canonical target db ≡ found root)
      × (resolve_canonical c db ≡ found old)
      × (result.table.customer_at id ≡ some after)
      × (resolve_canonical after result.table ≡ found new)
      × (new.id ≡ (if (id == source.id) || (old.id == source.id) then root.id else old.id))
merge_customers-resolve_canonical source target db result id c flat at_t at e =
    let (root, same, own, alone, apart, walk) =
      merge_customers-ok source target target.id db result flat at_t e in
    let (old, _, old_walk, _, _, old_id) = resolve_loop-root 0 id c db flat at in
    let flat' = merged_table-IsFlat source root db flat own alone apart in
    let (after, at', link) = after_row root.id in
    let (new, _, new_walk, _, _, new_id) =
      resolve_loop-root 0 id after (merged_table source root.id db) flat' at' in
    rw (← same) (
      root,
      old,
      after,
      new,
      walk,
      old_walk,
      at',
      new_walk,
      new_id
          ∙ link
          ∙ ap (λ (n : ℕ). if (id == source.id) || (n == source.id) then root.id else n)
              (sym old_id),
    )
  where
    after_row :
        (root : ℕ)
        → (after : Customer) × ((merged_table source root db).customer_at id ≡ some after)
          × (root_id after
              ≡ (if (id == source.id) || (root_id c == source.id) then root else root_id c))
    after_row root = elim (Bool-cases (id == source.id)) [
      | inl is_source ↦ (merged_customer root source, rw is_source refl, rw is_source refl)
      | inr other ↦
          let (after, row, link) =
            relinked_root source.id root c.id c.active c.merged_into_id
              (ap (λ (n : ℕ). n == source.id) (flat.own_id id c at) ∙ other) in
          (
            after,
            merged_row source root id db other ∙ ap (repointed source.id root) at ∙ row,
            rw other link,
          )
    ]
