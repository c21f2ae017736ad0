-- ===== src/Merging.antt =====
-- webapp/services/customer_service.py: recipients that are merged into others, and the walk along the
-- links to the recipient that stands for them. A row's name, category and contact are left out.
pub mod Ends
pub mod Flat
pub mod Run
pub mod Resolved
mod Tests
use daily_figures.Common.{
  ℕ, zero, suc, ◌+◌, Bool, true, false, Option, none, some, List, [], ◌∷◌, ◌==◌, if◌then◌else◌,
  Result, ok, raise, ◌>>=◌, ◌>>◌, raise_if, ids_below, exists_where,
}

-- `CustomerServiceError` of a merge, the 404 of the route, and Python's error on a root that is `None`.
pub data MergeError : Type 0 where
  into_itself resolves_to_source customer_missing no_root endless : MergeError

pub record Customer : Type 0 where
  pub id : ℕ
  pub active : Bool
  pub merged_into_id : Option ℕ

-- The customers by their ids, which the engine counts up, and the customer of each dispatch.
pub record Customers : Type 0 where
  pub customer_at : ℕ → Option Customer
  pub next_id : ℕ
  pub dispatch_customer_ids : List ℕ

-- What the walk ends with: a customer, `None`, or nothing while it has not ended.
pub data Walk : Type 0 where
  found : Customer → Walk
  gone unfinished : Walk

abbrev pub is_in : ℕ → List ℕ → Bool
is_in id ids = exists_where (λ seen. seen == id) ids

-- The `while` loop, one turn for each step of the fuel.
unfoldable pub resolve_loop : (fuel : ℕ) → (seen : List ℕ) → Customer → Customers → Walk
resolve_loop zero seen current db = unfinished
resolve_loop (suc fuel) seen current db = elim current.merged_into_id [
  | none ↦ found current
  | some next ↦ elim (is_in next seen) [
    | true ↦ found current
    | false ↦ elim (db.customer_at next) [
      | none ↦ gone
      | some row ↦ resolve_loop fuel (current.id ∷ seen) row db
    ]
  ]
]

-- A turn adds an id to `seen`, so there are no more turns than ids, and one that ends the walk.
unfoldable pub resolve_canonical : Customer → Customers → Walk
resolve_canonical customer db = resolve_loop (suc (suc db.next_id)) [] customer db

abbrev pub root_or_error : Walk → Result MergeError Customer
root_or_error (found root) = ok root
root_or_error gone = raise no_root
root_or_error unfinished = raise endless

abbrev pub is_merged_into : Option Customer → ℕ → Bool
is_merged_into none source = false
is_merged_into (some row) source = elim row.merged_into_id [ none ↦ false | some id ↦ id == source ]

-- `dep.merged_into_id = target.id`
abbrev pub repointed : (source target : ℕ) → Option Customer → Option Customer
repointed source target none = none
repointed source target (some row) =
    if is_merged_into (some row) source
    then some (record row { merged_into_id = some target })
    else some row

abbrev pub count_where : (ℕ → Bool) → List ℕ → ℕ
count_where test [] = 0
count_where test (x ∷ xs) = let rest = count_where test xs in if test x then suc rest else rest

abbrev pub merged_customer : (target : ℕ) → Customer → Customer
merged_customer target source = record source { merged_into_id = some target; active = false }

abbrev pub merged_table : Customer → (target : ℕ) → Customers → Customers
merged_table source target db = record db {
  customer_at = λ id.
      if id == source.id
      then some (merged_customer target source)
      else repointed source.id target (db.customer_at id);
}

-- The changed table, and what the merge reports.
pub record Merged : Type 0 where
  pub table : Customers
  pub target_id : ℕ
  pub dispatch_count_preserved : ℕ
  pub repointed_dependents : ℕ

abbrev pub merged : Customer → (target : ℕ) → Customers → Merged
merged source target db = record {
  table = merged_table source target db;
  target_id = target;
  dispatch_count_preserved = count_where (λ id. id == source.id) db.dispatch_customer_ids;
  repointed_dependents =
      count_where (λ id. is_merged_into (db.customer_at id) source.id) (ids_below db.next_id);
}

unfoldable pub merge_customers : Customer → Customer → Customers → Result MergeError Merged
merge_customers source target db = do
  raise_if (source.id == target.id) into_itself
  root ← root_or_error (resolve_canonical target db)
  raise_if (root.id == source.id) resolves_to_source
  ok (merged source root.id db)
