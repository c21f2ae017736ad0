-- ===== src/Merging/Run.antt =====
-- customer_service.py: merges and new customers as events on one table.
use daily_figures.Common.{
  ℕ, suc, ◌≡◌, refl, sym, ◌∙◌, ap, inl, inr, true, false, Option, none, some, List, [], ◌∷◌, ◌==◌,
  ==_iff, if◌then◌else◌, Bool-cases, Option-cases, Result-cases, Result, ok, raise,
}
use daily_figures.Merging.{
  MergeError, customer_missing, Customer, Customers, is_merged_into, merged_customer, merged_table,
  Merged, merge_customers,
}
use daily_figures.Merging.Flat.{
  IsFlat, merge_customers-ok, merged_row, root_kept, kept, moved, repointed-Relinked,
}

not_linked :
    (a : Customer) (source m : ℕ)
    → is_merged_into (some a) source ≡ false
    → a.merged_into_id ≡ some m
    → (m == source) ≡ false
not_linked a source m h linked = cc

abbrev row_or : Customer → Option Customer → Customer
row_or d none = d
row_or d (some c) = c

abbrev link_or : ℕ → Option ℕ → ℕ
link_or d none = d
link_or d (some m) = m

pub merged_table-IsFlat :
    (source root : Customer) (db : Customers)
    → IsFlat db
    → db.customer_at root.id ≡ some root
    → root.merged_into_id ≡ none
    → (root.id == source.id) ≡ false
    → IsFlat (merged_table source root.id db)
merged_table-IsFlat source root db flat own alone apart = record {
  own_id = λ id c at. elim (Bool-cases (id == source.id)) [
    | inl is_source ↦
        let same : merged_customer root.id source ≡ c = ap (row_or c) (rw is_source at at) in
        ap (λ (x : Customer). x.id) (sym same) ∙ sym ((==_iff id source.id).0 is_source)
    | inr other ↦
        let (a, before, link) =
          repointed-Relinked source.id root.id (db.customer_at id) c
            (sym (merged_row source root.id id db other) ∙ at) in
        elim link [
          | kept same _ ↦ ap (λ (x : Customer). x.id) (sym same) ∙ flat.own_id id a before
          | moved _ same _ ↦ same ∙ flat.own_id id a before
        ]
  ];
  roots = λ id m c at linked. elim (Bool-cases (id == source.id)) [
    | inl is_source ↦
        let same : merged_customer root.id source ≡ c = ap (row_or c) (rw is_source at at) in
        to_root m c linked (ap (λ (x : Customer). x.merged_into_id) (sym same))
    | inr other ↦
        let (a, before, link) =
          repointed-Relinked source.id root.id (db.customer_at id) c
            (sym (merged_row source root.id id db other) ∙ at) in
        elim link [
          | moved h _ _ ↦ to_root m c linked h
          | kept same elsewhere ↦
              let linked_before = ap (λ (x : Customer). x.merged_into_id) same ∙ linked in
              let (r, at_m, r_alone) = flat.roots id m a before linked_before in
              (
                r,
                root_kept source root.id m r db at_m r_alone
                    (not_linked a source.id m elsewhere linked_before),
                r_alone,
              )
        ]
  ];
}
  where
    to_root :
        (m : ℕ) (c : Customer)
        → c.merged_into_id ≡ some m
        → c.merged_into_id ≡ some root.id
        → (r : Customer) × ((merged_table source root.id db).customer_at m ≡ some r)
          × (r.merged_into_id ≡ none)
    to_root m c linked h = (
      root,
      ap (merged_table source root.id db).customer_at (sym (ap (link_or m) (sym h ∙ linked)))
          ∙ root_kept source root.id root.id root db own alone apart,
      alone,
    )

-- A route merges the customer of one id into that of another; a new customer is added under the next id.
pub data Event : Type 0 where
  merge : (source_id target_id : ℕ) → Event
  add : Event

abbrev new_customer : ℕ → Customer
new_customer id = record { id = id; active = true; merged_into_id = none }

abbrev add_customer : Customers → Customers
add_customer db = record db {
  customer_at =
      λ id. if id == db.next_id then some (new_customer db.next_id) else db.customer_at id;
  next_id = suc db.next_id;
}

abbrev merge_rows : Option Customer → Option Customer → Customers → Result MergeError Merged
merge_rows (some source) (some target) db = merge_customers source target db
merge_rows (some source) none db = raise customer_missing
merge_rows none target db = raise customer_missing

abbrev table_or : Customers → Result MergeError Merged → Customers
table_or db (ok result) = result.table
table_or db (raise err) = db

unfoldable pub handle_all : List Event → Customers → Customers
handle_all [] db = db
handle_all (merge source target ∷ rest) db =
    handle_all rest (table_or db (merge_rows (db.customer_at source) (db.customer_at target) db))
handle_all (add ∷ rest) db = handle_all rest (add_customer db)

add_customer-IsFlat : (db : Customers) → IsFlat db → IsFlat (add_customer db)
add_customer-IsFlat db flat = record {
  own_id = λ id c at. elim (Bool-cases (id == db.next_id)) [
    | inl new ↦
        ap (λ (x : Customer). x.id) (sym (ap (row_or c) (rw new at at)))
        ∙ sym ((==_iff id db.next_id).0 new)
    | inr old ↦ flat.own_id id c (rw old at at)
  ];
  roots = λ id m c at linked. elim (Bool-cases (id == db.next_id)) [
    | inl new ↦
        let same = ap (row_or c) (rw new at at) in
        absurd (cc (ap (λ (x : Customer). x.merged_into_id) same ∙ linked))
    | inr old ↦
        let (r, at_m, alone) = flat.roots id m c (rw old at at) linked in
        elim (Bool-cases (m == db.next_id)) [
          | inl new_root ↦ (new_customer db.next_id, rw new_root refl, refl)
          | inr old_root ↦ (r, rw old_root at_m, alone)
        ]
  ];
}

merge_rows-IsFlat :
    (source target : ℕ) (db : Customers)
    → IsFlat db
    → IsFlat (table_or db (merge_rows (db.customer_at source) (db.customer_at target) db))
merge_rows-IsFlat source target db flat = elim (Option-cases (db.customer_at source)) [
  | inl missing ↦ rw missing flat
  | inr (s, at_s) ↦ elim (Option-cases (db.customer_at target)) [
    | inl missing ↦ rw (at_s, missing) flat
    | inr (t, at_t) ↦ elim (Result-cases (merge_customers s t db)) [
      | inr (err, refused) ↦ rw (at_s, at_t, refused) flat
      | inl (result, done) ↦
          let (root, same, own, alone, apart, _) =
            merge_customers-ok s t target db result flat at_t done in
          rw (at_s, at_t, done) (rw (← same) (merged_table-IsFlat s root db flat own alone apart))
    ]
  ]
]

-- After any sequence of merges and new customers each customer that is merged is linked to one that is
-- not merged, if it was so before.
pub handle_all-IsFlat :
    (events : List Event) (db : Customers) → IsFlat db → IsFlat (handle_all events db)
unfolding handle_all
handle_all-IsFlat [] db flat = flat
handle_all-IsFlat (merge source target ∷ rest) db flat =
    handle_all-IsFlat rest _ (merge_rows-IsFlat source target db flat)
handle_all-IsFlat (add ∷ rest) db flat = handle_all-IsFlat rest _ (add_customer-IsFlat db flat)
