-- ===== src/Merging/Tests.antt =====
-- Tests of customer_service.py: the second customer is merged into the first, which goes into the third.
use daily_figures.Common.{
  ℕ, ◌≡◌, refl, arith, ◌≢◌, sym, ◌∙◌, ap, true, false, ◌||◌, Option, none, some, [], ◌∷◌, ◌==◌,
  if◌then◌else◌, Bool-cases, inl, inr, ok, raise, ==_iff,
}
use daily_figures.Merging.{
  resolves_to_source, Customer, Customers, found, unfinished, resolve_loop, resolve_canonical,
  merged, merge_customers,
}
use daily_figures.Merging.Ends.{IsKeyed, resolve_canonical-ends}
use daily_figures.Merging.Flat.{IsFlat}
use daily_figures.Merging.Resolved.{merge_customers-resolve_canonical}
use daily_figures.Merging.Run.{merge, add, handle_all, handle_all-IsFlat}

abbrev customer : ℕ → Customer
customer id = record { id = id; active = true; merged_into_id = none }

abbrev second : Customer
second = record { id = 2; active = false; merged_into_id = some 1 }

abbrev table : Customers
table = record {
  customer_at = λ id. if id == 2 then some second else some (customer id);
  next_id = 4;
  dispatch_customer_ids = 1 ∷ 2 ∷ 1 ∷ [];
}

-- Two dispatches name the first customer, and one customer is linked to it.
counts_reported : merge_customers (customer 1) (customer 3) table ≡ ok (merged (customer 1) 3 table)
unfolding merge_customers resolve_canonical resolve_loop
counts_reported = refl

dispatches_counted : (merged (customer 1) 3 table).dispatch_count_preserved ≡ 2
dispatches_counted = refl

dependents_counted : (merged (customer 1) 3 table).repointed_dependents ≡ 1
dependents_counted = refl

circle_refused : merge_customers (customer 1) second table ≡ raise resolves_to_source
unfolding merge_customers resolve_canonical resolve_loop
circle_refused = refl

abbrev link_or : ℕ → Option ℕ → ℕ
link_or d none = d
link_or d (some m) = m

abbrev row_or : Customer → Option Customer → Customer
row_or d none = d
row_or d (some c) = c

table-IsFlat : IsFlat table
table-IsFlat = record {
  own_id = λ id c at. elim (Bool-cases (id == 2)) [
    | inl is_second ↦
        ap (λ (x : Customer). x.id) (sym (ap (row_or c) (rw is_second at at)))
        ∙ sym ((==_iff id 2).0 is_second)
    | inr other ↦ ap (λ (x : Customer). x.id) (sym (ap (row_or c) (rw other at at)))
  ];
  roots = λ id m c at linked. elim (Bool-cases (id == 2)) [
    | inl is_second ↦
        let same =
          ap (λ (x : Customer). x.merged_into_id) (ap (row_or c) (rw is_second at at)) ∙ linked in
        (customer 1, rw (← ap (link_or m) same) refl, refl)
    | inr other ↦
        absurd
          (cc (ap (λ (x : Customer). x.merged_into_id) (ap (row_or c) (rw other at at)) ∙ linked))
  ];
}

-- Two customers that are linked to each other.
abbrev linked_to : ℕ → ℕ → Customer
linked_to id next = record { id = id; active = true; merged_into_id = some next }

abbrev circle : Customers
circle = record {
  customer_at = λ id.
      if id == 1 then some (linked_to 1 2) else if id == 2 then some (linked_to 2 1) else none;
  next_id = 3;
  dispatch_customer_ids = [];
}

circle-IsKeyed : IsKeyed circle
circle-IsKeyed = record {
  own_id = λ id c at. elim (Bool-cases (id == 1)) [
    | inl one ↦
        ap (λ (x : Customer). x.id) (sym (ap (row_or c) (rw one at at))) ∙ sym ((==_iff id 1).0 one)
    | inr not_one ↦ elim (Bool-cases (id == 2)) [
      | inl two ↦
          ap (λ (x : Customer). x.id) (sym (ap (row_or c) (rw (not_one, two) at at)))
          ∙ sym ((==_iff id 2).0 two)
      | inr not_two ↦ cc (rw (not_one, not_two) at at)
    ]
  ];
  below = λ id c at. elim (Bool-cases (id == 1)) [
    | inl one ↦ let same = (==_iff id 1).0 one in omega arith
    | inr not_one ↦ elim (Bool-cases (id == 2)) [
      | inl two ↦ let same = (==_iff id 2).0 two in omega arith
      | inr not_two ↦ cc (rw (not_one, not_two) at at)
    ]
  ];
}

resolve_canonical-ends_example :
    (resolve_canonical (linked_to 1 2) circle ≢ unfinished)
    × (resolve_loop 9 [] (linked_to 1 2) circle ≡ resolve_canonical (linked_to 1 2) circle)
resolve_canonical-ends_example =
    resolve_canonical-ends 9 (linked_to 1 2) circle circle-IsKeyed refl (omega arith)

handle_all-IsFlat_example : IsFlat (handle_all (merge 1 3 ∷ merge 3 2 ∷ add ∷ merge 3 4 ∷ []) table)
handle_all-IsFlat_example =
    handle_all-IsFlat (merge 1 3 ∷ merge 3 2 ∷ add ∷ merge 3 4 ∷ []) table table-IsFlat

merge_customers-resolve_canonical_example :
    (root : Customer) × (old : Customer) × (after : Customer) × (new : Customer)
    × (resolve_canonical (customer 3) table ≡ found root)
    × (resolve_canonical second table ≡ found old)
    × ((merged (customer 1) 3 table).table.customer_at 2 ≡ some after)
    × (resolve_canonical after (merged (customer 1) 3 table).table ≡ found new)
    × (new.id ≡ (if (2 == 1) || (old.id == 1) then root.id else old.id))
merge_customers-resolve_canonical_example =
    merge_customers-resolve_canonical (customer 1) (customer 3) table (merged (customer 1) 3 table)
      2 second table-IsFlat refl refl counts_reported
