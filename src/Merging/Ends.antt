-- ===== src/Merging/Ends.antt =====
-- customer_service.py, `resolve_canonical`: when its loop ends.
use daily_figures.Common.{
  ℕ, zero, suc, ◌≤◌, ◌<◌, ◌≡◌, ◌≢◌, ◌⊎◌, refl, sym, ◌∙◌, ap, inl, inr, true, false, Option, none,
  some, List, [], ◌∷◌, ◌==◌, ==_iff, if◌then◌else◌, Bool-cases, Option-cases, arith,
}
use daily_figures.Merging.{
  Customer, Customers, Walk, found, gone, unfinished, is_in, resolve_loop, resolve_canonical,
}

-- Rows stand under their own ids, which are below the one that the engine gives next.
pub record IsKeyed (db : Customers) : Type 0 where
  pub own_id : (id : ℕ) (c : Customer) → db.customer_at id ≡ some c → c.id ≡ id
  pub below : (id : ℕ) (c : Customer) → db.customer_at id ≡ some c → id < db.next_id

-- How many ids below a bound have not been seen.
abbrev unseen : List ℕ → ℕ → ℕ
unseen seen zero = 0
unseen seen (suc n) = let rest = unseen seen n in if is_in n seen then rest else suc rest

unseen_below : (seen : List ℕ) (n : ℕ) → unseen seen n ≤ n
unseen_below seen zero = omega arith
unseen_below seen (suc n) = ground (arith, unseen_below seen n)

unseen_more : (x : ℕ) (seen : List ℕ) (n : ℕ) → unseen (x ∷ seen) n ≤ unseen seen n
unseen_more x seen zero = omega arith
unseen_more x seen (suc n) = ground (arith, unseen_more x seen n)

unseen_new :
    (x : ℕ) (seen : List ℕ) (n : ℕ)
    → x < n
    → is_in x seen ≡ false
    → unseen (x ∷ seen) n < unseen seen n
unseen_new x seen zero h new = absurd (omega arith)
unseen_new x seen (suc n) h new = elim (Bool-cases (x == n)) [
  | inl last ↦
      let same = (==_iff x n).0 last in
      let m = unseen_more x seen n in rw (last, rw same at new) (omega (arith, m))
  | inr before ↦
      let m = unseen_new x seen n (ground arith) new in
      elim (Bool-cases (is_in n seen)) [
        | inl old ↦ rw (before, old) m
        | inr fresh ↦ rw (before, fresh) (omega (arith, m))
      ]
]

module _ (fuel : ℕ) (seen : List ℕ) (c : Customer) (db : Customers) where
  ends_alone : c.merged_into_id ≡ none → resolve_loop (suc fuel) seen c db ≡ found c
  unfolding resolve_loop
  ends_alone alone = cc

  ends_seen :
      (next : ℕ)
      → c.merged_into_id ≡ some next
      → is_in next seen ≡ true
      → resolve_loop (suc fuel) seen c db ≡ found c
  unfolding resolve_loop
  ends_seen next linked old = ground (arith, linked, old)

  ends_gone :
      (next : ℕ)
      → c.merged_into_id ≡ some next
      → is_in next seen ≡ false
      → db.customer_at next ≡ none
      → resolve_loop (suc fuel) seen c db ≡ gone
  unfolding resolve_loop
  ends_gone next linked new missing = ground (arith, linked, new, missing)

  goes_on :
      (next : ℕ) (row : Customer)
      → c.merged_into_id ≡ some next
      → is_in next seen ≡ false
      → db.customer_at next ≡ some row
      → resolve_loop (suc fuel) seen c db ≡ resolve_loop fuel (c.id ∷ seen) row db
  unfolding resolve_loop
  goes_on next row linked new at = ground (arith, linked, new, at)

abbrev link_or : ℕ → Option ℕ → ℕ
link_or d none = d
link_or d (some id) = id

-- Where the loop stands: at a customer that it has not seen, or at one that ends it.
abbrev Fresh : List ℕ → Customer → Type 0
Fresh seen c =
    (is_in c.id seen ≡ false)
    ⊎ ((next : ℕ) × (c.merged_into_id ≡ some next) × (is_in next seen ≡ true))

abbrev row_or : Customer → Option Customer → Customer
row_or d none = d
row_or d (some c) = c

-- A turn goes on to a customer that has not been seen, or to the same one once more.
Fresh-next :
    (seen : List ℕ) (c row : Customer) (next : ℕ) (db : Customers)
    → IsKeyed db
    → db.customer_at c.id ≡ some c
    → c.merged_into_id ≡ some next
    → is_in next seen ≡ false
    → db.customer_at next ≡ some row
    → Fresh (c.id ∷ seen) row
Fresh-next seen c row next db keyed own linked new at =
    let row_id = keyed.own_id next row at in
    elim (Bool-cases (c.id == next)) [
      | inl itself ↦
          let here = (==_iff c.id next).0 itself in
          let same : c ≡ row = ap (row_or c) (sym own ∙ ap db.customer_at here ∙ at) in
          inr (next, ap (λ (x : Customer). x.merged_into_id) (sym same) ∙ linked, rw itself refl)
      | inr other ↦ inl (ap (λ (id : ℕ). is_in id (c.id ∷ seen)) row_id ∙ rw (other, new) refl)
    ]

resolve_loop-agrees :
    (f g : ℕ) (seen : List ℕ) (c : Customer) (db : Customers)
    → IsKeyed db
    → db.customer_at c.id ≡ some c
    → Fresh seen c
    → unseen seen db.next_id < f
    → unseen seen db.next_id < g
    → (resolve_loop f seen c db ≡ resolve_loop g seen c db)
      × (resolve_loop f seen c db ≢ unfinished)
resolve_loop-agrees zero g seen c db keyed own fresh hf hg = absurd (omega arith)
resolve_loop-agrees (suc f) zero seen c db keyed own fresh hf hg = absurd (omega arith)
resolve_loop-agrees (suc f) (suc g) seen c db keyed own fresh hf hg =
    elim (Option-cases c.merged_into_id) [
      | inl alone ↦
          both (found c) (ends_alone f seen c db alone) (ends_alone g seen c db alone) (λ h. cc)
      | inr (next, linked) ↦ elim (Bool-cases (is_in next seen)) [
        | inl old ↦
            both (found c) (ends_seen f seen c db next linked old)
              (ends_seen g seen c db next linked old) (λ h. cc)
        | inr new ↦ elim (Option-cases (db.customer_at next)) [
          | inl missing ↦
              both gone (ends_gone f seen c db next linked new missing)
                (ends_gone g seen c db next linked new missing) (λ h. cc)
          | inr (row, at) ↦
              let (agrees, ends) =
                resolve_loop-agrees f g (c.id ∷ seen) row db keyed
                  (ap db.customer_at (keyed.own_id next row at) ∙ at)
                  (Fresh-next seen c row next db keyed own linked new at)
                  (fewer f next linked new hf) (fewer g next linked new hg) in
              both (resolve_loop g (c.id ∷ seen) row db)
                (goes_on f seen c db next row linked new at ∙ agrees)
                (goes_on g seen c db next row linked new at) (λ h. ends (agrees ∙ h))
        ]
      ]
    ]
  where
    not_ended :
        (next : ℕ)
        → c.merged_into_id ≡ some next
        → is_in next seen ≡ false
        → is_in c.id seen ≡ false
    not_ended next linked new = elim fresh [
      | inl unvisited ↦ unvisited
      | inr (last, link, old) ↦
          let same : last ≡ next = ap (link_or last) (sym link ∙ linked) in
          absurd (cc (ap (λ (id : ℕ). is_in id seen) (sym same) ∙ old, new))
    ]

    fewer :
        (fuel next : ℕ)
        → c.merged_into_id ≡ some next
        → is_in next seen ≡ false
        → unseen seen db.next_id < suc fuel
        → unseen (c.id ∷ seen) db.next_id < fuel
    fewer fuel next linked new h =
        let less =
          unseen_new c.id seen db.next_id (keyed.below c.id c own) (not_ended next linked new) in
        omega arith

    both :
        (w : Walk)
        → resolve_loop (suc f) seen c db ≡ w
        → resolve_loop (suc g) seen c db ≡ w
        → w ≢ unfinished
        → (resolve_loop (suc f) seen c db ≡ resolve_loop (suc g) seen c db)
          × (resolve_loop (suc f) seen c db ≢ unfinished)
    both w ef eg done = (ef ∙ sym eg, λ h. done (sym ef ∙ h))

-- Where rows stand under their own ids, below the next one, the walk from any stored customer ends,
-- whatever the links between customers are, circles and links to missing rows included: the fuel that
-- it is given is enough, and with any fuel greater than the number of ids it has the same result.
pub resolve_canonical-ends :
    (fuel : ℕ) (c : Customer) (db : Customers)
    → IsKeyed db
    → db.customer_at c.id ≡ some c
    → db.next_id < fuel
    → (resolve_canonical c db ≢ unfinished) × (resolve_loop fuel [] c db ≡ resolve_canonical c db)
unfolding resolve_canonical
resolve_canonical-ends fuel c db keyed own h =
    let few = unseen_below [] db.next_id in
    let enough = suc (suc db.next_id) in
    let (agrees, ends) =
      resolve_loop-agrees enough fuel [] c db keyed own (inl refl) (omega arith) (omega arith) in
    (ends, sym agrees)
