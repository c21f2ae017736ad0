-- ===== src/Spares/Balance.antt =====
-- spare_part_movement_service.py: how the stock that the ledger holds changes with a row, and the one
-- query for many parts against the query for each.
use daily_figures.Common.{
  ℕ, ◌≡◌, refl, sym, ◌∙◌, ap, inl, inr, Bool, true, false, ◌&&◌, Option, none, some, List, [], ◌∷◌,
  ℤ, pos, ◌+ℤ◌, +ℤ_assoc, +ℤ_swap, int_laws, ◌==◌, ==_iff, if◌then◌else◌, filter_where, sum_where,
  find_first, Bool-cases, &&_left, &&_right, arith,
}
use daily_figures.Spares.{
  MovementType, is_increasing, is_active, Movement, apply_movement, stock_loop, is_of,
  current_stock, Totals, set_total, zero_totals, is_in, total_or_zero, bulk_loop,
  bulk_current_stock,
}
use daily_figures.Spares.Record.{replace_row}

-- What a row adds to the stock.
abbrev pub signed : Movement → ℤ
signed m = apply_movement m.movement_type m.quantity (pos 0)

pub apply_movement-eq :
    (type : MovementType) (q total : ℤ)
    → apply_movement type q total ≡ total +ℤ apply_movement type q (pos 0)
apply_movement-eq type q total = elim (Bool-cases (is_increasing type)) [
  | inl up ↦ rw up (omega int_laws)
  | inr down ↦ rw down (omega int_laws)
]

stock_loop-sum :
    (c : Movement → Bool) (ms : List Movement) (total : ℤ)
    → stock_loop (filter_where c ms) total ≡ total +ℤ sum_where c signed ms
unfolding stock_loop
stock_loop-sum c [] total = omega int_laws
stock_loop-sum c (m ∷ ms) total = elim (Bool-cases (c m)) [
  | inr skipped ↦ rw skipped (stock_loop-sum c ms total ∙ omega int_laws)
  | inl counted ↦
      let next = apply_movement m.movement_type m.quantity total in
      let later : stock_loop (filter_where c ms) next ≡ next +ℤ sum_where c signed ms =
        stock_loop-sum c ms next in
      let here = apply_movement-eq m.movement_type m.quantity total in
      rw (counted, stock_loop)
        (later ∙ ap (λ (n : ℤ). n +ℤ sum_where c signed ms) here ∙ +ℤ_assoc total (signed m) _)
]

-- The loop over the rows of a part is the sum of what they add.
current_stock-sum :
    (id : ℕ) (ms : List Movement) → current_stock id ms ≡ sum_where (is_of id) signed ms
unfolding current_stock
current_stock-sum id ms = stock_loop-sum (is_of id) ms (pos 0) ∙ omega int_laws

-- What a row adds to the stock of a part.
unfoldable pub change : ℕ → Movement → ℤ
change id m = if is_of id m then signed m else pos 0

pub current_stock-row :
    (id : ℕ) (m : Movement) (ms : List Movement)
    → current_stock id (m ∷ ms) ≡ change id m +ℤ current_stock id ms
unfolding change
current_stock-row id m ms = rw (current_stock-sum id (m ∷ ms), current_stock-sum id ms) refl

abbrev pub has_id : ℕ → Movement → Bool
has_id id m = m.id == id

pub change-void : (id : ℕ) (m : Movement) → is_active m.status ≡ false → change id m ≡ pos 0
unfolding change
change-void id m h = elim (Bool-cases (m.spare_part_id == id)) [
  | inl own ↦ rw (own, h) refl
  | inr foreign ↦ rw foreign refl
]

eq_sym : (a b : ℕ) → (a == b) ≡ (b == a)
eq_sym a b = ground arith

pub change-active :
    (id : ℕ) (m : Movement)
    → is_active m.status ≡ true
    → change id m ≡ (if id == m.spare_part_id then signed m else pos 0)
unfolding change
change-active id m h =
    rw (h, eq_sym id m.spare_part_id)
      (elim (Bool-cases (m.spare_part_id == id)) [
        | inl own ↦ rw own refl
        | inr foreign ↦ rw foreign refl
      ])

-- A row that becomes void takes back what it added.
pub current_stock-void :
    (id : ℕ) (f : Movement → Movement) (m : Movement) (ms : List Movement)
    → find_first (has_id m.id) ms ≡ some m
    → is_active (f m).status ≡ false
    → current_stock id ms ≡ change id m +ℤ current_stock id (replace_row m.id f ms)
current_stock-void id f m [] found h = absurd (cc)
current_stock-void id f m (x ∷ xs) found h = elim (Bool-cases (x.id == m.id)) [
  | inl here ↦
      let same : x ≡ m = ap (value m) (rw here at found) in
      rw
        (
          here,
          current_stock-row id x xs,
          current_stock-row id (f x) xs,
          same,
          change-void id (f m) h,
        )
        (omega int_laws)
  | inr later ↦
      let rest = current_stock-void id f m xs (rw later at found) h in
      rw (later, current_stock-row id x xs, current_stock-row id x (replace_row m.id f xs))
        (ap (λ (n : ℤ). change id x +ℤ n) rest ∙ +ℤ_swap (change id x) (change id m) _)
]
  where
    value : Movement → Option Movement → Movement
    value d none = d
    value d (some x) = x

set_total-same : (id : ℕ) (t : ℤ) (totals : Totals) → set_total id t totals id ≡ some t
set_total-same id t totals = ground arith

set_total-other :
    (key id : ℕ) (t : ℤ) (totals : Totals)
    → (key == id) ≡ false
    → set_total key t totals id ≡ totals id
set_total-other key id t totals h = ground arith

-- A loop over rows of which the part's are all among them, and none is void.
module _ (id : ℕ) (c : Movement → Bool) where
  bulk_loop-some :
      (ms : List Movement) (totals : Totals) (total : ℤ)
      → ((m : Movement) → is_of id m ≡ true → c m ≡ true)
      → ((m : Movement) → c m ≡ true → is_active m.status ≡ true)
      → totals id ≡ some total
      → bulk_loop (filter_where c ms) totals id
        ≡ some (stock_loop (filter_where (is_of id) ms) total)
  unfolding bulk_loop stock_loop
  bulk_loop-some [] totals total all sound h = h
  bulk_loop-some (m ∷ ms) totals total all sound h = elim (Bool-cases (c m)) [
    | inr skipped ↦ elim (Bool-cases (is_of id m)) [
      | inl own ↦ cc (all m own)
      | inr foreign ↦ rw (foreign, skipped) (bulk_loop-some ms totals total all sound h)
    ]
    | inl counted ↦ elim (Bool-cases (m.spare_part_id == id)) [
      | inl own ↦
          rw (counted, own, sound m counted, bulk_loop, stock_loop)
            (bulk_loop-some ms _ _ all sound (added own))
      | inr foreign ↦
          rw (counted, foreign, bulk_loop)
            (bulk_loop-some ms _ _ all sound
              (set_total-other m.spare_part_id id _ totals foreign ∙ h))
    ]
  ]
    where
      added :
          (m.spare_part_id == id) ≡ true
          → set_total m.spare_part_id
              (apply_movement m.movement_type m.quantity (total_or_zero (totals m.spare_part_id)))
              totals
              id
            ≡ some (apply_movement m.movement_type m.quantity total)
      added own =
          let same = (==_iff m.spare_part_id id).0 own in
          ap
            (λ (k : ℕ).
              set_total k (apply_movement m.movement_type m.quantity (total_or_zero (totals k)))
                totals id)
            same
          ∙ set_total-same id
              (apply_movement m.movement_type m.quantity (total_or_zero (totals id))) totals
          ∙ ap
              (λ (o : Option ℤ). some (apply_movement m.movement_type m.quantity (total_or_zero o)))
              h

  bulk_loop-none :
      (ms : List Movement) (totals : Totals)
      → ((m : Movement) → c m ≡ true → (m.spare_part_id == id) ≡ false)
      → totals id ≡ none
      → bulk_loop (filter_where c ms) totals id ≡ none
  unfolding bulk_loop
  bulk_loop-none [] totals foreign h = h
  bulk_loop-none (m ∷ ms) totals foreign h = elim (Bool-cases (c m)) [
    | inr skipped ↦ rw skipped (bulk_loop-none ms totals foreign h)
    | inl counted ↦
        rw (counted, bulk_loop)
          (bulk_loop-none ms _ foreign
            (set_total-other m.spare_part_id id _ totals (foreign m counted) ∙ h))
  ]

zero_totals-eq :
    (ids : List ℕ) (id : ℕ) → zero_totals ids id ≡ (if is_in ids id then some (pos 0) else none)
zero_totals-eq [] id = refl
zero_totals-eq (x ∷ xs) id = elim (Bool-cases (id == x)) [
  | inl here ↦ rw here refl
  | inr later ↦ rw later (zero_totals-eq xs id)
]

module _ (asked : ℕ → Bool) (id : ℕ) (m : Movement) where
  rows_of_asked :
      asked id ≡ true → is_of id m ≡ true → (asked m.spare_part_id && is_active m.status) ≡ true
  rows_of_asked h own =
      let same = (==_iff m.spare_part_id id).0 (&&_left (m.spare_part_id == id) _ own) in
      rw (same, h) (&&_right (m.spare_part_id == id) _ own)

  no_rows_of_other :
      asked id ≡ false
      → (asked m.spare_part_id && is_active m.status) ≡ true
      → (m.spare_part_id == id) ≡ false
  no_rows_of_other h counted = elim (Bool-cases (m.spare_part_id == id)) [
    | inr foreign ↦ foreign
    | inl own ↦
        let same = (==_iff m.spare_part_id id).0 own in
        let asked_for : asked id ≡ true =
          ap asked (sym same) ∙ &&_left (asked m.spare_part_id) (is_active m.status) counted in
        cc
  ]

-- One query for many parts gives, for each part that is asked for, the stock that the ledger of the
-- part alone gives, and it gives no total for any other part.
pub bulk_current_stock-eq :
    (ids : List ℕ) (ms : List Movement) (id : ℕ)
    → bulk_current_stock ids ms id ≡ (if is_in ids id then some (current_stock id ms) else none)
unfolding bulk_current_stock current_stock
bulk_current_stock-eq [] ms id = refl
bulk_current_stock-eq (x ∷ xs) ms id =
    let c = λ (m : Movement). is_in (x ∷ xs) m.spare_part_id && is_active m.status in
    elim (Bool-cases (is_in (x ∷ xs) id)) [
      | inl asked ↦ rw asked (
          bulk_loop-some id c ms (zero_totals (x ∷ xs)) (pos 0)
            (λ m own. rows_of_asked (is_in (x ∷ xs)) id m asked own)
            (λ m counted. &&_right (is_in (x ∷ xs) m.spare_part_id) (is_active m.status) counted)
            (zero_totals-eq (x ∷ xs) id ∙ rw asked refl))
      | inr other ↦ rw other (
          bulk_loop-none id c ms (zero_totals (x ∷ xs))
            (λ m counted. no_rows_of_other (is_in (x ∷ xs)) id m other counted)
            (zero_totals-eq (x ∷ xs) id ∙ rw other refl))
    ]
