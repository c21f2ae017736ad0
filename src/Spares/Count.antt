-- ===== src/Spares/Count.antt =====
-- spare_part_movement_service.py, `record_stock_count`: the correction that a physical count makes.
use text.Mathlib.Text.{◌==◌ as str_eq}
use Prim.Native.Nat.{◌^◌}
use daily_figures.Common.{
  ℕ, ◌≤◌, ◌<◌, ◌≡◌, refl, sym, ◌∙◌, ap, inl, inr, ◌⊎◌, Bool, true, false, not, ◌&&◌, ◌||◌, Option,
  none, some, List, [], ◌∷◌, String, ℤ, pos, negsuc, ◌+ℤ◌, +ℤ_zero, ◌-ℤ◌, abs, leb, eq_refl,
  is_negative, is_zero, int_laws, ◌==◌, ==_iff, ok, raise, Bool-cases, Option-cases, arith,
}
use daily_figures.Records.{User}
use daily_figures.Spares.{
  PartUnit, SparePart, is_discrete_unit, MovementType, Fields, Movement, Ledger, current_stock,
}
use daily_figures.Spares.Amounts.{Decimal, Engine, to_thousandths, difference, magnitude, is_whole}
use daily_figures.Spares.Record.{
  insufficient_stock, add_movement, create_movement, validate_quantity_for_unit, text_of,
  record_stock_count, correct_stock, count_type, count_fields, decrease_cache, set_part, set_cache,
  increase_cache, move_cache, zero_quantity,
}
use daily_figures.Spares.Cache.{cache_at, cache_of}
use daily_figures.Spares.Effect.{delta}
use daily_figures.Spares.Shelf.{counted_move, correct_stock-Posted}

-- A column of twelve digits and three decimals gives back each number that fits it.
pub record ReadsBack {S : Type 0} (engine : Engine S) : Type 0 where
  pub exact :
      (d : Decimal)
      → d.decimals ≤ 3
      → abs (to_thousandths d) < 10 ^ 12
      → engine.read_back d ≡ to_thousandths d

-- The tests that a count passes, and that it and what it finds fit the columns.
pub record Counted {S : Type 0} (strip : String → String) (part : SparePart S) (counted : Decimal)
    (reason : Option String) (db : Ledger S) : Type 0 where
  pub in_use : part.active ≡ true
  pub positive : is_negative counted.units ≡ false
  pub whole : (is_discrete_unit part.unit && not (is_whole counted)) ≡ false
  pub whole_difference :
      (is_discrete_unit part.unit
        && not (is_whole (magnitude (difference counted (current_stock part.id db.movements)))))
      ≡ false
  pub for_reason : str_eq (strip (text_of reason)) "" ≡ false
  pub three_decimals : counted.decimals ≤ 3
  pub fits : abs (to_thousandths counted -ℤ current_stock part.id db.movements) < 10 ^ 12

abbrev pub NewestCompares : List Movement → ℤ → ℤ → Type 0
NewestCompares [] before counted = ⊥
NewestCompares (m ∷ ms) before counted =
    (m.fields.system_quantity_before ≡ some before) × (m.fields.counted_quantity ≡ some counted)

-- The part has no row, or the engine does not find the quantity in its cache.
abbrev pub Short : {S : Type 0} → Engine S → ℕ → Decimal → Ledger S → Type 0
Short {S} engine id q db =
    (cache_at id db ≡ none) ⊎ ((c : S) × (cache_at id db ≡ some c) × (engine.at_least c q ≡ false))

difference-eq :
    (counted : Decimal) (before : ℤ)
    → counted.decimals ≤ 3
    → difference counted before ≡ record { units = to_thousandths counted -ℤ before; decimals = 3 }
unfolding difference
difference-eq counted before h = rw (few counted.decimals h) refl
  where
    few : (n : ℕ) → n ≤ 3 → leb n 3 ≡ true
    few n h = ground arith

magnitude-thousandths :
    (u : ℤ) → to_thousandths (magnitude (record { units = u; decimals = 3 })) ≡ pos (abs u)
magnitude-thousandths u = ap pos (omega arith)

by_size : (u : ℤ) → delta (not (is_negative u)) (pos (abs u)) ≡ u
by_size (pos n) = omega int_laws
by_size (negsuc n) = omega int_laws

zero_size : (u : ℤ) → (abs u == 0) ≡ true → u ≡ pos 0
zero_size (pos n) h = ap pos ((==_iff n 0).0 h)
zero_size (negsuc n) h = absurd (ground arith)

validate_ok :
    (q : Decimal) (unit : PartUnit) (allow_zero : Bool)
    → (is_negative q.units || (is_zero q.units && not allow_zero)) ≡ false
    → (is_discrete_unit unit && not (is_whole q)) ≡ false
    → validate_quantity_for_unit (some q) unit allow_zero ≡ ok q
unfolding validate_quantity_for_unit
validate_ok q unit allow_zero h w = rw h (rw w refl)

module _ {S : Type 0} (engine : Engine S) where
  counted_delta :
      (u : ℤ) (id : ℕ)
      → ReadsBack engine
      → abs u < 10 ^ 12
      → let move = counted_move engine id (record { units = u; decimals = 3 }) in
        delta move.is_up move.units ≡ u
  counted_delta u id reads fits = elim (Bool-cases (abs u == 0)) [
    | inl even ↦ rw even (
        ap (delta true) (reads.exact zero_quantity (omega arith) (omega arith))
        ∙ no_change
        ∙ sym (zero_size u even))
    | inr off ↦ rw off (
        ap (delta (not (is_negative u))) (
          reads.exact (magnitude (record { units = u; decimals = 3 })) (omega arith) (omega arith)
          ∙ magnitude-thousandths u)
        ∙ by_size u)
  ]
    where
      no_change : delta true (pos 0) ≡ pos 0
      no_change = omega int_laws

  counted_move-id : (id : ℕ) (off : Decimal) → (counted_move engine id off).id ≡ id
  counted_move-id id off = elim (Bool-cases (abs off.units == 0)) [
    | inl even ↦ rw even refl
    | inr uneven ↦ rw uneven refl
  ]

  -- What is counted beside the stock moves the stock to what is counted.
  counted_stock :
      (counted : Decimal) (before : ℤ) (id : ℕ)
      → ReadsBack engine
      → counted.decimals ≤ 3
      → abs (to_thousandths counted -ℤ before) < 10 ^ 12
      → let move = counted_move engine id (difference counted before) in
        before +ℤ delta move.is_up move.units ≡ to_thousandths counted
  counted_stock counted before id reads few fits = rw (difference-eq counted before few) (
      ap (λ (n : ℤ). before +ℤ n) (counted_delta (to_thousandths counted -ℤ before) id reads fits)
      ∙ omega int_laws)

  decrease_cache-cases :
      (id : ℕ) (q : Decimal) (db : Ledger S)
      → ((moved : Ledger S) × (decrease_cache engine id q db ≡ ok moved))
        ⊎ ((decrease_cache engine id q db ≡ raise insufficient_stock) × Short engine id q db)
  unfolding decrease_cache
  decrease_cache-cases id q db = elim (Option-cases (db.part_at id)) [
    | inl missing ↦ inr (rw (missing, decrease_cache) refl, inl (ap cache_of missing))
    | inr (part, found) ↦ elim (Bool-cases (engine.at_least part.current_stock_cache q)) [
      | inl enough ↦ inl (
        set_part id (set_cache (engine.subtract part.current_stock_cache q) part) db,
        rw (found, decrease_cache) (rw enough refl),
      )
      | inr short ↦ inr (
        rw (found, decrease_cache) (rw short refl),
        inr (part.current_stock_cache, ap cache_of found, short),
      )
    ]
  ]

  create_movement-moved :
      (part : SparePart S) (type : MovementType) (q : Decimal) (user : User) (date : ℕ)
      (fields : Fields) (db moved : Ledger S)
      → validate_quantity_for_unit (some q) part.unit false ≡ ok q
      → part.active ≡ true
      → move_cache engine type part.id q db ≡ ok moved
      → create_movement engine part type (some q) user date fields db
        ≡ ok (add_movement part type (engine.read_back q) user date fields moved)
  unfolding create_movement
  create_movement-moved part type q user date fields db moved valid live done =
      rw (valid, create_movement) (rw done (rw live refl))

  create_movement-short :
      (part : SparePart S) (type : MovementType) (q : Decimal) (user : User) (date : ℕ)
      (fields : Fields) (db : Ledger S)
      → validate_quantity_for_unit (some q) part.unit false ≡ ok q
      → part.active ≡ true
      → move_cache engine type part.id q db ≡ raise insufficient_stock
      → create_movement engine part type (some q) user date fields db ≡ raise insufficient_stock
  unfolding create_movement
  create_movement-short part type q user date fields db valid live short =
      rw (valid, create_movement) (rw short (rw live refl))

  -- A count is refused only for want of cached stock, and only where it takes stock away.
  correct_stock-cases :
      (part : SparePart S) (counted : Decimal) (before : ℤ) (user : User) (date : ℕ)
      (reason : String) (remarks : Option String) (db : Ledger S)
      → part.active ≡ true
      → (is_discrete_unit part.unit && not (is_whole (magnitude (difference counted before))))
        ≡ false
      → ((db' : Ledger S) × (correct_stock engine part counted before user date reason remarks db
            ≡ ok db')
          × NewestCompares db'.movements before (engine.read_back counted))
        ⊎ ((correct_stock engine part counted before user date reason remarks db
              ≡ raise insufficient_stock)
            × (is_negative (difference counted before).units ≡ true)
            × Short engine part.id (magnitude (difference counted before)) db)
  unfolding correct_stock
  correct_stock-cases part counted before user date reason remarks db live whole =
      let off = difference counted before in
      let type = count_type off.units in
      let q = magnitude off in
      let fields = count_fields reason remarks before (engine.read_back counted) in
      elim (Bool-cases (abs off.units == 0)) [
        | inl even ↦ inl (
          add_movement part type (engine.read_back zero_quantity) user date fields db,
          rw (even, correct_stock) refl,
          (refl, refl),
        )
        | inr uneven ↦
            let valid : validate_quantity_for_unit (some q) part.unit false ≡ ok q =
              validate_ok q part.unit false (rw uneven refl) whole in
            elim (Bool-cases (is_negative off.units)) [
              | inr up ↦ inl (
                add_movement part type (engine.read_back q) user date fields
                    (increase_cache engine part.id q db),
                rw (uneven, correct_stock)
                    (create_movement-moved part type q user date fields db
                      (increase_cache engine part.id q db) valid live (rw up refl)),
                (refl, refl),
              )
              | inl down ↦ elim (decrease_cache-cases part.id q db) [
                | inl (moved, done) ↦ inl (
                  add_movement part type (engine.read_back q) user date fields moved,
                  rw (uneven, correct_stock)
                      (create_movement-moved part type q user date fields db moved valid live
                        (rw down done)),
                  (refl, refl),
                )
                | inr (refused, short) ↦ inr (
                  rw (uneven, correct_stock)
                      (create_movement-short part type q user date fields db valid live
                        (rw down refused)),
                  down,
                  short,
                )
              ]
            ]
      ]

  -- If a column gives back each number that fits it: a physical count of a part in use, for a reason, of
  -- three decimals at most, allowed by the unit, as its difference to the ledger's stock is, and with a
  -- difference that fits the column, is refused only if it is below that stock and the engine does not
  -- find the difference in the part's cache. Otherwise it is recorded: the stock of the part becomes the
  -- counted quantity, no other part's stock changes, and the new row has both quantities compared.
  pub record_stock_count-exact :
      (strip : String → String) (part : SparePart S) (counted : Decimal) (user : User) (date : ℕ)
      (reason remarks : Option String) (db : Ledger S)
      → ReadsBack engine
      → Counted strip part counted reason db
      → ((db' : Ledger S) × (record_stock_count engine strip part
              (some counted)
              user
              date
              reason
              remarks
              db
            ≡ ok db')
          × (current_stock part.id db'.movements ≡ to_thousandths counted)
          × ((id : ℕ)
              → (id == part.id) ≡ false
              → current_stock id db'.movements ≡ current_stock id db.movements)
          × NewestCompares db'.movements
              (current_stock part.id db.movements)
              (engine.read_back counted))
        ⊎ ((record_stock_count engine strip part (some counted) user date reason remarks db
              ≡ raise insufficient_stock)
            × (is_negative (to_thousandths counted -ℤ current_stock part.id db.movements) ≡ true)
            × Short engine part.id
                (magnitude (difference counted (current_stock part.id db.movements)))
                db)
  unfolding record_stock_count
  record_stock_count-exact strip part counted user date reason remarks db reads c =
      let before = current_stock part.id db.movements in
      let text = strip (text_of reason) in
      let valid : validate_quantity_for_unit (some counted) part.unit true ≡ ok counted =
        validate_ok counted part.unit true (rw c.positive (ground arith)) c.whole in
      elim (correct_stock-cases part counted before user date text remarks db c.in_use
        c.whole_difference) [
          | inr (refused, down, short) ↦ inr (
            rw (valid, record_stock_count) (rw refused (rw c.in_use (rw c.for_reason refl))),
            rw (difference-eq counted before c.three_decimals) at down,
            short,
          )
          | inl (db', done, newest) ↦
              let own = counted_move-id part.id (difference counted before) in
              let p =
                correct_stock-Posted engine part counted before user date text remarks db db'
                  done in
              inl (
                db',
                rw (valid, record_stock_count) (rw done (rw c.in_use (rw c.for_reason refl))),
                p.stock part.id
                    ∙ rw (ap (λ (k : ℕ). part.id == k) own ∙ eq_refl part.id)
                        (counted_stock counted before part.id reads c.three_decimals c.fits),
                λ id other. p.stock id ∙ rw (ap (λ (k : ℕ). id == k) own ∙ other) (+ℤ_zero _),
                newest,
              )
        ]
