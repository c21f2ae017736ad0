-- ===== src/Spares/Effect.antt =====
-- spare_part_movement_service.py: what each operation does to the stocks and to their caches.
use daily_figures.Common.{
  ℕ, ◌≡◌, refl, sym, ◌∙◌, ap, inl, inr, Bool, true, false, not, ◌&&◌, ◌||◌, Option, none, some,
  List, String, ℤ, pos, ◌+ℤ◌, +ℤ_comm, ◌-ℤ◌, is_negative, is_zero, int_laws, ◌==◌, if◌then◌else◌,
  find_first, Result, ok, raise, raise_if_ok, bind_ok, Bool-cases, Result-cases, arith,
}
use daily_figures.Records.{User}
use daily_figures.Spares.{
  SparePart, PartUnit, is_discrete_unit, MovementType, is_increasing, is_active, Fields, Movement,
  Ledger, current_stock,
}
use daily_figures.Spares.Amounts.{Decimal, Engine, from_thousandths, is_whole}
use daily_figures.Spares.Record.{
  MovementError, not_positive, not_whole, inactive_part, already_void, void_reason_required,
  decrease_cache, move_cache, inverse_cache, create_movement, add_movement, movement_row,
  validate_quantity_for_unit, void_movement, void_row, is_blank,
}
use daily_figures.Spares.Balance.{
  has_id, change, change-active, current_stock-row, current_stock-void,
}
use daily_figures.Spares.Cache.{cache_at, shift, change_cache, change_cache-CacheMoved}

-- What a quantity adds, or takes.
abbrev pub delta : (is_up : Bool) → ℤ → ℤ
delta is_up q = if is_up then pos 0 +ℤ q else pos 0 -ℤ q

-- A part, the amount that its cache moves by, if it moves, and the thousandths that its stock moves by.
pub record Move : Type 0 where
  pub is_up : Bool
  pub id : ℕ
  pub amount : Option Decimal
  pub units : ℤ

abbrev pub shifted : {S : Type 0} → Engine S → Move → ℕ → Option S → Option S
shifted engine move i o = elim move.amount [
  | none ↦ o
  | some q ↦ shift engine move.is_up (i == move.id) q o
]

-- The stock of the part moves by the units and its cache by the amount, all other stocks and caches
-- stay, and an amount is taken from a cache only if the engine finds that much in it.
pub record Posted {S : Type 0} (engine : Engine S) (move : Move) (db db' : Ledger S) : Type 0 where
  pub caches : (i : ℕ) → cache_at i db' ≡ shifted engine move i (cache_at i db)
  pub gate :
      (q : Decimal)
      → move.amount ≡ some q
      → move.is_up ≡ false
      → (c : S) × (cache_at move.id db ≡ some c) × (engine.at_least c q ≡ true)
  pub stock :
      (i : ℕ)
      → current_stock i db'.movements
        ≡ current_stock i db.movements
          +ℤ (if i == move.id then delta move.is_up move.units else pos 0)

abbrev pub posting : Bool → ℕ → Decimal → ℤ → Move
posting is_up id q n = record { is_up = is_up; id = id; amount = some q; units = n }

pub validate_quantity_for_unit-ok :
    (quantity : Option Decimal) (unit : PartUnit) (allow_zero : Bool) (q : Decimal)
    → validate_quantity_for_unit quantity unit allow_zero ≡ ok q
    → quantity ≡ some q
unfolding validate_quantity_for_unit
validate_quantity_for_unit-ok none unit allow_zero q e = absurd (cc)
validate_quantity_for_unit-ok (some n) unit allow_zero q e =
    let (_, e1) =
      raise_if_ok (is_negative n.units || (is_zero n.units && not allow_zero)) not_positive _ e in
    let (_, e2) = raise_if_ok (is_discrete_unit unit && not (is_whole n)) not_whole _ e1 in
    ap (value_or n) e2
  where
    value_or : Decimal → Result MovementError Decimal → Option Decimal
    value_or d (ok x) = some x
    value_or d (raise e) = some d

abbrev pub given_back : Movement → Move
given_back m =
    posting (not (is_increasing m.movement_type)) m.spare_part_id (from_thousandths m.quantity)
      m.quantity

module _ {S : Type 0} (engine : Engine S) where
  abbrev value : Ledger S → Result MovementError (Ledger S) → Ledger S
  value d (ok db) = db
  value d (raise e) = d

  abbrev given_amount : (d : Decimal) → Option Decimal → Decimal
  given_amount d none = d
  given_amount d (some q) = q

  -- A row that is new moves the stock by its quantity.
  pub new_row-stock :
      (part : SparePart S) (type : MovementType) (n : ℤ) (user : User) (date : ℕ) (fields : Fields)
      (db : Ledger S) (i : ℕ)
      → current_stock i (add_movement part type n user date fields db).movements
        ≡ current_stock i db.movements
          +ℤ (if i == part.id then delta (is_increasing type) n else pos 0)
  new_row-stock part type n user date fields db i =
      let row = movement_row part type n user date fields db.next_movement_id in
      current_stock-row i row db.movements
      ∙ +ℤ_comm (change i row) _
      ∙ rw (change-active i row refl) refl

  -- A movement that is recorded moves the cache by its quantity, and the stock by what the column holds.
  pub create_movement-Posted :
      (part : SparePart S) (type : MovementType) (quantity : Option Decimal) (user : User)
      (date : ℕ) (fields : Fields) (db db' : Ledger S)
      → create_movement engine part type quantity user date fields db ≡ ok db'
      → (q : Decimal) × (quantity ≡ some q)
        × Posted engine (posting (is_increasing type) part.id q (engine.read_back q)) db db'
  unfolding create_movement
  create_movement-Posted part type quantity user date fields db db' e =
      let (q, valid, e1) = bind_ok (validate_quantity_for_unit quantity part.unit false) _ e in
      let (_, e2) = raise_if_ok (not part.active) inactive_part _ e1 in
      let (db1, done, e3) = bind_ok (move_cache engine type part.id q db) _ e2 in
      let moved = change_cache-CacheMoved engine (is_increasing type) part.id q db db1 done in
      (
        q,
        validate_quantity_for_unit-ok quantity part.unit false q valid,
        rw (← ap (value db) e3) record {
          caches = moved.caches;
          gate = λ q' same down.
              let (c, at, enough) = moved.gate down in
              (
                c,
                at,
                ap (λ (x : Decimal). engine.at_least c x) (ap (given_amount q) (sym same)) ∙ enough,
              );
          stock = λ i.
              new_row-stock part type (engine.read_back q) user date fields db1 i
              ∙ ap
                  (λ (ms : List Movement).
                    current_stock i ms
                    +ℤ (if i == part.id
                        then delta (is_increasing type) (engine.read_back q)
                        else pos 0))
                  moved.rows;
        },
      )

  undone :
      (is_own is_up : Bool) (q a a' : ℤ)
      → a ≡ (if is_own then delta is_up q else pos 0) +ℤ a'
      → a' ≡ a +ℤ (if is_own then delta (not is_up) q else pos 0)
  undone false is_up q a a' e = rw e (omega int_laws)
  undone true true q a a' e = rw e (omega int_laws)
  undone true false q a a' e = rw e (omega int_laws)

  inverse_cache-ok :
      (m : Movement) (db db' : Ledger S)
      → inverse_cache engine m db ≡ ok db'
      → change_cache engine
          (not (is_increasing m.movement_type))
          m.spare_part_id
          (from_thousandths m.quantity)
          db
        ≡ ok db'
  inverse_cache-ok m db db' h = elim (Bool-cases (is_increasing m.movement_type)) [
    | inr down ↦ rw down (rw down at h)
    | inl up ↦
        rw up
          (elim (Result-cases
            (decrease_cache engine m.spare_part_id (from_thousandths m.quantity) db)) [
              | inl (x, fine) ↦ rw fine (rw fine at (rw up at h))
              | inr (err, short) ↦ cc (rw short at (rw up at h))
            ])
  ]

  -- A void gives the quantity of its row back, or takes it back.
  pub void_movement-Posted :
      (now : ℕ) (m : Movement) (user : User) (reason : Option String) (db db' : Ledger S)
      → find_first (has_id m.id) db.movements ≡ some m
      → void_movement engine now m user reason db ≡ ok db'
      → Posted engine (given_back m) db db'
  unfolding void_movement
  void_movement-Posted now m user reason db db' found e =
      let (dead, e1) = raise_if_ok (not (is_active m.status)) already_void _ e in
      let (_, e2) = raise_if_ok (is_blank reason) void_reason_required _ e1 in
      let (db1, done, e3) = bind_ok (inverse_cache engine m db) _ e2 in
      let up = not (is_increasing m.movement_type) in
      let moved =
        change_cache-CacheMoved engine up m.spare_part_id (from_thousandths m.quantity) db db1
          (inverse_cache-ok m db db1 done) in
      rw (← ap (value db) e3) record {
        caches = moved.caches;
        gate = λ q same down.
            let (c, at, enough) = moved.gate down in
            (
              c,
              at,
              ap (λ (x : Decimal). engine.at_least c x)
                    (ap (given_amount (from_thousandths m.quantity)) (sym same))
                  ∙ enough,
            );
        stock = λ i. undone (i == m.spare_part_id) (is_increasing m.movement_type) m.quantity _ _ (
            current_stock-void i (void_row now user reason) m db.movements found refl
            ∙ rw (moved.rows, change-active i m (live dead)) refl);
      }
    where
      live : not (is_active m.status) ≡ false → is_active m.status ≡ true
      live h = ground arith
