-- ===== src/Spares/Cache.antt =====
-- spare_part_movement_service.py, `_increase_cache` and `_decrease_cache`: what they do to the cached
-- stocks.
use daily_figures.Common.{
  ℕ, ◌≡◌, refl, ◌∙◌, ap, inl, inr, Bool, true, false, Option, none, some, ◌==◌, ==_iff,
  if◌then◌else◌, Result, ok, raise, Bool-cases, Option-cases,
}
use daily_figures.Spares.{SparePart, Ledger}
use daily_figures.Spares.Amounts.{Decimal, Engine}
use daily_figures.Spares.Record.{MovementError, set_cache, set_part, increase_cache, decrease_cache}

abbrev pub cache_of : {S : Type 0} → Option (SparePart S) → Option S
cache_of none = none
cache_of (some part) = some part.current_stock_cache

abbrev pub cache_at : {S : Type 0} → ℕ → Ledger S → Option S
cache_at id db = cache_of (db.part_at id)

-- The engine's sum or difference, in the cache of the part itself.
abbrev pub shift : {S : Type 0} → Engine S → (is_up is_own : Bool) → Decimal → Option S → Option S
shift engine is_up is_own q none = none
shift engine is_up is_own q (some c) =
    some (if is_own then (if is_up then engine.add c q else engine.subtract c q) else c)

-- The two functions as one.
abbrev pub change_cache :
    {S : Type 0}
    → Engine S
    → (is_up : Bool) → ℕ
    → Decimal
    → Ledger S
    → Result MovementError (Ledger S)
change_cache engine is_up id q db =
    if is_up then ok (increase_cache engine id q db) else decrease_cache engine id q db

-- A change of the cache moves the cache of the part by the quantity, and no other, and the rows of the
-- ledger stay.
pub record CacheMoved {S : Type 0} (engine : Engine S) (is_up : Bool) (id : ℕ) (q : Decimal)
    (db db' : Ledger S) : Type 0 where
  pub caches : (i : ℕ) → cache_at i db' ≡ shift engine is_up (i == id) q (cache_at i db)
  pub rows : db'.movements ≡ db.movements
  pub gate : is_up ≡ false → (c : S) × (cache_at id db ≡ some c) × (engine.at_least c q ≡ true)

module _ {S : Type 0} (engine : Engine S) where
  shift_other : (is_up : Bool) (q : Decimal) (o : Option S) → o ≡ shift engine is_up false q o
  shift_other is_up q none = refl
  shift_other is_up q (some c) = refl

  cache_at-set_part :
      (is_up : Bool) (i id : ℕ) (q : Decimal) (part : SparePart S) (db : Ledger S)
      → db.part_at id ≡ some part
      → cache_at i (
          set_part id
            (set_cache
              (if is_up
                then engine.add part.current_stock_cache q
                else engine.subtract part.current_stock_cache q)
              part)
            db)
        ≡ shift engine is_up (i == id) q (cache_at i db)
  cache_at-set_part is_up i id q part db found = elim (Bool-cases (i == id)) [
    | inr other ↦ rw other (shift_other is_up q (cache_at i db))
    | inl own ↦
        let before : cache_at i db ≡ some part.current_stock_cache =
          ap (λ (k : ℕ). cache_at k db) ((==_iff i id).0 own) ∙ ap cache_of found in
        rw (own, before) refl
  ]

  cache_at-missing :
      (is_up : Bool) (i id : ℕ) (q : Decimal) (db : Ledger S)
      → db.part_at id ≡ none
      → cache_at i db ≡ shift engine is_up (i == id) q (cache_at i db)
  cache_at-missing is_up i id q db missing = elim (Bool-cases (i == id)) [
    | inr other ↦ rw other (shift_other is_up q (cache_at i db))
    | inl own ↦
        let before : cache_at i db ≡ none =
          ap (λ (k : ℕ). cache_at k db) ((==_iff i id).0 own) ∙ ap cache_of missing in
        rw before refl
  ]

  increase_cache-CacheMoved :
      (id : ℕ) (q : Decimal) (db : Ledger S)
      → CacheMoved engine true id q db (increase_cache engine id q db)
  unfolding increase_cache
  increase_cache-CacheMoved id q db = elim (Option-cases (db.part_at id)) [
    | inl missing ↦
        rw (missing, increase_cache)
          record {
            caches = λ i. cache_at-missing true i id q db missing;
            rows = refl;
            gate = λ h. absurd (cc);
          }
    | inr (part, found) ↦
        rw (found, increase_cache)
          record {
            caches = λ i. cache_at-set_part true i id q part db found;
            rows = refl;
            gate = λ h. absurd (cc);
          }
  ]

  abbrev value : Ledger S → Result MovementError (Ledger S) → Ledger S
  value d (ok db) = db
  value d (raise e) = d

  decrease_cache-CacheMoved :
      (id : ℕ) (q : Decimal) (db db' : Ledger S)
      → decrease_cache engine id q db ≡ ok db'
      → CacheMoved engine false id q db db'
  unfolding decrease_cache
  decrease_cache-CacheMoved id q db db' e = elim (Option-cases (db.part_at id)) [
    | inl missing ↦ cc (rw (missing, decrease_cache) at e)
    | inr (part, found) ↦ elim (Bool-cases (engine.at_least part.current_stock_cache q)) [
      | inr short ↦ cc (rw short at (rw (found, decrease_cache) at e))
      | inl enough ↦
          let same = ap (value db) (rw enough at (rw (found, decrease_cache) at e)) in
          rw (← same) record {
            caches = λ i. cache_at-set_part false i id q part db found;
            rows = refl;
            gate = λ _. (part.current_stock_cache, ap cache_of found, enough);
          }
    ]
  ]

  pub change_cache-CacheMoved :
      (is_up : Bool) (id : ℕ) (q : Decimal) (db db' : Ledger S)
      → change_cache engine is_up id q db ≡ ok db'
      → CacheMoved engine is_up id q db db'
  change_cache-CacheMoved false id q db db' e = decrease_cache-CacheMoved id q db db' e
  change_cache-CacheMoved true id q db db' e =
      rw (← ap (value db) e) (increase_cache-CacheMoved id q db)
