-- ===== src/Cutover/Life.antt =====
-- ledger_cutover_service.py: the operations on the cutovers as steps, in any order and by any users.
use daily_figures.Common.{
  ℕ, ◌≡◌, refl, sym, ◌∙◌, ap, inl, inr, Bool, true, false, not, ◌||◌, Option, none, some, List, [],
  ◌∷◌, String, ℤ, pos, ◌==◌, ==_iff, Bool-cases, Result, ok, raise, bind_ok, raise_if_ok, map_error,
  find_first, find_first-Member, arith,
}
use daily_figures.Packaging.{normalize, to_base_units}
use daily_figures.Records.{Shift, User, Product, LedgerCutover, is_activated, CutoverStatus}
use daily_figures.Stock.Database.{Database}
use daily_figures.Stock.Upsert.{is_given}
use daily_figures.Cutover.{
  CutoverError, require_elevated, get_cutover, put_cutover, required_cutover, is_draft, is_verified,
  is_ready, not_draft, not_ready, not_cancellable, reason_required, balance_rule, find_product,
  packaging, activated_row, create_draft, set_balance, verify_cutover, cancel_cutover,
  activate_cutover,
}
use daily_figures.Cutover.Written.{write_balances-cutovers}
use daily_figures.Cutover.Activation.{
  Activating, activate_cutover-Activating, not-false, required_cutover-some,
}

-- A step that succeeds; the engine gives a draft a key that no row has.
pub data Step (fingerprint confirmation : LedgerCutover → String)
    : Database → Database → Type 0 where
  draft :
      {db db' : Database} (id now : ℕ) (date : Option ℕ) (shift : Shift) (reason : Option String)
      (actor : Option User)
      → get_cutover id db ≡ none
      → create_draft id now date shift reason actor db ≡ ok db'
      → Step fingerprint confirmation db db'
  balance :
      {db db' : Database} (products : List Product) (now cutover_id product_id : ℕ)
      (cartons packs pieces : ℤ) (actor : Option User)
      → set_balance products now cutover_id product_id cartons packs pieces actor db ≡ ok db'
      → Step fingerprint confirmation db db'
  verify :
      {db db' : Database} (products : List Product) (now cutover_id : ℕ) (actor : Option User)
      → verify_cutover products now cutover_id actor db ≡ ok db'
      → Step fingerprint confirmation db db'
  cancel :
      {db db' : Database} (now cutover_id : ℕ) (reason : Option String) (actor : Option User)
      → cancel_cutover now cutover_id reason actor db ≡ ok db'
      → Step fingerprint confirmation db db'
  activate :
      {db db' : Database} (products : List Product) (now cutover_id : ℕ) (actor : Option User)
      (token text : Option String) (backup : Bool) (reason : Option String)
      → activate_cutover fingerprint confirmation products now cutover_id actor token text backup
          reason db
        ≡ ok db'
      → Step fingerprint confirmation db db'

pub data Steps (fingerprint confirmation : LedgerCutover → String)
    : Database → Database → Type 0 where
  here : {db : Database} → Steps fingerprint confirmation db db
  then :
      {db mid db' : Database}
      → Step fingerprint confirmation db mid
      → Steps fingerprint confirmation mid db'
      → Steps fingerprint confirmation db db'

-- An UPDATE of a cutover that is not activated.
record Updating (db db' : Database) : Type 0 where
  old : LedgerCutover
  new : LedgerCutover
  is_there : get_cutover new.id db ≡ some old
  not_activated : is_activated old.status ≡ false
  is_put : db'.cutovers ≡ put_cutover new db.cutovers

put_cutover-other :
    (id : ℕ) (c : LedgerCutover) (cs : List LedgerCutover)
    → (c.id == id) ≡ false
    → find_first (λ x. x.id == id) (put_cutover c cs) ≡ find_first (λ x. x.id == id) cs
put_cutover-other id c [] h = refl
put_cutover-other id c (y ∷ ys) h = elim (Bool-cases (y.id == c.id)) [
  | inl own ↦
      let apart : (y.id == id) ≡ false = ap (λ (k : ℕ). k == id) ((==_iff y.id c.id).0 own) ∙ h in
      rw (own, h, apart) refl
  | inr later ↦ rw later (rw (put_cutover-other id c ys h) refl)
]

abbrev status_of : Option LedgerCutover → Bool
status_of none = false
status_of (some c) = is_activated c.status

Updating-activated :
    (db db' : Database) (id : ℕ) (row : LedgerCutover)
    → Updating db db'
    → get_cutover id db ≡ some row
    → is_activated row.status ≡ true
    → get_cutover id db' ≡ some row
Updating-activated db db' id row u found live =
    ap (λ (cs : List LedgerCutover). find_first (λ x. x.id == id) cs) u.is_put
    ∙ (elim (Bool-cases (u.new.id == id)) [
      | inr other ↦ put_cutover-other id u.new db.cutovers other ∙ found
      | inl same ↦
          let both : some u.old ≡ some row =
            sym u.is_there
            ∙ ap (λ (k : ℕ). get_cutover k db) ((==_iff u.new.id id).0 same)
            ∙ found in
          absurd (cc (ap status_of both, u.not_activated, live))
    ])

not_activated-draft : (s : CutoverStatus) → is_draft s ≡ true → is_activated s ≡ false
not_activated-draft s h = ground arith

not_activated-verified : (s : CutoverStatus) → is_verified s ≡ true → is_activated s ≡ false
not_activated-verified s h = ground arith

not_activated-open :
    (s : CutoverStatus) → not (is_draft s || is_verified s) ≡ false → is_activated s ≡ false
not_activated-open s h = ground arith

abbrev cutovers_of : Database → Result CutoverError Database → List LedgerCutover
cutovers_of d (ok db) = db.cutovers
cutovers_of d (raise e) = d.cutovers

-- The row that is found is put back, changed, under its own id.
found_under :
    (db : Database) (cutover_id : ℕ) (c : LedgerCutover)
    → required_cutover (get_cutover cutover_id db) ≡ ok c
    → get_cutover c.id db ≡ some c
found_under db cutover_id c e =
    let there = required_cutover-some (get_cutover cutover_id db) c e in
    let named = (find_first-Member (λ x. x.id == cutover_id) db.cutovers c there).1 in
    ap (λ (k : ℕ). get_cutover k db) ((==_iff c.id cutover_id).0 named) ∙ there

set_balance-Updating :
    (products : List Product) (now cutover_id product_id : ℕ) (cartons packs pieces : ℤ)
    (actor : Option User) (db db' : Database)
    → set_balance products now cutover_id product_id cartons packs pieces actor db ≡ ok db'
    → Updating db db'
unfolding set_balance
set_balance-Updating products now cutover_id product_id cartons packs pieces actor db db' e =
    let (user, _, e1) = bind_ok (require_elevated actor) _ e in
    let (c, there, e2) = bind_ok (required_cutover (get_cutover cutover_id db)) _ e1 in
    let (drafted, e3) = raise_if_ok (not (is_draft c.status)) not_draft _ e2 in
    let (rule, _, e4) = bind_ok (balance_rule now (find_product products product_id)) _ e3 in
    let (q, _, e5) = bind_ok (map_error packaging (normalize cartons packs pieces rule)) _ e4 in
    let (n, _, e6) =
      bind_ok
        (map_error packaging (to_base_units (pos q.cartons) (pos q.packs) (pos q.pieces) rule)) _
        e5 in
    record {
      old = c;
      new = _;
      is_there = found_under db cutover_id c there;
      not_activated = not_activated-draft c.status (not-false drafted);
      is_put = sym (ap (cutovers_of db) e6);
    }

verify_cutover-Updating :
    (products : List Product) (now cutover_id : ℕ) (actor : Option User) (db db' : Database)
    → verify_cutover products now cutover_id actor db ≡ ok db'
    → Updating db db'
unfolding verify_cutover
verify_cutover-Updating products now cutover_id actor db db' e =
    let (user, _, e1) = bind_ok (require_elevated actor) _ e in
    let (c, there, e2) = bind_ok (required_cutover (get_cutover cutover_id db)) _ e1 in
    let (drafted, e3) = raise_if_ok (not (is_draft c.status)) not_draft _ e2 in
    let (_, e4) = raise_if_ok (not (is_ready products c)) not_ready _ e3 in
    record {
      old = c;
      new = _;
      is_there = found_under db cutover_id c there;
      not_activated = not_activated-draft c.status (not-false drafted);
      is_put = sym (ap (cutovers_of db) e4);
    }

cancel_cutover-Updating :
    (now cutover_id : ℕ) (reason : Option String) (actor : Option User) (db db' : Database)
    → cancel_cutover now cutover_id reason actor db ≡ ok db'
    → Updating db db'
unfolding cancel_cutover
cancel_cutover-Updating now cutover_id reason actor db db' e =
    let (user, _, e1) = bind_ok (require_elevated actor) _ e in
    let (c, there, e2) = bind_ok (required_cutover (get_cutover cutover_id db)) _ e1 in
    let (opened, e3) =
      raise_if_ok (not (is_draft c.status || is_verified c.status)) not_cancellable _ e2 in
    let (_, e4) = raise_if_ok (not (is_given reason)) reason_required _ e3 in
    record {
      old = c;
      new = _;
      is_there = found_under db cutover_id c there;
      not_activated = not_activated-open c.status opened;
      is_put = sym (ap (cutovers_of db) e4);
    }

Activating-Updating :
    (products : List Product) (now cutover_id : ℕ) (db db' : Database)
    → Activating products now cutover_id db db'
    → Updating db db'
Activating-Updating products now cutover_id db db' a = record {
  old = a.cutover;
  new = activated_row now a.user a.cutover;
  is_there = found_under db cutover_id a.cutover (ap required_cutover a.is_there);
  not_activated = not_activated-verified a.cutover.status a.was_verified;
  is_put =
      ap (λ (d : Database). d.cutovers) a.is_saved
      ∙ ap (put_cutover (activated_row now a.user a.cutover)) (
          write_balances-cutovers products now a.cutover a.user a.cutover.balances db a.written
            a.is_written);
}

create_draft-kept :
    (id now : ℕ) (date : Option ℕ) (shift : Shift) (reason : Option String) (actor : Option User)
    (db db' : Database) (other : ℕ) (row : LedgerCutover)
    → get_cutover id db ≡ none
    → create_draft id now date shift reason actor db ≡ ok db'
    → get_cutover other db ≡ some row
    → get_cutover other db' ≡ some row
unfolding create_draft
create_draft-kept id now none shift reason actor db db' other row fresh e found =
    let (user, _, e1) = bind_ok (require_elevated actor) _ e in absurd (cc)
create_draft-kept id now (some date) shift reason actor db db' other row fresh e found =
    let (user, _, e1) = bind_ok (require_elevated actor) _ e in
    let (_, e2) = raise_if_ok (not (is_given reason)) reason_required _ e1 in
    let after = sym (ap (cutovers_of db) e2) in
    ap (λ (cs : List LedgerCutover). find_first (λ x. x.id == other) cs) after
    ∙ (elim (Bool-cases (id == other)) [
      | inr apart ↦ rw apart found
      | inl same ↦
          absurd (cc (fresh, found, ap (λ (k : ℕ). get_cutover k db) ((==_iff id other).0 same)))
    ])

module _ (fingerprint confirmation : LedgerCutover → String) where
  Step-activated :
      (db db' : Database) (id : ℕ) (row : LedgerCutover)
      → Step fingerprint confirmation db db'
      → get_cutover id db ≡ some row
      → is_activated row.status ≡ true
      → get_cutover id db' ≡ some row
  Step-activated db db' id row (draft new now date shift reason actor fresh e) found live =
      create_draft-kept new now date shift reason actor db db' id row fresh e found
  Step-activated db db' id row (balance products now c p n m l actor e) found live =
      Updating-activated db db' id row (set_balance-Updating products now c p n m l actor db db' e)
        found live
  Step-activated db db' id row (verify products now c actor e) found live =
      Updating-activated db db' id row (verify_cutover-Updating products now c actor db db' e) found
        live
  Step-activated db db' id row (cancel now c reason actor e) found live =
      Updating-activated db db' id row (cancel_cutover-Updating now c reason actor db db' e) found
        live
  Step-activated db db' id row (activate products now c actor token text backup reason e) found
        live =
      Updating-activated db db' id row
        (Activating-Updating products now c db db' (
          activate_cutover-Activating fingerprint confirmation products now c actor token text
            backup reason db db' e))
        found live

  -- A cutover that is activated stays as it is, whatever steps are made with the cutovers later: new
  -- drafts, balances, verifications, cancellations and activations.
  pub Steps-activated :
      (db db' : Database) (id : ℕ) (row : LedgerCutover)
      → Steps fingerprint confirmation db db'
      → get_cutover id db ≡ some row
      → is_activated row.status ≡ true
      → get_cutover id db' ≡ some row
  Steps-activated db db' id row here found live = found
  Steps-activated db db' id row (then {mid = mid} first rest) found live =
      Steps-activated mid db' id row rest (Step-activated db mid id row first found live) live
