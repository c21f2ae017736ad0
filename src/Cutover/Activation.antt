-- ===== src/Cutover/Activation.antt =====
-- ledger_cutover_service.py, `activate_cutover`: what an activation that succeeds has done to the stock
-- and to the cutover that governs it.
use daily_figures.Common.{
  ℕ, ◌<◌, ◌≡◌, ◌⊎◌, refl, sym, ◌∙◌, ap, inl, inr, Bool, true, false, not, ◌&&◌, Option, none, some,
  List, String, ℤ, pos, ◌==◌, ==_iff, Bool-cases, Result-cases, Result, ok, raise, Member,
  exists_where, bind_ok, raise_if_ok, exists_where-Member, exists_where-none, filter_where,
  find_first-Member, find_first,
}
use daily_figures.Records.{
  Shift, User, Product, Balance, LedgerCutover, is_activated, DailyFigure, ledger_cutover,
}
use daily_figures.Stock.Database.{Database}
use daily_figures.Stock.Anchor.{figure_at}
use daily_figures.Stock.Carry.{opening_base_qty_at}
use daily_figures.Stock.View.{cutover_key, get_active_cutover, latest_cutover}
use daily_figures.Stock.Upsert.{is_given}
use daily_figures.Stock.Upsert.Trusted.{opening_base_qty_at-trusted, unconditional-trusted}
use daily_figures.Cutover.{
  CutoverError, reason_required, backup_required, already_activated, not_verified,
  wrong_confirmation, stale_preview, not_ready, period_governed, require_elevated, get_cutover,
  put_cutover, required_cutover, with_cutover, is_verified, is_text, is_stale, is_ready,
  is_balance_of, is_governing, activated_row, write_balances, activate_cutover,
}
use daily_figures.Cutover.Written.{
  IsKeyed, AreOfDistinct, write_balances-AreWritten, write_balances-cutovers,
}
use daily_figures.Cutover.Order.{put_cutover-governs}

-- An activation that succeeded.
pub record Activating (products : List Product) (now cutover_id : ℕ) (db db' : Database)
    : Type 0 where
  pub user : User
  pub cutover : LedgerCutover
  pub is_there : get_cutover cutover_id db ≡ some cutover
  pub was_verified : is_verified cutover.status ≡ true
  pub was_ready : is_ready products cutover ≡ true
  pub none_later : exists_where (is_governing (cutover_key cutover)) db.cutovers ≡ false
  pub written : Database
  pub is_written : write_balances products now cutover user cutover.balances db ≡ ok written
  pub is_saved : db' ≡ with_cutover (activated_row now user cutover) written

abbrev value : Database → Result CutoverError Database → Database
value d (ok db) = db
value d (raise e) = d

pub not-false : {b : Bool} → not b ≡ false → b ≡ true
not-false {b = true} h = refl
not-false {b = false} h = absurd (cc)

pub required_cutover-some :
    (o : Option LedgerCutover) (c : LedgerCutover) → required_cutover o ≡ ok c → o ≡ some c
required_cutover-some none c e = absurd (cc)
required_cutover-some (some x) c e =
    ap (λ (r : Result CutoverError LedgerCutover). some (given r)) e
  where
    given : Result CutoverError LedgerCutover → LedgerCutover
    given (ok d) = d
    given (raise err) = x

module _ (fingerprint confirmation : LedgerCutover → String) (products : List Product)
    (now cutover_id : ℕ) where
  pub activate_cutover-Activating :
      (actor : Option User) (token text : Option String) (backup : Bool) (reason : Option String)
      (db db' : Database)
      → activate_cutover fingerprint confirmation products now cutover_id actor token text backup
          reason db
        ≡ ok db'
      → Activating products now cutover_id db db'
  unfolding activate_cutover
  activate_cutover-Activating actor token text backup reason db db' e =
      elim (Result-cases (require_elevated actor)) [
        | inr (err, bad) ↦ cc (rw (bad, activate_cutover) at e)
        | inl (user, elevated) ↦
            let (_, e1) =
              raise_if_ok (not (is_given reason)) reason_required _
                (rw (elevated, activate_cutover) at e) in
            let (_, e2) = raise_if_ok (not backup) backup_required _ e1 in
            let (c, there, e3) = bind_ok (required_cutover (get_cutover cutover_id db)) _ e2 in
            let (_, e4) = raise_if_ok (is_activated c.status) already_activated _ e3 in
            let (verified, e5) = raise_if_ok (not (is_verified c.status)) not_verified _ e4 in
            let (_, e6) =
              raise_if_ok (not (is_text (confirmation c) text)) wrong_confirmation _ e5 in
            let (_, e7) = raise_if_ok (is_stale (fingerprint c) token) stale_preview _ e6 in
            let (ready, e8) = raise_if_ok (not (is_ready products c)) not_ready _ e7 in
            let (first, e9) =
              raise_if_ok (exists_where (is_governing (cutover_key c)) db.cutovers) period_governed
                _ e8 in
            let (written, done, e10) =
              bind_ok (write_balances products now c user c.balances db) _ e9 in
            record {
              user = user;
              cutover = c;
              is_there = required_cutover-some (get_cutover cutover_id db) c there;
              was_verified = not-false verified;
              was_ready = not-false ready;
              none_later = first;
              written = written;
              is_written = done;
              is_saved = sym (ap (value db) e10);
            }
      ]

ready-Member :
    (products : List Product) (c : LedgerCutover) (p : Product)
    → is_ready products c ≡ true
    → Member p products
    → p.active ≡ true
    → (b : Balance) × Member b c.balances × (b.product_id ≡ p.id)
unfolding is_ready
ready-Member products c p ready m live =
    elim (Bool-cases (exists_where (is_balance_of p.id) c.balances)) [
      | inl some_balance ↦
          let (b, among, own) = exists_where-Member (is_balance_of p.id) c.balances some_balance in
          (b, among, (==_iff b.product_id p.id).0 own)
      | inr no_balance ↦
          let missing : Product → Bool =
            λ x. x.active && not (exists_where (is_balance_of x.id) c.balances) in
          let passes = exists_where-none missing products p (not_true ready) m in
          absurd (cc (rw no_balance at (rw live at passes)))
    ]
  where
    not_true : {b : Bool} → not b ≡ true → b ≡ false
    not_true {b = true} h = absurd (cc)
    not_true {b = false} h = refl

opening_at-row :
    (db : Database) (product_id date : ℕ) (shift : Shift) (row : DailyFigure) (n : ℤ)
    → figure_at db product_id date shift ≡ some row
    → row.opening_stock_source ≡ ledger_cutover
    → row.opening_base_qty ≡ n
    → opening_base_qty_at db product_id date shift ≡ n
opening_at-row db product_id date shift row n found source opens =
    opening_base_qty_at-trusted db product_id date shift row found
      (unconditional-trusted db row (rw source refl))
    ∙ opens

Activating-openings :
    (products : List Product) (now cutover_id : ℕ) (db db' : Database)
    (a : Activating products now cutover_id db db')
    → IsKeyed db
    → AreOfDistinct a.cutover.balances
    → (p : Product) → Member p products
    → p.active ≡ true
    → (b : Balance) × Member b a.cutover.balances
      × (b.product_id ≡ p.id)
      × (opening_base_qty_at db' p.id a.cutover.effective_date a.cutover.effective_shift
          ≡ pos b.base_qty)
Activating-openings products now cutover_id db db' a k apart p m live =
    let (b, among, own) = ready-Member products a.cutover p a.was_ready m live in
    let w =
      (write_balances-AreWritten products now a.cutover a.user a.cutover.balances db a.written k
          apart a.is_written).written
        b among in
    let after = with_cutover (activated_row now a.user a.cutover) a.written in
    let opens =
      opening_at-row after b.product_id a.cutover.effective_date a.cutover.effective_shift w.row
        (pos b.base_qty) w.is_found w.of_cutover w.opens in
    (
      b,
      among,
      own,
      ap
            (λ (d : Database).
              opening_base_qty_at d p.id a.cutover.effective_date a.cutover.effective_shift)
            a.is_saved
          ∙ ap
              (λ (id : ℕ).
                opening_base_qty_at after id a.cutover.effective_date a.cutover.effective_shift)
              (sym own)
          ∙ opens,
    )

-- After an activation every active product has a balance in the cutover, and its opening in the period
-- of the cutover is that balance, whatever the books and the rows of the table held before. The
-- hypotheses are the constraints of the two tables.
pub activate_cutover-openings :
    (fingerprint confirmation : LedgerCutover → String) (products : List Product)
    (now cutover_id : ℕ) (actor : Option User) (token text : Option String) (backup : Bool)
    (reason : Option String) (c : LedgerCutover) (db db' : Database)
    → IsKeyed db
    → get_cutover cutover_id db ≡ some c
    → AreOfDistinct c.balances
    → activate_cutover fingerprint confirmation products now cutover_id actor token text backup
        reason db
      ≡ ok db'
    → (p : Product) → Member p products
    → p.active ≡ true
    → (b : Balance) × Member b c.balances
      × (b.product_id ≡ p.id)
      × (opening_base_qty_at db' p.id c.effective_date c.effective_shift ≡ pos b.base_qty)
activate_cutover-openings fingerprint confirmation products now cutover_id actor token text backup
      reason c db db' k there apart e =
    let a =
      activate_cutover-Activating fingerprint confirmation products now cutover_id actor token text
        backup reason db db' e in
    let same : a.cutover ≡ c = given_eq (sym a.is_there ∙ there) in
    λ p m live.
      rw same at (Activating-openings products now cutover_id db db' a k (rw same apart) p m live)
  where
    given : LedgerCutover → Option LedgerCutover → LedgerCutover
    given d none = d
    given d (some x) = x

    given_eq : {x : LedgerCutover} → some x ≡ some c → x ≡ c
    given_eq e = ap (given c) e

-- After an activation the cutover is the one that governs, the latest of all that are activated: each
-- other one that is activated is of an earlier period.
pub activate_cutover-governs :
    (fingerprint confirmation : LedgerCutover → String) (products : List Product)
    (now cutover_id : ℕ) (actor : Option User) (token text : Option String) (backup : Bool)
    (reason : Option String) (db db' : Database)
    → activate_cutover fingerprint confirmation products now cutover_id actor token text backup
        reason db
      ≡ ok db'
    → (row : LedgerCutover) × (get_active_cutover db' ≡ some row)
      × (row.id ≡ cutover_id)
      × ((x : LedgerCutover)
          → Member x db'.cutovers
          → is_activated x.status ≡ true
          → (x ≡ row) ⊎ (cutover_key x < cutover_key row))
unfolding get_active_cutover
activate_cutover-governs fingerprint confirmation products now cutover_id actor token text backup
      reason db db' e =
    let a =
      activate_cutover-Activating fingerprint confirmation products now cutover_id actor token text
        backup reason db db' e in
    let row = activated_row now a.user a.cutover in
    let (_, named) = find_first-Member (λ c. c.id == cutover_id) db.cutovers a.cutover a.is_there in
    let own = (==_iff a.cutover.id cutover_id).0 named in
    let there : find_first (λ c. c.id == row.id) db.cutovers ≡ some a.cutover =
      ap (λ (id : ℕ). get_cutover id db) own ∙ a.is_there in
    let (earlier, latest) = put_cutover-governs row a.cutover db.cutovers there refl a.none_later in
    let after : db'.cutovers ≡ put_cutover row db.cutovers =
      ap (λ (d : Database). d.cutovers) a.is_saved
      ∙ ap (put_cutover row) (
          write_balances-cutovers products now a.cutover a.user a.cutover.balances db a.written
            a.is_written) in
    (
      row,
      ap
            (λ (cs : List LedgerCutover).
              latest_cutover (filter_where (λ c. is_activated c.status) cs))
            after
          ∙ latest,
      own,
      λ x m active. earlier x (rw after at m) active,
    )
