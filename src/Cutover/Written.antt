-- ===== src/Cutover/Written.antt =====
-- ledger_cutover_service.py, `activate_cutover`: the rows that the loop over the balances writes.
use daily_figures.Common.{
  ℕ, ◌≡◌, ◌≢◌, refl, sym, ◌∙◌, ap, inl, inr, false, Option, none, some, List, [], ◌∷◌, pos,
  Option-cases, Result-cases, Result, ok, raise, bind_ok, Member,
}
use daily_figures.Packaging.{PackagingRule}
use daily_figures.Records.{User, Product, Balance, LedgerCutover, DailyFigure, ledger_cutover}
use daily_figures.Stock.Database.{Database}
use daily_figures.Stock.Anchor.{figure_at}
use daily_figures.Stock.Anchor.Latest.{AreDistinct, figure_at_some}
use daily_figures.Stock.Upsert.{correction_audit}
use daily_figures.Stock.Upsert.Rows.{AreBelow}
use daily_figures.Stock.Upsert.Stored.{IsAtPeriod, IsAtPeriod-stored, IsAtPeriod-other}
use daily_figures.Cutover.{
  CutoverError, find_product, balance_saved, store_row, written_rule, write_balance, write_balances,
}

-- The table keeps one row to a key and to a product and period.
pub record IsKeyed (db : Database) : Type 0 where
  pub distinct : AreDistinct db.figures
  pub below : AreBelow db.next_id db.figures

-- The row of a balance's product, in the period of the cutover, opens with the balance.
pub record IsWritten (c : LedgerCutover) (b : Balance) (db : Database) : Type 0 where
  pub row : DailyFigure
  pub is_found : figure_at db b.product_id c.effective_date c.effective_shift ≡ some row
  pub of_cutover : row.opening_stock_source ≡ ledger_cutover
  pub opens : row.opening_base_qty ≡ pos b.base_qty

balance_saved-IsAtPeriod :
    (c : LedgerCutover) (rule : PackagingRule) (user : User) (b : Balance) (db : Database)
    → IsAtPeriod db b.product_id c.effective_date c.effective_shift (balance_saved c rule user b db)
balance_saved-IsAtPeriod c rule user b db =
    elim (Option-cases (figure_at db b.product_id c.effective_date c.effective_shift)) [
      | inl missing ↦ rw missing record {
        at_product = refl;
        at_date = refl;
        at_shift = refl;
        keeps_id = λ f found. cc;
        new_id = λ _. refl;
      }
      | inr (f, found) ↦
          let (_, of_product, on_date, in_shift) =
            figure_at_some b.product_id c.effective_date c.effective_shift db.figures f found in
          rw found record {
            at_product = of_product;
            at_date = on_date;
            at_shift = in_shift;
            keeps_id =
                λ g found'. ap (λ (o : DailyFigure). o.id) (ap (given f) (sym found' ∙ found));
            new_id = λ missing. cc;
          }
    ]
  where
    given : DailyFigure → Option DailyFigure → DailyFigure
    given d none = d
    given d (some f) = f

abbrev value : Database → Result CutoverError Database → Database
value d (ok db) = db
value d (raise e) = d

-- What the body of the loop does to the tables.
pub record IsBalanceWritten (c : LedgerCutover) (b : Balance) (db db' : Database) : Type 0 where
  pub keyed : IsKeyed db'
  pub written : IsWritten c b db'
  pub others :
      (product_id : ℕ)
      → product_id ≢ b.product_id
      → figure_at db' product_id c.effective_date c.effective_shift
        ≡ figure_at db product_id c.effective_date c.effective_shift

store_row-IsBalanceWritten :
    (c : LedgerCutover) (rule : PackagingRule) (user : User) (b : Balance) (db : Database)
    → IsKeyed db
    → IsBalanceWritten c b db (
        store_row
          (figure_at db b.product_id c.effective_date c.effective_shift)
          (balance_saved c rule user b db)
          db)
store_row-IsBalanceWritten c rule user b db k =
    let saved = balance_saved c rule user b db in
    let figure = figure_at db b.product_id c.effective_date c.effective_shift in
    let at = balance_saved-IsAtPeriod c rule user b db in
    let (distinct, below, found) =
      IsAtPeriod-stored db b.product_id c.effective_date c.effective_shift saved figure false
        (correction_audit none none none user saved) k.distinct k.below at refl in
    record {
      keyed = record { distinct = distinct; below = below };
      written = record { row = saved; is_found = found; of_cutover = refl; opens = refl };
      others = λ other differ.
          IsAtPeriod-other db b.product_id other c.effective_date c.effective_shift saved k.distinct
            k.below at differ;
    }

write_balance-IsBalanceWritten :
    (products : List Product) (now : ℕ) (c : LedgerCutover) (user : User) (b : Balance)
    (db db' : Database)
    → IsKeyed db
    → write_balance products now c user b db ≡ ok db'
    → IsBalanceWritten c b db db'
unfolding write_balance
write_balance-IsBalanceWritten products now c user b db db' k e =
    elim (Result-cases (written_rule now (find_product products b.product_id))) [
      | inr (err, failed) ↦ cc (rw (failed, write_balance) at e)
      | inl (rule, ruled) ↦
          rw (← ap (value db) (rw (ruled, write_balance) at e))
            (store_row-IsBalanceWritten c rule user b db k)
    ]

-- No balance of the list is of this product.
abbrev pub IsNotAmong : ℕ → List Balance → Type 0
IsNotAmong product_id [] = Unit
IsNotAmong product_id (b ∷ bs) = (product_id ≢ b.product_id) × IsNotAmong product_id bs

-- `uq_ledger_cutover_balance_product`
abbrev pub AreOfDistinct : List Balance → Type 0
AreOfDistinct [] = Unit
AreOfDistinct (b ∷ bs) = IsNotAmong b.product_id bs × AreOfDistinct bs

-- What the loop does.
pub record AreWritten (c : LedgerCutover) (bs : List Balance) (db db' : Database) : Type 0 where
  pub keyed : IsKeyed db'
  pub written : (b : Balance) → Member b bs → IsWritten c b db'
  pub others :
      (product_id : ℕ)
      → IsNotAmong product_id bs
      → figure_at db' product_id c.effective_date c.effective_shift
        ≡ figure_at db product_id c.effective_date c.effective_shift

AreWritten-cons :
    (c : LedgerCutover) (b : Balance) (bs : List Balance) (db mid db' : Database)
    → IsNotAmong b.product_id bs
    → IsBalanceWritten c b db mid
    → AreWritten c bs mid db'
    → AreWritten c (b ∷ bs) db db'
AreWritten-cons c b bs db mid db' apart first rest = record {
  keyed = rest.keyed;
  written = λ x m. elim m [
    | inl same ↦ rw same record {
      row = first.written.row;
      is_found = rest.others b.product_id apart ∙ first.written.is_found;
      of_cutover = first.written.of_cutover;
      opens = first.written.opens;
    }
    | inr later ↦ rest.written x later
  ];
  others = λ other h. rest.others other h.1 ∙ first.others other h.0;
}

pub write_balances-AreWritten :
    (products : List Product) (now : ℕ) (c : LedgerCutover) (user : User) (bs : List Balance)
    (db db' : Database)
    → IsKeyed db
    → AreOfDistinct bs
    → write_balances products now c user bs db ≡ ok db'
    → AreWritten c bs db db'
unfolding write_balances
write_balances-AreWritten products now c user [] db db' k apart e =
    rw (← ap (value db) e) record { keyed = k; written = λ b m. absurd m; others = λ _ _. refl }
write_balances-AreWritten products now c user (b ∷ bs) db db' k apart e =
    elim (Result-cases (write_balance products now c user b db)) [
      | inr (err, failed) ↦ cc (rw failed at e)
      | inl (mid, done) ↦
          let first = write_balance-IsBalanceWritten products now c user b db mid k done in
          AreWritten-cons c b bs db mid db' apart.0 first (
            write_balances-AreWritten products now c user bs mid db' first.keyed apart.1
              (rw done at e))
    ]

write_balance-cutovers :
    (products : List Product) (now : ℕ) (c : LedgerCutover) (user : User) (b : Balance)
    (db db' : Database)
    → write_balance products now c user b db ≡ ok db'
    → db'.cutovers ≡ db.cutovers
unfolding write_balance
write_balance-cutovers products now c user b db db' e =
    elim (Result-cases (written_rule now (find_product products b.product_id))) [
      | inr (err, failed) ↦ cc (rw (failed, write_balance) at e)
      | inl (rule, ruled) ↦
          sym (ap (λ (d : Database). d.cutovers) (ap (value db) (rw (ruled, write_balance) at e)))
    ]

-- The loop leaves the cutovers alone.
pub write_balances-cutovers :
    (products : List Product) (now : ℕ) (c : LedgerCutover) (user : User) (bs : List Balance)
    (db db' : Database)
    → write_balances products now c user bs db ≡ ok db'
    → db'.cutovers ≡ db.cutovers
unfolding write_balances
write_balances-cutovers products now c user [] db db' e =
    sym (ap (λ (d : Database). d.cutovers) (ap (value db) e))
write_balances-cutovers products now c user (b ∷ bs) db db' e =
    let (mid, first, rest) =
      bind_ok (write_balance products now c user b db)
        (λ d. write_balances products now c user bs d) e in
    write_balances-cutovers products now c user bs mid db' rest
    ∙ write_balance-cutovers products now c user b db mid first
