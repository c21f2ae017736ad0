-- ===== src/Dispatching/Posting.antt =====
-- dispatch_service.py: which dispatches count in the stock.
use daily_figures.Common.{
  ℕ, ◌≡◌, refl, sym, ◌∙◌, ap, Bool, true, false, Option, List, [], ◌∷◌, String, ℤ, ◌+ℤ◌, Result, ok,
  raise, raise_if_ok, bind_ok, not, arith,
}
use daily_figures.Records.{Status, Shift, finalized, is_finalized, is_draft, Line, User, Product}
use daily_figures.Stock.Database.{Database, line_movements}
use daily_figures.Stock.Queries.{dispatched, dispatch_issued_base_qty, total, is_at}
use daily_figures.Production.{LineInput}
use daily_figures.Production.Posting.{total_append}
use daily_figures.Dispatching.{
  DispatchError, lines_not_draft, no_lines, DispatchRow, is_empty, is_blank, finalized_row,
  reopened_row, voided_row, finalize_dispatch, reopen_dispatch, void_dispatch,
}
use daily_figures.Dispatching.Lines.{replace_lines, build_line, build_lines, with_lines}

-- The stock with one more dispatch in the book.
abbrev pub with_dispatch : DispatchRow → Database → Database
with_dispatch r db = record db { dispatches = r.entry ∷ db.dispatches }

-- What the lines of a dispatch hold for a product and a period.
abbrev pub recorded : DispatchRow → (product_id date : ℕ) → Shift → ℤ
recorded r product_id date shift =
    total (is_at product_id date shift) (line_movements r.entry.date r.entry.shift r.entry.lines)

dispatch-finalized :
    (db : Database) (r : DispatchRow) (product_id date : ℕ) (shift : Shift)
    → r.entry.status ≡ finalized
    → dispatch_issued_base_qty (with_dispatch r db) product_id date shift
      ≡ recorded r product_id date shift +ℤ dispatch_issued_base_qty db product_id date shift
unfolding dispatch_issued_base_qty dispatched
dispatch-finalized db r product_id date shift h = rw h (
    total_append (is_at product_id date shift)
      (line_movements r.entry.date r.entry.shift r.entry.lines) _)

dispatch-not_finalized :
    (db : Database) (r : DispatchRow) (product_id date : ℕ) (shift : Shift)
    → is_finalized r.entry.status ≡ false
    → dispatch_issued_base_qty (with_dispatch r db) product_id date shift
      ≡ dispatch_issued_base_qty db product_id date shift
unfolding dispatch_issued_base_qty dispatched
dispatch-not_finalized db r product_id date shift h = rw h refl

build_lines-is_empty :
    (products : List Product) (at : ℕ) (lines : List LineInput) (built : List Line)
    → is_empty lines ≡ false
    → build_lines products at lines ≡ ok built
    → is_empty built ≡ false
unfolding build_lines
build_lines-is_empty products at [] built some_lines e = absurd (cc)
build_lines-is_empty products at (l ∷ ls) built some_lines e =
    let (line, _, e1) = bind_ok (build_line products at l) _ e in
    let (rest, _, e2) = bind_ok (build_lines products at ls) _ e1 in
    ap (λ (x : Result DispatchError (List Line)). is_empty (lines_or [] x)) (sym e2)
  where
    lines_or : List Line → Result DispatchError (List Line) → List Line
    lines_or d (ok x) = x
    lines_or d (raise err) = d

replace_lines-ok :
    (products : List Product) (now : ℕ) (r replaced : DispatchRow) (lines : List LineInput)
    (user : User)
    → replace_lines products now r lines user ≡ ok replaced
    → (built : List Line) × (build_lines products now lines ≡ ok built)
      × (with_lines user built r ≡ replaced)
      × (is_draft r.entry.status ≡ true)
      × (is_empty built ≡ false)
unfolding replace_lines
replace_lines-ok products now r replaced lines user e =
    let (drafted, e1) = raise_if_ok (not (is_draft r.entry.status)) lines_not_draft _ e in
    let (some_lines, e2) = raise_if_ok (is_empty lines) no_lines _ e1 in
    let (built, made, e3) = bind_ok (build_lines products now lines) _ e2 in
    (
      built,
      made,
      ap (row_or r) e3,
      is_true (is_draft r.entry.status) drafted,
      build_lines-is_empty products now lines built some_lines made,
    )
  where
    row_or : DispatchRow → Result DispatchError DispatchRow → DispatchRow
    row_or d (ok x) = x
    row_or d (raise err) = d

    is_true : (b : Bool) → not b ≡ false → b ≡ true
    is_true b h = ground arith

draft-counts_not : (s : Status) → is_draft s ≡ true → is_finalized s ≡ false
draft-counts_not s h = ground arith

-- A draft whose lines are replaced can be finalized, and then, on top of the rest of the book, takes out
-- of the stock what the lines built from the new input hold for its date and shift. Those are all the
-- lines that it has, also when it is reopened or voided for a reason, and then it takes nothing out.
pub replace_lines-finalize_dispatch :
    (db : Database) (products : List Product) (now later : ℕ) (r replaced : DispatchRow)
    (lines : List LineInput) (user : User) (reason : Option String)
    → replace_lines products now r lines user ≡ ok replaced
    → is_blank reason ≡ false
    → (built : List Line) × (posted : DispatchRow) × (reopened : DispatchRow)
      × (voided : DispatchRow) × (build_lines products now lines ≡ ok built)
      × (finalize_dispatch now replaced user ≡ ok posted)
      × (reopen_dispatch posted user reason ≡ ok reopened)
      × (void_dispatch later posted user reason ≡ ok voided)
      × (posted.entry.lines ≡ built)
      × (reopened.entry.lines ≡ built)
      × (voided.entry.lines ≡ built)
      × ((product_id date : ℕ) (shift : Shift)
          → (dispatch_issued_base_qty (with_dispatch posted db) product_id date shift
              ≡ total
                  (is_at product_id date shift)
                  (line_movements r.entry.date r.entry.shift built)
                +ℤ dispatch_issued_base_qty (with_dispatch r db) product_id date shift)
            × (dispatch_issued_base_qty (with_dispatch reopened db) product_id date shift
                ≡ dispatch_issued_base_qty (with_dispatch r db) product_id date shift)
            × (dispatch_issued_base_qty (with_dispatch voided db) product_id date shift
                ≡ dispatch_issued_base_qty (with_dispatch r db) product_id date shift))
unfolding finalize_dispatch reopen_dispatch void_dispatch
replace_lines-finalize_dispatch db products now later r replaced lines user reason e given =
    let (built, made, same, drafted, some_lines) =
      replace_lines-ok products now r replaced lines user e in
    let posted = finalized_row now user (with_lines user built r) in
    let draft_counts_not = λ (product_id date : ℕ) (shift : Shift).
      dispatch-not_finalized db r product_id date shift (draft-counts_not r.entry.status drafted) in
    (
      built,
      posted,
      reopened_row user reason posted,
      voided_row later user reason posted,
      made,
      rw (← same) (rw (drafted, some_lines) refl),
      rw given refl,
      rw given refl,
      refl,
      refl,
      refl,
      λ product_id date shift. (
        dispatch-finalized db posted product_id date shift refl
            ∙ ap (λ (n : ℤ). recorded (with_lines user built r) product_id date shift +ℤ n)
                (sym (draft_counts_not product_id date shift)),
        dispatch-not_finalized db (reopened_row user reason posted) product_id date shift refl
            ∙ sym (draft_counts_not product_id date shift),
        dispatch-not_finalized db (voided_row later user reason posted) product_id date shift refl
            ∙ sym (draft_counts_not product_id date shift),
      ),
    )
