-- ===== src/Dispatching/Cycle.antt =====
-- dispatch_service.py: the operations as events on one book, in any order, and what they keep of its
-- numbers.
use daily_figures.Common.{
  ℕ, ◌≡◌, refl, ap, inl, inr, Bool, false, not, Option, none, some, List, [], ◌∷◌, String, ◌==◌,
  Bool-cases, Result-cases, Result, ok, raise, bind_ok, raise_if_ok, arith, ◌>>=◌,
}
use daily_figures.Records.{is_void, is_draft, Status, is_finalized, User}
use daily_figures.Production.{LineInput}
use daily_figures.Dispatching.{
  DispatchError, no_lines, lines_not_draft, finalize_not_draft, finalize_without_lines,
  reopen_not_finalized, reopen_reason_required, already_void, void_reason_required,
  delete_reason_required, recipient_missing, DispatchRow, Book, set_row, is_blank, is_empty,
  finalize_dispatch, reopen_dispatch, void_dispatch, delete_dispatch,
}
use daily_figures.Dispatching.Lines.{replace_lines, build_lines}
use daily_figures.Dispatching.Recipient.{Choice}
use daily_figures.Dispatching.Making.{create_dispatch, update_recipient, duplicate_dispatch}
use daily_figures.Dispatching.Number.{
  IsNumbered, KeepsNumber, Keeps-IsNumbered, KeepsNumber-refl, set_row-Keeps,
}
use daily_figures.Dispatching.Made.{
  value, create_dispatch-IsNumbered, duplicate_dispatch-IsNumbered, update_recipient-IsNumbered,
}

abbrev row_value : DispatchRow → Result DispatchError DispatchRow → DispatchRow
row_value d (ok r) = r
row_value d (raise e) = d

-- What users do. An operation on a row finds it by its id.
pub data Event : Type 0 where
  create :
      (now : ℕ) (number : String) (date : ℕ)
      → Choice
      → (invoice_number notes : Option String) → List LineInput
      → User
      → (override_duplicate : Bool) → (override_reason : Option String) → Event
  copy : (now today id : ℕ) → (number : String) → User → (sales_category_id : Option ℕ) → Event
  readdress : (id : ℕ) → Choice → User → Event
  replace : (now id : ℕ) → List LineInput → User → Event
  finalize : (now id : ℕ) → User → Event
  reopen : (id : ℕ) → User → (reason : Option String) → Event
  revoke : (now id : ℕ) → User → (reason : Option String) → Event
  delete : (id : ℕ) → (reason : Option String) → Event

abbrev on_row :
    Option DispatchRow → (DispatchRow → Result DispatchError Book) → Result DispatchError Book
on_row none f = raise recipient_missing
on_row (some row) f = f row

-- The row of an operation is written back.
abbrev change_row :
    ℕ → (DispatchRow → Result DispatchError DispatchRow) → Book → Result DispatchError Book
change_row id f db = on_row (db.row_at id) (λ row. f row >>= λ row'. ok (set_row id row' db))

unfoldable pub handle :
    (strip : String → String) → (digits : ℕ → String) → Event → Book → Result DispatchError Book
handle strip digits (create now number date choice invoice notes lines user override reason) db =
    create_dispatch strip now number date choice invoice notes lines user override reason db
handle strip digits (copy now today id number user chosen) db =
    on_row (db.row_at id) (λ row. duplicate_dispatch digits now today row number user chosen db)
handle strip digits (readdress id choice user) db =
    on_row (db.row_at id) (λ row. update_recipient strip id row choice user db)
handle strip digits (replace now id lines user) db =
    change_row id (λ row. replace_lines db.products now row lines user) db
handle strip digits (finalize now id user) db =
    change_row id (λ row. finalize_dispatch now row user) db
handle strip digits (reopen id user reason) db =
    change_row id (λ row. reopen_dispatch row user reason) db
handle strip digits (revoke now id user reason) db =
    change_row id (λ row. void_dispatch now row user reason) db
handle strip digits (delete id reason) db = delete_dispatch id reason db

abbrev after : Book → Result DispatchError Book → Book
after db (ok db') = db'
after db (raise e) = db

unfoldable pub handle_all :
    (strip : String → String) → (digits : ℕ → String) → List Event → Book → Book
handle_all strip digits [] db = db
handle_all strip digits (e ∷ es) db =
    handle_all strip digits es (after db (handle strip digits e db))

finalize_dispatch-KeepsNumber :
    (now : ℕ) (user : User) (a b : DispatchRow)
    → finalize_dispatch now a user ≡ ok b
    → KeepsNumber a b
unfolding finalize_dispatch
finalize_dispatch-KeepsNumber now user a b e =
    let (drafted, e1) = raise_if_ok (not (is_draft a.entry.status)) finalize_not_draft _ e in
    let (_, e2) = raise_if_ok (is_empty a.entry.lines) finalize_without_lines _ e1 in
    rw (← ap (row_value a) e2)
      record { number = refl; mark = refl; stays_void = λ _. not_void a.entry.status drafted }
  where
    not_void : (s : Status) → not (is_draft s) ≡ false → is_void s ≡ false
    not_void s h = ground arith

reopen_dispatch-KeepsNumber :
    (user : User) (reason : Option String) (a b : DispatchRow)
    → reopen_dispatch a user reason ≡ ok b
    → KeepsNumber a b
unfolding reopen_dispatch
reopen_dispatch-KeepsNumber user reason a b e =
    let (posted, e1) = raise_if_ok (not (is_finalized a.entry.status)) reopen_not_finalized _ e in
    let (_, e2) = raise_if_ok (is_blank reason) reopen_reason_required _ e1 in
    rw (← ap (row_value a) e2)
      record { number = refl; mark = refl; stays_void = λ _. not_void a.entry.status posted }
  where
    not_void : (s : Status) → not (is_finalized s) ≡ false → is_void s ≡ false
    not_void s h = ground arith

void_dispatch-KeepsNumber :
    (now : ℕ) (user : User) (reason : Option String) (a b : DispatchRow)
    → void_dispatch now a user reason ≡ ok b
    → KeepsNumber a b
unfolding void_dispatch
void_dispatch-KeepsNumber now user reason a b e =
    let (live, e1) = raise_if_ok (is_void a.entry.status) already_void _ e in
    let (_, e2) = raise_if_ok (is_blank reason) void_reason_required _ e1 in
    rw (← ap (row_value a) e2) record { number = refl; mark = refl; stays_void = λ _. live }

replace_lines-KeepsNumber :
    (now : ℕ) (lines : List LineInput) (user : User) (db : Book) (a b : DispatchRow)
    → replace_lines db.products now a lines user ≡ ok b
    → KeepsNumber a b
unfolding replace_lines
replace_lines-KeepsNumber now lines user db a b e =
    let (_, e1) = raise_if_ok (not (is_draft a.entry.status)) lines_not_draft _ e in
    let (_, e2) = raise_if_ok (is_empty lines) no_lines _ e1 in
    let (built, _, e3) = bind_ok (build_lines db.products now lines) _ e2 in
    rw (← ap (row_value a) e3) record { number = refl; mark = refl; stays_void = λ h. h }

on_row-ok :
    (o : Option DispatchRow) (f : DispatchRow → Result DispatchError Book) (db' : Book)
    → on_row o f ≡ ok db'
    → (row : DispatchRow) × (o ≡ some row) × (f row ≡ ok db')
on_row-ok none f db' e = absurd (cc)
on_row-ok (some row) f db' e = (row, refl, e)

change_row-IsNumbered :
    (id : ℕ) (f : DispatchRow → Result DispatchError DispatchRow) (db db' : Book)
    → IsNumbered db
    → ((a b : DispatchRow) → f a ≡ ok b → KeepsNumber a b)
    → change_row id f db ≡ ok db'
    → IsNumbered db'
change_row-IsNumbered id f db db' n keeps e =
    let (row, found, e1) =
      on_row-ok (db.row_at id) (λ row. f row >>= λ row'. ok (set_row id row' db)) db' e in
    let (row', done, e2) = bind_ok (f row) _ e1 in
    rw (← ap (value db) e2) (
      Keeps-IsNumbered db (set_row id row' db)
        (set_row-Keeps id row row' db found (keeps row row' done)) n)

delete_dispatch-IsNumbered :
    (id : ℕ) (reason : Option String) (db db' : Book)
    → IsNumbered db
    → delete_dispatch id reason db ≡ ok db'
    → IsNumbered db'
unfolding delete_dispatch
delete_dispatch-IsNumbered id reason db db' n e =
    let (_, e1) = raise_if_ok (is_blank reason) delete_reason_required _ e in
    rw (← ap (value db) e1) (
      Keeps-IsNumbered db _
        record {
          was = λ i b found. elim (Bool-cases (i == id)) [
            | inl own ↦ cc (rw own at found)
            | inr other ↦ (b, rw other at found, KeepsNumber-refl b b refl)
          ];
          same_next = refl;
        }
        n)

handle-IsNumbered :
    (strip : String → String) (digits : ℕ → String) (event : Event) (db db' : Book)
    → IsNumbered db
    → handle strip digits event db ≡ ok db'
    → IsNumbered db'
unfolding handle
handle-IsNumbered strip digits
      (create now number date choice invoice notes lines user override reason) db db' n e =
    create_dispatch-IsNumbered strip now number date choice invoice notes lines user override reason
      db db' n e
handle-IsNumbered strip digits (copy now today id number user chosen) db db' n e =
    let (row, found, done) =
      on_row-ok (db.row_at id)
        (λ row. duplicate_dispatch digits now today row number user chosen db) db' e in
    duplicate_dispatch-IsNumbered digits now today row number user chosen db db' n done
handle-IsNumbered strip digits (readdress id choice user) db db' n e =
    let (row, found, done) =
      on_row-ok (db.row_at id) (λ row. update_recipient strip id row choice user db) db' e in
    update_recipient-IsNumbered strip id row choice user db db' n found done
handle-IsNumbered strip digits (replace now id lines user) db db' n e =
    change_row-IsNumbered id (λ row. replace_lines db.products now row lines user) db db' n
      (λ a b done. replace_lines-KeepsNumber now lines user db a b done) e
handle-IsNumbered strip digits (finalize now id user) db db' n e =
    change_row-IsNumbered id (λ row. finalize_dispatch now row user) db db' n
      (λ a b done. finalize_dispatch-KeepsNumber now user a b done) e
handle-IsNumbered strip digits (reopen id user reason) db db' n e =
    change_row-IsNumbered id (λ row. reopen_dispatch row user reason) db db' n
      (λ a b done. reopen_dispatch-KeepsNumber user reason a b done) e
handle-IsNumbered strip digits (revoke now id user reason) db db' n e =
    change_row-IsNumbered id (λ row. void_dispatch now row user reason) db db' n
      (λ a b done. void_dispatch-KeepsNumber now user reason a b done) e
handle-IsNumbered strip digits (delete id reason) db db' n e =
    delete_dispatch-IsNumbered id reason db db' n e

-- After any sequence of the operations of the book, of two dispatches that are not void and have one
-- number the later one is marked as the override of a duplicate.
pub handle_all-IsNumbered :
    (strip : String → String) (digits : ℕ → String) (events : List Event) (db : Book)
    → IsNumbered db
    → IsNumbered (handle_all strip digits events db)
unfolding handle_all
handle_all-IsNumbered strip digits [] db n = n
handle_all-IsNumbered strip digits (event ∷ rest) db n =
    handle_all-IsNumbered strip digits rest (after db (handle strip digits event db))
      (elim (Result-cases (handle strip digits event db)) [
        | inl (db', done) ↦ rw done (handle-IsNumbered strip digits event db db' n done)
        | inr (err, refused) ↦ rw refused n
      ])
