-- ===== src/Dispatching.antt =====
-- webapp/services/dispatch_service.py, with create_temporary_customer of
-- webapp/services/customer_service.py: the Dispatch Book, from the number and the recipient of a new
-- dispatch to the life cycle draft, finalized, void. The notes of a line are left out.
pub mod Lines
pub mod Recipient
pub mod Making
pub mod Homed
pub mod Number
pub mod Made
pub mod Cycle
pub mod Posting
mod Tests
use text.Mathlib.Text.{◌==◌ as str_eq}
use Prim.Native.String.{◌++◌}
use daily_figures.Common.{
  ℕ, ◌+◌, Bool, true, false, not, ◌&&◌, ◌||◌, Option, none, some, List, [], ◌∷◌, String, ◌==◌,
  if◌then◌else◌, Result, ok, raise, ◌>>=◌, ◌>>◌, raise_if, find_first, ids_below,
}
use daily_figures.Packaging.{PackagingError}
use daily_figures.Records.{
  day, Status, draft, finalized, void, is_draft, is_finalized, is_void, Line, Dispatch, Product,
  User, Role, super_admin, is_elevated,
}

-- `DispatchError` and `CustomerServiceError`, by their messages.
pub data DispatchError : Type 0 where
  product_missing no_packaging_rule zero_quantity no_lines : DispatchError
  category_missing new_customer_category name_required recipient_required : DispatchError
  recipient_missing other_category category_required : DispatchError
  duplicate_number override_reason_required number_in_use : DispatchError
  recipient_not_draft finalize_not_draft finalize_without_lines : DispatchError
  reopen_not_finalized reopen_reason_required lines_not_draft : DispatchError
  already_void void_reason_required delete_reason_required : DispatchError
  packaging : PackagingError → DispatchError

pub record Category : Type 0 where
  pub id : ℕ
  pub name : String

pub record Customer : Type 0 where
  pub id : ℕ
  pub name : String
  pub sales_category_id : Option ℕ
  pub is_temporary : Bool
  pub created_by : Option ℕ

-- A row of dispatches: what the stock reads of it, and its other columns.
pub record DispatchRow : Type 0 where
  pub entry : Dispatch
  pub dispatch_number : String
  pub customer_id : ℕ
  pub invoice_number : Option String
  pub notes : Option String
  pub sales_category_id : Option ℕ
  pub sales_category_name_snapshot : Option String
  pub customer_name_snapshot : Option String
  pub duplicate_override : Bool
  pub duplicate_override_reason : Option String
  pub created_by : Option ℕ
  pub updated_by : Option ℕ
  pub finalized_by : Option ℕ
  pub finalized_at : Option ℕ
  pub voided_by : Option ℕ
  pub voided_at : Option ℕ
  pub void_reason : Option String

-- The tables, by the ids of their rows, which the engine counts up.
pub record Book : Type 0 where
  pub row_at : ℕ → Option DispatchRow
  pub next_id : ℕ
  pub customer_at : ℕ → Option Customer
  pub next_customer_id : ℕ
  pub category_at : ℕ → Option Category
  pub products : List Product

abbrev pub set_row : ℕ → DispatchRow → Book → Book
set_row id row db = record db {
  row_at = λ other. if other == id then some row else db.row_at other;
}

-- `exclude_id is not None and Dispatch.id != exclude_id`
abbrev pub is_excluded : Option ℕ → ℕ → Bool
is_excluded none id = false
is_excluded (some excluded) id = id == excluded

abbrev pub has_number : String → Option DispatchRow → Bool
has_number number none = false
has_number number (some row) = str_eq row.dispatch_number number && not (is_void row.entry.status)

unfoldable pub find_duplicate_number : String → (exclude_id : Option ℕ) → Book → Option ℕ
find_duplicate_number number exclude db =
    find_first (λ id. has_number number (db.row_at id) && not (is_excluded exclude id))
      (ids_below db.next_id)

abbrev is_creator : Option ℕ → User → Bool
is_creator none user = false
is_creator (some id) user = id == user.id

unfoldable pub can_edit : DispatchRow → User → Bool
can_edit r user = is_elevated user.role || (is_draft r.entry.status && is_creator r.created_by user)

-- `not text`
abbrev pub is_blank : Option String → Bool
is_blank none = true
is_blank (some text) = str_eq text ""

abbrev pub is_empty : {A : Type 0} → List A → Bool
is_empty [] = true
is_empty (x ∷ xs) = false

abbrev pub set_status : Status → DispatchRow → Dispatch
set_status status r = record r.entry { status = status }

abbrev pub finalized_row : (now : ℕ) → User → DispatchRow → DispatchRow
finalized_row now user r = record r {
  entry = set_status finalized r;
  finalized_by = some user.id;
  finalized_at = some now;
  updated_by = some user.id;
}

unfoldable pub finalize_dispatch : (now : ℕ) → DispatchRow → User → Result DispatchError DispatchRow
finalize_dispatch now r user = do
  raise_if (not (is_draft r.entry.status)) finalize_not_draft
  raise_if (is_empty r.entry.lines) finalize_without_lines
  ok (finalized_row now user r)

abbrev separated : Option String → String
separated none = ""
separated (some text) = if str_eq text "" then "" else text ++ "\n\n"

abbrev pub text_of : Option String → String
text_of none = ""
text_of (some text) = text

abbrev pub reopened_row : User → (reason : Option String) → DispatchRow → DispatchRow
reopened_row user reason r = record r {
  entry = set_status draft r;
  finalized_by = none;
  finalized_at = none;
  notes = some (separated r.notes ++ ("Reopened: " ++ text_of reason));
  updated_by = some user.id;
}

unfoldable pub reopen_dispatch :
    DispatchRow → User → (reason : Option String) → Result DispatchError DispatchRow
reopen_dispatch r user reason = do
  raise_if (not (is_finalized r.entry.status)) reopen_not_finalized
  raise_if (is_blank reason) reopen_reason_required
  ok (reopened_row user reason r)

abbrev pub voided_row : (now : ℕ) → User → (reason : Option String) → DispatchRow → DispatchRow
voided_row now user reason r = record r {
  entry = set_status void r;
  voided_by = some user.id;
  voided_at = some now;
  void_reason = reason;
  updated_by = some user.id;
}

unfoldable pub void_dispatch :
    (now : ℕ) → DispatchRow → User → (reason : Option String) → Result DispatchError DispatchRow
void_dispatch now r user reason = do
  raise_if (is_void r.entry.status) already_void
  raise_if (is_blank reason) void_reason_required
  ok (voided_row now user reason r)

unfoldable pub delete_dispatch :
    (id : ℕ) → (reason : Option String) → Book → Result DispatchError Book
delete_dispatch id reason db = do
  raise_if (is_blank reason) delete_reason_required
  ok (record db { row_at = λ other. if other == id then none else db.row_at other })
