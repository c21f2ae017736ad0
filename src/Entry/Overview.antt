-- ===== src/Entry/Overview.antt =====
-- daily_entry_status_service.py, `status_view` and `bucket_for_date_shift`: the two summaries of
-- entries that the pages show, which only read.
use text.Mathlib.Text.{◌==◌ as str_eq}
use daily_figures.Common.{
  ℕ, ◌≡◌, refl, sym, ◌∙◌, ap, inl, inr, Bool, true, false, not, ◌&&◌, Option, none, some, List, [],
  ◌∷◌, String, ◌==◌, ==_iff, if◌then◌else◌, Bool-cases, Option-cases, Member,
}
use daily_figures.Records.{Shift}
use daily_figures.Entry.{
  CompletionType, EntryStatus, EntryKey, Entries, is_stale, is_held, user_label,
}

pub data Progress : Type 0 where
  not_started in_progress completed : Progress

-- The dict of `status_view`.
pub record StatusView : Type 0 where
  pub status : Progress
  pub completed : Bool
  pub completion_type : Option CompletionType
  pub completed_by : Option String
  pub completed_at : Option ℕ
  pub locked_by : Option String
  pub locked_at : Option ℕ
  pub reopened_by : Option String
  pub reopened_at : Option ℕ
  pub reopen_reason : Option String

abbrev pub no_view : StatusView
no_view = record {
  status = not_started;
  completed = false;
  completion_type = none;
  completed_by = none;
  completed_at = none;
  locked_by = none;
  locked_at = none;
  reopened_by = none;
  reopened_at = none;
  reopen_reason = none;
}

-- `row.lock_user_id is not None and not _is_stale(row.lock_acquired_at)`
abbrev pub is_live : (now : ℕ) → EntryStatus → Bool
is_live now row = is_held row.lock_user_id && not (is_stale now row.lock_acquired_at)

-- `if locked_by`: a name, and not the empty one.
abbrev is_named : Option String → Bool
is_named none = false
is_named (some name) = not (str_eq name "")

abbrev progress_of : (completed : Bool) → (locked_by : Option String) → Progress
progress_of true locked_by = Progress.completed
progress_of false locked_by = if is_named locked_by then in_progress else not_started

abbrev pub view_of_row : (now : ℕ) → Entries → EntryStatus → StatusView
view_of_row now db row =
    let is_shown = is_live now row && not row.completed in
    let locked_by = if is_shown then user_label db row.lock_user_id else none in
    record {
      status = progress_of row.completed locked_by;
      completed = row.completed;
      completion_type = row.completion_type;
      completed_by = user_label db row.completed_by;
      completed_at = row.completed_at;
      locked_by = locked_by;
      locked_at = if is_shown then row.lock_acquired_at else none;
      reopened_by = user_label db row.reopened_by;
      reopened_at = row.reopened_at;
      reopen_reason = row.reopen_reason;
    }

unfoldable pub status_view : (now : ℕ) → EntryKey → Entries → StatusView
status_view now k db = elim (db.row_at k) [ none ↦ no_view | some row ↦ view_of_row now db row ]

abbrev pub bucket_of_row : (now : ℕ) → EntryStatus → ℕ
bucket_of_row now row = if row.completed then 2 else if is_live now row then 1 else 0

-- The dict: the rows of the given products, each with its bucket.
unfoldable pub bucket_for_date_shift :
    (now date : ℕ) → Shift → (product_ids : List ℕ) → Entries → List (ℕ × ℕ)
bucket_for_date_shift now date shift [] db = []
bucket_for_date_shift now date shift (id ∷ ids) db =
    let rest = bucket_for_date_shift now date shift ids db in
    elim (db.row_at (record { date = date; shift = shift; product_id = id })) [
      | none ↦ rest
      | some row ↦ (id, bucket_of_row now row) ∷ rest
    ]

-- `.get(product_id, 0)` at the call site
unfoldable pub get_bucket : ℕ → List (ℕ × ℕ) → ℕ
get_bucket id [] = 0
get_bucket id ((j, bucket) ∷ rest) = if j == id then bucket else get_bucket id rest

abbrev pub bucket_of_progress : Progress → ℕ
bucket_of_progress not_started = 0
bucket_of_progress in_progress = 1
bucket_of_progress Progress.completed = 2

-- Who holds a lock has a name.
abbrev pub AreNamed : Entries → Type 0
AreNamed db = (id : ℕ) → is_named (user_label db (some id)) ≡ true

bucket_of_row-view_of_row :
    (now : ℕ) (db : Entries) (row : EntryStatus)
    → AreNamed db
    → bucket_of_row now row ≡ bucket_of_progress (view_of_row now db row).status
bucket_of_row-view_of_row now db row named = elim (Bool-cases row.completed) [
  | inl done ↦ rw done
  | inr unclaimed ↦ rw unclaimed (by_lock row.lock_user_id)
]
  where
    by_lock :
        (lock : Option ℕ)
        → (let live = is_held lock && not (is_stale now row.lock_acquired_at) in
            (if live then 1 else 0)
            ≡ bucket_of_progress
                (progress_of false (if live && true then user_label db lock else none)))
    by_lock none = refl
    by_lock (some id) = elim (Bool-cases (is_stale now row.lock_acquired_at)) [
      | inl old ↦ rw old
      | inr fresh ↦ rw fresh (rw (named id))
    ]

-- The dict has no entry for a product with no row, and that of the row for a product in the list.
get_bucket-missing :
    (now : ℕ) (k : EntryKey) (ids : List ℕ) (db : Entries)
    → db.row_at k ≡ none
    → get_bucket k.product_id (bucket_for_date_shift now k.date k.shift ids db) ≡ 0
unfolding get_bucket bucket_for_date_shift
get_bucket-missing now k [] db e = refl
get_bucket-missing now k (id ∷ ids) db e =
    let at : EntryKey = record { date = k.date; shift = k.shift; product_id = id } in
    let later = get_bucket-missing now k ids db e in
    elim (Option-cases (db.row_at at)) [
      | inl missing ↦ rw (missing, bucket_for_date_shift) later
      | inr (row, found) ↦ elim (Bool-cases (id == k.product_id)) [
        | inl same ↦
            let here : db.row_at k ≡ some row =
              ap (λ (j : ℕ). db.row_at (record { date = k.date; shift = k.shift; product_id = j }))
                (sym ((==_iff id k.product_id).0 same))
              ∙ found in
            absurd (cc (here, e))
        | inr other ↦ rw (found, bucket_for_date_shift) (rw (other, get_bucket) later)
      ]
    ]

get_bucket-here :
    (now : ℕ) (k : EntryKey) (id : ℕ) (ids : List ℕ) (db : Entries) (row : EntryStatus)
    → db.row_at k ≡ some row
    → k.product_id ≡ id
    → get_bucket k.product_id (bucket_for_date_shift now k.date k.shift (id ∷ ids) db)
      ≡ bucket_of_row now row
unfolding get_bucket bucket_for_date_shift
get_bucket-here now k id ids db row e same = rw (← same) (
    rw (e, bucket_for_date_shift) (rw ((==_iff k.product_id k.product_id).1 refl, get_bucket) refl))

get_bucket-found :
    (now : ℕ) (k : EntryKey) (ids : List ℕ) (db : Entries) (row : EntryStatus)
    → db.row_at k ≡ some row
    → Member k.product_id ids
    → get_bucket k.product_id (bucket_for_date_shift now k.date k.shift ids db)
      ≡ bucket_of_row now row
unfolding get_bucket bucket_for_date_shift
get_bucket-found now k [] db row e m = absurd m
get_bucket-found now k (id ∷ ids) db row e (inl same) = get_bucket-here now k id ids db row e same
get_bucket-found now k (id ∷ ids) db row e (inr m) = elim (Bool-cases (id == k.product_id)) [
  | inl same ↦ get_bucket-here now k id ids db row e (sym ((==_iff id k.product_id).0 same))
  | inr other ↦
      elim (Option-cases (db.row_at (record { date = k.date; shift = k.shift; product_id = id }))) [
        | inl missing ↦ rw (missing, bucket_for_date_shift) (get_bucket-found now k ids db row e m)
        | inr (row', found) ↦
            rw (found, bucket_for_date_shift)
              (rw (other, get_bucket) (get_bucket-found now k ids db row e m))
      ]
]

-- For a product that the page lists, and where every user has a name, the bucket that orders the list
-- is that of the status that the entry's own view shows.
pub bucket_for_date_shift-status_view :
    (now : ℕ) (k : EntryKey) (ids : List ℕ) (db : Entries)
    → AreNamed db
    → Member k.product_id ids
    → get_bucket k.product_id (bucket_for_date_shift now k.date k.shift ids db)
      ≡ bucket_of_progress (status_view now k db).status
unfolding status_view
bucket_for_date_shift-status_view now k ids db named m = elim (Option-cases (db.row_at k)) [
  | inl missing ↦ get_bucket-missing now k ids db missing ∙ rw (missing, status_view) refl
  | inr (row, found) ↦
      get_bucket-found now k ids db row found m
      ∙ rw (found, status_view) (bucket_of_row-view_of_row now db row named)
]
