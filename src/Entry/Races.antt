-- ===== src/Entry/Races.antt =====
-- daily_entry_status_service.py, `claim_completion`: claims of one entry whose UPDATEs come one after
-- the other. Each has run its SELECT before, so each believes that the entry is still open.
use daily_figures.Common.{
  ℕ, ◌≡◌, refl, sym, ◌∙◌, ap, inl, inr, true, false, none, some, List, [], ◌∷◌, Bool-cases,
  Option-cases, Result, ok, raise, arith,
}
use daily_figures.Records.{User, Shift, day, night, same_shift}
use daily_figures.Entry.{
  CompletionType, EntryStatus, EntryKey, same_key, Entries, EntryError, already_inputted, set_row,
  user_label, or_another_user, complete_row, completed_conflict, insert_row, new_row, claim_select,
  claim_update, claim_completion,
}

pub record Claim : Type 0 where
  pub user : User
  pub type : CompletionType
  pub now : ℕ

abbrev claims_on : EntryKey → Claim → Entries → Result EntryError Entries
claims_on k c db = claim_update c.now k c.user c.type db

-- The entries after the claims, and the claims that succeeded.
abbrev after : Result EntryError Entries → Entries → Entries
after (ok db') db = db'
after (raise e) db = db

abbrev record_winner : Result EntryError Entries → Claim → List Claim → List Claim
record_winner (ok db') c rest = c ∷ rest
record_winner (raise e) c rest = rest

unfoldable pub winners : EntryKey → List Claim → Entries → List Claim
winners k [] db = []
winners k (c ∷ cs) db =
    record_winner (claims_on k c db) c (winners k cs (after (claims_on k c db) db))

unfoldable pub after_claims : EntryKey → List Claim → Entries → Entries
after_claims k [] db = db
after_claims k (c ∷ cs) db = after_claims k cs (after (claims_on k c db) db)

same_shift_refl : (s : Shift) → same_shift s s ≡ true
same_shift_refl day = refl
same_shift_refl night = refl

pub same_key_refl : (k : EntryKey) → same_key k k ≡ true
same_key_refl k = ground (arith, same_shift_refl k.shift)

pub row_at-set_row :
    (k : EntryKey) (row : EntryStatus) (db : Entries) → (set_row k row db).row_at k ≡ some row
row_at-set_row k row db = rw (same_key_refl k)

claim_update-open :
    (now : ℕ) (k : EntryKey) (user : User) (type : CompletionType) (row : EntryStatus)
    (db : Entries)
    → db.row_at k ≡ some row
    → row.completed ≡ false
    → claim_update now k user type db ≡ ok (set_row k (complete_row now user type row) db)
unfolding claim_update
claim_update-open now k user type row db e h = rw (e, claim_update) (rw h)

claim_update-completed :
    (now : ℕ) (k : EntryKey) (user : User) (type : CompletionType) (row : EntryStatus)
    (db : Entries)
    → db.row_at k ≡ some row
    → row.completed ≡ true
    → claim_update now k user type db ≡ raise (completed_conflict db row)
unfolding claim_update
claim_update-completed now k user type row db e h = rw (e, claim_update) (rw h)

no_winners :
    (k : EntryKey) (cs : List Claim) (row : EntryStatus) (db : Entries)
    → db.row_at k ≡ some row
    → row.completed ≡ true
    → (winners k cs db ≡ []) × (after_claims k cs db ≡ db)
unfolding winners after_claims
no_winners k [] row db e h = (refl, refl)
no_winners k (c ∷ cs) row db e h =
    rw (claim_update-completed c.now k c.user c.type row db e h) (no_winners k cs row db e h)

-- Of the claims of an open entry, in whatever order they reach the table, exactly the first succeeds,
-- and the entry is credited to it and to no later one.
pub claim_update-one_winner :
    (k : EntryKey) (c : Claim) (cs : List Claim) (row : EntryStatus) (db : Entries)
    → db.row_at k ≡ some row
    → row.completed ≡ false
    → (winners k (c ∷ cs) db ≡ c ∷ [])
      × ((after_claims k (c ∷ cs) db).row_at k ≡ some (complete_row c.now c.user c.type row))
unfolding winners after_claims
claim_update-one_winner k c cs row db e h =
    let done = complete_row c.now c.user c.type row in
    let (none_later, same) =
      no_winners k cs done (set_row k done db) (row_at-set_row k done db) refl in
    let first = claim_update-open c.now k c.user c.type row db e h in
    (
      rw first (ap (λ (rest : List Claim). c ∷ rest) none_later),
      rw (first, after_claims) (ap (λ (s : Entries). s.row_at k) same ∙ row_at-set_row k done db),
    )

abbrev value : Entries → Result EntryError Entries → Entries
value db (ok db') = db'
value db (raise e) = db

pub claim_completion-new :
    (now : ℕ) (k : EntryKey) (user : User) (type : CompletionType) (db : Entries)
    → db.row_at k ≡ none
    → claim_completion now k user type db
      ≡ ok (set_row k (complete_row now user type new_row) (set_row k new_row db))
unfolding claim_completion claim_select
claim_completion-new now k user type db e =
    rw (e, claim_completion, claim_select)
      (rw (e, insert_row)
        (claim_update-open now k user type new_row (set_row k new_row db)
          (row_at-set_row k new_row db) refl))

pub claim_completion-open :
    (now : ℕ) (k : EntryKey) (user : User) (type : CompletionType) (row : EntryStatus)
    (db : Entries)
    → db.row_at k ≡ some row
    → row.completed ≡ false
    → claim_completion now k user type db ≡ ok (set_row k (complete_row now user type row) db)
unfolding claim_completion claim_select
claim_completion-open now k user type row db e h =
    rw (e, claim_completion, claim_select) (rw h (claim_update-open now k user type row db e h))

pub claim_completion-completed :
    (now : ℕ) (k : EntryKey) (user : User) (type : CompletionType) (row : EntryStatus)
    (db : Entries)
    → db.row_at k ≡ some row
    → row.completed ≡ true
    → claim_completion now k user type db ≡ raise (completed_conflict db row)
unfolding claim_completion claim_select
claim_completion-completed now k user type row db e h =
    rw (e, claim_completion, claim_select) (rw h)

-- A claim that succeeds leaves a completed row that names its user.
pub claim_completion_ok :
    (now : ℕ) (k : EntryKey) (user : User) (type : CompletionType) (db db' : Entries)
    → claim_completion now k user type db ≡ ok db'
    → (row : EntryStatus) × (db'.row_at k ≡ some (complete_row now user type row))
claim_completion_ok now k user type db db' e = elim (Option-cases (db.row_at k)) [
  | inl missing ↦ (
    new_row,
    written (set_row k new_row db) new_row (claim_completion-new now k user type db missing),
  )
  | inr (row, found) ↦ elim (Bool-cases row.completed) [
    | inl done ↦ absurd (cc (claim_completion-completed now k user type row db found done))
    | inr unclaimed ↦
        (row, written db row (claim_completion-open now k user type row db found unclaimed))
  ]
]
  where
    written :
        (base : Entries) (row : EntryStatus)
        → claim_completion now k user type db ≡ ok (set_row k (complete_row now user type row) base)
        → db'.row_at k ≡ some (complete_row now user type row)
    written base row done =
        let same : db' ≡ set_row k (complete_row now user type row) base =
          ap (value db) (sym e ∙ done) in
        ap (λ (s : Entries). s.row_at k) same
        ∙ row_at-set_row k (complete_row now user type row) base

-- After a claim that succeeds, the next claim of the entry, by whomever, is refused with the name of
-- the first user and the time of the first claim.
pub claim_completion-second_refused :
    (now now' : ℕ) (k : EntryKey) (user other : User) (type type' : CompletionType)
    (db db' : Entries)
    → claim_completion now k user type db ≡ ok db'
    → claim_completion now' k other type' db'
      ≡ raise (already_inputted (or_another_user (user_label db' (some user.id))) (some now))
claim_completion-second_refused now now' k user other type type' db db' e =
    let (row, found) = claim_completion_ok now k user type db db' e in
    claim_completion-completed now' k other type' (complete_row now user type row) db' found refl
