-- ===== src/Entry/Lock.antt =====
-- daily_entry_status_service.py, `acquire_lock`, `check_operator_conflict` and `release_lock`: what a
-- lock lets others do while it is live.
use daily_figures.Common.{
  ℕ, ◌+◌, ◌≤◌, ◌<◌, ◌≡◌, ◌≢◌, refl, sym, ◌∙◌, ap, inl, inr, true, false, none, some, ◌==◌, ==_iff,
  ltb, lt→ltb, ◌>>=◌, Bool-cases, Option-cases, Result, ok, raise, arith,
}
use daily_figures.Records.{User}
use daily_figures.Entry.Races.{row_at-set_row}
use daily_figures.Entry.{
  EntryStatus, EntryKey, Entries, EntryError, being_entered, set_row, insert_row, new_row,
  take_lock, is_stale, lock_stale_after, user_label, or_another_user, operator_conflict_of,
  raise_conflict, check_operator_conflict, acquire_lock, release_lock,
}

pub acquire_lock-new :
    (now : ℕ) (k : EntryKey) (user : User) (db : Entries)
    → db.row_at k ≡ none
    → acquire_lock now k user db
      ≡ ok (set_row k (take_lock now user new_row) (set_row k new_row db))
unfolding acquire_lock check_operator_conflict
acquire_lock-new now k user db e =
    rw (e, acquire_lock)
      (rw (e, insert_row) (rw (row_at-set_row k new_row db, check_operator_conflict) refl))

pub acquire_lock-found :
    (now : ℕ) (k : EntryKey) (user : User) (row : EntryStatus) (db : Entries)
    → db.row_at k ≡ some row
    → acquire_lock now k user db ≡ (
        raise_conflict (operator_conflict_of now db user row) >>= λ _.
        ok (set_row k (take_lock now user row) db))
unfolding acquire_lock check_operator_conflict
acquire_lock-found now k user row db e = rw (e, acquire_lock) (rw (e, check_operator_conflict) refl)

-- A lock is refused, or it is the row's with the user and the time.
pub acquire_lock_ok :
    (now : ℕ) (k : EntryKey) (user : User) (db db' : Entries)
    → acquire_lock now k user db ≡ ok db'
    → (row : EntryStatus) × (row.completed ≡ false) × (db'.row_at k ≡ some (take_lock now user row))
acquire_lock_ok now k user db db' e = elim (Option-cases (db.row_at k)) [
  | inl missing ↦ (
    new_row,
    refl,
    written (set_row k new_row db) new_row (acquire_lock-new now k user db missing),
  )
  | inr (row, found) ↦
      let asked = acquire_lock-found now k user row db found in
      elim (Option-cases (operator_conflict_of now db user row)) [
        | inr (conflict, c) ↦ absurd (cc (rw c at asked))
        | inl free ↦ (
          row,
          elim (Bool-cases row.completed) [
            | inl done ↦ absurd (cc (rw done at free))
            | inr unclaimed ↦ unclaimed
          ],
          written db row (rw free at asked),
        )
      ]
]
  where
    value : Result EntryError Entries → Entries
    value (ok s) = s
    value (raise err) = db

    written :
        (base : Entries) (row : EntryStatus)
        → acquire_lock now k user db ≡ ok (set_row k (take_lock now user row) base)
        → db'.row_at k ≡ some (take_lock now user row)
    written base row done =
        ap (λ (s : Entries). s.row_at k) (ap value (sym e ∙ done))
        ∙ row_at-set_row k (take_lock now user row) base

-- After a user has taken the lock of an entry, until the lock is stale every other operator is told
-- who enters it and cannot take it, releasing it in another's name changes nothing, and the user
-- meets no conflict.
pub acquire_lock-exclusive :
    (now later : ℕ) (k : EntryKey) (user other : User) (db db' : Entries)
    → acquire_lock now k user db ≡ ok db'
    → later ≤ now + lock_stale_after
    → other.id ≢ user.id
    → (acquire_lock later k other db'
        ≡ raise (being_entered (or_another_user (user_label db' (some user.id)))))
      × (release_lock k other db' ≡ db')
      × (check_operator_conflict later k user db' ≡ none)
unfolding check_operator_conflict release_lock is_stale
acquire_lock-exclusive now later k user other db db' e live differ =
    let (row, unclaimed, found) = acquire_lock_ok now k user db db' e in
    let fresh : ltb (now + lock_stale_after) later ≡ false = ground arith in
    let others : (user.id == other.id) ≡ false = ground arith in
    let self : (user.id == user.id) ≡ true = (==_iff user.id user.id).1 refl in
    (
      acquire_lock-found later k other (take_lock now user row) db' found
          ∙ rw unclaimed (rw (others, is_stale) (rw fresh refl)),
      rw (found, release_lock) (rw others refl),
      rw (found, check_operator_conflict) (rw unclaimed (rw self refl)),
    )

-- Once the lock is stale, any other operator takes it over by asking for it.
pub acquire_lock-stale :
    (now later : ℕ) (k : EntryKey) (user other : User) (db db' : Entries)
    → acquire_lock now k user db ≡ ok db'
    → now + lock_stale_after < later
    → (db'' : Entries) × (row : EntryStatus) × (acquire_lock later k other db' ≡ ok db'')
      × (db''.row_at k ≡ some (take_lock later other row))
unfolding is_stale
acquire_lock-stale now later k user other db db' e stale =
    let (row, unclaimed, found) = acquire_lock_ok now k user db db' e in
    let held = take_lock now user row in
    let old : ltb (now + lock_stale_after) later ≡ true = lt→ltb _ later stale in
    (
      set_row k (take_lock later other held) db',
      held,
      acquire_lock-found later k other held db' found
          ∙ rw unclaimed (
              rw (old, is_stale)
                (elim (Bool-cases (user.id == other.id)) [
                  | inl same ↦ rw same refl
                  | inr different ↦ rw different refl
                ])),
      row_at-set_row k (take_lock later other held) db',
    )
