-- ===== src/Entry/Tests.antt =====
-- One entry, two operators and a manager.
use daily_figures.Common.{
  ◌≡◌, refl, inl, inr, Bool-cases, ◌==◌, none, some, List, [], ◌∷◌, ok, raise, arith,
}
use daily_figures.Records.{User, operator, manager, day}
use daily_figures.Entry.{
  EntryStatus, EntryKey, Entries, with_data, no_activity, new_row, complete_row, take_lock, set_row,
  acquire_lock, check_operator_conflict, release_lock, claim_completion, user_label,
  or_another_user, being_entered, already_inputted,
}
use daily_figures.Entry.Overview.{
  AreNamed, get_bucket, bucket_for_date_shift, bucket_of_progress, status_view,
  bucket_for_date_shift-status_view,
}
use daily_figures.Entry.Races.{
  Claim, winners, after_claims, claim_update-one_winner, claim_completion-second_refused,
  claim_completion-new,
}
use daily_figures.Entry.Lock.{acquire_lock-new, acquire_lock-exclusive, acquire_lock-stale}
use daily_figures.Entry.History.{
  Event, acquire, release, select, update, no_activity_mark, takeover, reopening, AreConsistent,
  run_events, run_events-AreConsistent,
}

abbrev amina : User
amina = record { id = 1; username = "amina"; role = operator }

abbrev bilal : User
bilal = record { id = 2; username = "bilal"; role = operator }

abbrev chief : User
chief = record { id = 3; username = "chief"; role = manager }

abbrev entry : EntryKey
entry = record { date = 100; shift = day; product_id = 7 }

abbrev untouched : Entries
untouched = record { row_at = λ k. none; users = amina ∷ bilal ∷ chief ∷ []; audits = [] }

abbrev opened : Entries
opened = set_row entry new_row untouched

abbrev first_claim : Claim
first_claim = record { user = amina; type = with_data; now = 50 }

abbrev second_claim : Claim
second_claim = record { user = bilal; type = no_activity; now = 51 }

claim_update-one_winner_example :
    (winners entry (first_claim ∷ second_claim ∷ []) opened ≡ first_claim ∷ [])
    × ((after_claims entry (first_claim ∷ second_claim ∷ []) opened).row_at entry
        ≡ some (complete_row 50 amina with_data new_row))
claim_update-one_winner_example =
    claim_update-one_winner entry first_claim (second_claim ∷ []) new_row opened refl refl

abbrev claimed : Entries
claimed = set_row entry (complete_row 50 amina with_data new_row) opened

claim_completion-second_refused_example :
    claim_completion 51 entry bilal no_activity claimed
    ≡ raise (already_inputted (or_another_user (user_label claimed (some 1))) (some 50))
claim_completion-second_refused_example =
    claim_completion-second_refused 50 51 entry amina bilal with_data no_activity untouched claimed
      (claim_completion-new 50 entry amina with_data untouched refl)

-- The name in that refusal.
amina_is_named : or_another_user (user_label claimed (some 1)) ≡ "amina"
unfolding user_label
amina_is_named = refl

abbrev locked : Entries
locked = set_row entry (take_lock 50 amina new_row) opened

acquire_lock-exclusive_example :
    (acquire_lock 60 entry bilal locked
      ≡ raise (being_entered (or_another_user (user_label locked (some 1)))))
    × (release_lock entry bilal locked ≡ locked)
    × (check_operator_conflict 60 entry amina locked ≡ none)
acquire_lock-exclusive_example =
    acquire_lock-exclusive 50 60 entry amina bilal untouched locked
      (acquire_lock-new 50 entry amina untouched refl) (omega arith) (omega arith)

acquire_lock-stale_example :
    (db : Entries) × (row : EntryStatus) × (acquire_lock 900000051 entry bilal locked ≡ ok db)
    × (db.row_at entry ≡ some (take_lock 900000051 bilal row))
acquire_lock-stale_example =
    acquire_lock-stale 50 900000051 entry amina bilal untouched locked
      (acquire_lock-new 50 entry amina untouched refl) (omega arith)

abbrev busy_day : List Event
busy_day =
    acquire 50 entry amina
    ∷ select none entry
    ∷ no_activity_mark 51 entry bilal
    ∷ update 52 entry amina with_data
    ∷ takeover entry chief
    ∷ reopening 53 entry chief (some "miscount")
    ∷ acquire 54 entry amina
    ∷ release entry amina
    ∷ []

untouched-AreConsistent : AreConsistent untouched
untouched-AreConsistent = record { at_key = λ k row e. cc }

run_events-AreConsistent_example : AreConsistent (run_events busy_day untouched)
run_events-AreConsistent_example =
    run_events-AreConsistent busy_day untouched untouched-AreConsistent

locked-AreNamed : AreNamed locked
unfolding user_label
locked-AreNamed id = elim (Bool-cases (1 == id)) [
  | inl first ↦ rw first refl
  | inr not_first ↦ elim (Bool-cases (2 == id)) [
    | inl second ↦ rw not_first (rw second refl)
    | inr not_second ↦ elim (Bool-cases (3 == id)) [
      | inl third ↦ rw not_first (rw not_second (rw third refl))
      | inr stranger ↦ rw not_first (rw not_second (rw stranger refl))
    ]
  ]
]

bucket_for_date_shift-status_view_example :
    get_bucket 7 (bucket_for_date_shift 60 100 day (5 ∷ 7 ∷ []) locked)
    ≡ bucket_of_progress (status_view 60 entry locked).status
bucket_for_date_shift-status_view_example =
    bucket_for_date_shift-status_view 60 entry (5 ∷ 7 ∷ []) locked locked-AreNamed (inr (inl refl))

-- Another operator and the manager act on the claimed entry, and another entry is reopened.
abbrev afternoon : List Event
afternoon =
    select none entry
    ∷ update 52 entry bilal no_activity
    ∷ acquire 53 entry bilal
    ∷ takeover entry chief
    ∷ reopening 54 (record { date = 101; shift = day; product_id = 7 }) chief (some "miscount")
    ∷ []
