-- ===== src/Correction/Tests.antt =====
-- Tests of correction_request_service.py: two requests for one record, and the use of the grant.
use daily_figures.Common.{
  ℕ, ◌≤◌, ◌≡◌, refl, inl, inr, none, some, List, [], ◌∷◌, String, ◌==◌, if◌then◌else◌, Bool-cases,
  arith,
}
use daily_figures.Stock.Tests.{chief}
use daily_figures.Correction.{
  CorrectionRequest, dispatch, approved, Requests, get_active_grant, first_live, expire_if_needed,
  create_request, check_none_open, approve_request, consume_grant,
}
use daily_figures.Correction.Single.{IsSingle}
use daily_figures.Correction.Run.{
  Event, request, approve, consume, handle, handle_all, handle_all-IsSingle,
}
use daily_figures.Correction.Live.{IsGrant, get_active_grant-live}
use daily_figures.Correction.Grant.{uses, consume_grant-once}

abbrev as_given : String → String
as_given text = text

abbrev no_requests : Requests
no_requests = record { row_at = λ _. none; next_id = 1 }

abbrev asked : Event
asked = request 10 dispatch 4 (some "{}") (some "wrong cartons") (some "{lines}") chief

abbrev events : List Event
events = asked ∷ asked ∷ approve 20 1 chief none ∷ consume 30 1 ∷ consume 31 1 ∷ []

-- The second request is refused while the first is open, and the second use too.
one_use : uses as_given 1 events no_requests ≡ 1
unfolding uses handle create_request check_none_open approve_request consume_grant expire_if_needed
one_use = refl

no_requests-IsSingle : IsSingle no_requests
no_requests-IsSingle = record { below = λ id a e. absurd (cc); single = λ i j a b e. absurd (cc) }

handle_all-IsSingle_example : IsSingle (handle_all as_given events no_requests)
handle_all-IsSingle_example = handle_all-IsSingle as_given events no_requests no_requests-IsSingle

consume_grant-once_example : uses as_given 1 events no_requests ≤ 1
consume_grant-once_example = consume_grant-once as_given 1 events no_requests no_requests-IsSingle

abbrev granted : CorrectionRequest
granted = record {
  record_type = dispatch;
  record_id = 4;
  requested_by = 3;
  reason = "wrong cartons";
  payload_json = "{lines}";
  before_snapshot_json = "{}";
  status = approved;
  reviewed_by = some 3;
  reviewed_at = some 20;
  review_note = none;
  completed_at = none;
}

abbrev one_grant : Requests
one_grant = record { row_at = λ id. if id == 1 then some granted else none; next_id = 2 }

one_grant-IsSingle : IsSingle one_grant
one_grant-IsSingle = record {
  below = λ id a e. elim (Bool-cases (id == 1)) [
    | inl own ↦ ground arith
    | inr other ↦ cc (rw other at e)
  ];
  single = λ i j a b at_i at_j _ _ _. elim (Bool-cases (i == 1)) [
    | inr other ↦ cc (rw other at at_i)
    | inl first ↦ elim (Bool-cases (j == 1)) [
      | inr other ↦ cc (rw other at at_j)
      | inl second ↦ ground arith
    ]
  ];
}

get_active_grant-live_example :
    ((id : ℕ)
      → (get_active_grant 90 dispatch 4 chief one_grant).grant ≡ some id
      → IsGrant 90 dispatch 4 chief one_grant id)
    × ((get_active_grant 90 dispatch 4 chief one_grant).grant ≡ none
        → (id : ℕ) → IsGrant 90 dispatch 4 chief one_grant id
        → ⊥)
get_active_grant-live_example =
    get_active_grant-live 90 dispatch 4 chief one_grant one_grant-IsSingle

found_grant : (get_active_grant 90 dispatch 4 chief one_grant).grant ≡ some 1
unfolding get_active_grant first_live expire_if_needed
found_grant = refl

-- A day later the grant is gone.
expired_grant : (get_active_grant 86400000020 dispatch 4 chief one_grant).grant ≡ none
unfolding get_active_grant first_live expire_if_needed
expired_grant = refl
