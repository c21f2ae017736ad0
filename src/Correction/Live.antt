-- ===== src/Correction/Live.antt =====
-- correction_request_service.py, `get_active_grant`: the grant that it finds.
use daily_figures.Common.{
  ids_below, ids_below-Member, ℕ, ◌≡◌, refl, sym, ◌∙◌, ap, inl, inr, ◌⊎◌, Bool, true, false, ◌&&◌,
  Option, none, some, List, [], ◌∷◌, ◌==◌, ==_iff, &&_left, Bool-cases, Option-cases, Member,
  Member-filter, Member-filter_intro,
}
use daily_figures.Records.{User}
use daily_figures.Correction.{
  RecordType, is_approved, CorrectionRequest, Requests, set_row, expired_row, is_in_window,
  expire_if_needed, is_own, row_passes, select, swept_at, first_live, get_active_grant,
}
use daily_figures.Correction.Sweep.{}
use daily_figures.Correction.Single.{IsSingle}

abbrev given : CorrectionRequest → Option CorrectionRequest → CorrectionRequest
given d none = d
given d (some r) = r

abbrev approved_at : ℕ → Requests → Bool
approved_at id db = row_passes (λ row. is_approved row.status) (db.row_at id)

-- A sweep of a row leaves the table alone, or makes the row expire where its window has closed.
expire_if_needed-cases :
    (now id : ℕ) (row : CorrectionRequest) (db : Requests)
    → db.row_at id ≡ some row
    → (expire_if_needed now id row db ≡ db)
        × ((is_approved row.status ≡ false) ⊎ (is_in_window now row ≡ true))
      ⊎ (expire_if_needed now id row db ≡ set_row id (expired_row row) db)
        × (is_in_window now row ≡ false)
unfolding expire_if_needed
expire_if_needed-cases now id row db found = elim (Bool-cases (is_approved row.status)) [
  | inr done ↦ inl (rw (done, expire_if_needed) refl, inl done)
  | inl granted ↦ elim (Bool-cases (is_in_window now row)) [
    | inl early ↦ inl (rw (granted, expire_if_needed) (rw early refl), inr early)
    | inr late ↦ inr (rw (granted, expire_if_needed) (rw late (rw found (rw granted refl))), late)
  ]
]

-- What is approved after a sweep was there before it, and its own row in its window.
swept_at-approved :
    (now id i : ℕ) (db : Requests) (row : CorrectionRequest)
    → (swept_at now id db (db.row_at id)).row_at i ≡ some row
    → is_approved row.status ≡ true
    → (db.row_at i ≡ some row) × ((i ≡ id) → is_in_window now row ≡ true)
swept_at-approved now id i db row at live = elim (Option-cases (db.row_at id)) [
  | inl missing ↦ (rw missing at at, λ e. cc (ap db.row_at e, missing, (rw missing at at)))
  | inr (old, found) ↦ elim (expire_if_needed-cases now id old db found) [
    | inl (same, why) ↦
        let before : db.row_at i ≡ some row =
          ap (λ (d : Requests). d.row_at i) (sym same) ∙ rw found at at in
        (
          before,
          λ e.
              let one : old ≡ row = ap (given old) (sym found ∙ ap db.row_at (sym e) ∙ before) in
              elim why [
                | inl off ↦
                    absurd
                      (cc (ap (λ (r : CorrectionRequest). is_approved r.status) one, off, live))
                | inr early ↦ ap (λ (r : CorrectionRequest). is_in_window now r) (sym one) ∙ early
              ],
        )
    | inr (changed, late) ↦
        let after : (set_row id (expired_row old) db).row_at i ≡ some row =
          ap (λ (d : Requests). d.row_at i) (sym changed) ∙ rw found at at in
        elim (Bool-cases (i == id)) [
          | inl own ↦ absurd (
              cc (
                ap (λ (o : Option CorrectionRequest). row_passes (λ r. is_approved r.status) o)
                    (rw own at after),
                live,
              ))
          | inr other ↦ (rw other at after, λ e. absurd (cc ((==_iff i id).1 e, other)))
        ]
  ]
]

-- A row in its window stays as it is.
swept_at-early :
    (now id i : ℕ) (db : Requests) (row : CorrectionRequest)
    → db.row_at i ≡ some row
    → is_in_window now row ≡ true
    → (swept_at now id db (db.row_at id)).row_at i ≡ some row
swept_at-early now id i db row at early = elim (Option-cases (db.row_at id)) [
  | inl missing ↦ rw missing at
  | inr (old, found) ↦ elim (expire_if_needed-cases now id old db found) [
    | inl (same, _) ↦ rw found (ap (λ (d : Requests). d.row_at i) same ∙ at)
    | inr (changed, late) ↦ rw found (
        ap (λ (d : Requests). d.row_at i) changed ∙ (elim (Bool-cases (i == id)) [
          | inr other ↦ rw other at
          | inl own ↦
              let one : old ≡ row =
                ap (given old) (sym found ∙ ap db.row_at (sym ((==_iff i id).0 own)) ∙ at) in
              absurd (cc (ap (λ (r : CorrectionRequest). is_in_window now r) one, early, late))
        ]))
  ]
]

-- A grant of the list that is approved and in its window.
pub record IsLive (now : ℕ) (db : Requests) (id : ℕ) : Type 0 where
  pub row : CorrectionRequest
  pub is_there : db.row_at id ≡ some row
  pub is_granted : is_approved row.status ≡ true
  pub is_early : is_in_window now row ≡ true

approved_row :
    (o : Option CorrectionRequest)
    → row_passes (λ r. is_approved r.status) o ≡ true
    → (row : CorrectionRequest) × (o ≡ some row) × (is_approved row.status ≡ true)
approved_row none h = absurd (cc)
approved_row (some row) h = (row, refl, h)

abbrev id_or : ℕ → Option ℕ → ℕ
id_or d none = d
id_or d (some id) = id

first_live-some :
    (now : ℕ) (ids : List ℕ) (db : Requests) (id : ℕ)
    → (first_live now ids db).grant ≡ some id
    → Member id ids × IsLive now db id
unfolding first_live
first_live-some now [] db id e = absurd (cc)
first_live-some now (x ∷ xs) db id e =
    let swept = swept_at now x db (db.row_at x) in
    elim (Bool-cases (approved_at x swept)) [
      | inl granted ↦
          let same : x ≡ id = ap (id_or x) (rw granted at e) in
          let (row, at, live) = approved_row (swept.row_at x) granted in
          let (before, early) = swept_at-approved now x x db row at live in
          rw (← same) (
            inl refl,
            record { row = row; is_there = before; is_granted = live; is_early = early refl },
          )
      | inr over ↦
          let (among, l) = first_live-some now xs swept id (rw over at e) in
          (
            inr among,
            record {
              row = l.row;
              is_there = (swept_at-approved now x id db l.row l.is_there l.is_granted).0;
              is_granted = l.is_granted;
              is_early = l.is_early;
            },
          )
    ]

first_live-none :
    (now : ℕ) (ids : List ℕ) (db : Requests) (id : ℕ)
    → (first_live now ids db).grant ≡ none
    → Member id ids
    → IsLive now db id
    → ⊥
unfolding first_live
first_live-none now [] db id e m l = m
first_live-none now (x ∷ xs) db id e m l =
    let swept = swept_at now x db (db.row_at x) in
    let at = swept_at-early now x id db l.row l.is_there l.is_early in
    elim (Bool-cases (approved_at x swept)) [
      | inl granted ↦ cc (rw granted at e)
      | inr over ↦ elim m [
        | inl same ↦ cc (
          ap (λ (k : ℕ). approved_at k swept) same,
          over,
          ap (λ (o : Option CorrectionRequest). row_passes (λ r. is_approved r.status) o) at,
          l.is_granted,
        )
        | inr among ↦
            first_live-none now xs swept id (rw over at e) among record {
              row = l.row;
              is_there = at;
              is_granted = l.is_granted;
              is_early = l.is_early;
            }
      ]
    ]

-- A grant of the user for the record.
pub record IsGrant (now : ℕ) (type : RecordType) (record_id : ℕ) (user : User) (db : Requests)
    (id : ℕ) : Type 0 where
  pub live : IsLive now db id
  pub own : is_own type record_id user.id live.row ≡ true

-- The grant that is found is one of the user's for the record, approved and less than 24 hours old, and
-- where none is found the user has none.
pub get_active_grant-live :
    (now : ℕ) (type : RecordType) (record_id : ℕ) (user : User) (db : Requests)
    → IsSingle db
    → ((id : ℕ)
        → (get_active_grant now type record_id user db).grant ≡ some id
        → IsGrant now type record_id user db id)
      × ((get_active_grant now type record_id user db).grant ≡ none
          → (id : ℕ) → IsGrant now type record_id user db id
          → ⊥)
unfolding get_active_grant
get_active_grant-live now type record_id user db s =
    let test : CorrectionRequest → Bool =
      λ row. is_own type record_id user.id row && is_approved row.status in
    let passes : ℕ → Bool = λ id. row_passes test (db.row_at id) in
    (
      λ id e.
          let (m, l) = first_live-some now (select test db) db id e in
          let selected = (Member-filter passes id (ids_below db.next_id) m).1 in
          record {
            live = l;
            own =
                &&_left (is_own type record_id user.id l.row) (is_approved l.row.status)
                  (rw l.is_there at selected);
          },
      λ e id g.
          first_live-none now (select test db) db id e
            (Member-filter_intro passes id (ids_below db.next_id)
              (ids_below-Member db.next_id id (s.below id g.live.row g.live.is_there))
              (rw g.live.is_there (rw (g.own, g.live.is_granted) refl)))
            g.live,
    )
