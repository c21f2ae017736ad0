-- ===== src/Cutover/Order.antt =====
-- ledger_cutover_service.py: the row of a cutover in its table, and the latest of the activated ones.
use daily_figures.Common.{
  ◌<◌, ◌≤◌, ◌≡◌, ◌⊎◌, refl, sym, ◌∙◌, ap, inl, inr, true, false, Option, none, some, List, [], ◌∷◌,
  ◌==◌, leb, leb-true, leb-false, Bool-cases, Option-cases, find_first, filter_where, exists_where,
  exists_where-none, Member, Member-filter, Member-filter_intro, arith,
}
use daily_figures.Records.{LedgerCutover, is_activated}
use daily_figures.Stock.View.{cutover_key, latest_cutover}
use daily_figures.Cutover.{put_cutover, is_governing}

pub Member-put_cutover :
    (c x : LedgerCutover) (cs : List LedgerCutover)
    → Member x (put_cutover c cs)
    → (x ≡ c) ⊎ Member x cs
Member-put_cutover c x [] m = absurd m
Member-put_cutover c x (y ∷ ys) m = ground (arith, Member-put_cutover c x ys)

-- The row is put where the search by its id finds a row.
pub put_cutover-Member :
    (c old : LedgerCutover) (cs : List LedgerCutover)
    → find_first (λ x. x.id == c.id) cs ≡ some old
    → Member c (put_cutover c cs)
put_cutover-Member c old [] found = absurd (cc)
put_cutover-Member c old (y ∷ ys) found = elim (Bool-cases (y.id == c.id)) [
  | inl here ↦ rw here (inl refl)
  | inr later ↦ rw later (inr (put_cutover-Member c old ys (rw later at found)))
]

pub find_first-put_cutover :
    (c old : LedgerCutover) (cs : List LedgerCutover)
    → find_first (λ x. x.id == c.id) cs ≡ some old
    → find_first (λ x. x.id == c.id) (put_cutover c cs) ≡ some c
find_first-put_cutover c old [] found = absurd (cc)
find_first-put_cutover c old (y ∷ ys) found = elim (Bool-cases (y.id == c.id)) [
  | inl here ↦ rw here (ground arith)
  | inr later ↦ rw later (rw later (find_first-put_cutover c old ys (rw later at found)))
]

abbrev given : LedgerCutover → Option LedgerCutover → LedgerCutover
given d none = d
given d (some x) = x

latest_cutover-Member :
    (cs : List LedgerCutover) (c : LedgerCutover) → latest_cutover cs ≡ some c → Member c cs
unfolding latest_cutover
latest_cutover-Member [] c e = absurd (cc)
latest_cutover-Member (x ∷ xs) c e = elim (Option-cases (latest_cutover xs)) [
  | inl missing ↦ inl (sym (ap (given c) (rw missing at e)))
  | inr (later, found) ↦ elim (Bool-cases (leb (cutover_key later) (cutover_key x))) [
    | inl first ↦ inl (sym (ap (given c) (rw first at (rw found at e))))
    | inr second ↦
        let same : later ≡ c = ap (given c) (rw second at (rw found at e)) in
        inr (rw same at (latest_cutover-Member xs later found))
  ]
]

latest_cutover-some :
    (cs : List LedgerCutover) (c : LedgerCutover)
    → Member c cs
    → (x : LedgerCutover) × (latest_cutover cs ≡ some x)
unfolding latest_cutover
latest_cutover-some [] c m = absurd m
latest_cutover-some (x ∷ xs) c m = elim (Option-cases (latest_cutover xs)) [
  | inl missing ↦ (x, rw missing refl)
  | inr (later, found) ↦ elim (Bool-cases (leb (cutover_key later) (cutover_key x))) [
    | inl first ↦ (x, rw found (rw first refl))
    | inr second ↦ (later, rw found (rw second refl))
  ]
]

latest_cutover-greatest :
    (cs : List LedgerCutover) (c x : LedgerCutover)
    → latest_cutover cs ≡ some x
    → Member c cs
    → cutover_key c ≤ cutover_key x
unfolding latest_cutover
latest_cutover-greatest [] c x e m = absurd m
latest_cutover-greatest (y ∷ ys) c x e m = elim (Option-cases (latest_cutover ys)) [
  | inl missing ↦
      let only = ap cutover_key (ap (given x) (rw missing at e)) in
      elim m [
        | inl same ↦ omega (arith, ap cutover_key same, only)
        | inr later ↦ let (z, found) = latest_cutover-some ys c later in absurd (cc)
      ]
  | inr (later, found) ↦ elim (Bool-cases (leb (cutover_key later) (cutover_key y))) [
    | inl first ↦
        let chosen = ap cutover_key (ap (given x) (rw first at (rw found at e))) in
        let order = leb-true (cutover_key later) (cutover_key y) first in
        elim m [
          | inl same ↦ omega (arith, ap cutover_key same, chosen)
          | inr below ↦ omega (arith, latest_cutover-greatest ys c later found below, order, chosen)
        ]
    | inr second ↦
        let chosen = ap cutover_key (ap (given x) (rw second at (rw found at e))) in
        let order = leb-false (cutover_key later) (cutover_key y) second in
        elim m [
          | inl same ↦ omega (arith, ap cutover_key same, chosen, order)
          | inr below ↦ omega (arith, latest_cutover-greatest ys c later found below, chosen)
        ]
  ]
]

-- The row that is after all others is the latest.
pub latest_cutover-last :
    (cs : List LedgerCutover) (c : LedgerCutover)
    → Member c cs
    → ((x : LedgerCutover) → Member x cs → (x ≡ c) ⊎ (cutover_key x < cutover_key c))
    → latest_cutover cs ≡ some c
latest_cutover-last cs c m last =
    let (x, found) = latest_cutover-some cs c m in
    elim (last x (latest_cutover-Member cs x found)) [
      | inl same ↦ found ∙ ap (λ (r : LedgerCutover). some r) same
      | inr below ↦ absurd (omega (arith, latest_cutover-greatest cs c x found m))
    ]

-- A row that is put after all that are activated is the one that governs.
pub put_cutover-governs :
    (row old : LedgerCutover) (cs : List LedgerCutover)
    → find_first (λ x. x.id == row.id) cs ≡ some old
    → is_activated row.status ≡ true
    → exists_where (is_governing (cutover_key row)) cs ≡ false
    → ((x : LedgerCutover)
        → Member x (put_cutover row cs)
        → is_activated x.status ≡ true
        → (x ≡ row) ⊎ (cutover_key x < cutover_key row))
      × (latest_cutover (filter_where (λ x. is_activated x.status) (put_cutover row cs)) ≡ some row)
put_cutover-governs row old cs found live first = (
  earlier,
  latest_cutover-last (filter_where (λ x. is_activated x.status) (put_cutover row cs)) row
      (Member-filter_intro (λ x. is_activated x.status) row (put_cutover row cs)
        (put_cutover-Member row old cs found) live)
      (λ x m.
        let (among, active) = Member-filter (λ r. is_activated r.status) x (put_cutover row cs) m in
        earlier x among active),
)
  where
    earlier :
        (x : LedgerCutover)
        → Member x (put_cutover row cs)
        → is_activated x.status ≡ true
        → (x ≡ row) ⊎ (cutover_key x < cutover_key row)
    earlier x m active = elim (Member-put_cutover row x cs m) [
      | inl same ↦ inl same
      | inr old_row ↦
          let refused = exists_where-none (is_governing (cutover_key row)) cs x first old_row in
          inr (leb-false (cutover_key row) (cutover_key x) (rw active at refused))
    ]
