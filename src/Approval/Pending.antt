-- ===== src/Approval/Pending.antt =====
-- The second loop of `nextApprovalLevel` (internal/service/access.go), described level by level.
use access_gateway.Prelude.{
  ℕ, ◌≤◌, ◌<◌, ◌≡◌, ◌⊎◌, ◌↔◌, inl, inr, refl, ◌∙◌, true, false, List, [], ◌∷◌, ==_iff, All, In,
  arith,
}
use access_gateway.Approval.Model.{Approval}
use access_gateway.Approval.Levels.{
  Tally, tally, better_level, scan_levels, start_tally, next_approval_level,
}
use access_gateway.Approval.Counting.{
  IsOpen, approved_at, counts_tally, required_tally, tally-All, tally-In, threshold_at,
}

abbrev Unmet : Tally → ℕ → Type 0
Unmet t k = t.counts.value k < t.required.value k

-- The result of the scan is a bound for every level that is open, and the level it began with.
scan_bound :
    (t : Tally) (current : ℕ) (keys : List ℕ)
    → All (λ k. 1 ≤ k) keys
    → 1 ≤ current
    → (1 ≤ scan_levels t current keys) × (scan_levels t current keys ≤ current)
unfolding scan_levels
scan_bound t current [] a h = (h, omega arith)
scan_bound t current (k ∷ keys) a h =
    let better : (1 ≤ better_level t current k) × (better_level t current k ≤ current) =
      (unfold better_level in ground arith) in
    let ih = scan_bound t (better_level t current k) keys a.1 better.0 in (omega arith, omega arith)

scan_lowest :
    (t : Tally) (current : ℕ) (keys : List ℕ) (k : ℕ)
    → All (λ k. 1 ≤ k) keys
    → In k keys
    → Unmet t k
    → (1 ≤ scan_levels t current keys) × (scan_levels t current keys ≤ k)
unfolding scan_levels
scan_lowest t current [] k a h u = absurd h
scan_lowest t current (j ∷ keys) k a (inl e) u =
    let better : (1 ≤ better_level t current j) × (better_level t current j ≤ k) =
      (unfold better_level in ground arith) in
    let ih = scan_bound t (better_level t current j) keys a.1 better.0 in (omega arith, omega arith)
scan_lowest t current (j ∷ keys) k a (inr h) u =
    scan_lowest t (better_level t current j) keys k a.1 h u

scan_source :
    (t : Tally) (current : ℕ) (keys : List ℕ)
    → (scan_levels t current keys ≡ current)
      ⊎ (In (scan_levels t current keys) keys × Unmet t (scan_levels t current keys))
unfolding scan_levels
scan_source t current [] = inl refl
scan_source t current (k ∷ keys) = elim (scan_source t (better_level t current k) keys) [
  | inr (member, u) ↦ inr (inr member, u)
  | inl same ↦ elim (better_source k) [
    | inl old ↦ inl (same ∙ old)
    | inr (e, u) ↦ inr (inl (same ∙ e), rw (same ∙ e) u)
  ]
]
  where
    better_source :
        (k : ℕ)
        → (better_level t current k ≡ current) ⊎ ((better_level t current k ≡ k) × Unmet t k)
    better_source k = unfold better_level in ground arith

open_iff :
    (approvals : List Approval) (level : ℕ)
    → 1 ≤ level
    → (approved_at level approvals < threshold_at level approvals)
      ↔ Unmet (tally start_tally approvals) level
open_iff approvals level h =
    let c = counts_tally start_tally approvals level h in
    let r = required_tally start_tally approvals level h in (λ o. omega arith, λ u. omega arith)

In-All : (keys : List ℕ) (k : ℕ) → All (λ k. 1 ≤ k) keys → In k keys → 1 ≤ k
In-All [] k a h = absurd h
In-All (j ∷ keys) k a (inl e) = rw e a.0
In-All (j ∷ keys) k a (inr h) = In-All keys k a.1 h

scan_from_zero :
    (approvals : List Approval)
    → let t = tally start_tally approvals in
      (scan_levels t 0 t.required.keys ≡ 0) ⊎ IsOpen approvals (scan_levels t 0 t.required.keys)
scan_from_zero approvals =
    let t = tally start_tally approvals in
    elim (scan_source t 0 t.required.keys) [
      | inl closed ↦ inl closed
      | inr (member, u) ↦
          let h = In-All t.required.keys _ (tally-All start_tally approvals tt) member in
          inr (h, (open_iff approvals _ h).1 u)
    ]

open_lowest :
    (approvals : List Approval) (level : ℕ)
    → IsOpen approvals level
    → let t = tally start_tally approvals in
      (1 ≤ scan_levels t 0 t.required.keys) × (scan_levels t 0 t.required.keys ≤ level)
open_lowest approvals level (h, o) =
    let t = tally start_tally approvals in
    scan_lowest t 0 t.required.keys level (tally-All start_tally approvals tt)
      (tally-In start_tally approvals level h (omega arith)) ((open_iff approvals level h).0 o)

-- Where some level is open, `nextApprovalLevel` reports the chain as incomplete and returns an open
-- level, and none below it is open.
pub next_approval_level_lowest :
    (approvals : List Approval) (level : ℕ)
    → IsOpen approvals level
    → ((next_approval_level approvals).1 ≡ false)
      × IsOpen approvals (next_approval_level approvals).0
      × ((next_approval_level approvals).0 ≤ level)
unfolding next_approval_level
next_approval_level_lowest approvals level o =
    let (positive, below) = open_lowest approvals level o in
    elim (scan_from_zero approvals) [
      | inl closed ↦ absurd (omega arith)
      | inr open' ↦ (ground arith, open', below)
    ]

-- It reports the chain as complete exactly where no level is open.
pub next_approval_level_complete :
    (approvals : List Approval)
    → ((next_approval_level approvals).1 ≡ true) ↔ ((level : ℕ) → ¬ IsOpen approvals level)
unfolding next_approval_level
next_approval_level_complete approvals = (
  λ done level o. let b = open_lowest approvals level o in absurd (ground arith),
  λ none_open. elim (scan_from_zero approvals) [
    | inl closed ↦ (==_iff _ _).1 closed
    | inr open' ↦ absurd (none_open _ open')
  ],
)

scan_order_le :
    (t : Tally) (keys other : List ℕ)
    → All (λ k. 1 ≤ k) keys
    → All (λ k. 1 ≤ k) other
    → ((k : ℕ) → In k other → In k keys)
    → 1 ≤ scan_levels t 0 other
    → (1 ≤ scan_levels t 0 keys) × (scan_levels t 0 keys ≤ scan_levels t 0 other)
scan_order_le t keys other a b sub h = elim (scan_source t 0 other) [
  | inl closed ↦ absurd (omega arith)
  | inr (member, u) ↦ scan_lowest t 0 keys _ a (sub _ member) u
]

-- The order in which Go visits the keys of the map does not matter: over any two lists of the same
-- positive keys the second loop of `nextApprovalLevel` ends with the same level.
pub scan_levels_order :
    (t : Tally) (keys other : List ℕ)
    → All (λ k. 1 ≤ k) keys
    → All (λ k. 1 ≤ k) other
    → ((k : ℕ) → In k keys → In k other)
    → ((k : ℕ) → In k other → In k keys)
    → scan_levels t 0 keys ≡ scan_levels t 0 other
scan_levels_order t keys other a b to from =
    ground (arith, scan_order_le t keys other a b from, scan_order_le t other keys b a to)
