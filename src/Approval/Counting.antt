-- ===== src/Approval/Counting.antt =====
-- The first loop of `nextApprovalLevel` (internal/service/access.go): what it counts, and its keys.
use access_gateway.Prelude.{
  ℕ, suc, ◌+◌, ◌≤◌, ◌<◌, ◌≡◌, inl, inr, refl, ◌∙◌, true, false, Bool-cases, List, [], ◌∷◌, max, ltb,
  ◌==◌, ==_iff, if◌then◌else◌, All, All-append, In, In-append_left, In-append_right, arith,
}
use access_gateway.Approval.Model.{Approval}
use access_gateway.Approval.Levels.{has_key, add_key, put, is_approved, Tally, tally_one, tally}

-- The approvals given at a level.
unfoldable pub approved_at : ℕ → List Approval → ℕ
approved_at level [] = 0
approved_at level (a ∷ approvals) =
    let rest = approved_at level approvals in
    if a.approval_level == level then (if is_approved a.decision then suc rest else rest) else rest

-- The threshold of a level: the largest that its rows state, and 1 at least; 0 if it has no row.
unfoldable pub threshold_at : ℕ → List Approval → ℕ
threshold_at level [] = 0
threshold_at level (a ∷ approvals) =
    let rest = threshold_at level approvals in
    if a.approval_level == level then max (max 1 a.required_approvals) rest else rest

-- A level from 1 on, with a row, that has fewer approvals than its threshold.
abbrev pub IsOpen : List Approval → ℕ → Type 0
IsOpen approvals level = (1 ≤ level) × (approved_at level approvals < threshold_at level approvals)

pub counts_tally :
    (t : Tally) (approvals : List Approval) (level : ℕ)
    → 1 ≤ level
    → (tally t approvals).counts.value level ≡ t.counts.value level + approved_at level approvals
unfolding tally approved_at
counts_tally t [] level h = omega arith
counts_tally t (a ∷ approvals) level h =
    counts_tally (tally_one t a) approvals level h ∙ (unfold tally_one put in ground arith)

pub required_tally :
    (t : Tally) (approvals : List Approval) (level : ℕ)
    → 1 ≤ level
    → (tally t approvals).required.value level
      ≡ max (t.required.value level) (threshold_at level approvals)
unfolding tally threshold_at
required_tally t [] level h = omega arith
required_tally t (a ∷ approvals) level h =
    required_tally (tally_one t a) approvals level h ∙ (unfold tally_one put in ground arith)

has_key-In : (keys : List ℕ) (k : ℕ) → has_key keys k ≡ true → In k keys
unfolding has_key
has_key-In [] k h = cc
has_key-In (j ∷ keys) k h = ground (arith, has_key-In keys k)

add_key-In : (keys : List ℕ) (k : ℕ) → In k (add_key keys k)
unfolding add_key
add_key-In keys k = elim (Bool-cases (has_key keys k)) [
  | inl old ↦ rw old (has_key-In keys k old)
  | inr new ↦ rw new (In-append_right k keys (k ∷ []) (inl refl))
]

add_key-keeps : (keys : List ℕ) (j k : ℕ) → In k keys → In k (add_key keys j)
unfolding add_key
add_key-keeps keys j k h = elim (Bool-cases (has_key keys j)) [
  | inl old ↦ rw old h
  | inr new ↦ rw new (In-append_left k keys (j ∷ []) h)
]

add_key-All :
    (keys : List ℕ) (j : ℕ) → 1 ≤ j → All (λ k. 1 ≤ k) keys → All (λ k. 1 ≤ k) (add_key keys j)
unfolding add_key
add_key-All keys j h a = elim (Bool-cases (has_key keys j)) [
  | inl old ↦ rw old a
  | inr new ↦ rw new (All-append (λ k. 1 ≤ k) keys (j ∷ []) a (h, tt))
]

tally_one-keeps :
    (t : Tally) (a : Approval) (k : ℕ) → In k t.required.keys → In k (tally_one t a).required.keys
unfolding tally_one put
tally_one-keeps t a k h = elim (Bool-cases (ltb a.approval_level 1)) [
  | inl skip ↦ rw skip h
  | inr count ↦ rw count (add_key-keeps t.required.keys a.approval_level k h)
]

tally_one-In :
    (t : Tally) (a : Approval)
    → 1 ≤ a.approval_level
    → In a.approval_level (tally_one t a).required.keys
unfolding tally_one put
tally_one-In t a h =
    let count : ltb a.approval_level 1 ≡ false = ground arith in
    rw count (add_key-In t.required.keys a.approval_level)

tally-keeps :
    (t : Tally) (approvals : List Approval) (k : ℕ)
    → In k t.required.keys
    → In k (tally t approvals).required.keys
unfolding tally
tally-keeps t [] k h = h
tally-keeps t (a ∷ approvals) k h =
    tally-keeps (tally_one t a) approvals k (tally_one-keeps t a k h)

-- A level with a row is a key.
pub tally-In :
    (t : Tally) (approvals : List Approval) (level : ℕ)
    → 1 ≤ level
    → 0 < threshold_at level approvals
    → In level (tally t approvals).required.keys
unfolding tally threshold_at
tally-In t [] level h p = absurd (omega arith)
tally-In t (a ∷ approvals) level h p = elim (Bool-cases (a.approval_level == level)) [
  | inl here ↦
      let e : a.approval_level ≡ level = (==_iff _ _).0 here in
      tally-keeps (tally_one t a) approvals level (rw (← e) (tally_one-In t a (omega arith)))
  | inr later ↦ tally-In (tally_one t a) approvals level h (rw later at p)
]

tally_one-All :
    (t : Tally) (a : Approval)
    → All (λ k. 1 ≤ k) t.required.keys
    → All (λ k. 1 ≤ k) (tally_one t a).required.keys
unfolding tally_one put
tally_one-All t a h = elim (Bool-cases (ltb a.approval_level 1)) [
  | inl skip ↦ rw skip h
  | inr count ↦ rw count (add_key-All t.required.keys a.approval_level (ground arith) h)
]

pub tally-All :
    (t : Tally) (approvals : List Approval)
    → All (λ k. 1 ≤ k) t.required.keys
    → All (λ k. 1 ≤ k) (tally t approvals).required.keys
unfolding tally
tally-All t [] h = h
tally-All t (a ∷ approvals) h = tally-All (tally_one t a) approvals (tally_one-All t a h)
