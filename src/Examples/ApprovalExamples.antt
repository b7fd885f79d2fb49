-- ===== src/Examples/ApprovalExamples.antt =====
-- Approval levels (internal/service/access.go) at concrete inputs.
use access_gateway.Prelude.{
  ℕ, ◌≤◌, ◌≡◌, ◌↔◌, inl, inr, true, false, none, some, List, [], ◌∷◌, codes, All, In, arith,
}
use access_gateway.Approval.Model.{decision_approved, Approval}
use access_gateway.Approval.Levels.{tally, start_tally, scan_levels, next_approval_level}
use access_gateway.Approval.Pending.{
  next_approval_level_lowest, next_approval_level_complete, scan_levels_order,
}
use access_gateway.Approval.Counting.{approved_at, threshold_at, IsOpen}

abbrev first_level : Approval
first_level = record {
  emergency = false;
  required_approvals = 1;
  step_name = codes "owner";
  id = codes "a1";
  request_id = codes "r1";
  approver_id = codes "u1";
  approval_level = 1;
  decision = some decision_approved;
  comment = none;
  decided_at = some 4;
  created_at = 1;
}

abbrev second_level : Approval
second_level = record first_level {
  id = codes "a2";
  approval_level = 2;
  decision = none;
  decided_at = none;
}

abbrev chain : List Approval
chain = first_level ∷ second_level ∷ []

chain-IsOpen : IsOpen chain 2
unfolding approved_at threshold_at
chain-IsOpen = (omega arith, omega arith)

next_approval_level_lowest_example :
    ((next_approval_level chain).1 ≡ false)
    × IsOpen chain (next_approval_level chain).0
    × ((next_approval_level chain).0 ≤ 2)
next_approval_level_lowest_example = next_approval_level_lowest chain 2 chain-IsOpen

next_approval_level_complete_example :
    ((next_approval_level chain).1 ≡ true) ↔ ((level : ℕ) → ¬ IsOpen chain level)
next_approval_level_complete_example = next_approval_level_complete chain

swapped : (a b k : ℕ) → In k (a ∷ b ∷ []) → In k (b ∷ a ∷ [])
swapped a b k (inl e) = inr (inl e)
swapped a b k (inr (inl e)) = inl e
swapped a b k (inr (inr none_left)) = elim none_left [ ]

one_two : All (λ k. 1 ≤ k) (1 ∷ 2 ∷ [])
one_two = (omega arith, (omega arith, tt))

two_one : All (λ k. 1 ≤ k) (2 ∷ 1 ∷ [])
two_one = (omega arith, (omega arith, tt))

scan_levels_order_example :
    scan_levels (tally start_tally chain) 0 (1 ∷ 2 ∷ [])
    ≡ scan_levels (tally start_tally chain) 0 (2 ∷ 1 ∷ [])
scan_levels_order_example =
    scan_levels_order (tally start_tally chain) (1 ∷ 2 ∷ []) (2 ∷ 1 ∷ []) one_two two_one
      (swapped 1 2) (swapped 2 1)
