-- ===== src/Approval/Levels.antt =====
-- `nextApprovalLevel` (internal/service/access.go). A Go map from int is its keys, in the order of
-- one iteration, and its values, 0 where a key is missing. Levels and thresholds are not negative,
-- as the table's CHECK constraints have it.
use access_gateway.Prelude.{
  ℕ, ◌+◌, Bool, true, false, ◌||◌, Option, none, some, List, [], ◌∷◌, ◌++◌, max, ltb, leb, ◌==◌,
  if◌then◌else◌,
}
use access_gateway.Approval.Model.{ApprovalDecision, decision_approved, decision_rejected, Approval}

pub record IntMap : Type 0 where
  pub keys : List ℕ
  pub value : ℕ → ℕ

abbrev pub empty_map : IntMap
empty_map = record { keys = []; value = λ k. 0 }

unfoldable pub has_key : List ℕ → ℕ → Bool
has_key [] k = false
has_key (j ∷ keys) k = j == k || has_key keys k

unfoldable pub add_key : List ℕ → ℕ → List ℕ
add_key keys k = if has_key keys k then keys else keys ++ k ∷ []

-- `m[k] = v`
unfoldable pub put : IntMap → ℕ → ℕ → IntMap
put m k v = record { keys = add_key m.keys k; value = λ j. if j == k then v else m.value j }

abbrev pub is_approved : Option ApprovalDecision → Bool
is_approved none = false
is_approved (some decision_approved) = true
is_approved (some decision_rejected) = false

pub record Tally : Type 0 where
  pub counts : IntMap
  pub required : IntMap

-- One round of the first loop.
unfoldable pub tally_one : Tally → Approval → Tally
tally_one t a = if ltb a.approval_level 1 then t else record {
  counts =
      (if is_approved a.decision
        then put t.counts a.approval_level (t.counts.value a.approval_level + 1)
        else t.counts);
  required =
      put t.required a.approval_level
        (max (t.required.value a.approval_level) (max 1 a.required_approvals));
}

unfoldable pub tally : Tally → List Approval → Tally
tally t [] = t
tally t (a ∷ approvals) = tally (tally_one t a) approvals

-- One round of the second loop, over the keys of `required`.
unfoldable pub better_level : Tally → ℕ → ℕ → ℕ
better_level t current level =
    if leb (t.required.value level) (t.counts.value level)
    then current
    else if current == 0 || ltb level current
    then level
    else current

unfoldable pub scan_levels : Tally → ℕ → List ℕ → ℕ
scan_levels t current [] = current
scan_levels t current (level ∷ levels) = scan_levels t (better_level t current level) levels

abbrev pub start_tally : Tally
start_tally = record { counts = empty_map; required = empty_map }

-- The lowest level that is not complete, 0 if there is none; and whether all are.
unfoldable pub next_approval_level : List Approval → ℕ × Bool
next_approval_level approvals =
    let t = tally start_tally approvals in
    let current = scan_levels t 0 t.required.keys in (current, current == 0)
