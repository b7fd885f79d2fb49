-- ===== src/Approval/Model.antt =====
-- internal/approvalflow/model.go and the approval rows of internal/domain/models.go. Times are
-- nanoseconds.
use access_gateway.Prelude.{
  is_blank, ℕ, Bool, ◌&&◌, ◌||◌, not, Option, none, some, List, [], ◌∷◌, Text, codes, text_eq, leb,
  length, is_empty, if◌then◌else◌, Result, ok, err, ◌>>◌, guard,
}
use access_gateway.Label.Keys.{Labels, LabelError, wrap}
use access_gateway.Label.Bindings.{BindingError, binding_selector, validate_editable}

pub record Step : Type 0 where
  pub name : Text
  pub kind : Text
  pub mode : Text
  pub selector : Text

pub record Definition : Type 0 where
  pub id : Text
  pub name : Text
  pub description : Text
  pub labels : Labels
  pub enabled : Bool
  pub built_in : Bool
  pub revision : ℕ
  pub asset_selector : Text
  pub timeout_seconds : ℕ
  pub steps : List Step
  pub created_at : ℕ
  pub updated_at : ℕ

pub record AssetPolicy : Type 0 where
  pub defaults_only : Bool
  pub asset_id : Text
  pub labels : Labels
  pub revision : ℕ
  pub updated_at : ℕ

pub record Candidate : Type 0 where
  pub user_id : Text
  pub name : Text

-- The embedded `Step` is a field.
pub record ResolvedStep : Type 0 where
  pub step : Step
  pub level : ℕ
  pub required : ℕ
  pub candidates : List Candidate

pub record Snapshot : Type 0 where
  pub workflow_id : Text
  pub name : Text
  pub revision : ℕ
  pub asset_policy_revision : ℕ
  pub asset_labels : Labels
  pub steps : List ResolvedStep

pub data FlowError : Type 0 where
  bad_flow_name bad_timeout bad_step_count bad_step_name owners_with_selector unknown_kind :
      FlowError
  bad_flow_selector : BindingError → FlowError
  bad_flow_labels : LabelError → FlowError

-- `if _, err := label.BindingSelector(…); err != nil { return err }`
abbrev of_error : Option BindingError → Result FlowError (Unit {0})
of_error none = ok tt
of_error (some e) = err (bad_flow_selector e)

abbrev check_selector : Text → Result FlowError (Unit {0})
check_selector text = of_error (binding_selector text).1

abbrev pub kind_owners : Text
kind_owners = codes "owners"

abbrev pub kind_user_selector : Text
kind_user_selector = codes "user_selector"

abbrev pub kind_role_selector : Text
kind_role_selector = codes "role_selector"

-- The switch of the loop of `Definition.Validate`.
unfoldable pub validate_kind : Step → Result FlowError (Unit {0})
validate_kind s =
    if text_eq s.kind kind_owners
    then guard (is_empty s.selector) owners_with_selector
    else if text_eq s.kind kind_user_selector || text_eq s.kind kind_role_selector
    then check_selector s.selector
    else err unknown_kind

abbrev mode_any : Text
mode_any = codes "any"

abbrev pub mode_all : Text
mode_all = codes "all"

unfoldable pub is_step_header : Step → Bool
is_step_header s =
    not (is_blank s.name)
    && leb (length s.name) 128
    && (text_eq s.mode mode_any || text_eq s.mode mode_all)

unfoldable pub validate_step : Step → Result FlowError (Unit {0})
validate_step s = do guard (is_step_header s) bad_step_name; validate_kind s

unfoldable pub validate_steps : List Step → Result FlowError (Unit {0})
validate_steps [] = ok tt
validate_steps (s ∷ steps) = do validate_step s; validate_steps steps

-- A workflow without a selector can be assigned to an asset.
abbrev check_optional : Text → Result FlowError (Unit {0})
check_optional text = if is_blank text then ok tt else check_selector text

unfoldable pub validate_definition : Definition → Result FlowError (Unit {0})
validate_definition v = do
  guard (not (is_blank v.name) && leb (length v.name) 128 && leb (length v.description) 512)
      bad_flow_name
  guard (leb 60 v.timeout_seconds && leb v.timeout_seconds 604800) bad_timeout
  check_optional v.asset_selector
  wrap bad_flow_labels (validate_editable v.labels)
  guard (leb 1 (length v.steps) && leb (length v.steps) 10) bad_step_count
  validate_steps v.steps

pub record Ownership : Type 0 where
  pub id : Text
  pub name : Text
  pub asset_selector : Text
  pub user_selector : Text
  pub enabled : Bool
  pub revision : ℕ
  pub created_at : ℕ
  pub updated_at : ℕ

unfoldable pub validate_ownership : Ownership → Result FlowError (Unit {0})
validate_ownership v = do
  guard (not (is_blank v.name) && leb (length v.name) 128) bad_flow_name
  check_selector v.asset_selector
  check_selector v.user_selector

pub data ApprovalDecision : Type 0 where
  decision_approved decision_rejected : ApprovalDecision

pub record Approval : Type 0 where
  pub emergency : Bool
  pub required_approvals : ℕ
  pub step_name : Text
  pub id : Text
  pub request_id : Text
  pub approver_id : Text
  pub approval_level : ℕ
  pub decision : Option ApprovalDecision
  pub comment : Option Text
  pub decided_at : Option ℕ
  pub created_at : ℕ
