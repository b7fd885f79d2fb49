-- ===== src/Access/Decisions.antt =====
-- `DecideApproval` in internal/service/access.go and `Decide` in internal/repository/approvals.go.
-- What the transaction reads outside of the rows of the request is its environment: the check of
-- the voter (`validateWorkflowVoter`), whether the applicant has an active session for the same
-- asset and port, whether the asset is enabled, and the checks of `newSession`. The decision has
-- passed the checks of its form, and the approver may manage approvals.
use access_gateway.Prelude.{
  ℕ, ◌+◌, Bool, true, false, ◌&&◌, not, Option, none, some, List, [], ◌∷◌, Text, codes, text_eq,
  ◌==◌, if◌then◌else◌, Result, ok, err, ◌>>=◌, ◌>>◌, guard,
}
use access_gateway.Approval.Model.{ApprovalDecision, decision_approved, decision_rejected, Approval}
use access_gateway.Approval.Levels.{next_approval_level}
use access_gateway.Access.Model.{
  provisioning, RequestStatus, pending_approval, approved, rejected, AccessRequest, Session, Store,
  OutboxEvent, ServiceError, forbidden, state_conflict, not_found, conflict, append_outbox,
  append_audit, new_event, session_audit,
}

pub record Environment : Type 0 where
  pub check_voter : AccessRequest → Approval → Result ServiceError (Unit {0})
  pub has_active_session : Bool
  pub asset_enabled : Bool
  pub check_session : Result ServiceError (Unit {0})
  pub session_id : Text
  pub gateway_id : Text

pub record Decision : Type 0 where
  pub approver_id : Text
  pub approval_id : Text
  pub decision : ApprovalDecision
  pub comment : Option Text

abbrev pub is_pending_approval : RequestStatus → Bool
is_pending_approval pending_approval = true
is_pending_approval _ = false

abbrev pub is_undecided : Option ApprovalDecision → Bool
is_undecided none = true
is_undecided (some d) = false

-- `GetByID`
unfoldable pub find_approval : Text → List Approval → Result ServiceError Approval
find_approval id [] = err not_found
find_approval id (a ∷ approvals) = if text_eq a.id id then ok a else find_approval id approvals

-- The checks that the code makes before the transaction and again inside of it.
unfoldable pub check_decision :
    Text → AccessRequest → Approval → List Approval → Result ServiceError (Unit {0})
check_decision approver_id request a approvals = do
  guard (text_eq a.approver_id approver_id) forbidden
  guard (not (text_eq request.applicant_id approver_id)) forbidden
  guard (is_pending_approval request.status && is_undecided a.decision) state_conflict
  let next = next_approval_level approvals
  guard (not next.1 && a.approval_level == next.0) state_conflict

abbrev decided_row : ℕ → Decision → Approval → Approval
decided_row now d a = record a {
  decision = some (d.decision);
  comment = d.comment;
  decided_at = some now;
}

-- `UPDATE approvals ... WHERE id = $1 AND approver_id = $4 AND decision IS NULL`
unfoldable pub decide_rows : ℕ → Decision → List Approval → Result ServiceError (List Approval)
decide_rows now d [] = err not_found
decide_rows now d (a ∷ approvals) =
    let rest = decide_rows now d approvals in
    if text_eq a.id d.approval_id && text_eq a.approver_id d.approver_id && is_undecided a.decision
    then ok (decided_row now d a ∷ approvals)
    else rest >>= λ approvals'. ok (a ∷ approvals')

-- `newSession`, less the audit policy and the connection mode, and the unique `request_id` of `Create`.
unfoldable pub new_session : Environment → ℕ → AccessRequest → Session
new_session env now request = record {
  id = env.session_id;
  request_id = request.id;
  gateway_id = env.gateway_id;
  token_hash = none;
  remote_process_id = none;
  status = provisioning;
  started_at = none;
  expires_at = some (now + request.ttl_seconds);
  closed_at = none;
  failure_reason = none;
  version = 0;
  listener_port = none;
  external_port = none;
  exposure_mode = none;
  exposure_ref = none;
  tunnel_client_public_key = [];
  tunnel_server_certificate = [];
  created_at = now;
  updated_at = now;
}

unfoldable pub create_session : Option Session → Session → Store → Result ServiceError Store
create_session none s w = ok (record w { session = some s })
create_session (some t) s w = err conflict

unfoldable pub set_status : ℕ → RequestStatus → Store → Store
set_status now status w = record w {
  request = record (w.request) { status = status; updated_at = now };
}

-- `TransitionStatus` from `pending_approval`, the UPDATE of
-- internal/repository/access_requests.go.
unfoldable pub transition_status : ℕ → RequestStatus → Store → Result ServiceError Store
transition_status now status w = do
  guard (is_pending_approval w.request.status) not_found
  ok (set_status now status w)

unfoldable pub grant_session : Environment → ℕ → Store → Result ServiceError Store
grant_session env now w = do
  guard (not env.has_active_session) conflict
  guard env.asset_enabled state_conflict
  env.check_session
  create_session w.session (new_session env now w.request) w

abbrev pub decision_text : ApprovalDecision → Text
decision_text decision_approved = codes "approved"
decision_text decision_rejected = codes "rejected"

abbrev pub request_event : Store → Text → OutboxEvent
request_event w event_type =
    new_event (codes "access_request") w.request.id event_type
      ((codes "request_id", w.request.id) ∷ [])

-- The audit event of a decision.
unfoldable pub log_decision : Decision → Store → Store
log_decision d w =
    append_audit
      (record {
        event_type = codes "access_request.approval_decided";
        actor_type = codes "user";
        actor_id = some (d.approver_id);
        subject_user_id = w.request.applicant_id;
        request_id = w.request.id;
        session_id = none;
        asset_id = w.request.asset_id;
        target_port = w.request.target_port;
        result = decision_text (d.decision);
        reason = d.comment;
      })
      w

-- The audit event and the command of a new session.
unfoldable pub log_session : Session → Store → Store
log_session s w =
    append_outbox
      (new_event (codes "session") s.id (codes "session.provision")
        ((codes "session_id", s.id) ∷ []))
      (append_audit
        (session_audit w s (codes "session.provisioning") (codes "system") none (codes "queued")
          none)
        w)

-- After the UPDATE of the approval: what becomes of the request.
unfoldable pub settle :
    Environment → ℕ → Decision → ApprovalDecision → Bool → Store → Result ServiceError Store
settle env now d decision_rejected complete w = do
  w₁ ← transition_status now rejected w
  ok (append_outbox (request_event w (codes "notification.request_result")) (log_decision d w₁))
settle env now d decision_approved false w =
    ok
      (append_outbox (request_event w (codes "notification.approval_requested")) (log_decision d w))
settle env now d decision_approved true w = do
  w₁ ← transition_status now approved w
  w₂ ← grant_session env now w₁
  ok (
      append_outbox (request_event w (codes "notification.request_result"))
        (log_session (new_session env now w.request) (log_decision d w₂)))

-- The transaction.
unfoldable pub decide_locked : Environment → ℕ → Decision → Store → Result ServiceError Store
decide_locked env now d w = do
  a ← find_approval d.approval_id w.approvals
  env.check_voter w.request a
  check_decision d.approver_id w.request a w.approvals
  approvals ← decide_rows now d w.approvals
  settle env now d (d.decision) ((next_approval_level approvals).1)
      (record w { approvals = approvals })

-- `seen` is the store that the checks before the transaction have read.
unfoldable pub decide_approval :
    Environment → ℕ → Decision → Store → Store → Result ServiceError Store
decide_approval env now d seen w = do
  a ← find_approval d.approval_id seen.approvals
  check_decision d.approver_id seen.request a seen.approvals
  decide_locked env now d w
