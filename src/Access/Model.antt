-- ===== src/Access/Model.antt =====
-- The rows of one access request: internal/domain/models.go and the outbox of
-- internal/repository/events.go. A request has at most one session (`sessions.request_id` is
-- unique), so a store is the request, its approvals, its session and the logs about them. The
-- audit policy and the connection mode of a session, which nothing here reads, are left out, and so are
-- the random ids of log rows.
use access_gateway.Prelude.{
  ℕ, Bool, true, false, ◌&&◌, Option, none, some, List, [], ◌∷◌, ◌++◌, Text, codes, text_eq, any,
  if◌then◌else◌, is_blank, is_empty,
}
use access_gateway.Approval.Model.{Approval}

pub data SessionStatus : Type 0 where
  provisioning running revoking expired closed failed revoke_failed manual_intervention :
      SessionStatus

pub data RequestStatus : Type 0 where
  pending_approval approved rejected cancelled approval_expired : RequestStatus

pub record AccessRequest : Type 0 where
  pub id : Text
  pub applicant_id : Text
  pub asset_id : Text
  pub target_port : ℕ
  pub ttl_seconds : ℕ
  pub status : RequestStatus
  pub created_at : ℕ
  pub updated_at : ℕ

pub record Session : Type 0 where
  pub id : Text
  pub request_id : Text
  pub gateway_id : Text
  pub token_hash : Option Text
  pub remote_process_id : Option Text
  pub status : SessionStatus
  pub started_at : Option ℕ
  pub expires_at : Option ℕ
  pub closed_at : Option ℕ
  pub failure_reason : Option Text
  pub version : ℕ
  pub listener_port : Option ℕ
  pub external_port : Option ℕ
  pub exposure_mode : Option Text
  pub exposure_ref : Option Text
  pub tunnel_client_public_key : Text
  pub tunnel_server_certificate : Text
  pub created_at : ℕ
  pub updated_at : ℕ

pub record SessionEvent : Type 0 where
  pub session_id : Text
  pub event_type : Text
  pub actor_type : Text
  pub actor_id : Option Text
  pub metadata : List (Text × Text)

pub record AuditEvent : Type 0 where
  pub event_type : Text
  pub actor_type : Text
  pub actor_id : Option Text
  pub subject_user_id : Text
  pub request_id : Text
  pub session_id : Option Text
  pub asset_id : Text
  pub target_port : ℕ
  pub result : Text
  pub reason : Option Text

pub data OutboxStatus : Type 0 where
  pending processing processed outbox_failed : OutboxStatus

pub record OutboxEvent : Type 0 where
  pub aggregate_type : Text
  pub aggregate_id : Text
  pub event_type : Text
  pub payload : List (Text × Text)
  pub status : OutboxStatus
  pub retry_count : ℕ
  pub next_retry_at : Option ℕ

pub record Store : Type 0 where
  pub request : AccessRequest
  pub approvals : List Approval
  pub session : Option Session
  pub session_events : List SessionEvent
  pub audits : List AuditEvent
  pub outbox : List OutboxEvent

pub data ServiceError : Type 0 where
  forbidden validation state_conflict not_found constraint conflict : ServiceError

abbrev pub is_active : OutboxStatus → Bool
is_active pending = true
is_active processing = true
is_active _ = false

-- `isTerminalSession`
abbrev pub is_terminal_session : SessionStatus → Bool
is_terminal_session expired = true
is_terminal_session closed = true
is_terminal_session failed = true
is_terminal_session manual_intervention = true
is_terminal_session _ = false

-- The condition of the NOT EXISTS of `CreateIfNoActive`.
unfoldable pub is_active_for : OutboxEvent → OutboxEvent → Bool
is_active_for value e =
    text_eq e.aggregate_type value.aggregate_type
    && text_eq e.aggregate_id value.aggregate_id
    && text_eq e.event_type value.event_type
    && is_active e.status

unfoldable pub create_if_no_active : OutboxEvent → List OutboxEvent → List OutboxEvent
create_if_no_active value events =
    if any (is_active_for value) events then events else events ++ value ∷ []

abbrev pub session_aggregate : Text
session_aggregate = codes "session"

abbrev pub outbox_session_revoke : Text
outbox_session_revoke = codes "session.revoke"

abbrev payload_value : Text → List (Text × Text) → Text
payload_value key [] = []
payload_value key ((k, value) ∷ payload) =
    if text_eq key k then value else payload_value key payload

-- `outboxString` with a fallback. A value that is not a string is like one that is missing.
unfoldable pub outbox_string : OutboxEvent → Text → Text → Text
outbox_string e key fallback =
    if is_blank (payload_value key e.payload) then fallback else payload_value key e.payload

-- `outboxReference`
unfoldable pub outbox_reference : OutboxEvent → Text → Text
outbox_reference e key =
    if is_empty (outbox_string e key []) then e.aggregate_id else outbox_string e key []

abbrev pub new_event : Text → Text → Text → List (Text × Text) → OutboxEvent
new_event aggregate_type aggregate_id event_type payload = record {
  aggregate_type = aggregate_type;
  aggregate_id = aggregate_id;
  event_type = event_type;
  payload = payload;
  status = pending;
  retry_count = 0;
  next_retry_at = none;
}

-- What the payload of a command says beside its session.
abbrev pub Details : Type 0
Details = List (Text × Text)

abbrev pub because : Text → Details
because reason = (codes "reason", reason) ∷ []

-- The command that the services put into the outbox.
unfoldable pub revoke_command : Text → Details → OutboxEvent
revoke_command session_id reason =
    new_event session_aggregate session_id outbox_session_revoke
      ((codes "session_id", session_id) ∷ reason)

unfoldable pub queue_revoke : Session → Details → Store → Store
queue_revoke s reason w = record w {
  outbox = create_if_no_active (revoke_command s.id reason) w.outbox;
}

abbrev pub append_outbox : OutboxEvent → Store → Store
append_outbox e w = record w { outbox = w.outbox ++ e ∷ [] }

abbrev pub append_event : SessionEvent → Store → Store
append_event e w = record w { session_events = w.session_events ++ e ∷ [] }

abbrev pub append_audit : AuditEvent → Store → Store
append_audit e w = record w { audits = w.audits ++ e ∷ [] }

-- The row after an UPDATE.
abbrev pub set_session : Session → Store → Store
set_session s w = record w { session = some s }

-- An audit event about a request and its session, as every operation on a session builds it.
abbrev pub session_audit :
    Store → Session → Text → Text → Option Text → Text → Option Text → AuditEvent
session_audit w s event_type actor_type actor_id result reason = record {
  event_type = event_type;
  actor_type = actor_type;
  actor_id = actor_id;
  subject_user_id = w.request.applicant_id;
  request_id = w.request.id;
  session_id = some s.id;
  asset_id = w.request.asset_id;
  target_port = w.request.target_port;
  result = result;
  reason = reason;
}

abbrev pub session_event : Session → Text → Text → Option Text → List (Text × Text) → SessionEvent
session_event s event_type actor_type actor_id metadata = record {
  session_id = s.id;
  event_type = event_type;
  actor_type = actor_type;
  actor_id = actor_id;
  metadata = metadata;
}
