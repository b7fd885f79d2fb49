-- ===== src/Access/Requests.antt =====
-- `CancelAccessRequest`, the rounds of `ReapExpired` and `markRevokeManualIntervention` in
-- internal/service/access.go. The index of an outbox event in the outbox, which only grows, stands
-- for its id.
use access_gateway.Prelude.{
  ℕ, Bool, true, false, ◌&&◌, ◌||◌, not, Option, none, some, List, [], ◌∷◌, Text, codes, text_eq,
  ltb, ◌==◌, if◌then◌else◌, Result, ok, err, ◌>>=◌, ◌>>◌, guard,
}
use access_gateway.Access.Model.{
  SessionStatus, provisioning, running, revoking, expired, closed, failed, revoke_failed,
  RequestStatus, pending_approval, approved, cancelled, Session, Store, AuditEvent, OutboxEvent,
  ServiceError, forbidden, state_conflict, because, queue_revoke, append_outbox, append_event,
  append_audit, set_session, session_audit, session_event, new_event,
}
use access_gateway.Access.Queue.{update_at, reschedule}
use access_gateway.Access.Rows.{
  mark_provision_failed, mark_provision_revoke_failed, begin_revoke, mark_manual_intervention,
}
use access_gateway.Access.Sessions.{on_row, Caller}

-- `cancellationActorType`
abbrev pub cancellation_actor_type : Bool → Text
cancellation_actor_type true = codes "admin"
cancellation_actor_type false = codes "user"

abbrev request_cancelled : Text
request_cancelled = codes "request_cancelled"

unfoldable pub cancel_unclaimed : ℕ → Text → Text → Session → Store → Result ServiceError Store
cancel_unclaimed now actor user_id s w = do
  s' ← mark_provision_failed now s.version (codes "access request cancelled before session start") s
  ok (
      append_event
        (session_event s (codes "session.cancelled_before_start") actor (some user_id) [])
        (set_session s' w))

unfoldable pub cancel_claimed : ℕ → Text → Text → Session → Store → Result ServiceError Store
cancel_claimed now actor user_id s w = do
  s' ←
      mark_provision_revoke_failed now s.version
        (codes "access request cancelled during provisioning") s
  ok (
      queue_revoke s (because request_cancelled) (
        append_audit
          (session_audit w s (codes "session.revoke_failed") actor (some user_id) (codes "failed")
            (some (codes "access request cancelled during provisioning")))
          (append_event
            (session_event s (codes "session.revoke_failed") actor (some user_id)
              ((codes "reason", codes "access request cancelled during provisioning") ∷ []))
            (set_session s' w))))

-- `cancellation.queued` is `revokeQueued` after the switch on the state of the session.
pub record Cancellation : Type 0 where
  pub queued : Bool
  pub store : Store

abbrev pub queued_store : Bool → Store → Result ServiceError Cancellation
queued_store b w = ok (record { queued = b; store = w })

unfoldable pub cancel_row :
    SessionStatus → ℕ → Text → Text → Session → Store → Result ServiceError Cancellation
cancel_row provisioning now actor user_id s w =
    if s.version == 0
    then cancel_unclaimed now actor user_id s w >>= queued_store false
    else cancel_claimed now actor user_id s w >>= queued_store true
cancel_row revoking now actor user_id s w = queued_store true w
cancel_row expired now actor user_id s w = queued_store false w
cancel_row closed now actor user_id s w = queued_store false w
cancel_row failed now actor user_id s w = queued_store false w
cancel_row _ now actor user_id s w = do
  s' ← begin_revoke now s
  queued_store true (
      append_event
        (session_event s (codes "session.revoke_requested") actor (some user_id)
          ((codes "reason", request_cancelled) ∷ []))
        (set_session s' w))

abbrev request_audit : Store → Text → Text → Option Text → Text → AuditEvent
request_audit w event_type actor_type actor_id result = record {
  event_type = event_type;
  actor_type = actor_type;
  actor_id = actor_id;
  subject_user_id = w.request.applicant_id;
  request_id = w.request.id;
  session_id = none;
  asset_id = w.request.asset_id;
  target_port = w.request.target_port;
  result = result;
  reason = none;
}

-- The records of a cancellation, which a repeated one (`requestAlreadyTerminal`) leaves out.
unfoldable pub log_cancelled : Bool → Text → Text → Store → Store
log_cancelled true actor user_id w = w
log_cancelled false actor user_id w =
    append_outbox
      (new_event (codes "access_request") w.request.id (codes "notification.request_result")
        ((codes "request_id", w.request.id) ∷ []))
      (append_audit
        (request_audit w (codes "access_request.cancelled") actor (some user_id) (codes "success"))
        w)

unfoldable pub queue_if : Bool → Session → Store → Store
queue_if true s w = queue_revoke s (because request_cancelled) w
queue_if false s w = w

unfoldable pub cancel_linked :
    Bool → ℕ → Text → Text → Option Session → Store → Result ServiceError Store
cancel_linked terminal now actor user_id none w = ok (log_cancelled terminal actor user_id w)
cancel_linked terminal now actor user_id (some s) w = do
  c ← cancel_row s.status now actor user_id s w
  ok (queue_if c.queued s (log_cancelled terminal actor user_id c.store))

-- What the request row is before the switch: the flag `requestAlreadyTerminal` and the store after
-- `Cancel`, the UPDATE of internal/repository/access_requests.go.
unfoldable pub cancel_status : RequestStatus → ℕ → Store → Result ServiceError (Bool × Store)
cancel_status pending_approval now w =
    ok (false, record w { request = record (w.request) { status = cancelled; updated_at = now } })
cancel_status approved now w =
    ok (false, record w { request = record (w.request) { status = cancelled; updated_at = now } })
cancel_status _ now w = ok (true, w)

unfoldable pub cancel_access_request : ℕ → Caller → Store → Result ServiceError Store
cancel_access_request now caller w = do
  guard caller.is_active_user forbidden
  let owner = text_eq w.request.applicant_id caller.user_id
  guard (owner || caller.is_admin) forbidden
  c ← cancel_status w.request.status now w
  cancel_linked c.0 now (cancellation_actor_type (not owner && caller.is_admin)) caller.user_id
      c.1.session c.1

-- `current.ExpiresAt == nil || current.ExpiresAt.After(s.clock())`, negated
abbrev is_due : ℕ → Option ℕ → Bool
is_due now none = false
is_due now (some expires_at) = not (ltb now expires_at)

unfoldable pub reap_row : ℕ → Session → Store → Result ServiceError Store
reap_row now s w = do
  s' ← begin_revoke now s
  ok (
      queue_revoke s (because (codes "expired")) (
        append_audit
          (session_audit w s (codes "session.revoke_requested") (codes "system") none
            (codes "queued") (some (codes "expired")))
          (set_session s' w)))

unfoldable pub reap_from : SessionStatus → ℕ → Session → Store → Result ServiceError Store
reap_from running now s w = if is_due now s.expires_at then reap_row now s w else ok w
reap_from _ now s w = ok w

-- One session of `ReapExpired`.
unfoldable pub reap_expired : ℕ → Store → Result ServiceError Store
reap_expired now w = on_row (λ s. reap_from s.status now s w) w.session

-- `Reschedule` with `terminal`, of the event at an index.
unfoldable pub reschedule_failed : ℕ → List OutboxEvent → Result ServiceError (List OutboxEvent)
reschedule_failed index events = update_at (reschedule true 0) index events

unfoldable pub reschedule_store : ℕ → Store → Result ServiceError Store
reschedule_store index w =
    reschedule_failed index w.outbox >>= λ events. ok (record w { outbox = events })

unfoldable pub give_up_row : ℕ → ℕ → Text → Session → Store → Result ServiceError Store
give_up_row now index reason s w = do
  s' ← mark_manual_intervention now reason s
  reschedule_store index (
      append_audit
        (session_audit w s (codes "session.manual_intervention") (codes "system") none
          (codes "failed") (some reason))
        (append_event
          (session_event s (codes "session.manual_intervention") (codes "system") none
            ((codes "reason", reason) ∷ []))
          (set_session s' w)))

unfoldable pub give_up_from :
    SessionStatus → ℕ → ℕ → Text → Session → Store → Result ServiceError Store
give_up_from provisioning now index reason s w = err state_conflict
give_up_from running now index reason s w = err state_conflict
give_up_from revoking now index reason s w = give_up_row now index reason s w
give_up_from revoke_failed now index reason s w = give_up_row now index reason s w
give_up_from _ now index reason s w = reschedule_store index w

-- The transaction of `markRevokeManualIntervention`. The code reads the session without a lock; here no transaction comes
-- between the reading and the UPDATE.
unfoldable pub mark_revoke_manual_intervention : ℕ → ℕ → Text → Store → Result ServiceError Store
mark_revoke_manual_intervention now index reason w =
    on_row (λ s. give_up_from s.status now index reason s w) w.session
