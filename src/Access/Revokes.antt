-- ===== src/Access/Revokes.antt =====
-- `RevokeSession`, `persistRevokeFailure`, `enqueueSessionRevocations` and the two failures of
-- provisioning in internal/service/access.go, as transactions on the store.
use access_gateway.Prelude.{
  ℕ, Bool, true, false, ◌||◌, none, some, [], ◌∷◌, any, Text, codes, text_eq, ◌==◌, if◌then◌else◌,
  Result, ok, err, ◌>>=◌,
}
use access_gateway.Access.Model.{
  SessionStatus, provisioning, revoking, expired, closed, failed, Session, Store, ServiceError,
  state_conflict, is_active_for, revoke_command, because, queue_revoke, append_outbox, append_event,
  append_audit, set_session, session_audit, session_event, new_event, session_aggregate,
}
use access_gateway.Access.Rows.{
  mark_provision_failed, mark_provision_revoke_failed, begin_revoke, mark_closed,
  mark_revoke_failed,
}
use access_gateway.Access.Sessions.{on_row}

unfoldable pub prepare_unclaimed : ℕ → Text → Session → Store → Result ServiceError Store
prepare_unclaimed now reason s w = do
  s' ← mark_provision_failed now s.version (codes "revoked before provisioning") s
  ok (
      append_audit
        (session_audit w s (codes "session.revoke_requested") (codes "system") none
          (codes "no_remote_session") (some reason))
        (append_event
          (session_event s (codes "session.cancelled_before_start") (codes "system") none
            ((codes "reason", reason) ∷ []))
          (set_session s' w)))

unfoldable pub prepare_claimed : ℕ → Text → Session → Store → Result ServiceError Store
prepare_claimed now reason s w = do
  s' ← mark_provision_revoke_failed now s.version (codes "revoke requested during provisioning") s
  ok (
      queue_revoke s (because reason) (
        append_audit
          (session_audit w s (codes "session.revoke_failed") (codes "system") none (codes "failed")
            (some (codes "revoke requested during provisioning")))
          (append_event
            (session_event s (codes "session.revoke_failed") (codes "system") none
              ((codes "reason", codes "revoke requested during provisioning") ∷ []))
            (set_session s' w))))

-- The records of a command that `CreateIfNoActive` has created; `w` is the store before.
unfoldable pub log_if_created : Text → Session → Store → Store → Store
log_if_created reason s w w' =
    if any (is_active_for (revoke_command s.id (because reason))) w.outbox
    then w'
    else append_audit
        (session_audit w s (codes "session.revoke_requested") (codes "system") none (codes "queued")
          (some reason))
        (append_event
          (session_event s (codes "session.revoke_requested") (codes "system") none
            ((codes "reason", reason) ∷ []))
          w')

unfoldable pub prepare_from : SessionStatus → ℕ → Text → Session → Store → Result ServiceError Store
prepare_from provisioning now reason s w =
    if s.version == 0 then prepare_unclaimed now reason s w else prepare_claimed now reason s w
prepare_from revoking now reason s w = ok (queue_revoke s (because reason) w)
prepare_from closed now reason s w = ok w
prepare_from expired now reason s w = ok w
prepare_from failed now reason s w = ok w
prepare_from _ now reason s w = do
  s' ← begin_revoke now s
  ok (log_if_created reason s w (queue_revoke s (because reason) (set_session s' w)))

-- The first transaction of `RevokeSession`: what is to be closed at the gateway is marked.
unfoldable pub prepare_revoke : ℕ → Text → Store → Result ServiceError Store
prepare_revoke now reason w = on_row (λ s. prepare_from s.status now reason s w) w.session

abbrev is_final : SessionStatus → Bool
is_final expired = true
is_final closed = true
is_final failed = true
is_final _ = false

-- `response.Status == "expired" || reason == "expired" || reason == "ttl_expired"`
abbrev pub closing_status : Text → Text → SessionStatus
closing_status response_status reason =
    if text_eq response_status (codes "expired")
      || text_eq reason (codes "expired")
      || text_eq reason (codes "ttl_expired")
    then expired
    else closed

abbrev status_text : SessionStatus → Text
status_text expired = codes "expired"
status_text _ = codes "closed"

unfoldable pub finish_row : ℕ → Text → SessionStatus → Session → Store → Result ServiceError Store
finish_row now reason status s w = do
  s' ← mark_closed now status s
  ok (
      append_outbox
        (new_event session_aggregate s.id (codes "notification.session_closed")
          ((codes "session_id", s.id) ∷ []))
        (append_audit
          (session_audit w s (codes "session.closed") (codes "system") none (status_text status)
            (some reason))
          (append_event
            (session_event s (codes "session.closed") (codes "system") none
              ((codes "reason", reason) ∷ []))
            (set_session s' w))))

unfoldable pub finish_from :
    SessionStatus → ℕ → Text → Text → Session → Store → Result ServiceError Store
finish_from revoking now response_status reason s w =
    finish_row now reason (closing_status response_status reason) s w
finish_from status now response_status reason s w =
    if is_final status then ok w else err state_conflict

-- The second transaction of `RevokeSession`, when the gateway has closed the session.
unfoldable pub finish_revoke : ℕ → Text → Text → Store → Result ServiceError Store
finish_revoke now response_status reason w =
    on_row (λ s. finish_from s.status now response_status reason s w) w.session

-- The end of `persistRevokeFailure`, on a row that is in `revoking`.
unfoldable pub fail_revoke : ℕ → Text → Session → Store → Result ServiceError Store
fail_revoke now reason s w = do
  s' ← mark_revoke_failed now (codes "gateway_session_revoke_failed") s
  ok (
      queue_revoke s (because reason) (
        append_audit
          (session_audit w s (codes "session.revoke_failed") (codes "system") none (codes "failed")
            (some reason))
          (append_event
            (session_event s (codes "session.revoke_failed") (codes "system") none
              ((codes "reason", reason) ∷ []))
            (set_session s' w))))

unfoldable pub persist_from : SessionStatus → ℕ → Text → Session → Store → Result ServiceError Store
persist_from expired now reason s w = ok w
persist_from closed now reason s w = ok w
persist_from failed now reason s w = ok w
persist_from revoking now reason s w = fail_revoke now reason s w
persist_from provisioning now reason s w = err state_conflict
persist_from _ now reason s w = do
  s' ← begin_revoke now s
  fail_revoke now reason s' (set_session s' w)

-- The transaction of `persistRevokeFailure`.
unfoldable pub persist_revoke_failure : ℕ → Text → Store → Result ServiceError Store
persist_revoke_failure now reason w = on_row (λ s. persist_from s.status now reason s w) w.session

-- `enqueueSessionRevocations`, for one session.
unfoldable pub enqueue_from : SessionStatus → ℕ → Text → Session → Store → Result ServiceError Store
enqueue_from provisioning now reason s w = ok w
enqueue_from expired now reason s w = ok w
enqueue_from closed now reason s w = ok w
enqueue_from failed now reason s w = ok w
enqueue_from revoking now reason s w = ok (queue_revoke s (because reason) w)
enqueue_from _ now reason s w = do
  s' ← begin_revoke now s
  ok (
      queue_revoke s (because reason) (
        append_audit
          (session_audit w s (codes "session.revoke_requested") (codes "system") none
            (codes "queued") (some reason))
          (set_session s' w)))

unfoldable pub enqueue_session_revocation : ℕ → Text → Store → Result ServiceError Store
enqueue_session_revocation now reason w =
    on_row (λ s. enqueue_from s.status now reason s w) w.session

-- The transaction of `failProvision`; `seen` is the row that the worker claimed.
unfoldable pub fail_provision : ℕ → Session → Text → Store → Result ServiceError Store
fail_provision now seen reason w =
    on_row
      (λ s. do
        s' ← mark_provision_failed now seen.version reason s
        ok (
            append_audit
              (session_audit w s (codes "session.provision_failed") (codes "system") none
                (codes "failed") (some reason))
              (set_session s' w)))
      w.session

-- The transaction of `failProvisionRevokeFailed`.
unfoldable pub fail_provision_revoke_failed : ℕ → Session → Text → Store → Result ServiceError Store
fail_provision_revoke_failed now seen reason w =
    on_row
      (λ s. do
        s' ← mark_provision_revoke_failed now seen.version reason s
        ok (
            append_outbox (revoke_command s.id (because (codes "provision_compensation"))) (
              append_audit
                (session_audit w s (codes "session.revoke_failed") (codes "system") none
                  (codes "failed") (some reason))
                (append_event
                  (session_event s (codes "session.revoke_failed") (codes "system") none
                    ((codes "reason", reason) ∷ []))
                  (set_session s' w)))))
      w.session
