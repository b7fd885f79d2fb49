-- ===== src/Access/Provision.antt =====
-- internal/service/access.go: the transaction of `ProvisionSession` after the gateway has created the
-- session. What the rows of other tables say is the argument `safety_reason`, which is empty where
-- they allow the session. The second reading of the request in the same transaction finds the row
-- that is locked, so that its branch is never taken.
use access_gateway.Prelude.{
  ℕ, Bool, true, false, ◌&&◌, ◌||◌, not, none, some, [], ◌∷◌, Text, codes, is_empty, ◌==◌,
  if◌then◌else◌, Result, ok, err, ◌>>=◌,
}
use access_gateway.Access.Model.{
  RequestStatus, approved, SessionStatus, revoke_failed, Session, Store, ServiceError,
  state_conflict, is_terminal_session, because, queue_revoke, append_outbox, append_event,
  append_audit, set_session, session_audit, session_event, new_event, session_aggregate,
}
use access_gateway.Access.Rows.{
  CreatedSession, mark_direct_running, mark_provision_revoke_failed, is_provisioning, is_revoking,
}
use access_gateway.Access.Sessions.{on_row}

abbrev pub is_request_approved : RequestStatus → Bool
is_request_approved approved = true
is_request_approved _ = false

-- The attempt was resolved by another: its end is left as it is.
abbrev pub is_resolved : SessionStatus → Bool
is_resolved revoke_failed = true
is_resolved status = is_revoking status || is_terminal_session status

unfoldable pub withdraw_created : ℕ → ℕ → Text → Text → Session → Store → Result ServiceError Store
withdraw_created now expected revoke_reason outbox_reason s w = do
  s' ← mark_provision_revoke_failed now expected revoke_reason s
  ok (
      queue_revoke s (because outbox_reason) (
        append_audit
          (session_audit w s (codes "session.revoke_failed") (codes "system") none (codes "failed")
            (some revoke_reason))
          (append_event
            (session_event s (codes "session.revoke_failed") (codes "system") none
              ((codes "reason", revoke_reason) ∷ []))
            (set_session s' w))))

-- Of the metadata of the event the connection mode and the numbers of the ports are left out.
unfoldable pub start_created :
    ℕ → ℕ → CreatedSession → ℕ → ℕ → Session → Store → Result ServiceError Store
start_created now expected c started_at expires_at s w = do
  s' ← mark_direct_running now expected c started_at expires_at s
  ok (
      append_outbox
        (new_event session_aggregate s.id (codes "notification.session_ready")
          ((codes "session_id", s.id) ∷ []))
        (append_audit
          (session_audit w s (codes "session.started") (codes "system") none (codes "success") none)
          (append_event
            (session_event s (codes "session.started") (codes "system") none (
              (codes "gateway_id", s.gateway_id)
              ∷ (codes "process_id", c.process_id)
              ∷ (codes "exposure_mode", c.exposure_mode)
              ∷ (codes "exposure_ref", c.exposure_ref)
              ∷ []))
            (set_session s' w))))

unfoldable pub complete_attempt :
    ℕ → ℕ → Text → CreatedSession → ℕ → ℕ → Session → Store → Result ServiceError Store
complete_attempt now expected safety_reason c started_at expires_at s w =
    if not (is_request_approved w.request.status)
    then withdraw_created now expected
        (codes "access request cancelled after gateway session creation")
        (codes "request_cancelled") s w
    else if not (is_empty safety_reason)
    then withdraw_created now expected safety_reason (codes "authorization_changed") s w
    else start_created now expected c started_at expires_at s w

unfoldable pub complete_provisioning :
    ℕ → ℕ → Text → CreatedSession → ℕ → ℕ → Store → Result ServiceError Store
complete_provisioning now expected safety_reason c started_at expires_at w =
    on_row
      (λ s.
        if is_provisioning s.status && s.version == expected
        then complete_attempt now expected safety_reason c started_at expires_at s w
        else if is_resolved s.status
        then ok w
        else err state_conflict)
      w.session
