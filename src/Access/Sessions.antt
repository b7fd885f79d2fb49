-- ===== src/Access/Sessions.antt =====
-- The transactions of `CloseSession` and `ForceCloseSession` in internal/service/access.go. A
-- transaction is a function from the store to an error, in which case the store is rolled back, or
-- to the store that it commits; the row that the code hands back is the session of that store. A
-- failing database is not modelled.
use access_gateway.Prelude.{
  ℕ, Bool, ◌||◌, Option, none, some, List, [], ◌∷◌, Text, codes, text_eq, ◌==◌, if◌then◌else◌,
  Result, ok, err, ◌>>=◌, ◌>>◌, guard,
}
use access_gateway.Access.Model.{
  SessionStatus, provisioning, revoking, expired, closed, failed, manual_intervention, Session,
  Store, Details, ServiceError, forbidden, state_conflict, not_found, is_terminal_session,
  queue_revoke, because, append_event, append_audit, set_session, session_audit, session_event,
}
use access_gateway.Access.Rows.{mark_provision_failed, mark_provision_revoke_failed, begin_revoke}

-- `GetByIDForUpdate`
abbrev pub on_row :
    (Session → Result ServiceError Store) → Option Session → Result ServiceError Store
on_row f none = err not_found
on_row f (some s) = f s

-- Who calls, as the code finds it before the transaction.
pub record Caller : Type 0 where
  pub user_id : Text
  pub is_active_user : Bool
  pub is_admin : Bool

unfoldable pub close_from : SessionStatus → ℕ → Text → Session → Store → Result ServiceError Store
close_from provisioning now user_id s w = err state_conflict
close_from revoking now user_id s w = ok (queue_revoke s (because (codes "user_closed")) w)
close_from expired now user_id s w = ok w
close_from closed now user_id s w = ok w
close_from failed now user_id s w = ok w
close_from manual_intervention now user_id s w = ok w
close_from _ now user_id s w = do
  s' ← begin_revoke now s
  ok (
      queue_revoke s (because (codes "user_closed")) (
        append_audit
          (session_audit w s (codes "session.revoke_requested") (codes "user") (some user_id)
            (codes "queued") none)
          (append_event
            (session_event s (codes "session.revoke_requested") (codes "user") (some user_id)
              ((codes "reason", codes "user_closed") ∷ []))
            (set_session s' w))))

unfoldable pub close_after : SessionStatus → ℕ → Text → Store → Result ServiceError Store
close_after provisioning now user_id w = err state_conflict
close_after status now user_id w =
    if is_terminal_session status
    then ok w
    else on_row (λ s. close_from s.status now user_id s w) w.session

-- `seen` is the row that was read before the transaction.
unfoldable pub close_session : ℕ → Caller → Session → Store → Result ServiceError Store
close_session now caller seen w = do
  guard caller.is_active_user forbidden
  guard (text_eq w.request.applicant_id caller.user_id || caller.is_admin) forbidden
  close_after seen.status now caller.user_id w

abbrev admin_reasons : Text → Text → List (Text × Text)
admin_reasons reason operator_reason =
    (codes "reason", reason) ∷ (codes "operator_reason", operator_reason) ∷ []

-- What the command of a forced close says.
abbrev pub by_operator : Text → Text → Details
by_operator admin_id reason =
    (codes "reason", codes "admin_force_close")
    ∷ (codes "operator_id", admin_id)
    ∷ (codes "operator_reason", reason)
    ∷ []

unfoldable pub force_close_unclaimed : ℕ → Text → Text → Session → Store → Result ServiceError Store
force_close_unclaimed now admin_id reason s w = do
  s' ← mark_provision_failed now s.version (codes "force-closed before provisioning") s
  ok (
      append_audit
        (session_audit w s (codes "session.force_close_requested") (codes "admin") (some admin_id)
          (codes "no_remote_session") (some reason))
        (append_event
          (session_event s (codes "session.force_closed_before_start") (codes "admin")
            (some admin_id) ((codes "reason", reason) ∷ []))
          (set_session s' w)))

unfoldable pub force_close_claimed : ℕ → Text → Text → Session → Store → Result ServiceError Store
force_close_claimed now admin_id reason s w = do
  s' ← mark_provision_revoke_failed now s.version (codes "force-closed during provisioning") s
  ok (
      queue_revoke s (by_operator admin_id reason) (
        append_audit
          (session_audit w s (codes "session.revoke_failed") (codes "admin") (some admin_id)
            (codes "failed") (some reason))
          (append_event
            (session_event s (codes "session.revoke_failed") (codes "admin") (some admin_id)
              (admin_reasons (codes "force-closed during provisioning") reason))
            (set_session s' w))))

unfoldable pub force_close_from :
    SessionStatus → ℕ → Text → Text → Session → Store → Result ServiceError Store
force_close_from provisioning now admin_id reason s w =
    if s.version == 0
    then force_close_unclaimed now admin_id reason s w
    else force_close_claimed now admin_id reason s w
force_close_from revoking now admin_id reason s w =
    ok (queue_revoke s (by_operator admin_id reason) w)
force_close_from closed now admin_id reason s w = ok w
force_close_from expired now admin_id reason s w = ok w
force_close_from failed now admin_id reason s w = ok w
force_close_from _ now admin_id reason s w = do
  s' ← begin_revoke now s
  ok (
      queue_revoke s (by_operator admin_id reason) (
        append_audit
          (session_audit w s (codes "session.force_close_requested") (codes "admin") (some admin_id)
            (codes "queued") (some reason))
          (append_event
            (session_event s (codes "session.force_close_requested") (codes "admin") (some admin_id)
              ((codes "reason", reason) ∷ []))
            (set_session s' w))))

-- The transaction of `ForceCloseSession`, on an administrator's checked input.
unfoldable pub force_close_session : ℕ → Text → Text → Store → Result ServiceError Store
force_close_session now admin_id reason w =
    on_row (λ s. force_close_from s.status now admin_id reason s w) w.session
