-- ===== src/Access/Steps.antt =====
-- The transactions on one session as a step relation, and the runs of such steps in any order. A
-- step is a committed transaction, since one that fails leaves the store as it was. The claim on a
-- gateway and the heartbeat of `ProvisionSession` and the gateway's reports are one UPDATE each.
use access_gateway.Prelude.{ℕ, Bool, ◌≡◌, Option, Text, Result, ok, ◌>>=◌}
use access_gateway.Access.Model.{SessionStatus, Session, Store, ServiceError, set_session}
use access_gateway.Access.Rows.{
  CreatedSession, claim_provisioning_on_gateway, renew_provisioning_lease, mark_runtime_terminated,
}
use access_gateway.Access.Sessions.{on_row, Caller, close_session, force_close_session}
use access_gateway.Access.Revokes.{
  prepare_revoke, finish_revoke, persist_revoke_failure, enqueue_session_revocation, fail_provision,
  fail_provision_revoke_failed,
}
use access_gateway.Access.Provision.{complete_provisioning}
use access_gateway.Access.Requests.{cancel_access_request, reap_expired}

-- `UPDATE sessions` alone.
abbrev pub update_session :
    (Session → Result ServiceError Session) → Store → Result ServiceError Store
update_session f w = on_row (λ s. f s >>= λ t. ok (set_session t w)) w.session

pub data ServiceStep : Store → Store → Type 0 where
  cancels :
      (now : ℕ) (caller : Caller) (w w' : Store)
      → cancel_access_request now caller w ≡ ok w'
      → ServiceStep w w'
  closes :
      (now : ℕ) (caller : Caller) (seen : Session) (w w' : Store)
      → close_session now caller seen w ≡ ok w'
      → ServiceStep w w'
  force_closes :
      (now : ℕ) (admin_id reason : Text) (w w' : Store)
      → force_close_session now admin_id reason w ≡ ok w'
      → ServiceStep w w'
  prepares :
      (now : ℕ) (reason : Text) (w w' : Store)
      → prepare_revoke now reason w ≡ ok w'
      → ServiceStep w w'
  finishes :
      (now : ℕ) (response_status reason : Text) (w w' : Store)
      → finish_revoke now response_status reason w ≡ ok w'
      → ServiceStep w w'
  records_failure :
      (now : ℕ) (reason : Text) (w w' : Store)
      → persist_revoke_failure now reason w ≡ ok w'
      → ServiceStep w w'
  enqueues :
      (now : ℕ) (reason : Text) (w w' : Store)
      → enqueue_session_revocation now reason w ≡ ok w'
      → ServiceStep w w'
  reaps : (now : ℕ) (w w' : Store) → reap_expired now w ≡ ok w' → ServiceStep w w'
  fails :
      (now : ℕ) (seen : Session) (reason : Text) (w w' : Store)
      → fail_provision now seen reason w ≡ ok w'
      → ServiceStep w w'
  fails_started :
      (now : ℕ) (seen : Session) (reason : Text) (w w' : Store)
      → fail_provision_revoke_failed now seen reason w ≡ ok w'
      → ServiceStep w w'
  claims :
      (now expected stale_before : ℕ) (gateway_id : Text) (eligible : Bool) (w w' : Store)
      → update_session
          (claim_provisioning_on_gateway now expected stale_before gateway_id eligible)
          w
        ≡ ok w'
      → ServiceStep w w'
  renews_lease :
      (now expected : ℕ) (w w' : Store)
      → update_session (renew_provisioning_lease now expected) w ≡ ok w'
      → ServiceStep w w'
  starts :
      (now expected : ℕ) (safety_reason : Text) (c : CreatedSession) (started_at expires_at : ℕ)
      (w w' : Store)
      → complete_provisioning now expected safety_reason c started_at expires_at w ≡ ok w'
      → ServiceStep w w'
  terminates :
      (now : ℕ) (status : SessionStatus) (reason : Option Text) (w w' : Store)
      → update_session (mark_runtime_terminated now status reason) w ≡ ok w'
      → ServiceStep w w'
