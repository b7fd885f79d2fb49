-- ===== src/Access/Rows.antt =====
-- internal/repository/sessions.go: the conditional UPDATEs of a session row. Each is a function on
-- the row that the caller has locked; where no row meets the condition, `affected` answers
-- `ErrNotFound`.
use access_gateway.Prelude.{
  ℕ, ◌+◌, Bool, true, false, ◌&&◌, ◌||◌, Option, none, some, Text, ◌==◌, leb, if◌then◌else◌, Result,
  ok, err,
}
use access_gateway.Access.Model.{
  SessionStatus, provisioning, running, revoking, expired, closed, failed, revoke_failed,
  manual_intervention, Session, ServiceError, not_found, constraint,
}

abbrev pub is_provisioning : SessionStatus → Bool
is_provisioning provisioning = true
is_provisioning _ = false

abbrev pub is_running : SessionStatus → Bool
is_running running = true
is_running _ = false

abbrev pub is_revoking : SessionStatus → Bool
is_revoking revoking = true
is_revoking _ = false

abbrev pub can_begin_revoke : SessionStatus → Bool
can_begin_revoke running = true
can_begin_revoke revoke_failed = true
can_begin_revoke manual_intervention = true
can_begin_revoke _ = false

abbrev pub can_give_up : SessionStatus → Bool
can_give_up revoking = true
can_give_up revoke_failed = true
can_give_up _ = false

-- `UPDATE sessions SET ... WHERE id = $1 AND <test>`
abbrev pub update_row : Bool → Session → Result ServiceError Session
update_row true s = ok s
update_row false s = err not_found

-- `ClaimProvisioningOnGateway`. Whether the gateway is bound, enabled, alive and below its capacity
-- is asked of other tables, and is the argument `eligible`.
unfoldable pub claim_provisioning_on_gateway :
    ℕ → ℕ → ℕ → Text → Bool → Session → Result ServiceError Session
claim_provisioning_on_gateway now expected stale_before gateway_id eligible s =
    update_row
      (is_provisioning s.status
        && s.version == expected
        && (s.version == 0 || leb s.updated_at stale_before)
        && eligible)
      (record s { gateway_id = gateway_id; version = s.version + 1; updated_at = now })

-- The heartbeat of a worker that provisions the session; the version stays.
unfoldable pub renew_provisioning_lease : ℕ → ℕ → Session → Result ServiceError Session
renew_provisioning_lease now expected s =
    update_row (is_provisioning s.status && s.version == expected) (record s { updated_at = now })

-- What the gateway answers about a session that it has created.
pub record CreatedSession : Type 0 where
  pub process_id : Text
  pub listener_port : ℕ
  pub external_port : ℕ
  pub exposure_mode : Text
  pub exposure_ref : Text
  pub client_public_key : Text
  pub server_certificate : Text

unfoldable pub mark_direct_running :
    ℕ → ℕ → CreatedSession → ℕ → ℕ → Session → Result ServiceError Session
mark_direct_running now expected c started_at expires_at s =
    update_row (is_provisioning s.status && s.version == expected) (record s {
      token_hash = none;
      remote_process_id = some c.process_id;
      status = running;
      listener_port = some c.listener_port;
      external_port = some c.external_port;
      exposure_mode = some c.exposure_mode;
      exposure_ref = some c.exposure_ref;
      started_at = some started_at;
      expires_at = some expires_at;
      version = s.version + 1;
      updated_at = now;
      tunnel_client_public_key = c.client_public_key;
      tunnel_server_certificate = c.server_certificate;
    })

unfoldable pub mark_provision_failed : ℕ → ℕ → Text → Session → Result ServiceError Session
mark_provision_failed now expected reason s =
    update_row (is_provisioning s.status && s.version == expected) (record s {
      status = failed;
      failure_reason = some reason;
      closed_at = some now;
      version = s.version + 1;
      updated_at = now;
    })

unfoldable pub mark_provision_revoke_failed : ℕ → ℕ → Text → Session → Result ServiceError Session
mark_provision_revoke_failed now expected reason s =
    update_row (is_provisioning s.status && s.version == expected) (record s {
      status = revoke_failed;
      failure_reason = some reason;
      version = s.version + 1;
      updated_at = now;
    })

abbrev pub is_runtime_end : SessionStatus → Bool
is_runtime_end expired = true
is_runtime_end failed = true
is_runtime_end _ = false

unfoldable pub mark_runtime_terminated :
    ℕ → SessionStatus → Option Text → Session → Result ServiceError Session
mark_runtime_terminated now status reason s =
    if is_runtime_end status
    then update_row (is_running s.status) (record s {
      status = status;
      closed_at = some now;
      failure_reason = reason;
      version = s.version + 1;
      updated_at = now;
    })
    else err constraint

unfoldable pub begin_revoke : ℕ → Session → Result ServiceError Session
begin_revoke now s =
    update_row (can_begin_revoke s.status)
      (record s { status = revoking; version = s.version + 1; updated_at = now })

abbrev pub is_closing : SessionStatus → Bool
is_closing closed = true
is_closing expired = true
is_closing _ = false

unfoldable pub mark_closed : ℕ → SessionStatus → Session → Result ServiceError Session
mark_closed now status s =
    if is_closing status
    then update_row (is_revoking s.status) (record s {
      status = status;
      closed_at = some now;
      version = s.version + 1;
      updated_at = now;
    })
    else err constraint

unfoldable pub mark_revoke_failed : ℕ → Text → Session → Result ServiceError Session
mark_revoke_failed now reason s = update_row (is_revoking s.status) (record s {
  status = revoke_failed;
  failure_reason = some reason;
  version = s.version + 1;
  updated_at = now;
})

unfoldable pub mark_manual_intervention : ℕ → Text → Session → Result ServiceError Session
mark_manual_intervention now reason s = update_row (can_give_up s.status) (record s {
  status = manual_intervention;
  failure_reason = some reason;
  version = s.version + 1;
  updated_at = now;
})
