-- ===== src/Access/Moves.antt =====
-- internal/repository/sessions.go: each conditional UPDATE of a session row is an edge of its life.
use access_gateway.Prelude.{
  ℕ, ◌+◌, ◌≡◌, refl, Bool, true, ◌&&◌, ◌||◌, Option, none, some, Text, sym, ◌==◌, leb, ok, arith,
}
use access_gateway.Access.Model.{
  SessionStatus, running, revoking, failed, revoke_failed, manual_intervention, Session,
}
use access_gateway.Access.Rows.{
  claim_provisioning_on_gateway, renew_provisioning_lease, CreatedSession, update_row,
  mark_direct_running, mark_provision_failed, mark_provision_revoke_failed, mark_runtime_terminated,
  begin_revoke, mark_closed, mark_revoke_failed, mark_manual_intervention, is_provisioning,
  is_running, is_revoking, can_begin_revoke, can_give_up, is_runtime_end, is_closing,
}
use access_gateway.Access.Life.{
  IsRenewal, row_test, IsEdge, begin_moves, closing_moves, ending_moves, fail_moves, give_up_moves,
  is_move, provisioning_moves, row-IsEdge, test-ok,
}

claim_moves :
    (from : SessionStatus) (b c d : Bool)
    → (is_provisioning from && b && c && d) ≡ true
    → is_move from from ≡ true
claim_moves from b c d h = ground arith

pub claim_provisioning-IsEdge :
    (now expected stale_before : ℕ) (gateway_id : Text) (eligible : Bool) (s s' : Session)
    → claim_provisioning_on_gateway now expected stale_before gateway_id eligible s ≡ ok s'
    → IsEdge s s' × (s'.status ≡ s.status)
unfolding claim_provisioning_on_gateway
claim_provisioning-IsEdge now expected stale_before gateway_id eligible s s' h =
    row-IsEdge
      (is_provisioning s.status
        && s.version == expected
        && (s.version == 0 || leb s.updated_at stale_before)
        && eligible)
      s (record s { gateway_id = gateway_id; version = s.version + 1; updated_at = now }) s' h
      (claim_moves s.status (s.version == expected)
        (s.version == 0 || leb s.updated_at stale_before) eligible)
      (omega arith) refl refl

row-IsRenewal :
    (b : Bool) (now : ℕ) (s s' : Session)
    → update_row (is_provisioning s.status && b) (record s { updated_at = now }) ≡ ok s'
    → IsRenewal s s'
row-IsRenewal b now s s' h =
    let c = row_test (is_provisioning s.status && b) _ s' h in
    record { leased = ground (arith, c.0); renewed_at = now; same = sym c.1 }

pub renew-IsRenewal :
    (now expected : ℕ) (s s' : Session)
    → renew_provisioning_lease now expected s ≡ ok s'
    → IsRenewal s s'
unfolding renew_provisioning_lease
renew-IsRenewal now expected s s' h = row-IsRenewal (s.version == expected) now s s' h

pub begin_revoke-IsEdge :
    (now : ℕ) (s s' : Session) → begin_revoke now s ≡ ok s' → IsEdge s s' × (s'.status ≡ revoking)
unfolding begin_revoke
begin_revoke-IsEdge now s s' h =
    row-IsEdge (can_begin_revoke s.status) s
      (record s { status = revoking; version = s.version + 1; updated_at = now }) s' h
      (begin_moves s.status) (omega arith) refl refl

pub mark_provision_failed-IsEdge :
    (now expected : ℕ) (reason : Text) (s s' : Session)
    → mark_provision_failed now expected reason s ≡ ok s'
    → IsEdge s s' × (s'.status ≡ failed)
unfolding mark_provision_failed
mark_provision_failed-IsEdge now expected reason s s' h =
    row-IsEdge (is_provisioning s.status && s.version == expected) s
      (record s {
        status = failed;
        failure_reason = some reason;
        closed_at = some now;
        version = s.version + 1;
        updated_at = now;
      })
      s' h (provisioning_moves s.status failed (s.version == expected) refl) (omega arith) refl refl

pub mark_provision_revoke_failed-IsEdge :
    (now expected : ℕ) (reason : Text) (s s' : Session)
    → mark_provision_revoke_failed now expected reason s ≡ ok s'
    → IsEdge s s' × (s'.status ≡ revoke_failed)
unfolding mark_provision_revoke_failed
mark_provision_revoke_failed-IsEdge now expected reason s s' h =
    row-IsEdge (is_provisioning s.status && s.version == expected) s
      (record s {
        status = revoke_failed;
        failure_reason = some reason;
        version = s.version + 1;
        updated_at = now;
      })
      s' h (provisioning_moves s.status revoke_failed (s.version == expected) refl) (omega arith)
      refl refl

pub mark_revoke_failed-IsEdge :
    (now : ℕ) (reason : Text) (s s' : Session)
    → mark_revoke_failed now reason s ≡ ok s'
    → IsEdge s s' × (s'.status ≡ revoke_failed)
unfolding mark_revoke_failed
mark_revoke_failed-IsEdge now reason s s' h =
    row-IsEdge (is_revoking s.status) s
      (record s {
        status = revoke_failed;
        failure_reason = some reason;
        version = s.version + 1;
        updated_at = now;
      })
      s' h (fail_moves s.status) (omega arith) refl refl

pub mark_manual_intervention-IsEdge :
    (now : ℕ) (reason : Text) (s s' : Session)
    → mark_manual_intervention now reason s ≡ ok s'
    → IsEdge s s' × (s'.status ≡ manual_intervention)
unfolding mark_manual_intervention
mark_manual_intervention-IsEdge now reason s s' h =
    row-IsEdge (can_give_up s.status) s
      (record s {
        status = manual_intervention;
        failure_reason = some reason;
        version = s.version + 1;
        updated_at = now;
      })
      s' h (give_up_moves s.status) (omega arith) refl refl

pub mark_running-IsEdge :
    (now expected : ℕ) (c : CreatedSession) (started_at expires_at : ℕ) (s s' : Session)
    → mark_direct_running now expected c started_at expires_at s ≡ ok s'
    → IsEdge s s' × (s'.status ≡ running)
unfolding mark_direct_running
mark_running-IsEdge now expected c started_at expires_at s s' h =
    row-IsEdge (is_provisioning s.status && s.version == expected) s
      (record s {
        token_hash = none;
        remote_process_id = some c.process_id;
        status = running;
        listener_port = some c.listener_port;
        external_port = some c.external_port;
        exposure_mode = some c.exposure_mode;
        exposure_ref = some c.exposure_ref;
        started_at = some started_at;
        expires_at = some expires_at;
        version = s.version + 1;
        updated_at = now;
        tunnel_client_public_key = c.client_public_key;
        tunnel_server_certificate = c.server_certificate;
      })
      s' h (provisioning_moves s.status running (s.version == expected) refl) (omega arith) refl
      refl

pub mark_closed-IsEdge :
    (now : ℕ) (status : SessionStatus) (s s' : Session)
    → mark_closed now status s ≡ ok s'
    → IsEdge s s' × (s'.status ≡ status)
unfolding mark_closed
mark_closed-IsEdge now status s s' h =
    let c = test-ok (is_closing status) _ _ h in
    row-IsEdge (is_revoking s.status) s
      (record s {
        status = status;
        closed_at = some now;
        version = s.version + 1;
        updated_at = now;
      })
      s' c.1 (closing_moves s.status status c.0) (omega arith) refl refl

pub mark_runtime_terminated-IsEdge :
    (now : ℕ) (status : SessionStatus) (reason : Option Text) (s s' : Session)
    → mark_runtime_terminated now status reason s ≡ ok s'
    → IsEdge s s' × (s'.status ≡ status)
unfolding mark_runtime_terminated
mark_runtime_terminated-IsEdge now status reason s s' h =
    let c = test-ok (is_runtime_end status) _ _ h in
    row-IsEdge (is_running s.status) s
      (record s {
        status = status;
        closed_at = some now;
        failure_reason = reason;
        version = s.version + 1;
        updated_at = now;
      })
      s' c.1 (ending_moves s.status status c.0) (omega arith) refl refl
