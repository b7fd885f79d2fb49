-- ===== src/Examples/AccessExamples.antt =====
-- A request and its session (internal/service/access.go) at concrete inputs.
use access_gateway.Prelude.{
  ◌≡◌, refl, Bool, true, false, Option, none, some, [], ◌∷◌, codes, text_eq, Result, ok, err, ap,
  arith,
}
use access_gateway.Approval.Model.{decision_approved, Approval}
use access_gateway.Approval.Levels.{
  put, has_key, add_key, tally_one, tally, better_level, scan_levels, next_approval_level,
}
use access_gateway.Access.Model.{
  provisioning, closed, pending_approval, Session, AccessRequest, Store, ServiceError,
  is_active_for, create_if_no_active, revoke_command, queue_revoke,
}
use access_gateway.Access.Rows.{mark_provision_revoke_failed}
use access_gateway.Access.Sessions.{force_close_claimed, force_close_from, force_close_session}
use access_gateway.Access.Sessions.{Caller}
use access_gateway.Access.Requests.{
  cancel_access_request, cancel_status, cancel_linked, cancel_row, cancel_claimed, log_cancelled,
  queue_if,
}
use access_gateway.Access.Withdrawal.{is_withdrawn, IsEnding, cancel_access_request-IsEnding}
use access_gateway.Access.Decisions.{
  Environment, Decision, find_approval, check_decision, decide_rows, new_session, create_session,
  set_status, transition_status, grant_session, log_decision, log_session, settle, decide_locked,
  decide_approval,
}
use access_gateway.Access.Verdicts.{
  MayDecide, Verdict, decide_approval-MayDecide, decide_approval-Verdict,
}
use access_gateway.Access.Commands.{needs_command}
use access_gateway.Access.Rows.{renew_provisioning_lease}
use access_gateway.Access.Steps.{update_session, renews_lease, force_closes}
use access_gateway.Access.Runs.{
  IsSameVersion, serves, Run, done, next, IsCommanded, IsFollowed, Run-IsCommanded, Run-IsFollowed,
  Run-final, Run-version,
}
use access_gateway.Access.Override.{IsStopped, force_close_session-IsStopped}

abbrev request : AccessRequest
request = record {
  id = codes "r1";
  applicant_id = codes "u1";
  asset_id = codes "s1";
  target_port = 22;
  ttl_seconds = 3600;
  status = pending_approval;
  created_at = 1;
  updated_at = 1;
}

abbrev approval : Approval
approval = record {
  emergency = false;
  required_approvals = 1;
  step_name = codes "owner";
  id = codes "a1";
  request_id = codes "r1";
  approver_id = codes "u2";
  approval_level = 1;
  decision = none;
  comment = none;
  decided_at = none;
  created_at = 1;
}

abbrev waiting : Store
waiting = record {
  request = request;
  approvals = approval ∷ [];
  session = none;
  session_events = [];
  audits = [];
  outbox = [];
}

abbrev environment : Environment
environment = record {
  check_voter = λ r a. ok tt;
  has_active_session = false;
  asset_enabled = true;
  check_session = ok tt;
  session_id = codes "x1";
  gateway_id = codes "g1";
}

abbrev decision : Decision
decision = record {
  approver_id = codes "u2";
  approval_id = codes "a1";
  decision = decision_approved;
  comment = none;
}

-- The store of a committed transaction.
abbrev committed : Result ServiceError Store → Store
committed (ok w) = w
committed (err e) = waiting

abbrev decided : Store
decided = committed (decide_approval environment 5 decision waiting waiting)

decided-eq : decide_approval environment 5 decision waiting waiting ≡ ok decided
unfolding decide_approval decide_locked find_approval check_decision next_approval_level tally
    tally_one put has_key add_key scan_levels better_level decide_rows settle transition_status
    set_status grant_session create_session new_session log_decision log_session text_eq
decided-eq = refl

abbrev claimed_session : Session
claimed_session = record {
  id = codes "x1";
  request_id = codes "r1";
  gateway_id = codes "g1";
  token_hash = none;
  remote_process_id = none;
  status = provisioning;
  started_at = none;
  expires_at = some 3605;
  closed_at = none;
  failure_reason = none;
  version = 1;
  listener_port = none;
  external_port = none;
  exposure_mode = none;
  exposure_ref = none;
  tunnel_client_public_key = [];
  tunnel_server_certificate = [];
  created_at = 5;
  updated_at = 6;
}

abbrev claimed : Store
claimed = record waiting { session = some claimed_session }

abbrev stopped : Store
stopped = committed (force_close_session 7 (codes "u9") (codes "stuck") claimed)

stopped-eq : force_close_session 7 (codes "u9") (codes "stuck") claimed ≡ ok stopped
unfolding force_close_session force_close_from force_close_claimed mark_provision_revoke_failed
    queue_revoke create_if_no_active is_active_for revoke_command text_eq
stopped-eq = refl

stop-Run : Run claimed stopped
stop-Run =
    next claimed stopped stopped
      (serves claimed stopped
        (force_closes 7 (codes "u9") (codes "stuck") claimed stopped stopped-eq))
      (done stopped)

abbrev row_needs : Option Session → Bool
row_needs none = false
row_needs (some s) = needs_command s.status

claimed-IsCommanded : IsCommanded claimed
claimed-IsCommanded = record { commanded = λ s i n. ground (arith, ap row_needs i, n) }

abbrev ended_session : Session
ended_session = record claimed_session { status = closed; version = 4 }

abbrev ended : Store
ended = record waiting { session = some ended_session }

ended-eq : force_close_session 7 (codes "u9") (codes "stuck") ended ≡ ok ended
unfolding force_close_session force_close_from
ended-eq = refl

ended-Run : Run ended ended
ended-Run =
    next ended ended ended
      (serves ended ended (force_closes 7 (codes "u9") (codes "stuck") ended ended ended-eq))
      (done ended)

decide_approval-MayDecide_example :
    (a : Approval) × (find_approval (codes "a1") (approval ∷ []) ≡ ok a)
    × (environment.check_voter request a ≡ ok tt)
    × MayDecide (codes "u2") request a (approval ∷ [])
decide_approval-MayDecide_example =
    decide_approval-MayDecide environment 5 decision waiting waiting decided decided-eq

decide_approval-Verdict_example : Verdict waiting decided
decide_approval-Verdict_example =
    decide_approval-Verdict environment 5 decision waiting waiting decided decided-eq

Run-IsCommanded_example : IsCommanded stopped
Run-IsCommanded_example = Run-IsCommanded claimed stopped stop-Run claimed-IsCommanded

Run-IsFollowed_example : IsFollowed claimed_session stopped
Run-IsFollowed_example = Run-IsFollowed claimed_session claimed stopped stop-Run refl

Run-final_example : ended.session ≡ some ended_session
Run-final_example = Run-final ended_session ended ended ended-Run refl refl

abbrev leased_session : Session
leased_session = record claimed_session { updated_at = 9 }

abbrev leased : Store
leased = record claimed { session = some leased_session }

leased-eq : update_session (renew_provisioning_lease 9 claimed_session.version) claimed ≡ ok leased
unfolding renew_provisioning_lease
leased-eq = refl

leased-Run : Run claimed leased
leased-Run =
    next claimed leased leased
      (serves claimed leased (renews_lease 9 claimed_session.version claimed leased leased-eq))
      (done leased)

Run-version_example : IsSameVersion claimed_session leased_session
Run-version_example =
    Run-version claimed_session leased_session claimed leased leased-Run refl refl refl

force_close_session-IsStopped_example :
    IsStopped (force_close_session 7 (codes "u9") (codes "stuck") claimed)
force_close_session-IsStopped_example =
    force_close_session-IsStopped 7 (codes "u9") (codes "stuck") claimed_session claimed refl

abbrev owner : Caller
owner = record { user_id = codes "u1"; is_active_user = true; is_admin = false }

abbrev withdrawn : Store
withdrawn = committed (cancel_access_request 7 owner claimed)

withdrawn-eq : cancel_access_request 7 owner claimed ≡ ok withdrawn
unfolding cancel_access_request cancel_status cancel_linked cancel_row cancel_claimed
    mark_provision_revoke_failed queue_revoke create_if_no_active is_active_for revoke_command
    log_cancelled queue_if text_eq
withdrawn-eq = refl

cancel_access_request-IsEnding_example :
    (is_withdrawn withdrawn.request.status ≡ true) × IsEnding withdrawn.session
cancel_access_request-IsEnding_example =
    cancel_access_request-IsEnding 7 owner claimed withdrawn withdrawn-eq
