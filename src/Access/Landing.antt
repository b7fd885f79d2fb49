-- ===== src/Access/Landing.antt =====
-- What each step of `ServiceStep` leaves of the session.
use access_gateway.Prelude.{
  ℕ, ◌≡◌, refl, ap, ◌∙◌, Bool, true, false, ◌||◌, Option, none, some, Text, text_eq, Result, ok,
  ◌>>◌, guard, ◌⊎◌, inl, arith,
}
use mathlib.Core.Path.{subst}
use access_gateway.Access.Model.{
  SessionStatus, provisioning, running, revoking, expired, closed, failed, revoke_failed,
  manual_intervention, Session, Store, ServiceError, forbidden,
}
use access_gateway.Access.Rows.{claim_provisioning_on_gateway, mark_runtime_terminated}
use access_gateway.Access.Moves.{claim_provisioning-IsEdge, mark_runtime_terminated-IsEdge}
use access_gateway.Access.Commands.{needs_command}
use access_gateway.Access.Booking.{Landed, Outcome}
use access_gateway.Access.Expiry.{give_up_from-Landed}
use access_gateway.Access.Sessions.{on_row, close_after, close_session, force_close_session}
use access_gateway.Access.Revokes.{
  prepare_revoke, finish_revoke, persist_revoke_failure, enqueue_session_revocation, fail_provision,
  fail_provision_revoke_failed,
}
use access_gateway.Access.Steps.{
  ServiceStep, cancels, closes, force_closes, prepares, finishes, records_failure, enqueues, reaps,
  fails, fails_started, claims, renews_lease, starts, terminates,
}
use access_gateway.Access.Requests.{
  log_cancelled, cancel_linked, reap_expired, mark_revoke_manual_intervention,
}
use access_gateway.Access.Outcomes.{is_given_up, force_close_from-Outcome, enqueue_from-Outcome}
use access_gateway.Access.Revocation.{
  prepare_from-Outcome, finish_from-Outcome, persist_from-Outcome,
}
use access_gateway.Access.Provision.{complete_provisioning}
use access_gateway.Access.Provisioned.{complete_provisioning-Outcome}
use access_gateway.Access.Guards.{
  cancel-linked, cancel_access_request-Outcome, close_session-Outcome, fail_provision-Outcome,
  fail_started-Outcome, guarded,
}
use access_gateway.Access.Locked.{
  claim_needs, claim_kept, terminate_kept, eq-store, locked_at, renewed-Outcome, reap_from-Outcome,
  terminate_needs, updated-Outcome,
}

-- A step on the row `s` has an outcome, or leaves the whole store as it was.
pub step-Outcome :
    (s : Session) (w w' : Store) → w.session ≡ some s → ServiceStep w w' → Outcome w s w' ⊎ (w ≡ w')
unfolding force_close_session prepare_revoke finish_revoke persist_revoke_failure
    mark_revoke_manual_intervention enqueue_session_revocation reap_expired
step-Outcome s w w' i (cancels now caller _ _ h) =
    inl (cancel_access_request-Outcome now caller s w w' i h)
step-Outcome s w w' i (closes now caller seen _ _ h) =
    close_session-Outcome now caller seen s w w' i h
step-Outcome s w w' i (force_closes now admin_id reason _ _ h) = inl (
    force_close_from-Outcome s.status now admin_id reason s w w' refl i
      (locked_at _ w.session s w' i h))
step-Outcome s w w' i (prepares now reason _ _ h) =
    inl (prepare_from-Outcome s.status now reason s w w' refl i (locked_at _ w.session s w' i h))
step-Outcome s w w' i (finishes now response_status reason _ _ h) = inl (
    finish_from-Outcome s.status now response_status reason s w w' refl i
      (locked_at _ w.session s w' i h))
step-Outcome s w w' i (records_failure now reason _ _ h) =
    inl (persist_from-Outcome s.status now reason s w w' refl i (locked_at _ w.session s w' i h))
step-Outcome s w w' i (enqueues now reason _ _ h) =
    inl (enqueue_from-Outcome s.status now reason s w w' refl i (locked_at _ w.session s w' i h))
step-Outcome s w w' i (reaps now _ _ h) =
    reap_from-Outcome s.status now s w w' (locked_at _ w.session s w' i h)
step-Outcome s w w' i (fails now seen reason _ _ h) =
    inl (fail_provision-Outcome now seen reason s w w' i h)
step-Outcome s w w' i (fails_started now seen reason _ _ h) =
    inl (fail_started-Outcome now seen reason s w w' i h)
step-Outcome s w w' i (claims now expected stale_before gateway_id eligible _ _ h) = inl (
    updated-Outcome (claim_provisioning_on_gateway now expected stale_before gateway_id eligible) s
      w w'
      (λ t e.
        let edge = claim_provisioning-IsEdge now expected stale_before gateway_id eligible s t e in
        (
          edge.0,
          ap needs_command edge.1 ∙ claim_needs now expected stale_before gateway_id eligible s t e,
          ap is_given_up edge.1 ∙ claim_kept now expected stale_before gateway_id eligible s t e,
        ))
      i h)
step-Outcome s w w' i (renews_lease now expected _ _ h) =
    inl (renewed-Outcome now expected s w w' i h)
step-Outcome s w w' i (starts now expected safety_reason c started_at expires_at _ _ h) =
    complete_provisioning-Outcome now expected safety_reason c started_at expires_at s w w' i h
step-Outcome s w w' i (terminates now status reason _ _ h) = inl (
    updated-Outcome (mark_runtime_terminated now status reason) s w w'
      (λ t e.
        let edge = mark_runtime_terminated-IsEdge now status reason s t e in
        (
          edge.0,
          ap needs_command edge.1 ∙ terminate_needs now status reason s t e,
          ap is_given_up edge.1 ∙ terminate_kept now status reason s t e,
        ))
      i h)

on_row-none :
    (f : Session → Result ServiceError Store) (o : Option Session) (w w' : Store)
    → o ≡ none
    → on_row f o ≡ ok w'
    → w'.session ≡ none
on_row-none f none w w' i h = cc
on_row-none f (some s) w w' i h = ground arith

close_after-none :
    (status : SessionStatus) (now : ℕ) (user_id : Text) (w w' : Store)
    → w.session ≡ none
    → close_after status now user_id w ≡ ok w'
    → w'.session ≡ none
unfolding close_after
close_after-none provisioning now user_id w w' i h = cc
close_after-none running now user_id w w' i h = on_row-none _ w.session w w' i h
close_after-none revoking now user_id w w' i h = on_row-none _ w.session w w' i h
close_after-none revoke_failed now user_id w w' i h = on_row-none _ w.session w w' i h
close_after-none expired now user_id w w' i h = subst (λ x. x.session ≡ none) (eq-store w w' h) i
close_after-none closed now user_id w w' i h = subst (λ x. x.session ≡ none) (eq-store w w' h) i
close_after-none failed now user_id w w' i h = subst (λ x. x.session ≡ none) (eq-store w w' h) i
close_after-none manual_intervention now user_id w w' i h =
    subst (λ x. x.session ≡ none) (eq-store w w' h) i

cancel_linked-none :
    (terminal : Bool) (now : ℕ) (actor user_id : Text) (w w' : Store)
    → w.session ≡ none
    → cancel_linked terminal now actor user_id none w ≡ ok w'
    → w'.session ≡ none
unfolding cancel_linked log_cancelled
cancel_linked-none true now actor user_id w w' i h =
    subst (λ x. x.session ≡ none) (eq-store _ w' h) i
cancel_linked-none false now actor user_id w w' i h =
    subst (λ x. x.session ≡ none) (eq-store _ w' h) i

pub give_up-Landed :
    (now index : ℕ) (reason : Text) (s : Session) (w w' : Store)
    → w.session ≡ some s
    → mark_revoke_manual_intervention now index reason w ≡ ok w'
    → Landed s w'
unfolding mark_revoke_manual_intervention
give_up-Landed now index reason s w w' i h =
    give_up_from-Landed s.status now index reason s w w' refl i (locked_at _ w.session s w' i h)

pub give_up-none :
    (now index : ℕ) (reason : Text) (w w' : Store)
    → w.session ≡ none
    → mark_revoke_manual_intervention now index reason w ≡ ok w'
    → w'.session ≡ none
unfolding mark_revoke_manual_intervention
give_up-none now index reason w w' i h = on_row-none _ w.session w w' i h

-- Without a session no step on a session makes one.
pub step-none : (w w' : Store) → w.session ≡ none → ServiceStep w w' → w'.session ≡ none
unfolding close_session force_close_session prepare_revoke finish_revoke persist_revoke_failure
    mark_revoke_manual_intervention enqueue_session_revocation reap_expired fail_provision
    complete_provisioning fail_provision_revoke_failed
step-none w w' i (cancels now caller _ _ h) =
    let (c, actor, k, st, q) = cancel-linked now caller w w' h in
    cancel_linked-none c.0 now actor caller.user_id c.1 w' (k ∙ i) (rw (k ∙ i) at q)
step-none w w' i (closes now caller seen _ _ h) =
    let ready = close_after seen.status now caller.user_id w in
    let owns = text_eq w.request.applicant_id caller.user_id || caller.is_admin in
    close_after-none seen.status now caller.user_id w w' i
      (guarded owns ready (guarded caller.is_active_user (guard owns forbidden >> ready) h))
step-none w w' i (force_closes now admin_id reason _ _ h) = on_row-none _ w.session w w' i h
step-none w w' i (prepares now reason _ _ h) = on_row-none _ w.session w w' i h
step-none w w' i (finishes now response_status reason _ _ h) = on_row-none _ w.session w w' i h
step-none w w' i (records_failure now reason _ _ h) = on_row-none _ w.session w w' i h
step-none w w' i (enqueues now reason _ _ h) = on_row-none _ w.session w w' i h
step-none w w' i (reaps now _ _ h) = on_row-none _ w.session w w' i h
step-none w w' i (fails now seen reason _ _ h) = on_row-none _ w.session w w' i h
step-none w w' i (fails_started now seen reason _ _ h) = on_row-none _ w.session w w' i h
step-none w w' i (claims now expected stale_before gateway_id eligible _ _ h) =
    on_row-none _ w.session w w' i h
step-none w w' i (renews_lease now expected _ _ h) = on_row-none _ w.session w w' i h
step-none w w' i (starts now expected safety_reason c started_at expires_at _ _ h) =
    on_row-none _ w.session w w' i h
step-none w w' i (terminates now status reason _ _ h) = on_row-none _ w.session w w' i h
