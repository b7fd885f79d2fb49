-- ===== src/Access/Guards.antt =====
-- The transactions of internal/service/access.go under their guards: what each leaves of a session.
use access_gateway.Prelude.{
  ℕ, ◌≡◌, refl, ap, ◌∙◌, Bool, true, false, ◌&&◌, ◌||◌, not, some, Text, codes, text_eq, Result, ok,
  ◌>>=◌, ◌>>◌, >>=-eq-ok, guard, ◌⊎◌, inl, inr,
}
use mathlib.Core.Path.{subst}
use access_gateway.Access.Model.{
  because, SessionStatus, provisioning, running, revoking, expired, closed, failed, revoke_failed,
  manual_intervention, RequestStatus, pending_approval, approved, rejected, cancelled,
  approval_expired, Session, Store, ServiceError, forbidden,
}
use access_gateway.Access.Rows.{mark_provision_failed, mark_provision_revoke_failed}
use access_gateway.Access.Moves.{mark_provision_failed-IsEdge, mark_provision_revoke_failed-IsEdge}
use access_gateway.Access.Commands.{needs_command, append-has_command}
use access_gateway.Access.Booking.{Outcome, commit, one_edge}
use access_gateway.Access.Sessions.{Caller, close_after, close_session}
use access_gateway.Access.Revokes.{fail_provision, fail_provision_revoke_failed}
use access_gateway.Access.Requests.{
  cancellation_actor_type, cancel_linked, cancel_status, cancel_access_request,
}
use access_gateway.Access.Ledger.{Entry, most, kept-Entry, appended-Entry}
use access_gateway.Access.Outcomes.{is_given_up, moved, close_from-Outcome}
use access_gateway.Access.Cancellation.{cancel_linked-Outcome}
use access_gateway.Access.Locked.{eq-pair, eq-store, locked_at, none_before}

pub guarded :
    (b : Bool) (k : Result ServiceError Store) {w' : Store}
    → (guard b forbidden >> k) ≡ ok w'
    → k ≡ ok w'
guarded true k h = h
guarded false k h = cc

close_locked :
    (status : SessionStatus) (now : ℕ) (user_id : Text) (s : Session) (w w' : Store)
    → w.session ≡ some s
    → close_after status now user_id w ≡ ok w'
    → Outcome w s w' ⊎ (w ≡ w')
unfolding close_after
close_locked provisioning now user_id s w w' i h = cc
close_locked running now user_id s w w' i h =
    inl (close_from-Outcome s.status now user_id s w w' refl i (locked_at _ w.session s w' i h))
close_locked revoking now user_id s w w' i h =
    inl (close_from-Outcome s.status now user_id s w w' refl i (locked_at _ w.session s w' i h))
close_locked revoke_failed now user_id s w w' i h =
    inl (close_from-Outcome s.status now user_id s w w' refl i (locked_at _ w.session s w' i h))
close_locked expired now user_id s w w' i h = inr (eq-store w w' h)
close_locked closed now user_id s w w' i h = inr (eq-store w w' h)
close_locked failed now user_id s w w' i h = inr (eq-store w w' h)
close_locked manual_intervention now user_id s w w' i h = inr (eq-store w w' h)

pub close_session-Outcome :
    (now : ℕ) (caller : Caller) (seen s : Session) (w w' : Store)
    → w.session ≡ some s
    → close_session now caller seen w ≡ ok w'
    → Outcome w s w' ⊎ (w ≡ w')
unfolding close_session
close_session-Outcome now caller seen s w w' i h =
    let ready = close_after seen.status now caller.user_id w in
    let owns = text_eq w.request.applicant_id caller.user_id || caller.is_admin in
    close_locked seen.status now caller.user_id s w w' i
      (guarded owns ready (guarded caller.is_active_user (guard owns forbidden >> ready) h))

pub fail_started-Outcome :
    (now : ℕ) (seen : Session) (reason : Text) (s : Session) (w w' : Store)
    → w.session ≡ some s
    → fail_provision_revoke_failed now seen reason w ≡ ok w'
    → Outcome w s w'
unfolding fail_provision_revoke_failed
fail_started-Outcome now seen reason s w w' i h =
    let (t, e, q) =
      >>=-eq-ok (mark_provision_revoke_failed now seen.version reason s) _
        (locked_at _ w.session s w' i h) in
    let edge = mark_provision_revoke_failed-IsEdge now seen.version reason s t e in
    commit s t w _ w' (one_edge s t edge.0) refl
      (λ y.
        rw edge.0.same_id
          (append-has_command s.id (because (codes "provision_compensation")) w.outbox))
      (appended-Entry w.outbox s t (because (codes "provision_compensation")) _ refl
        (none_before now seen.version reason s t w.outbox e) (ap most edge.1))
      q

pub fail_provision-Outcome :
    (now : ℕ) (seen : Session) (reason : Text) (s : Session) (w w' : Store)
    → w.session ≡ some s
    → fail_provision now seen reason w ≡ ok w'
    → Outcome w s w'
unfolding fail_provision
fail_provision-Outcome now seen reason s w w' i h =
    let (t, e, q) =
      >>=-eq-ok (mark_provision_failed now seen.version reason s) _
        (locked_at _ w.session s w' i h) in
    let edge = mark_provision_failed-IsEdge now seen.version reason s t e in
    moved s t w _ w' edge.0 (ap needs_command edge.1) (ap is_given_up edge.1) refl
      (kept-Entry w.outbox s t _ refl) q

cancel_status-session :
    (status : RequestStatus) (now : ℕ) (w : Store) (c : Bool × Store)
    → cancel_status status now w ≡ ok c
    → c.1.session ≡ w.session
unfolding cancel_status
cancel_status-session pending_approval now w c h =
    subst (λ x. x.1.session ≡ w.session) (eq-pair _ c h) refl
cancel_status-session approved now w c h = subst (λ x. x.1.session ≡ w.session) (eq-pair _ c h) refl
cancel_status-session rejected now w c h = subst (λ x. x.1.session ≡ w.session) (eq-pair _ c h) refl
cancel_status-session cancelled now w c h =
    subst (λ x. x.1.session ≡ w.session) (eq-pair _ c h) refl
cancel_status-session approval_expired now w c h =
    subst (λ x. x.1.session ≡ w.session) (eq-pair _ c h) refl

cancel_status-outbox :
    (status : RequestStatus) (now : ℕ) (w : Store) (c : Bool × Store)
    → cancel_status status now w ≡ ok c
    → c.1.outbox ≡ w.outbox
unfolding cancel_status
cancel_status-outbox pending_approval now w c h =
    subst (λ x. x.1.outbox ≡ w.outbox) (eq-pair _ c h) refl
cancel_status-outbox approved now w c h = subst (λ x. x.1.outbox ≡ w.outbox) (eq-pair _ c h) refl
cancel_status-outbox rejected now w c h = subst (λ x. x.1.outbox ≡ w.outbox) (eq-pair _ c h) refl
cancel_status-outbox cancelled now w c h = subst (λ x. x.1.outbox ≡ w.outbox) (eq-pair _ c h) refl
cancel_status-outbox approval_expired now w c h =
    subst (λ x. x.1.outbox ≡ w.outbox) (eq-pair _ c h) refl

-- The guards of a cancellation passed, with the session where it was.
pub cancel-linked :
    (now : ℕ) (caller : Caller) (w w' : Store)
    → cancel_access_request now caller w ≡ ok w'
    → (c : Bool × Store) × (actor : Text) × (c.1.session ≡ w.session)
      × (cancel_status w.request.status now w ≡ ok c)
      × (cancel_linked c.0 now actor caller.user_id c.1.session c.1 ≡ ok w')
unfolding cancel_access_request
cancel-linked now caller w w' h =
    let owner = text_eq w.request.applicant_id caller.user_id in
    let actor = cancellation_actor_type (not owner && caller.is_admin) in
    let linked = λ (c : Bool × Store). cancel_linked c.0 now actor caller.user_id c.1.session c.1 in
    let ready = cancel_status w.request.status now w >>= linked in
    let h₂ =
      guarded (owner || caller.is_admin) ready
        (guarded caller.is_active_user (guard (owner || caller.is_admin) forbidden >> ready) h) in
    let (c, e, q) = >>=-eq-ok (cancel_status w.request.status now w) linked h₂ in
    (c, actor, cancel_status-session w.request.status now w c e, e, q)

pub cancel_access_request-Outcome :
    (now : ℕ) (caller : Caller) (s : Session) (w w' : Store)
    → w.session ≡ some s
    → cancel_access_request now caller w ≡ ok w'
    → Outcome w s w'
cancel_access_request-Outcome now caller s w w' i h =
    let (c, actor, k, st, q) = cancel-linked now caller w w' h in
    let o = cancel_linked-Outcome c.0 now actor caller.user_id s c.1 w' (k ∙ i) (rw (k ∙ i) at q) in
    record {
      landed = o.landed;
      entry =
          subst (λ x. Entry x s o.landed.row w'.outbox)
            (cancel_status-outbox w.request.status now w c st) o.entry;
    }
