-- ===== src/Access/Provisioned.antt =====
-- internal/service/access.go: what the last transaction of `ProvisionSession` leaves of a session.
use access_gateway.Prelude.{
  ℕ, ◌≡◌, refl, ap, Bool, true, false, ◌&&◌, not, some, Text, text_eq, is_empty, ◌==◌,
  if◌then◌else◌, Result, ok, err, >>=-eq-ok, ◌⊎◌, inl, inr, Bool-cases,
}
use access_gateway.Access.Model.{because, Session, Store, ServiceError, state_conflict}
use access_gateway.Access.Rows.{CreatedSession, mark_direct_running, is_provisioning}
use access_gateway.Access.Moves.{mark_running-IsEdge}
use access_gateway.Access.Commands.{needs_command}
use access_gateway.Access.Ledger.{other-Entry}
use access_gateway.Access.Booking.{Outcome}
use access_gateway.Access.Outcomes.{claimed, moved, is_given_up}
use access_gateway.Access.Locked.{locked_at, eq-store}
use access_gateway.Access.Provision.{
  is_request_approved, is_resolved, withdraw_created, start_created, complete_attempt,
  complete_provisioning,
}

withdraw_created-Outcome :
    (now expected : ℕ) (revoke_reason outbox_reason : Text) (s : Session) (w w' : Store)
    → withdraw_created now expected revoke_reason outbox_reason s w ≡ ok w'
    → Outcome w s w'
unfolding withdraw_created
withdraw_created-Outcome now expected revoke_reason outbox_reason s w w' h =
    claimed now expected revoke_reason (because outbox_reason) s w w' _
      (λ t. record { at_row = refl; same_outbox = refl }) h

start_created-Outcome :
    (now expected : ℕ) (c : CreatedSession) (started_at expires_at : ℕ) (s : Session) (w w' : Store)
    → start_created now expected c started_at expires_at s w ≡ ok w'
    → Outcome w s w'
unfolding start_created text_eq
start_created-Outcome now expected c started_at expires_at s w w' h =
    let (t, e, q) = >>=-eq-ok (mark_direct_running now expected c started_at expires_at s) _ h in
    let edge = mark_running-IsEdge now expected c started_at expires_at s t e in
    moved s t w _ w' edge.0 (ap needs_command edge.1) (ap is_given_up edge.1) refl
      (other-Entry w.outbox s t _ _ refl refl) q

complete_attempt-Outcome :
    (now expected : ℕ) (safety_reason : Text) (c : CreatedSession) (started_at expires_at : ℕ)
    (s : Session) (w w' : Store)
    → complete_attempt now expected safety_reason c started_at expires_at s w ≡ ok w'
    → Outcome w s w'
unfolding complete_attempt
complete_attempt-Outcome now expected safety_reason c started_at expires_at s w w' h =
    elim (Bool-cases (not (is_request_approved w.request.status))) [
      | inl e ↦ withdraw_created-Outcome now expected _ _ s w w' (rw e at h)
      | inr e ↦ elim (Bool-cases (not (is_empty safety_reason))) [
        | inl f ↦ withdraw_created-Outcome now expected _ _ s w w' (rw (e, f) at h)
        | inr f ↦ start_created-Outcome now expected c started_at expires_at s w w' (rw (e, f) at h)
      ]
    ]

left_alone : (b : Bool) (w w' : Store) → (if b then ok w else err state_conflict) ≡ ok w' → w ≡ w'
left_alone true w w' h = eq-store w w' h
left_alone false w w' h = cc

completed_row :
    (b : Bool) (m : Result ServiceError Store) (s : Session) (w w' : Store)
    → (m ≡ ok w' → Outcome w s w')
    → (if b then m else if is_resolved s.status then ok w else err state_conflict) ≡ ok w'
    → Outcome w s w' ⊎ (w ≡ w')
completed_row true m s w w' f h = inl (f h)
completed_row false m s w w' f h = inr (left_alone (is_resolved s.status) w w' h)

pub complete_provisioning-Outcome :
    (now expected : ℕ) (safety_reason : Text) (c : CreatedSession) (started_at expires_at : ℕ)
    (s : Session) (w w' : Store)
    → w.session ≡ some s
    → complete_provisioning now expected safety_reason c started_at expires_at w ≡ ok w'
    → Outcome w s w' ⊎ (w ≡ w')
unfolding complete_provisioning
complete_provisioning-Outcome now expected safety_reason c started_at expires_at s w w' i h =
    completed_row (is_provisioning s.status && s.version == expected) _ s w w'
      (complete_attempt-Outcome now expected safety_reason c started_at expires_at s w w')
      (locked_at _ w.session s w' i h)
