-- ===== src/Access/Revocation.antt =====
-- What `RevokeSession`, `persistRevokeFailure` and the failures of provisioning
-- (internal/service/access.go) leave of a session that they have locked.
use access_gateway.Prelude.{
  ℕ, ◌≡◌, refl, ap, ap₂, ◌∙◌, Bool, true, false, some, any, Text, text_eq, codes, ◌==◌,
  if◌then◌else◌, ok, ◌>>=◌, >>=-eq-ok, inl, inr, Bool-cases,
}
use access_gateway.Access.Model.{
  because, SessionStatus, provisioning, running, revoking, expired, closed, failed, revoke_failed,
  manual_intervention, Session, Store, is_active_for, revoke_command, queue_revoke, set_session,
  create_if_no_active,
}
use access_gateway.Access.Rows.{begin_revoke, mark_closed, mark_revoke_failed}
use access_gateway.Access.Life.{IsEdge, Advance, follows}
use access_gateway.Access.Moves.{begin_revoke-IsEdge, mark_closed-IsEdge, mark_revoke_failed-IsEdge}
use access_gateway.Access.Commands.{needs_command, create_if_no_active-has_command}
use access_gateway.Access.Booking.{Outcome, commit, one_edge}
use access_gateway.Access.Revokes.{
  prepare_unclaimed, log_if_created, prepare_claimed, prepare_from, finish_row, finish_from,
  fail_revoke, persist_from,
}
use access_gateway.Access.Outcomes.{
  unmoved, unmoved_queued, moved, unclaimed, claimed, either, is_given_up,
}
use access_gateway.Access.Ledger.{most, queued-Entry, other-Entry}

prepare_unclaimed-Outcome :
    (now : ℕ) (reason : Text) (s : Session) (w w' : Store)
    → prepare_unclaimed now reason s w ≡ ok w'
    → Outcome w s w'
unfolding prepare_unclaimed
prepare_unclaimed-Outcome now reason s w w' h =
    unclaimed now s.version _ s w w' _ (λ t. record { at_row = refl; same_outbox = refl }) h

prepare_claimed-Outcome :
    (now : ℕ) (reason : Text) (s : Session) (w w' : Store)
    → prepare_claimed now reason s w ≡ ok w'
    → Outcome w s w'
unfolding prepare_claimed
prepare_claimed-Outcome now reason s w w' h =
    claimed now s.version _ (because reason) s w w' _
      (λ t. record { at_row = refl; same_outbox = refl }) h

-- The log of a created command leaves the row and the outbox alone.
pub log_if_created-session :
    (reason : Text) (s : Session) (w w' : Store)
    → (log_if_created reason s w w').session ≡ w'.session
unfolding log_if_created
log_if_created-session reason s w w' =
    elim (Bool-cases (any (is_active_for (revoke_command s.id (because reason))) w.outbox)) [
      | inl e ↦ rw e refl
      | inr e ↦ rw e refl
    ]

log_if_created-outbox :
    (reason : Text) (s : Session) (w w' : Store) → (log_if_created reason s w w').outbox ≡ w'.outbox
unfolding log_if_created
log_if_created-outbox reason s w w' =
    elim (Bool-cases (any (is_active_for (revoke_command s.id (because reason))) w.outbox)) [
      | inl e ↦ rw e refl
      | inr e ↦ rw e refl
    ]

begun_logged :
    (now : ℕ) (reason : Text) (s : Session) (w w' : Store)
    → (begin_revoke now s >>= λ t.
        ok (log_if_created reason s w (queue_revoke s (because reason) (set_session t w))))
      ≡ ok w'
    → Outcome w s w'
unfolding queue_revoke
begun_logged now reason s w w' h =
    let (t, e, q) =
      >>=-eq-ok (begin_revoke now s)
        (λ t. ok (log_if_created reason s w (queue_revoke s (because reason) (set_session t w))))
        h in
    let edge = begin_revoke-IsEdge now s t e in
    commit s t w (log_if_created reason s w (queue_revoke s (because reason) (set_session t w))) w'
      (one_edge s t edge.0)
      (log_if_created-session reason s w (queue_revoke s (because reason) (set_session t w)))
      (λ y.
        rw (log_if_created-outbox reason s w (queue_revoke s (because reason) (set_session t w)))
          (rw edge.0.same_id (create_if_no_active-has_command s.id (because reason) w.outbox)))
      (queued-Entry w.outbox s t (because reason) _
        (log_if_created-outbox reason s w (queue_revoke s (because reason) (set_session t w)))
        (ap most edge.1))
      q

pub prepare_from-Outcome :
    (status : SessionStatus) (now : ℕ) (reason : Text) (s : Session) (w w' : Store)
    → s.status ≡ status
    → w.session ≡ some s
    → prepare_from status now reason s w ≡ ok w'
    → Outcome w s w'
unfolding prepare_from
prepare_from-Outcome provisioning now reason s w w' st i h =
    either (s.version == 0) _ _ s w w' (prepare_unclaimed-Outcome now reason s w w')
      (prepare_claimed-Outcome now reason s w w') h
prepare_from-Outcome revoking now reason s w w' st i h =
    unmoved_queued s w w' (because reason) i (ap most st) h
prepare_from-Outcome expired now reason s w w' st i h = unmoved s w w' i (ap needs_command st) h
prepare_from-Outcome closed now reason s w w' st i h = unmoved s w w' i (ap needs_command st) h
prepare_from-Outcome failed now reason s w w' st i h = unmoved s w w' i (ap needs_command st) h
prepare_from-Outcome manual_intervention now reason s w w' st i h = begun_logged now reason s w w' h
prepare_from-Outcome running now reason s w w' st i h = begun_logged now reason s w w' h
prepare_from-Outcome revoke_failed now reason s w w' st i h = begun_logged now reason s w w' h

closing_kept : (b : Bool) → is_given_up (if b then expired else closed) ≡ false
closing_kept true = refl
closing_kept false = refl

closing_needs : (b : Bool) → needs_command (if b then expired else closed) ≡ false
closing_needs true = refl
closing_needs false = refl

finish_row-Outcome :
    (now : ℕ) (reason : Text) (status : SessionStatus) (s : Session) (w w' : Store)
    → needs_command status ≡ false
    → is_given_up status ≡ false
    → finish_row now reason status s w ≡ ok w'
    → Outcome w s w'
unfolding finish_row text_eq
finish_row-Outcome now reason status s w w' n g h =
    let (t, e, q) = >>=-eq-ok (mark_closed now status s) _ h in
    let edge = mark_closed-IsEdge now status s t e in
    moved s t w _ w' edge.0 (ap needs_command edge.1 ∙ n) (ap is_given_up edge.1 ∙ g) refl
      (other-Entry w.outbox s t _ _ refl refl) q

pub finish_from-Outcome :
    (status : SessionStatus) (now : ℕ) (response_status reason : Text) (s : Session) (w w' : Store)
    → s.status ≡ status
    → w.session ≡ some s
    → finish_from status now response_status reason s w ≡ ok w'
    → Outcome w s w'
unfolding finish_from
finish_from-Outcome revoking now response_status reason s w w' st i h =
    finish_row-Outcome now reason _ s w w' (closing_needs _) (closing_kept _) h
finish_from-Outcome expired now response_status reason s w w' st i h =
    unmoved s w w' i (ap needs_command st) h
finish_from-Outcome closed now response_status reason s w w' st i h =
    unmoved s w w' i (ap needs_command st) h
finish_from-Outcome failed now response_status reason s w w' st i h =
    unmoved s w w' i (ap needs_command st) h
finish_from-Outcome provisioning now response_status reason s w w' st i h = cc
finish_from-Outcome running now response_status reason s w w' st i h = cc
finish_from-Outcome revoke_failed now response_status reason s w w' st i h = cc
finish_from-Outcome manual_intervention now response_status reason s w w' st i h = cc

-- `fail_revoke` on the row `s`, which came from the row `r`.
fail_revoke-Outcome :
    (now : ℕ) (reason : Text) (r s : Session) (v w w' : Store)
    → ((t : Session) → IsEdge s t → Advance r t × (t.id ≡ s.id))
    → s.id ≡ r.id
    → w.outbox ≡ v.outbox
    → fail_revoke now reason s w ≡ ok w'
    → Outcome v r w'
unfolding fail_revoke queue_revoke
fail_revoke-Outcome now reason r s v w w' a same o h =
    let (t, e, q) =
      >>=-eq-ok (mark_revoke_failed now (codes "gateway_session_revoke_failed") s) _ h in
    let edge = mark_revoke_failed-IsEdge now (codes "gateway_session_revoke_failed") s t e in
    let b = a t edge.0 in
    commit r t v _ w' b.0 refl
      (λ y. rw b.1 (create_if_no_active-has_command s.id (because reason) w.outbox))
      (queued-Entry v.outbox r t (because reason) _
        (ap₂ (λ x y. create_if_no_active (revoke_command x (because reason)) y) same o)
        (ap most edge.1))
      q

persist_begun :
    (now : ℕ) (reason : Text) (s : Session) (w w' : Store)
    → (begin_revoke now s >>= λ t. fail_revoke now reason t (set_session t w)) ≡ ok w'
    → Outcome w s w'
persist_begun now reason s w w' h =
    let (t, e, q) =
      >>=-eq-ok (begin_revoke now s) (λ t. fail_revoke now reason t (set_session t w)) h in
    let edge = begin_revoke-IsEdge now s t e in
    fail_revoke-Outcome now reason s t w (set_session t w) w'
      (λ u f. (follows s t u edge.0 (one_edge t u f), f.same_id)) edge.0.same_id refl q

pub persist_from-Outcome :
    (status : SessionStatus) (now : ℕ) (reason : Text) (s : Session) (w w' : Store)
    → s.status ≡ status
    → w.session ≡ some s
    → persist_from status now reason s w ≡ ok w'
    → Outcome w s w'
unfolding persist_from
persist_from-Outcome provisioning now reason s w w' st i h = cc
persist_from-Outcome revoking now reason s w w' st i h =
    fail_revoke-Outcome now reason s s w w w' (λ t f. (one_edge s t f, f.same_id)) refl refl h
persist_from-Outcome expired now reason s w w' st i h = unmoved s w w' i (ap needs_command st) h
persist_from-Outcome closed now reason s w w' st i h = unmoved s w w' i (ap needs_command st) h
persist_from-Outcome failed now reason s w w' st i h = unmoved s w w' i (ap needs_command st) h
persist_from-Outcome manual_intervention now reason s w w' st i h =
    persist_begun now reason s w w' h
persist_from-Outcome running now reason s w w' st i h = persist_begun now reason s w w' h
persist_from-Outcome revoke_failed now reason s w w' st i h = persist_begun now reason s w w' h
