-- ===== src/Delivery/Endings.antt =====
-- Where a call of `RevokeSession` (internal/service/access.go) may return without an error.
use access_gateway.Prelude.{
  ℕ, ◌≡◌, refl, ap, ◌∙◌, Bool, true, false, some, Text, if◌then◌else◌, arith, ◌⊎◌, inl, inr, Result,
  ok, ◌>>=◌, >>=-eq-ok,
}
use mathlib.Core.Path.{subst}
use access_gateway.Access.Model.{
  because, SessionStatus, provisioning, running, revoking, expired, closed, failed, revoke_failed,
  manual_intervention, Session, Store, ServiceError, queue_revoke, set_session,
}
use access_gateway.Access.Rows.{is_provisioning, is_revoking, begin_revoke, mark_closed}
use access_gateway.Access.Moves.{begin_revoke-IsEdge, mark_closed-IsEdge}
use access_gateway.Access.Revokes.{
  prepare_from, prepare_revoke, log_if_created, finish_row, finish_from, finish_revoke,
  closing_status,
}
use access_gateway.Access.Revocation.{log_if_created-session}
use access_gateway.Access.Locked.{eq-store, locked_at}
use access_gateway.Delivery.Dispatch.{is_over}

-- The row after the first transaction is in `revoking` or at an end.
pub record IsPrepared (w' : Store) : Type 0 where
  pub row : Session
  pub is_row : w'.session ≡ some row
  pub state : (is_revoking row.status ≡ true) ⊎ (is_over row.status ≡ true)

prepared :
    (t : Session) (w w' : Store)
    → w.session ≡ some t
    → (is_revoking t.status ≡ true) ⊎ (is_over t.status ≡ true)
    → Path (Result ServiceError Store) (ok w) (ok w')
    → IsPrepared w'
prepared t w w' i st h =
    subst IsPrepared (eq-store w w' h) (record { row = t; is_row = i; state = st })

prepared_begun :
    (now : ℕ) (reason : Text) (s : Session) (w w' : Store)
    → (begin_revoke now s >>= λ t.
        ok (log_if_created reason s w (queue_revoke s (because reason) (set_session t w))))
      ≡ ok w'
    → IsPrepared w'
unfolding queue_revoke
prepared_begun now reason s w w' h =
    let (t, e, q) =
      >>=-eq-ok (begin_revoke now s)
        (λ t. ok (log_if_created reason s w (queue_revoke s (because reason) (set_session t w))))
        h in
    prepared t (log_if_created reason s w (queue_revoke s (because reason) (set_session t w))) w'
      (log_if_created-session reason s w (queue_revoke s (because reason) (set_session t w)))
      (inl (ap is_revoking (begin_revoke-IsEdge now s t e).1)) q

prepare_from-IsPrepared :
    (status : SessionStatus) (now : ℕ) (reason : Text) (s : Session) (w w' : Store)
    → s.status ≡ status
    → w.session ≡ some s
    → is_provisioning status ≡ false
    → prepare_from status now reason s w ≡ ok w'
    → IsPrepared w'
unfolding prepare_from queue_revoke
prepare_from-IsPrepared provisioning now reason s w w' st i b h = ground (arith, b)
prepare_from-IsPrepared revoking now reason s w w' st i b h =
    prepared s (queue_revoke s (because reason) w) w' i (inl (ap is_revoking st)) h
prepare_from-IsPrepared expired now reason s w w' st i b h =
    prepared s w w' i (inr (ap is_over st)) h
prepare_from-IsPrepared closed now reason s w w' st i b h =
    prepared s w w' i (inr (ap is_over st)) h
prepare_from-IsPrepared failed now reason s w w' st i b h =
    prepared s w w' i (inr (ap is_over st)) h
prepare_from-IsPrepared running now reason s w w' st i b h = prepared_begun now reason s w w' h
prepare_from-IsPrepared revoke_failed now reason s w w' st i b h =
    prepared_begun now reason s w w' h
prepare_from-IsPrepared manual_intervention now reason s w w' st i b h =
    prepared_begun now reason s w w' h

pub prepare_revoke-IsPrepared :
    (now : ℕ) (reason : Text) (s : Session) (w w' : Store)
    → w.session ≡ some s
    → is_provisioning s.status ≡ false
    → prepare_revoke now reason w ≡ ok w'
    → IsPrepared w'
unfolding prepare_revoke
prepare_revoke-IsPrepared now reason s w w' i b h =
    prepare_from-IsPrepared s.status now reason s w w' refl i b (locked_at _ w.session s w' i h)

-- The row after the second transaction is at an end.
pub record IsFinished (w' : Store) : Type 0 where
  pub row : Session
  pub is_row : w'.session ≡ some row
  pub over : is_over row.status ≡ true

finished :
    (t : Session) (w w' : Store)
    → w.session ≡ some t
    → is_over t.status ≡ true
    → Path (Result ServiceError Store) (ok w) (ok w')
    → IsFinished w'
finished t w w' i st h =
    subst IsFinished (eq-store w w' h) (record { row = t; is_row = i; over = st })

closing-over : (b : Bool) → is_over (if b then expired else closed) ≡ true
closing-over true = refl
closing-over false = refl

finish_row-IsFinished :
    (now : ℕ) (reason : Text) (status : SessionStatus) (s : Session) (w w' : Store)
    → is_over status ≡ true
    → finish_row now reason status s w ≡ ok w'
    → IsFinished w'
unfolding finish_row
finish_row-IsFinished now reason status s w w' n h =
    let (t, e, q) = >>=-eq-ok (mark_closed now status s) _ h in
    finished t _ w' refl (ap is_over (mark_closed-IsEdge now status s t e).1 ∙ n) q

finish_from-IsFinished :
    (status : SessionStatus) (now : ℕ) (response_status reason : Text) (s : Session) (w w' : Store)
    → s.status ≡ status
    → w.session ≡ some s
    → finish_from status now response_status reason s w ≡ ok w'
    → IsFinished w'
unfolding finish_from
finish_from-IsFinished revoking now response_status reason s w w' st i h =
    finish_row-IsFinished now reason (closing_status response_status reason) s w w' (closing-over _)
      h
finish_from-IsFinished expired now response_status reason s w w' st i h =
    finished s w w' i (ap is_over st) h
finish_from-IsFinished closed now response_status reason s w w' st i h =
    finished s w w' i (ap is_over st) h
finish_from-IsFinished failed now response_status reason s w w' st i h =
    finished s w w' i (ap is_over st) h
finish_from-IsFinished provisioning now response_status reason s w w' st i h = cc
finish_from-IsFinished running now response_status reason s w w' st i h = cc
finish_from-IsFinished revoke_failed now response_status reason s w w' st i h = cc
finish_from-IsFinished manual_intervention now response_status reason s w w' st i h = cc

pub finish_revoke-IsFinished :
    (now : ℕ) (response_status reason : Text) (s : Session) (w w' : Store)
    → w.session ≡ some s
    → finish_revoke now response_status reason w ≡ ok w'
    → IsFinished w'
unfolding finish_revoke
finish_revoke-IsFinished now response_status reason s w w' i h =
    finish_from-IsFinished s.status now response_status reason s w w' refl i
      (locked_at _ w.session s w' i h)
