-- ===== src/Access/Override.antt =====
-- `ForceCloseSession` (internal/service/access.go) as the administrator's way out: it always gets
-- through.
use access_gateway.Prelude.{
  ℕ, ◌+◌, ◌≡◌, refl, ap, Bool, true, false, Option, some, Text, ◌==◌, ◌&&◌, if◌then◌else◌, Result,
  ok, ◌>>=◌, arith,
}
use access_gateway.Access.Model.{
  SessionStatus, provisioning, running, revoking, expired, closed, failed, revoke_failed,
  manual_intervention, Session, Store, ServiceError, queue_revoke,
}
use access_gateway.Access.Life.{is_stopping}
use access_gateway.Access.Rows.{
  update_row, is_provisioning, can_begin_revoke, begin_revoke, mark_provision_failed,
  mark_provision_revoke_failed,
}
use access_gateway.Access.Sessions.{
  by_operator, on_row, force_close_unclaimed, force_close_claimed, force_close_from,
  force_close_session,
}

-- A transaction that commits a session in one of them.
pub record IsStopped (r : Result ServiceError Store) : Type 0 where
  pub store : Store
  pub row : Session
  pub commits : r ≡ ok store
  pub is_row : store.session ≡ some row
  pub stopping : is_stopping row.status ≡ true

stop :
    (b : Bool) (t : Session) (tail : Session → Store)
    → b ≡ true
    → is_stopping t.status ≡ true
    → (tail t).session ≡ some t
    → IsStopped (update_row b t >>= λ s. ok (tail s))
stop true t tail h n i = record {
  store = tail t;
  row = t;
  commits = refl;
  is_row = i;
  stopping = n;
}
stop false t tail h n i = ground arith

claimable : (st : SessionStatus) (n : ℕ) → st ≡ provisioning → (is_provisioning st && n == n) ≡ true
claimable st n h = ground (arith, ap is_provisioning h)

force_close_begun :
    (now : ℕ) (admin_id reason : Text) (s : Session) (tail : Session → Store)
    → can_begin_revoke s.status ≡ true
    → ((t : Session) → (tail t).session ≡ some t)
    → IsStopped (begin_revoke now s >>= λ t. ok (tail t))
unfolding begin_revoke
force_close_begun now admin_id reason s tail h i =
    stop (can_begin_revoke s.status)
      (record s { status = revoking; version = s.version + 1; updated_at = now }) tail h refl (i _)

kept :
    (s : Session) (w : Store) → w.session ≡ some s → is_stopping s.status ≡ true → IsStopped (ok w)
kept s w i n = record { store = w; row = s; commits = refl; is_row = i; stopping = n }

force_close_unclaimed-IsStopped :
    (now : ℕ) (admin_id reason : Text) (s : Session) (w : Store)
    → s.status ≡ provisioning
    → IsStopped (force_close_unclaimed now admin_id reason s w)
unfolding force_close_unclaimed mark_provision_failed
force_close_unclaimed-IsStopped now admin_id reason s w st =
    stop (is_provisioning s.status && s.version == s.version) _ _ (claimable s.status s.version st)
      refl refl

force_close_claimed-IsStopped :
    (now : ℕ) (admin_id reason : Text) (s : Session) (w : Store)
    → s.status ≡ provisioning
    → IsStopped (force_close_claimed now admin_id reason s w)
unfolding force_close_claimed mark_provision_revoke_failed queue_revoke
force_close_claimed-IsStopped now admin_id reason s w st =
    stop (is_provisioning s.status && s.version == s.version) _ _ (claimable s.status s.version st)
      refl refl

either :
    (b : Bool) (m n : Result ServiceError Store)
    → IsStopped m
    → IsStopped n
    → IsStopped (if b then m else n)
either true m n f g = f
either false m n f g = g

force_close_from-IsStopped :
    (status : SessionStatus) (now : ℕ) (admin_id reason : Text) (s : Session) (w : Store)
    → s.status ≡ status
    → w.session ≡ some s
    → IsStopped (force_close_from status now admin_id reason s w)
unfolding force_close_from queue_revoke
force_close_from-IsStopped provisioning now admin_id reason s w st i =
    either (s.version == 0) _ _ (force_close_unclaimed-IsStopped now admin_id reason s w st)
      (force_close_claimed-IsStopped now admin_id reason s w st)
force_close_from-IsStopped revoking now admin_id reason s w st i =
    kept s (queue_revoke s (by_operator admin_id reason) w) i (ap is_stopping st)
force_close_from-IsStopped expired now admin_id reason s w st i = kept s w i (ap is_stopping st)
force_close_from-IsStopped closed now admin_id reason s w st i = kept s w i (ap is_stopping st)
force_close_from-IsStopped failed now admin_id reason s w st i = kept s w i (ap is_stopping st)
force_close_from-IsStopped running now admin_id reason s w st i =
    force_close_begun now admin_id reason s _ (ap can_begin_revoke st) (λ t. refl)
force_close_from-IsStopped revoke_failed now admin_id reason s w st i =
    force_close_begun now admin_id reason s _ (ap can_begin_revoke st) (λ t. refl)
force_close_from-IsStopped manual_intervention now admin_id reason s w st i =
    force_close_begun now admin_id reason s _ (ap can_begin_revoke st) (λ t. refl)

on_row-IsStopped :
    (f : Session → Result ServiceError Store) (o : Option Session) (s : Session)
    → o ≡ some s
    → IsStopped (f s)
    → IsStopped (on_row f o)
on_row-IsStopped f o s i t = rw i t

-- From every state of a session a forced close commits, and leaves it ended or on its way there:
-- neither provisioning, running nor left for manual intervention.
pub force_close_session-IsStopped :
    (now : ℕ) (admin_id reason : Text) (s : Session) (w : Store)
    → w.session ≡ some s
    → IsStopped (force_close_session now admin_id reason w)
unfolding force_close_session
force_close_session-IsStopped now admin_id reason s w i =
    on_row-IsStopped _ w.session s i
      (force_close_from-IsStopped s.status now admin_id reason s w refl i)
