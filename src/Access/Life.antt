-- ===== src/Access/Life.antt =====
-- The life of a session (internal/repository/sessions.go) as a graph on its states.
use access_gateway.Prelude.{
  ℕ, suc, ◌≡◌, refl, sym, ap, Bool, true, false, ◌&&◌, if◌then◌else◌, Result, ok, err, arith,
}
use mathlib.Core.Path.{subst}
use access_gateway.Access.Model.{
  SessionStatus, provisioning, running, revoking, expired, closed, failed, revoke_failed,
  manual_intervention, Session, ServiceError,
}
use access_gateway.Access.Rows.{
  update_row, is_provisioning, is_running, is_revoking, can_begin_revoke, can_give_up,
  is_runtime_end, is_closing,
}

-- The moves of the UPDATEs that raise the version: a claim keeps `provisioning`, nothing leaves a
-- final state, and a session that runs ends only through `revoking` or at the runtime's word.
abbrev pub is_move : SessionStatus → SessionStatus → Bool
is_move provisioning provisioning = true
is_move provisioning running = true
is_move provisioning failed = true
is_move provisioning revoke_failed = true
is_move running revoking = true
is_move running expired = true
is_move running failed = true
is_move revoking closed = true
is_move revoking expired = true
is_move revoking revoke_failed = true
is_move revoking manual_intervention = true
is_move revoke_failed revoking = true
is_move revoke_failed manual_intervention = true
is_move manual_intervention revoking = true
is_move _ _ = false

-- The states of a session that has ended or is on its way there.
abbrev pub is_stopping : SessionStatus → Bool
is_stopping revoking = true
is_stopping revoke_failed = true
is_stopping expired = true
is_stopping closed = true
is_stopping failed = true
is_stopping _ = false

pub record IsEdge (s s' : Session) : Type 0 where
  pub moves : is_move s.status s'.status ≡ true
  pub counts : s'.version ≡ suc s.version
  pub same_id : s'.id ≡ s.id
  pub same_request : s'.request_id ≡ s.request_id

-- A heartbeat of the worker that provisions the session.
pub record IsRenewal (s s' : Session) : Type 0 where
  pub leased : is_provisioning s.status ≡ true
  pub renewed_at : ℕ
  pub same : s' ≡ record s { updated_at = renewed_at }

-- Several edges and renewals, one after the other.
pub data Advance : Session → Session → Type 0 where
  stays : (s : Session) → Advance s s
  renews : (s t u : Session) → IsRenewal s t → Advance t u → Advance s u
  follows : (s t u : Session) → IsEdge s t → Advance t u → Advance s u

pub join : (s t u : Session) → Advance s t → Advance t u → Advance s u
join s t u (stays _) b = b
join s t u (renews _ v _ r a) b = renews s v u r (join v t u a b)
join s t u (follows _ v _ e a) b = follows s v u e (join v t u a b)

eq-ok : (r s' : Session) → Path (Result ServiceError Session) (ok r) (ok s') → r ≡ s'
eq-ok r s' h = cc

pub row_test : (b : Bool) (r s' : Session) → update_row b r ≡ ok s' → (b ≡ true) × (r ≡ s')
row_test true r s' h = (refl, eq-ok r s' h)
row_test false r s' h = cc

-- What an UPDATE must be for its success to be an edge to the row it writes.
pub row-IsEdge :
    (b : Bool) (s r s' : Session)
    → update_row b r ≡ ok s'
    → (b ≡ true → is_move s.status r.status ≡ true)
    → r.version ≡ suc s.version
    → r.id ≡ s.id
    → r.request_id ≡ s.request_id
    → IsEdge s s' × (s'.status ≡ r.status)
row-IsEdge true s r s' h m v i q =
    let e = eq-ok r s' h in
    (
      subst (λ x. IsEdge s x) e
          (record { moves = m refl; counts = v; same_id = i; same_request = q }),
      ap (λ x. x.status) (sym e),
    )
row-IsEdge false s r s' h m v i q = cc

pub test-ok :
    (b : Bool) (m : Result ServiceError Session) (e : ServiceError) {s' : Session}
    → (if b then m else err e) ≡ ok s'
    → (b ≡ true) × (m ≡ ok s')
test-ok true m e h = (refl, h)
test-ok false m e h = cc

pub provisioning_moves :
    (from to : SessionStatus) (b : Bool)
    → is_move provisioning to ≡ true
    → (is_provisioning from && b) ≡ true
    → is_move from to ≡ true
provisioning_moves from to b m h = ground arith

pub begin_moves :
    (from : SessionStatus) → can_begin_revoke from ≡ true → is_move from revoking ≡ true
begin_moves from h = ground arith

pub fail_moves :
    (from : SessionStatus) → is_revoking from ≡ true → is_move from revoke_failed ≡ true
fail_moves from h = ground arith

pub give_up_moves :
    (from : SessionStatus) → can_give_up from ≡ true → is_move from manual_intervention ≡ true
give_up_moves from h = ground arith

pub closing_moves :
    (from to : SessionStatus)
    → is_closing to ≡ true
    → is_revoking from ≡ true
    → is_move from to ≡ true
closing_moves from to c h = ground arith

pub ending_moves :
    (from to : SessionStatus)
    → is_runtime_end to ≡ true
    → is_running from ≡ true
    → is_move from to ≡ true
ending_moves from to c h = ground arith
