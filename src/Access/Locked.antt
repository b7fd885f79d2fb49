-- ===== src/Access/Locked.antt =====
-- internal/service/access.go: the UPDATEs of a locked row keep or need the revoke command.
use access_gateway.Prelude.{
  ap, ℕ, List, ◌+◌, ◌≤◌, ◌≡◌, refl, Bool, true, false, ◌&&◌, ◌||◌, Option, some, Text, ◌==◌, leb,
  if◌then◌else◌, Result, ok, err, >>=-eq-ok, ◌⊎◌, inl, inr, arith,
}
use access_gateway.Access.Model.{
  SessionStatus, provisioning, running, revoking, expired, closed, failed, revoke_failed,
  manual_intervention, Session, Store, OutboxEvent, ServiceError, set_session,
}
use access_gateway.Access.Rows.{
  claim_provisioning_on_gateway, renew_provisioning_lease, mark_runtime_terminated,
  mark_provision_revoke_failed, update_row, is_provisioning, is_runtime_end,
}
use access_gateway.Access.Life.{IsEdge, renews, stays}
use access_gateway.Access.Moves.{renew-IsRenewal}
use access_gateway.Access.Commands.{needs_command}
use access_gateway.Access.Booking.{Outcome, commit}
use access_gateway.Access.Sessions.{on_row}
use access_gateway.Access.Steps.{update_session}
use access_gateway.Access.Requests.{reap_from}
use access_gateway.Access.Ledger.{count, most, kept-Entry}
use access_gateway.Access.Outcomes.{is_given_up, moved}
use access_gateway.Access.Expiry.{reap_row-Outcome}

-- The locked row is the one the store has.
pub locked_at :
    (f : Session → Result ServiceError Store) (o : Option Session) (s : Session) (w' : Store)
    → o ≡ some s
    → on_row f o ≡ ok w'
    → f s ≡ ok w'
locked_at f o s w' i h = rw i at h

pub updated-Outcome :
    (f : Session → Result ServiceError Session) (s : Session) (w w' : Store)
    → ((t : Session)
        → f s ≡ ok t
        → IsEdge s t × (needs_command t.status ≡ false) × (is_given_up t.status ≡ false))
    → w.session ≡ some s
    → update_session f w ≡ ok w'
    → Outcome w s w'
updated-Outcome f s w w' edge i h =
    let (t, e, q) = >>=-eq-ok (f s) (λ t. ok (set_session t w)) (locked_at _ w.session s w' i h) in
    let d = edge t e in
    moved s t w (set_session t w) w' d.0 d.1 d.2 refl (kept-Entry w.outbox s t w.outbox refl) q

-- A renewal of the lease.
pub renewed-Outcome :
    (now expected : ℕ) (s : Session) (w w' : Store)
    → w.session ≡ some s
    → update_session (renew_provisioning_lease now expected) w ≡ ok w'
    → Outcome w s w'
renewed-Outcome now expected s w w' i h =
    let (t, e, q) =
      >>=-eq-ok (renew_provisioning_lease now expected s) (λ t. ok (set_session t w))
        (locked_at _ w.session s w' i h) in
    let r = renew-IsRenewal now expected s t e in
    let st = ap (λ x. x.status) r.same in
    commit s t w (set_session t w) w' (renews s t t r (stays t)) refl
      (λ n. ground (arith, st, n, r.leased))
      (kept-Entry w.outbox s t w.outbox refl (omega (arith, ap most st))) q

provisioning_needs :
    (st : SessionStatus) (b c d : Bool)
    → (is_provisioning st && b && c && d) ≡ true
    → needs_command st ≡ false
provisioning_needs st b c d h = ground arith

provisioning_kept :
    (st : SessionStatus) (b c d : Bool)
    → (is_provisioning st && b && c && d) ≡ true
    → is_given_up st ≡ false
provisioning_kept st b c d h = ground arith

update_row-test : (b : Bool) (r t : Session) → update_row b r ≡ ok t → b ≡ true
update_row-test true r t h = refl
update_row-test false r t h = cc

pub claim_needs :
    (now expected stale_before : ℕ) (gateway_id : Text) (eligible : Bool) (s t : Session)
    → claim_provisioning_on_gateway now expected stale_before gateway_id eligible s ≡ ok t
    → needs_command s.status ≡ false
unfolding claim_provisioning_on_gateway
claim_needs now expected stale_before gateway_id eligible s t h =
    provisioning_needs s.status (s.version == expected)
      (s.version == 0 || leb s.updated_at stale_before) eligible
      (update_row-test
        (is_provisioning s.status
          && s.version == expected
          && (s.version == 0 || leb s.updated_at stale_before)
          && eligible)
        (record s { gateway_id = gateway_id; version = s.version + 1; updated_at = now }) t h)

pub claim_kept :
    (now expected stale_before : ℕ) (gateway_id : Text) (eligible : Bool) (s t : Session)
    → claim_provisioning_on_gateway now expected stale_before gateway_id eligible s ≡ ok t
    → is_given_up s.status ≡ false
unfolding claim_provisioning_on_gateway
claim_kept now expected stale_before gateway_id eligible s t h =
    provisioning_kept s.status (s.version == expected)
      (s.version == 0 || leb s.updated_at stale_before) eligible
      (update_row-test
        (is_provisioning s.status
          && s.version == expected
          && (s.version == 0 || leb s.updated_at stale_before)
          && eligible)
        (record s { gateway_id = gateway_id; version = s.version + 1; updated_at = now }) t h)

started_most_lem :
    (status : SessionStatus) (b : Bool) → (is_provisioning status && b) ≡ true → most status ≡ 0
started_most_lem status b h = ground arith

pub none_before :
    (now expected : ℕ) (reason : Text) (s t : Session) (events : List OutboxEvent)
    → mark_provision_revoke_failed now expected reason s ≡ ok t
    → count s.id events ≤ most s.status
    → count s.id events ≡ 0
unfolding mark_provision_revoke_failed
none_before now expected reason s t events h l =
    let b = update_row-test (is_provisioning s.status && s.version == expected) _ t h in
    omega (arith, l, started_most_lem s.status (s.version == expected) b)

ended_needs : (status : SessionStatus) → is_runtime_end status ≡ true → needs_command status ≡ false
ended_needs status h = ground arith

terminated_end :
    (b : Bool) (m : Result ServiceError Session) (e : ServiceError) (t : Session)
    → (if b then m else err e) ≡ ok t
    → b ≡ true
terminated_end true m e t h = refl
terminated_end false m e t h = cc

pub terminate_needs :
    (now : ℕ) (status : SessionStatus) (reason : Option Text) (s t : Session)
    → mark_runtime_terminated now status reason s ≡ ok t
    → needs_command status ≡ false
unfolding mark_runtime_terminated
terminate_needs now status reason s t h =
    ended_needs status (terminated_end (is_runtime_end status) _ _ t h)

ended_kept : (status : SessionStatus) → is_runtime_end status ≡ true → is_given_up status ≡ false
ended_kept status h = ground arith

pub terminate_kept :
    (now : ℕ) (status : SessionStatus) (reason : Option Text) (s t : Session)
    → mark_runtime_terminated now status reason s ≡ ok t
    → is_given_up status ≡ false
unfolding mark_runtime_terminated
terminate_kept now status reason s t h =
    ended_kept status (terminated_end (is_runtime_end status) _ _ t h)

pub eq-store : (w w' : Store) → Path (Result ServiceError Store) (ok w) (ok w') → w ≡ w'
eq-store w w' h = cc

pub eq-pair : (a b : Bool × Store) → Path (Result ServiceError (Bool × Store)) (ok a) (ok b) → a ≡ b
eq-pair a b h = cc

either_reaped :
    (b : Bool) (s : Session) (w w' : Store) {m : Result ServiceError Store}
    → (m ≡ ok w' → Outcome w s w')
    → (if b then m else ok w) ≡ ok w'
    → Outcome w s w' ⊎ (w ≡ w')
either_reaped true s w w' f h = inl (f h)
either_reaped false s w w' f h = inr (eq-store w w' h)

pub reap_from-Outcome :
    (status : SessionStatus) (now : ℕ) (s : Session) (w w' : Store)
    → reap_from status now s w ≡ ok w'
    → Outcome w s w' ⊎ (w ≡ w')
unfolding reap_from
reap_from-Outcome running now s w w' h = either_reaped _ s w w' (reap_row-Outcome now s w w') h
reap_from-Outcome provisioning now s w w' h = inr (eq-store w w' h)
reap_from-Outcome revoking now s w w' h = inr (eq-store w w' h)
reap_from-Outcome expired now s w w' h = inr (eq-store w w' h)
reap_from-Outcome closed now s w w' h = inr (eq-store w w' h)
reap_from-Outcome failed now s w w' h = inr (eq-store w w' h)
reap_from-Outcome revoke_failed now s w w' h = inr (eq-store w w' h)
reap_from-Outcome manual_intervention now s w w' h = inr (eq-store w w' h)
