-- ===== src/Access/Outcomes.antt =====
-- What the transactions of internal/service/access.go leave of a session, each for a row that it
-- has locked.
use access_gateway.Prelude.{
  ℕ, ◌≤◌, ◌≡◌, refl, ap, Bool, true, false, some, Text, codes, ◌==◌, if◌then◌else◌, Result, ok,
  ◌>>=◌, >>=-eq-ok, arith,
}
use access_gateway.Access.Model.{
  SessionStatus, provisioning, running, revoking, expired, closed, failed, revoke_failed,
  manual_intervention, Session, Store, ServiceError, queue_revoke, create_if_no_active, Details,
  because, revoke_command,
}
use access_gateway.Access.Rows.{mark_provision_failed, mark_provision_revoke_failed, begin_revoke}
use access_gateway.Access.Life.{IsEdge, Advance, stays, is_move}
use access_gateway.Access.Ledger.{Entry, most, kept-Entry, queued-Entry}
use access_gateway.Access.Moves.{
  begin_revoke-IsEdge, mark_provision_failed-IsEdge, mark_provision_revoke_failed-IsEdge,
}
use access_gateway.Access.Commands.{needs_command, create_if_no_active-has_command}
use access_gateway.Access.Booking.{Outcome, commit, one_edge}
use access_gateway.Access.Sessions.{
  by_operator, close_from, force_close_unclaimed, force_close_claimed, force_close_from,
}
use access_gateway.Access.Revokes.{enqueue_from}

abbrev pub is_given_up : SessionStatus → Bool
is_given_up manual_intervention = true
is_given_up _ = false

-- The row is left alone, in a state that needs no command.
pub unmoved :
    (s : Session) (w w' : Store)
    → w.session ≡ some s
    → needs_command s.status ≡ false
    → Path (Result ServiceError Store) (ok w) (ok w')
    → Outcome w s w'
unmoved s w w' i n h =
    commit s s w w w' (stays s) i (λ y. ground arith)
      (kept-Entry w.outbox s s w.outbox refl (omega arith)) h

-- The row is left in `revoking`, and `queue_revoke` is called.
pub unmoved_queued :
    (s : Session) (w w' : Store) (reason : Details)
    → w.session ≡ some s
    → most s.status ≡ 1
    → Path (Result ServiceError Store) (ok (queue_revoke s reason w)) (ok w')
    → Outcome w s w'
unfolding queue_revoke
unmoved_queued s w w' reason i m h =
    commit s s w (queue_revoke s reason w) w' (stays s) i
      (λ y. create_if_no_active-has_command s.id reason w.outbox)
      (queued-Entry w.outbox s s reason _ refl m) h

edge_most :
    (from to : SessionStatus)
    → is_move from to ≡ true
    → is_given_up to ≡ false
    → most from ≤ most to
edge_most from to m g = ground arith

-- One UPDATE to a state that needs no command, other than a giving up.
pub moved :
    (s t : Session) (v w w' : Store)
    → IsEdge s t
    → needs_command t.status ≡ false
    → is_given_up t.status ≡ false
    → w.session ≡ some t
    → (most s.status ≤ most t.status → Entry v.outbox s t w.outbox)
    → Path (Result ServiceError Store) (ok w) (ok w')
    → Outcome v s w'
moved s t v w w' e n g i f h =
    commit s t v w w' (one_edge s t e) i (λ y. ground arith)
      (f (edge_most s.status t.status e.moves g)) h

-- UPDATEs, then `queue_revoke`.
pub moved_queued :
    (s t : Session) (v w w' : Store) (reason : Details)
    → Advance s t
    → t.id ≡ s.id
    → most t.status ≡ 1
    → w.session ≡ some t
    → w.outbox ≡ v.outbox
    → Path (Result ServiceError Store) (ok (queue_revoke s reason w)) (ok w')
    → Outcome v s w'
unfolding queue_revoke
moved_queued s t v w w' reason a same m i o h =
    commit s t v (queue_revoke s reason w) w' a i
      (λ y. rw same (create_if_no_active-has_command s.id reason w.outbox))
      (queued-Entry v.outbox s t reason _ (ap (create_if_no_active (revoke_command s.id reason)) o)
        m)
      h

-- A store with the row `t` and the outbox of `v`.
pub record IsAt (v : Store) (t : Session) (w : Store) : Type 0 where
  pub at_row : w.session ≡ some t
  pub same_outbox : w.outbox ≡ v.outbox

begun :
    (now : ℕ) (s : Session) (v w' : Store) (reason : Details) (tail : Session → Store)
    → ((t : Session) → IsAt v t (tail t))
    → (begin_revoke now s >>= λ t. ok (queue_revoke s reason (tail t))) ≡ ok w'
    → Outcome v s w'
begun now s v w' reason tail i h =
    let (t, e, q) = >>=-eq-ok (begin_revoke now s) (λ t. ok (queue_revoke s reason (tail t))) h in
    let edge = begin_revoke-IsEdge now s t e in
    moved_queued s t v (tail t) w' reason (one_edge s t edge.0) edge.0.same_id (ap most edge.1)
      (i t).at_row (i t).same_outbox q

pub close_from-Outcome :
    (status : SessionStatus) (now : ℕ) (user_id : Text) (s : Session) (w w' : Store)
    → s.status ≡ status
    → w.session ≡ some s
    → close_from status now user_id s w ≡ ok w'
    → Outcome w s w'
unfolding close_from
close_from-Outcome provisioning now user_id s w w' st i h = cc
close_from-Outcome revoking now user_id s w w' st i h =
    unmoved_queued s w w' (because (codes "user_closed")) i (ap most st) h
close_from-Outcome expired now user_id s w w' st i h = unmoved s w w' i (ap needs_command st) h
close_from-Outcome closed now user_id s w w' st i h = unmoved s w w' i (ap needs_command st) h
close_from-Outcome failed now user_id s w w' st i h = unmoved s w w' i (ap needs_command st) h
close_from-Outcome manual_intervention now user_id s w w' st i h =
    unmoved s w w' i (ap needs_command st) h
close_from-Outcome running now user_id s w w' st i h =
    begun now s w w' (because (codes "user_closed")) _
      (λ t. record { at_row = refl; same_outbox = refl }) h
close_from-Outcome revoke_failed now user_id s w w' st i h =
    begun now s w w' (because (codes "user_closed")) _
      (λ t. record { at_row = refl; same_outbox = refl }) h

-- An unclaimed session fails; a claimed one goes to `revoke_failed` with a command.
pub unclaimed :
    (now expected : ℕ) (why : Text) (s : Session) (v w' : Store) (tail : Session → Store)
    → ((t : Session) → IsAt v t (tail t))
    → (mark_provision_failed now expected why s >>= λ t. ok (tail t)) ≡ ok w'
    → Outcome v s w'
unclaimed now expected why s v w' tail i h =
    let (t, e, q) = >>=-eq-ok (mark_provision_failed now expected why s) (λ t. ok (tail t)) h in
    let edge = mark_provision_failed-IsEdge now expected why s t e in
    moved s t v (tail t) w' edge.0 (ap needs_command edge.1) (ap is_given_up edge.1) (i t).at_row
      (kept-Entry v.outbox s t (tail t).outbox (i t).same_outbox) q

pub claimed :
    (now expected : ℕ) (why : Text) (reason : Details) (s : Session) (v w' : Store)
    (tail : Session → Store)
    → ((t : Session) → IsAt v t (tail t))
    → (mark_provision_revoke_failed now expected why s >>= λ t. ok (queue_revoke s reason (tail t)))
      ≡ ok w'
    → Outcome v s w'
claimed now expected why reason s v w' tail i h =
    let (t, e, q) =
      >>=-eq-ok (mark_provision_revoke_failed now expected why s)
        (λ t. ok (queue_revoke s reason (tail t))) h in
    let edge = mark_provision_revoke_failed-IsEdge now expected why s t e in
    moved_queued s t v (tail t) w' reason (one_edge s t edge.0) edge.0.same_id (ap most edge.1)
      (i t).at_row (i t).same_outbox q

force_close_unclaimed-Outcome :
    (now : ℕ) (admin_id reason : Text) (s : Session) (w w' : Store)
    → force_close_unclaimed now admin_id reason s w ≡ ok w'
    → Outcome w s w'
unfolding force_close_unclaimed
force_close_unclaimed-Outcome now admin_id reason s w w' h =
    unclaimed now s.version _ s w w' _ (λ t. record { at_row = refl; same_outbox = refl }) h

force_close_claimed-Outcome :
    (now : ℕ) (admin_id reason : Text) (s : Session) (w w' : Store)
    → force_close_claimed now admin_id reason s w ≡ ok w'
    → Outcome w s w'
unfolding force_close_claimed
force_close_claimed-Outcome now admin_id reason s w w' h =
    claimed now s.version _ _ s w w' _ (λ t. record { at_row = refl; same_outbox = refl }) h

-- A test of the code, and the two transactions under it.
pub either :
    (b : Bool) (m n : Result ServiceError Store) (s : Session) (w w' : Store)
    → (m ≡ ok w' → Outcome w s w')
    → (n ≡ ok w' → Outcome w s w')
    → (if b then m else n) ≡ ok w'
    → Outcome w s w'
either true m n s w w' f g h = f h
either false m n s w w' f g h = g h

pub force_close_from-Outcome :
    (status : SessionStatus) (now : ℕ) (admin_id reason : Text) (s : Session) (w w' : Store)
    → s.status ≡ status
    → w.session ≡ some s
    → force_close_from status now admin_id reason s w ≡ ok w'
    → Outcome w s w'
unfolding force_close_from
force_close_from-Outcome provisioning now admin_id reason s w w' st i h =
    either (s.version == 0) _ _ s w w' (force_close_unclaimed-Outcome now admin_id reason s w w')
      (force_close_claimed-Outcome now admin_id reason s w w') h
force_close_from-Outcome revoking now admin_id reason s w w' st i h =
    unmoved_queued s w w' (by_operator admin_id reason) i (ap most st) h
force_close_from-Outcome expired now admin_id reason s w w' st i h =
    unmoved s w w' i (ap needs_command st) h
force_close_from-Outcome closed now admin_id reason s w w' st i h =
    unmoved s w w' i (ap needs_command st) h
force_close_from-Outcome failed now admin_id reason s w w' st i h =
    unmoved s w w' i (ap needs_command st) h
force_close_from-Outcome manual_intervention now admin_id reason s w w' st i h =
    begun now s w w' (by_operator admin_id reason) _
      (λ t. record { at_row = refl; same_outbox = refl }) h
force_close_from-Outcome running now admin_id reason s w w' st i h =
    begun now s w w' (by_operator admin_id reason) _
      (λ t. record { at_row = refl; same_outbox = refl }) h
force_close_from-Outcome revoke_failed now admin_id reason s w w' st i h =
    begun now s w w' (by_operator admin_id reason) _
      (λ t. record { at_row = refl; same_outbox = refl }) h

pub enqueue_from-Outcome :
    (status : SessionStatus) (now : ℕ) (reason : Text) (s : Session) (w w' : Store)
    → s.status ≡ status
    → w.session ≡ some s
    → enqueue_from status now reason s w ≡ ok w'
    → Outcome w s w'
unfolding enqueue_from
enqueue_from-Outcome provisioning now reason s w w' st i h =
    unmoved s w w' i (ap needs_command st) h
enqueue_from-Outcome revoking now reason s w w' st i h =
    unmoved_queued s w w' (because reason) i (ap most st) h
enqueue_from-Outcome expired now reason s w w' st i h = unmoved s w w' i (ap needs_command st) h
enqueue_from-Outcome closed now reason s w w' st i h = unmoved s w w' i (ap needs_command st) h
enqueue_from-Outcome failed now reason s w w' st i h = unmoved s w w' i (ap needs_command st) h
enqueue_from-Outcome manual_intervention now reason s w w' st i h =
    begun now s w w' (because reason) _ (λ t. record { at_row = refl; same_outbox = refl }) h
enqueue_from-Outcome running now reason s w w' st i h =
    begun now s w w' (because reason) _ (λ t. record { at_row = refl; same_outbox = refl }) h
enqueue_from-Outcome revoke_failed now reason s w w' st i h =
    begun now s w w' (because reason) _ (λ t. record { at_row = refl; same_outbox = refl }) h
