-- ===== src/Access/Expiry.antt =====
-- What `ReapExpired` and `markRevokeManualIntervention` (internal/service/access.go) leave of a
-- session.
use access_gateway.Prelude.{ℕ, ◌≡◌, refl, ap, ◌∙◌, false, some, Text, codes, ok, >>=-eq-ok, arith}
use mathlib.Core.Path.{subst}
use access_gateway.Access.Model.{
  because, SessionStatus, provisioning, running, revoking, expired, closed, failed, revoke_failed,
  manual_intervention, Session, Store,
}
use access_gateway.Access.Rows.{begin_revoke, mark_manual_intervention}
use access_gateway.Access.Moves.{begin_revoke-IsEdge, mark_manual_intervention-IsEdge}
use access_gateway.Access.Commands.{needs_command}
use access_gateway.Access.Booking.{Landed, Outcome, land, one_edge}
use access_gateway.Access.Life.{stays}
use access_gateway.Access.Ledger.{most}
use access_gateway.Access.Outcomes.{moved_queued}
use access_gateway.Access.Requests.{
  reschedule_failed, reschedule_store, give_up_row, give_up_from, reap_row,
}
use access_gateway.Access.Cancellation.{eq-store}

reschedule_store-session :
    (index : ℕ) (w w' : Store) → reschedule_store index w ≡ ok w' → w'.session ≡ w.session
unfolding reschedule_store
reschedule_store-session index w w' h =
    let (events, e, q) = >>=-eq-ok (reschedule_failed index w.outbox) _ h in
    subst (λ x. x.session ≡ w.session) (eq-store _ w' q) refl

give_up_row-Landed :
    (now index : ℕ) (reason : Text) (s : Session) (w w' : Store)
    → give_up_row now index reason s w ≡ ok w'
    → Landed s w'
unfolding give_up_row
give_up_row-Landed now index reason s w w' h =
    let (t, e, q) = >>=-eq-ok (mark_manual_intervention now reason s) _ h in
    let edge = mark_manual_intervention-IsEdge now reason s t e in
    land s t w' w' (one_edge s t edge.0) (reschedule_store-session index _ w' q)
      (λ y. ground (arith, edge.1)) refl

give_up_kept :
    (index : ℕ) (s : Session) (w w' : Store)
    → w.session ≡ some s
    → needs_command s.status ≡ false
    → reschedule_store index w ≡ ok w'
    → Landed s w'
give_up_kept index s w w' i n h =
    land s s w' w' (stays s) (reschedule_store-session index w w' h ∙ i) (λ y. ground arith) refl

pub give_up_from-Landed :
    (status : SessionStatus) (now index : ℕ) (reason : Text) (s : Session) (w w' : Store)
    → s.status ≡ status
    → w.session ≡ some s
    → give_up_from status now index reason s w ≡ ok w'
    → Landed s w'
unfolding give_up_from
give_up_from-Landed provisioning now index reason s w w' st i h = cc
give_up_from-Landed running now index reason s w w' st i h = cc
give_up_from-Landed revoking now index reason s w w' st i h =
    give_up_row-Landed now index reason s w w' h
give_up_from-Landed revoke_failed now index reason s w w' st i h =
    give_up_row-Landed now index reason s w w' h
give_up_from-Landed expired now index reason s w w' st i h =
    give_up_kept index s w w' i (ap needs_command st) h
give_up_from-Landed closed now index reason s w w' st i h =
    give_up_kept index s w w' i (ap needs_command st) h
give_up_from-Landed failed now index reason s w w' st i h =
    give_up_kept index s w w' i (ap needs_command st) h
give_up_from-Landed manual_intervention now index reason s w w' st i h =
    give_up_kept index s w w' i (ap needs_command st) h

pub reap_row-Outcome :
    (now : ℕ) (s : Session) (w w' : Store) → reap_row now s w ≡ ok w' → Outcome w s w'
unfolding reap_row
reap_row-Outcome now s w w' h =
    let (t, e, q) = >>=-eq-ok (begin_revoke now s) _ h in
    let edge = begin_revoke-IsEdge now s t e in
    moved_queued s t w _ w' (because (codes "expired")) (one_edge s t edge.0) edge.0.same_id
      (ap most edge.1) refl refl q
