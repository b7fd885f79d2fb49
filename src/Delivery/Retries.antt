-- ===== src/Delivery/Retries.antt =====
-- What `ProcessOutbox` (internal/service/access.go) does after a failed delivery keeps a world sound.
use access_gateway.Prelude.{
  ℕ, ◌+◌, ◌≡◌, refl, sym, ap, ◌∙◌, Bool, true, false, ◌&&◌, ◌||◌, not, List, Text, text_eq,
  if◌then◌else◌, arith, ◌⊎◌, inl, inr, Bool-cases, Result, ok, err, ◌>>=◌, >>=-eq-ok, In,
}
use mathlib.Core.Path.{subst}
use access_gateway.Access.Model.{
  SessionStatus, provisioning, running, revoking, expired, closed, failed, revoke_failed,
  manual_intervention, Session, Store, ServiceError, not_found, OutboxEvent, is_active,
  outbox_session_revoke,
}
use access_gateway.Access.Rows.{mark_manual_intervention}
use access_gateway.Access.Moves.{mark_manual_intervention-IsEdge}
use access_gateway.Access.Queue.{update_at, reschedule}
use access_gateway.Access.Life.{stays}
use access_gateway.Access.Commands.{needs_command}
use access_gateway.Access.Ledger.{most_one, IsFormed}
use access_gateway.Access.Booking.{one_edge}
use access_gateway.Access.Locked.{eq-store, locked_at}
use access_gateway.Access.Requests.{
  reschedule_failed, reschedule_store, give_up_row, give_up_from, mark_revoke_manual_intervention,
}
use access_gateway.Delivery.Dispatch.{
  is_revoke, session_of, is_supported, retries_exhausted, outbox_retry_delay, after_dispatch_error,
  on_session,
}
use access_gateway.Delivery.World.{Flight}
use access_gateway.Delivery.Updates.{Updated, update_at-Updated, count-Updated, at-Updated, IsSame}
use access_gateway.Delivery.Soundness.{
  IsSound, IsCarried, tick-same, tick-asleep, tick-other, revoke-tick, All-In, All-get,
}
use access_gateway.Delivery.Transactions.{Follows, kept-IsSound, ended-IsSound}
use access_gateway.Delivery.Calls.{found_or_not, on_session-none, on_session-some}
use access_gateway.Delivery.Worker.{reschedule-keeps, same_row}

-- The outbox row of a flight.
carried_row :
    (s : Session) (w : Store) (fs : List Flight) (f : Flight) {x y : OutboxEvent}
    {o : List OutboxEvent}
    → IsSound s (record { store = w; flights = fs })
    → In f fs
    → Updated x y f.index w.outbox o
    → IsSame f.event x
carried_row s w fs f {x} h i u =
    let c = All-In (IsCarried s w.outbox) f fs h.carried i in
    subst (IsSame f.event) (same_row c.entry.present x (sym c.entry.is_at ∙ (at-Updated u).0))
      c.entry.same

-- `Reschedule` in the transaction of `markRevokeManualIntervention`.
record IsRescheduled (index : ℕ) (w w' : Store) : Type 0 where
  before : OutboxEvent
  after : OutboxEvent
  update : Updated before after index w.outbox w'.outbox
  same : IsSame before after
  was_active : is_active before.status ≡ true
  not_active : is_active after.status ≡ false
  same_session : w'.session ≡ w.session

rescheduled :
    (index : ℕ) (w w' : Store) → reschedule_store index w ≡ ok w' → IsRescheduled index w w'
unfolding reschedule_store reschedule_failed
rescheduled index w w' h =
    let (o, k, q) = >>=-eq-ok (update_at (reschedule true 0) index w.outbox) _ h in
    let (x, y, m, u) = update_at-Updated (reschedule true 0) index w.outbox o k in
    let (same, a, b) = reschedule-keeps true 0 x y m in
    subst (IsRescheduled index w) (eq-store (record w { outbox = o }) w' q) (record {
      before = x;
      after = y;
      update = u;
      same = same;
      was_active = a;
      not_active = b;
      same_session = refl;
    })

given_up :
    (now : ℕ) (reason : Text) (f : Flight) (s : Session) (w w' : Store) (fs : List Flight)
    → IsSound s (record { store = w; flights = fs })
    → In f fs
    → is_revoke f.event ≡ true
    → session_of f.event ≡ s.id
    → give_up_row now f.index reason s w ≡ ok w'
    → Follows s (record { store = w'; flights = fs })
unfolding give_up_row
given_up now reason f s w w' fs h i r j k =
    let (t, e, q) = >>=-eq-ok (mark_manual_intervention now reason s) _ k in
    let edge = mark_manual_intervention-IsEdge now reason s t e in
    let v = rescheduled f.index _ w' q in
    let one =
      revoke-tick s.id f.event v.before (carried_row s w fs f h i v.update)
        (All-get IsFormed w.outbox f.index v.before h.formed (at-Updated v.update).0) r j
        v.was_active in
    record {
      row = t;
      advances = one_edge s t edge.0;
      sound =
          ended-IsSound s t w w' fs h v.update v.same_session (one_edge s t edge.0) v.same
            (λ a. v.not_active) (ap needs_command edge.1)
            (omega (
              arith,
              h.tidy,
              most_one s.status,
              one,
              count-Updated s.id v.update,
              tick-asleep s.id v.after v.not_active,
            ));
    }

put_away :
    (f : Flight) (s : Session) (w w' : Store) (fs : List Flight)
    → IsSound s (record { store = w; flights = fs })
    → needs_command s.status ≡ false
    → reschedule_store f.index w ≡ ok w'
    → Follows s (record { store = w'; flights = fs })
put_away f s w w' fs h n k =
    let v = rescheduled f.index w w' k in
    record {
      row = s;
      advances = stays s;
      sound =
          ended-IsSound s s w w' fs h v.update (v.same_session ∙ h.is_row) (stays s) v.same
            (λ a. v.not_active) n
            (omega
              (arith, h.tidy, count-Updated s.id v.update, tick-asleep s.id v.after v.not_active));
    }

gives_up_from :
    (status : SessionStatus) (now : ℕ) (reason : Text) (f : Flight) (s : Session) (w w' : Store)
    (fs : List Flight)
    → s.status ≡ status
    → IsSound s (record { store = w; flights = fs })
    → In f fs
    → is_revoke f.event ≡ true
    → session_of f.event ≡ s.id
    → give_up_from status now f.index reason s w ≡ ok w'
    → Follows s (record { store = w'; flights = fs })
unfolding give_up_from
gives_up_from provisioning now reason f s w w' fs st h i r j k = cc
gives_up_from running now reason f s w w' fs st h i r j k = cc
gives_up_from revoking now reason f s w w' fs st h i r j k =
    given_up now reason f s w w' fs h i r j k
gives_up_from revoke_failed now reason f s w w' fs st h i r j k =
    given_up now reason f s w w' fs h i r j k
gives_up_from expired now reason f s w w' fs st h i r j k =
    put_away f s w w' fs h (ap needs_command st) k
gives_up_from closed now reason f s w w' fs st h i r j k =
    put_away f s w w' fs h (ap needs_command st) k
gives_up_from failed now reason f s w w' fs st h i r j k =
    put_away f s w w' fs h (ap needs_command st) k
gives_up_from manual_intervention now reason f s w w' fs st h i r j k =
    put_away f s w w' fs h (ap needs_command st) k

-- The event goes back to the queue, or ends there when it is no revoke command.
requeued :
    (f : Flight) (terminal : Bool) (at : ℕ) (s : Session) (w w' : Store) (fs : List Flight)
    → IsSound s (record { store = w; flights = fs })
    → In f fs
    → (terminal ≡ false) ⊎ (is_revoke f.event ≡ false)
    → (update_at (reschedule terminal at) f.index w.outbox >>= λ o. ok (record w { outbox = o }))
      ≡ ok w'
    → Follows s (record { store = w'; flights = fs })
requeued f terminal at s w w' fs h i or k =
    let (o, m, q) = >>=-eq-ok (update_at (reschedule terminal at) f.index w.outbox) _ k in
    let (x, y, n, u) = update_at-Updated (reschedule terminal at) f.index w.outbox o m in
    let (same, a, b) = reschedule-keeps terminal at x y n in
    let types = carried_row s w fs f h i u in
    record {
      row = s;
      advances = stays s;
      sound =
          subst (λ v. IsSound s (record { store = v; flights = fs }))
            (eq-store (record w { outbox = o }) w' q)
            (kept-IsSound s w o fs h u same (λ c. ground (arith, a, c))
              (elim or [
                | inl t ↦ tick-same s.id x y same (a ∙ sym (b ∙ ap not t))
                | inr t ↦
                    let other = ap (λ z. text_eq z outbox_session_revoke) types.event_type ∙ t in
                    tick-other s.id y
                      (ap (λ z. text_eq z outbox_session_revoke) same.event_type ∙ other)
                    ∙ sym (tick-other s.id x other)
              ]));
    }

either-Follows :
    (b : Bool) (m n : Result ServiceError Store) (s : Session) (w' : Store) (fs : List Flight)
    → (b ≡ true → m ≡ ok w' → Follows s (record { store = w'; flights = fs }))
    → (b ≡ false → n ≡ ok w' → Follows s (record { store = w'; flights = fs }))
    → (if b then m else n) ≡ ok w'
    → Follows s (record { store = w'; flights = fs })
either-Follows true m n s w' fs f g h = f refl h
either-Follows false m n s w' fs f g h = g refl h

revoke_supported :
    (event_type : Text)
    → text_eq event_type outbox_session_revoke ≡ true
    → is_supported event_type ≡ true
unfolding is_supported
revoke_supported event_type h = ground (arith, h)

retried_or_other :
    (e : OutboxEvent)
    → (retries_exhausted e && is_revoke e) ≡ false
    → ((not (is_supported e.event_type) || retries_exhausted e) ≡ false) ⊎ (is_revoke e ≡ false)
retried_or_other e h = elim (Bool-cases (is_revoke e)) [
  | inl r ↦ inl (ground (arith, h, r, revoke_supported e.event_type r))
  | inr r ↦ inr r
]

refused_update : {w' : Store} → Path (Result ServiceError Store) (err not_found) (ok w') → ⊥
refused_update h = cc

gives_up :
    (now : ℕ) (reason : Text) (f : Flight) (s : Session) (w w' : Store) (fs : List Flight)
    → IsSound s (record { store = w; flights = fs })
    → In f fs
    → is_revoke f.event ≡ true
    → on_session (session_of f.event) w (mark_revoke_manual_intervention now f.index reason w)
      ≡ ok w'
    → Follows s (record { store = w'; flights = fs })
unfolding mark_revoke_manual_intervention
gives_up now reason f s w w' fs h i r k =
    elim (found_or_not (session_of f.event) w.session s h.is_row) [
      | inl e ↦ elim (refused_update (sym (on_session-none (session_of f.event) w _ e) ∙ k)) [ ]
      | inr (e, same) ↦ gives_up_from s.status now reason f s w w' fs refl h i r (sym same) (
          locked_at _ w.session s w' h.is_row
            (sym (on_session-some (session_of f.event) s w _ e) ∙ k))
    ]

-- A failed delivery: the event is tried again later, or the session is left to the administrators.
pub retries-Follows :
    (now : ℕ) (reason : Text) (f : Flight) (s : Session) (w w' : Store) (fs : List Flight)
    → IsSound s (record { store = w; flights = fs })
    → In f fs
    → after_dispatch_error now reason f.index f.event w ≡ ok w'
    → Follows s (record { store = w'; flights = fs })
unfolding after_dispatch_error
retries-Follows now reason f s w w' fs h i k =
    either-Follows (retries_exhausted f.event && is_revoke f.event) _ _ s w' fs
      (λ b e. gives_up now reason f s w w' fs h i (ground (arith, b)) e)
      (λ b e.
        requeued f (not (is_supported f.event.event_type) || retries_exhausted f.event)
          (now + outbox_retry_delay f.event.retry_count) s w w' fs h i (retried_or_other f.event b)
          e)
      k
