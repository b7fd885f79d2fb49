-- ===== src/Delivery/Transactions.antt =====
-- The transactions of the services and the UPDATEs of the outbox keep a world sound
-- (internal/service/access.go, internal/repository/events.go).
use access_gateway.Prelude.{
  ℕ, ◌≤◌, ◌≡◌, sym, ◌∙◌, true, false, none, some, List, [], ◌∷◌, Text, All, All-append, arith, inl,
  inr, Bool-cases, ok,
}
use mathlib.Core.Path.{subst}
use access_gateway.Access.Model.{Session, Store, OutboxEvent, is_active}
use access_gateway.Access.Life.{Advance, stays}
use access_gateway.Access.Commands.{needs_command, has_command}
use access_gateway.Access.Ledger.{
  count, most, IsFormed, has_command-none, has_command-some, other-Entry,
}
use access_gateway.Access.Booking.{Outcome}
use access_gateway.Access.Steps.{ServiceStep}
use access_gateway.Access.Runs.{more-has_command}
use access_gateway.Access.Landing.{step-Outcome}
use access_gateway.Access.Decisions.{Environment, Decision, decide_approval}
use access_gateway.Access.Verdicts.{
  Verdict, refused, waits, granted, Notifies, decide_approval-Verdict,
}
use access_gateway.Delivery.World.{Flight, World}
use access_gateway.Delivery.Updates.{
  Updated, tick, count-Updated, All-Updated, IsSame, Evolves, Updated-Evolves, append-Evolves,
}
use access_gateway.Delivery.Soundness.{IsSound, evolve-IsSound, IsSame-IsFormed, Advance-id}

-- The row a world has after a step, which has come from the row before.
pub record Follows (s : Session) (w : World) : Type 0 where
  pub row : Session
  pub advances : Advance s row
  pub sound : IsSound row w

none_one : (n : ℕ) → 1 ≤ n → n ≡ 0 → ⊥
none_one n l e = omega (arith, l, e)

pub command_of_count :
    (session_id : Text) (o : List OutboxEvent)
    → 1 ≤ count session_id o
    → has_command session_id o ≡ true
command_of_count session_id o l = elim (Bool-cases (has_command session_id o)) [
  | inl b ↦ b
  | inr b ↦ elim (none_one (count session_id o) l (has_command-none session_id o b)) [ ]
]

outcome-Follows :
    (s : Session) (w w' : Store) (fs : List Flight)
    → IsSound s (record { store = w; flights = fs })
    → Outcome w s w'
    → Follows s (record { store = w'; flights = fs })
outcome-Follows s w w' fs h o =
    let e = o.entry in
    let t = o.landed.row in
    let same = Advance-id s t o.landed.advances in
    record {
      row = t;
      advances = o.landed.advances;
      sound =
          evolve-IsSound s t w w' fs h o.landed.is_row o.landed.advances
            (subst (λ x. Evolves w.outbox x) (sym e.is_added) (append-Evolves w.outbox e.added))
            o.landed.commanded
            (subst (λ x. count x w'.outbox ≤ most t.status) (sym same) (e.bounded h.tidy))
            (subst (All IsFormed) (sym e.is_added)
              (All-append IsFormed w.outbox e.added h.formed e.all_formed));
    }

pub serves-Follows :
    (s : Session) (w w' : Store) (fs : List Flight)
    → IsSound s (record { store = w; flights = fs })
    → ServiceStep w w'
    → Follows s (record { store = w'; flights = fs })
serves-Follows s w w' fs h t = elim (step-Outcome s w w' h.is_row t) [
  | inl o ↦ outcome-Follows s w w' fs h o
  | inr e ↦
      subst (λ x. Follows s (record { store = x; flights = fs })) e
        (record { row = s; advances = stays s; sound = h })
]

-- The session stays and a notification is added.
notified-Follows :
    (s : Session) (w w' : Store) (fs : List Flight)
    → IsSound s (record { store = w; flights = fs })
    → w'.session ≡ w.session
    → Notifies w w'
    → Follows s (record { store = w'; flights = fs })
notified-Follows s w w' fs h same (e, q, n) =
    let entry = other-Entry w.outbox s s e w'.outbox q n (omega arith) in
    record {
      row = s;
      advances = stays s;
      sound =
          evolve-IsSound s s w w' fs h (same ∙ h.is_row) (stays s)
            (subst (λ x. Evolves w.outbox x) (sym q) (append-Evolves w.outbox (e ∷ [])))
            (λ y. rw q (more-has_command s.id w.outbox e (h.commanded y))) (entry.bounded h.tidy)
            (subst (All IsFormed) (sym entry.is_added)
              (All-append IsFormed w.outbox entry.added h.formed entry.all_formed));
    }

granted_no_row : (s : Session) (w : Store) → w.session ≡ some s → w.session ≡ none → ⊥
granted_no_row s w h k = ground (arith, h, k)

Verdict-Follows :
    (s : Session) (w w' : Store) (fs : List Flight)
    → IsSound s (record { store = w; flights = fs })
    → Verdict w w'
    → Follows s (record { store = w'; flights = fs })
Verdict-Follows s w w' fs h (refused st same q) = notified-Follows s w w' fs h same q
Verdict-Follows s w w' fs h (waits st same q l) = notified-Follows s w w' fs h same q
Verdict-Follows s w w' fs h (granted t st free i p l) = elim (granted_no_row s w h.is_row free) [ ]

pub decides-Follows :
    (env : Environment) (now : ℕ) (d : Decision) (seen : Store) (s : Session) (w w' : Store)
    (fs : List Flight)
    → IsSound s (record { store = w; flights = fs })
    → decide_approval env now d seen w ≡ ok w'
    → Follows s (record { store = w'; flights = fs })
decides-Follows env now d seen s w w' fs h k =
    Verdict-Follows s w w' fs h (decide_approval-Verdict env now d seen w w' k)

-- An UPDATE that leaves the number of commands as it is.
pub kept-IsSound :
    (s : Session) (w : Store) (o : List OutboxEvent) (fs : List Flight) {e e' : OutboxEvent}
    {index : ℕ}
    → IsSound s (record { store = w; flights = fs })
    → Updated e e' index w.outbox o
    → IsSame e e'
    → (is_active e.status ≡ false → is_active e'.status ≡ false)
    → tick s.id e' ≡ tick s.id e
    → IsSound s (record { store = record w { outbox = o }; flights = fs })
kept-IsSound s w o fs {e} {e'} h u same a k =
    let n = count-Updated s.id u in
    evolve-IsSound s s w (record w { outbox = o }) fs h h.is_row (stays s)
      (Updated-Evolves u same a)
      (λ y.
        command_of_count s.id o
          (omega (arith, n, k, has_command-some s.id w.outbox (h.commanded y))))
      (omega (arith, n, k, h.tidy)) (All-Updated IsFormed u (IsSame-IsFormed e e' same) h.formed)

-- An UPDATE that ends a command, when the row has become `t`, which needs none.
pub ended-IsSound :
    (s t : Session) (w w' : Store) (fs : List Flight) {e e' : OutboxEvent} {index : ℕ}
    → IsSound s (record { store = w; flights = fs })
    → Updated e e' index w.outbox w'.outbox
    → w'.session ≡ some t
    → Advance s t
    → IsSame e e'
    → (is_active e.status ≡ false → is_active e'.status ≡ false)
    → needs_command t.status ≡ false
    → count s.id w'.outbox ≤ most t.status
    → IsSound t (record { store = w'; flights = fs })
ended-IsSound s t w w' fs {e} {e'} h u i a same asleep n l =
    evolve-IsSound s t w w' fs h i a (Updated-Evolves u same asleep) (λ y. ground (arith, n, y))
      (subst (λ x. count x w'.outbox ≤ most t.status) (sym (Advance-id s t a)) l)
      (All-Updated IsFormed u (IsSame-IsFormed e e' same) h.formed)
