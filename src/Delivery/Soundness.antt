-- ===== src/Delivery/Soundness.antt =====
-- What holds of the session of a store, of its outbox and of the deliveries between two steps
-- (internal/service/access.go), and what an UPDATE of the outbox keeps of it.
use access_gateway.Prelude.{
  ℕ, suc, zero, ◌≤◌, ◌≡◌, refl, sym, ap, ◌∙◌, Bool, true, false, ◌&&◌, Option, some, List, [], ◌∷◌,
  Text, text_eq, text_eq_iff, if◌then◌else◌, get_elem?, All, In, arith, ◌⊎◌, inl, inr,
}
use mathlib.Core.Path.{subst}
use access_gateway.Access.Model.{
  SessionStatus, Session, Store, OutboxEvent, is_active, is_active_for, revoke_command,
  session_aggregate, outbox_session_revoke, outbox_reference, outbox_string,
}
use access_gateway.Access.Rows.{is_provisioning}
use access_gateway.Access.Life.{Advance, stays, renews, follows, is_move}
use access_gateway.Access.Commands.{needs_command, has_command}
use access_gateway.Access.Ledger.{count, most, IsFormed}
use access_gateway.Delivery.Dispatch.{returned, is_over, is_revoke, session_of}
use access_gateway.Delivery.World.{Flight, World}
use access_gateway.Delivery.Updates.{tick, IsSame, Evolved, Evolves, join-IsSame}

-- A delivery of a revoke command of the session `s`. When it has returned, the session is at an end
-- or the command was settled by another worker.
pub record IsKnown (s : Session) (f : Flight) (present : OutboxEvent) : Type 0 where
  pub begun : is_provisioning s.status ≡ false
  pub cleared : f.phase ≡ returned → (is_over s.status ≡ true) ⊎ (is_active present.status ≡ false)

pub record IsCarried (s : Session) (o : List OutboxEvent) (f : Flight) : Type 0 where
  pub entry : Evolved f.index f.event o
  pub known : is_revoke f.event ≡ true → session_of f.event ≡ s.id → IsKnown s f entry.present

pub record IsSound (s : Session) (w : World) : Type 0 where
  pub is_row : w.store.session ≡ some s
  pub commanded : needs_command s.status ≡ true → has_command s.id w.store.outbox ≡ true
  pub tidy : count s.id w.store.outbox ≤ most s.status
  pub formed : All IsFormed w.store.outbox
  pub carried : All (IsCarried s w.store.outbox) w.flights

over_stays_move :
    (from to : SessionStatus) → is_move from to ≡ true → is_over from ≡ true → is_over to ≡ true
over_stays_move from to m h = ground arith

begun_stays_move :
    (from to : SessionStatus)
    → is_move from to ≡ true
    → is_provisioning from ≡ false
    → is_provisioning to ≡ false
begun_stays_move from to m h = ground arith

pub Advance-over : (s t : Session) → Advance s t → is_over s.status ≡ true → is_over t.status ≡ true
Advance-over s t (stays _) h = h
Advance-over s t (renews _ u _ r a) h = Advance-over u t a (ap (λ x. is_over x.status) r.same ∙ h)
Advance-over s t (follows _ u _ e a) h =
    Advance-over u t a (over_stays_move s.status u.status e.moves h)

Advance-begun :
    (s t : Session)
    → Advance s t
    → is_provisioning s.status ≡ false
    → is_provisioning t.status ≡ false
Advance-begun s t (stays _) h = h
Advance-begun s t (renews _ u _ r a) h =
    Advance-begun u t a (ap (λ x. is_provisioning x.status) r.same ∙ h)
Advance-begun s t (follows _ u _ e a) h =
    Advance-begun u t a (begun_stays_move s.status u.status e.moves h)

pub Advance-id : (s t : Session) → Advance s t → t.id ≡ s.id
Advance-id s t (stays _) = refl
Advance-id s t (renews _ u _ r a) = Advance-id u t a ∙ ap (λ x. x.id) r.same
Advance-id s t (follows _ u _ e a) = Advance-id u t a ∙ e.same_id

carry-one :
    (s t : Session) (o o' : List OutboxEvent) (f : Flight)
    → Advance s t
    → Evolves o o'
    → IsCarried s o f
    → IsCarried t o' f
carry-one s t o o' f a v c =
    let r = v f.index c.entry.present c.entry.is_at in
    record {
      entry = record {
        present = r.present;
        is_at = r.is_at;
        same = join-IsSame f.event c.entry.present r.present c.entry.same r.same;
        asleep = λ b. r.asleep (c.entry.asleep b);
      };
      known = λ b i.
          let k = c.known b (i ∙ Advance-id s t a) in
          record {
            begun = Advance-begun s t a k.begun;
            cleared = λ p. elim (k.cleared p) [
              | inl l ↦ inl (Advance-over s t a l)
              | inr l ↦ inr (r.asleep l)
            ];
          };
    }

-- The flights go on being carried when the row has advanced and the outbox has evolved.
pub carry :
    (s t : Session) (o o' : List OutboxEvent) (fs : List Flight)
    → Advance s t
    → Evolves o o'
    → All (IsCarried s o) fs
    → All (IsCarried t o') fs
carry s t o o' [] a v c = tt
carry s t o o' (f ∷ fs) a v c = (carry-one s t o o' f a v c.0, carry s t o o' fs a v c.1)

pub All-In : (P : Flight → Type 0) (f : Flight) (fs : List Flight) → All P fs → In f fs → P f
All-In P f [] h i = elim i [ ]
All-In P f (g ∷ fs) h (inl e) = subst P (sym e) h.0
All-In P f (g ∷ fs) h (inr i) = All-In P f fs h.1 i

-- The reference of an event is in the columns that stay.
IsSame-reference : (e e' : OutboxEvent) → IsSame e e' → session_of e' ≡ session_of e
unfolding outbox_reference outbox_string
IsSame-reference e e' s = rw (s.payload, s.aggregate_id) refl

pub IsSame-IsFormed : (e e' : OutboxEvent) → IsSame e e' → IsFormed e → IsFormed e'
IsSame-IsFormed e e' s h = record {
  formed = λ r.
      let k = h.formed (ap (λ x. text_eq x outbox_session_revoke) (sym s.event_type) ∙ r) in
      (s.aggregate_type ∙ k.0, IsSame-reference e e' s ∙ k.1 ∙ sym s.aggregate_id);
}

four_tests :
    (a b c d : Bool)
    → 1 ≤ (if a && b && c && d then 1 else 0)
    → (a ≡ true) × (b ≡ true) × (c ≡ true) × (d ≡ true)
four_tests a b c d l = ground (arith, l)

-- An active command of the session, as the worker sees it.
pub tick-revoke :
    (session_id : Text) (e f : OutboxEvent)
    → IsSame f e
    → IsFormed e
    → 1 ≤ tick session_id e
    → (is_revoke f ≡ true) × (session_of f ≡ session_id) × (is_active e.status ≡ true)
unfolding is_active_for revoke_command
tick-revoke session_id e f s h l =
    let (a, b, c, d) =
      four_tests (text_eq e.aggregate_type session_aggregate) (text_eq e.aggregate_id session_id)
        (text_eq e.event_type outbox_session_revoke) (is_active e.status) l in
    (
      ap (λ x. text_eq x outbox_session_revoke) (sym s.event_type) ∙ c,
      sym (IsSame-reference f e s) ∙ (h.formed c).1 ∙ (text_eq_iff e.aggregate_id session_id).0 b,
      d,
    )

one_tick :
    (a b c d : Bool)
    → a ≡ true
    → b ≡ true
    → c ≡ true
    → d ≡ true
    → 1 ≤ (if a && b && c && d then 1 else 0)
one_tick a b c d h i j k = ground (arith, h, i, j, k)

same_event : (e f : OutboxEvent) → Path (Option OutboxEvent) (some e) (some f) → e ≡ f
same_event e f h = cc

first_tick :
    (session_id : Text) (x : OutboxEvent) (o : List OutboxEvent)
    → tick session_id x ≤ count session_id (x ∷ o)
unfolding count
first_tick session_id x o = ground arith

later_tick :
    (session_id : Text) (x : OutboxEvent) (o : List OutboxEvent) (n : ℕ)
    → n ≤ count session_id o
    → n ≤ count session_id (x ∷ o)
unfolding count
later_tick session_id x o n l = ground (arith, l)

-- The event that a worker delivers for the session counts while it is active.
pub revoke-tick :
    (session_id : Text) (f e : OutboxEvent)
    → IsSame f e
    → IsFormed e
    → is_revoke f ≡ true
    → session_of f ≡ session_id
    → is_active e.status ≡ true
    → 1 ≤ tick session_id e
unfolding is_active_for revoke_command
revoke-tick session_id f e s h r i a =
    let c = ap (λ x. text_eq x outbox_session_revoke) s.event_type ∙ r in
    let k = h.formed c in
    one_tick (text_eq e.aggregate_type session_aggregate) (text_eq e.aggregate_id session_id)
      (text_eq e.event_type outbox_session_revoke) (is_active e.status)
      ((text_eq_iff e.aggregate_type session_aggregate).1 k.0)
      ((text_eq_iff e.aggregate_id session_id).1 (sym k.1 ∙ IsSame-reference f e s ∙ i)) c a

pub All-get :
    (P : OutboxEvent → Type 0) (o : List OutboxEvent) (index : ℕ) (e : OutboxEvent)
    → All P o
    → get_elem? o index ≡ some e
    → P e
All-get P [] index e h g = cc
All-get P (x ∷ o) zero e h g = subst P (same_event x e g) h.0
All-get P (x ∷ o) (suc index) e h g = All-get P o index e h.1 g

pub tick-count :
    (session_id : Text) (o : List OutboxEvent) (index : ℕ) (e : OutboxEvent)
    → get_elem? o index ≡ some e
    → tick session_id e ≤ count session_id o
unfolding count
tick-count session_id [] index e g = cc
tick-count session_id (x ∷ o) zero e g =
    subst (λ y. tick session_id y ≤ count session_id (x ∷ o)) (same_event x e g)
      (first_tick session_id x o)
tick-count session_id (x ∷ o) (suc index) e g =
    later_tick session_id x o (tick session_id e) (tick-count session_id o index e g)

pub tick-same :
    (session_id : Text) (e e' : OutboxEvent)
    → IsSame e e'
    → is_active e.status ≡ is_active e'.status
    → tick session_id e' ≡ tick session_id e
unfolding is_active_for revoke_command
tick-same session_id e e' s a = rw (s.aggregate_type, s.aggregate_id, s.event_type, a) refl

pub tick-asleep :
    (session_id : Text) (e : OutboxEvent) → is_active e.status ≡ false → tick session_id e ≡ 0
unfolding is_active_for revoke_command
tick-asleep session_id e a = ground (arith, a)

pub tick-other : (session_id : Text) (e : OutboxEvent) → is_revoke e ≡ false → tick session_id e ≡ 0
unfolding is_active_for revoke_command
tick-other session_id e a = ground (arith, a)

-- From one sound world to the next, with the same flights.
pub evolve-IsSound :
    (s t : Session) (w w' : Store) (fs : List Flight)
    → IsSound s (record { store = w; flights = fs })
    → w'.session ≡ some t
    → Advance s t
    → Evolves w.outbox w'.outbox
    → (needs_command t.status ≡ true → has_command t.id w'.outbox ≡ true)
    → count t.id w'.outbox ≤ most t.status
    → All IsFormed w'.outbox
    → IsSound t (record { store = w'; flights = fs })
evolve-IsSound s t w w' fs h i a v c l f = record {
  is_row = i;
  commanded = c;
  tidy = l;
  formed = f;
  carried = carry s t w.outbox w'.outbox fs a v h.carried;
}
