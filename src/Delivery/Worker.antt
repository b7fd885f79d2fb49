-- ===== src/Delivery/Worker.antt =====
-- What the worker of `ProcessOutbox` (internal/service/access.go) writes to the outbox keeps a world
-- sound: the claim of an event, its acknowledgement and its return to the queue.
use access_gateway.Prelude.{
  ℕ, ◌≤◌, ◌≡◌, refl, sym, ◌∙◌, Bool, true, false, ◌&&◌, not, Option, some, List, ◌∷◌, Text,
  if◌then◌else◌, get_elem?, arith, ◌⊎◌, inl, inr, ok, err, In,
}
use mathlib.Core.Path.{subst}
use access_gateway.Access.Model.{
  SessionStatus, provisioning, running, revoking, expired, closed, failed, revoke_failed,
  manual_intervention, Session, Store, not_found, OutboxEvent, OutboxStatus, pending, outbox_failed,
  is_active,
}
use access_gateway.Access.Rows.{is_provisioning}
use access_gateway.Access.Queue.{
  update_at, claim_event, mark_processed, reschedule, is_claimed, is_processing, is_retry_due,
}
use access_gateway.Access.Life.{stays}
use access_gateway.Access.Commands.{needs_command}
use access_gateway.Access.Ledger.{count, most, IsFormed}
use access_gateway.Delivery.Dispatch.{loading, returned, is_over}
use access_gateway.Delivery.World.{Flight}
use access_gateway.Delivery.Updates.{
  Updated, tick, update_at-Updated, count-Updated, at-Updated, IsSame, IsSame-refl,
}
use access_gateway.Delivery.Soundness.{
  IsSound, IsCarried, tick-same, tick-asleep, tick-revoke, revoke-tick, tick-count, All-In, All-get,
}
use access_gateway.Delivery.Transactions.{kept-IsSound, ended-IsSound}

test-ok :
    (b : Bool) (e x : OutboxEvent)
    → (if b then ok e else err not_found) ≡ ok x
    → (b ≡ true) × (e ≡ x)
test-ok true e x h = (refl, cc)
test-ok false e x h = cc

processing_active : (status : OutboxStatus) → is_processing status ≡ true → is_active status ≡ true
processing_active status h = ground arith

terminal_active :
    (terminal : Bool) → is_active (if terminal then outbox_failed else pending) ≡ not terminal
terminal_active true = refl
terminal_active false = refl

pub same_row : (e f : OutboxEvent) → Path (Option OutboxEvent) (some e) (some f) → e ≡ f
same_row e f h = cc

-- The rows before and after a claim.
claim_event-keeps :
    (now lease : ℕ) (e e' : OutboxEvent)
    → claim_event now lease e ≡ ok e'
    → IsSame e e' × (is_active e.status ≡ true) × (is_active e'.status ≡ true)
unfolding claim_event
claim_event-keeps now lease e e' h =
    let (b, q) = test-ok (is_active e.status && is_retry_due now e.next_retry_at) _ e' h in
    subst (λ x. IsSame e x × (is_active e.status ≡ true) × (is_active x.status ≡ true)) q
      (
        record { aggregate_type = refl; aggregate_id = refl; event_type = refl; payload = refl },
        ground (arith, b),
        refl,
      )

mark_processed-keeps :
    (e e' : OutboxEvent) → mark_processed e ≡ ok e' → IsSame e e' × (is_active e'.status ≡ false)
unfolding mark_processed
mark_processed-keeps e e' h =
    let (b, q) = test-ok (is_claimed e.status) _ e' h in
    subst (λ x. IsSame e x × (is_active x.status ≡ false)) q
      (
        record { aggregate_type = refl; aggregate_id = refl; event_type = refl; payload = refl },
        refl,
      )

pub reschedule-keeps :
    (terminal : Bool) (at : ℕ) (e e' : OutboxEvent)
    → reschedule terminal at e ≡ ok e'
    → IsSame e e' × (is_active e.status ≡ true) × (is_active e'.status ≡ not terminal)
unfolding reschedule
reschedule-keeps terminal at e e' h =
    let (b, q) = test-ok (is_processing e.status) _ e' h in
    subst (λ x. IsSame e x × (is_active e.status ≡ true) × (is_active x.status ≡ not terminal)) q
      (
        record { aggregate_type = refl; aggregate_id = refl; event_type = refl; payload = refl },
        processing_active e.status b,
        terminal_active terminal,
      )

nothing_left : (t n : ℕ) → 1 ≤ t → t ≤ n → n ≤ 0 → ⊥
nothing_left t n a b c = omega (arith, a, b, c)

begun_status :
    (status : SessionStatus) (t n : ℕ)
    → 1 ≤ t
    → t ≤ n
    → n ≤ most status
    → is_provisioning status ≡ false
begun_status provisioning t n a b c = elim (nothing_left t n a b c) [ ]
begun_status running t n a b c = refl
begun_status revoking t n a b c = refl
begun_status expired t n a b c = refl
begun_status closed t n a b c = refl
begun_status failed t n a b c = refl
begun_status revoke_failed t n a b c = refl
begun_status manual_intervention t n a b c = refl

-- The claim of an event.
pub claims-IsSound :
    (now index : ℕ) (e : OutboxEvent) (o : List OutboxEvent) (s : Session) (w : Store)
    (fs : List Flight)
    → IsSound s (record { store = w; flights = fs })
    → update_at (claim_event now 60) index w.outbox ≡ ok o
    → get_elem? o index ≡ some e
    → IsSound s (record {
      store = record w { outbox = o };
      flights = record { index = index; event = e; phase = loading } ∷ fs;
    })
claims-IsSound now index e o s w fs h k g =
    let (x, y, c, u) = update_at-Updated (claim_event now 60) index w.outbox o k in
    let (same, before, after) = claim_event-keeps now 60 x y c in
    let v =
      kept-IsSound s w o fs h u same (λ a. ground (arith, a, before))
        (tick-same s.id x y same (before ∙ sym after)) in
    let active =
      subst (λ z. is_active z.status ≡ true) (same_row y e (sym (at-Updated u).1 ∙ g)) after in
    record {
      is_row = v.is_row;
      commanded = v.commanded;
      tidy = v.tidy;
      formed = v.formed;
      carried = (
        record {
          entry = record { present = e; is_at = g; same = IsSame-refl e; asleep = λ a. a };
          known = λ r i. record {
            begun =
                begun_status s.status (tick s.id e) (count s.id o)
                  (revoke-tick s.id e e (IsSame-refl e) (All-get IsFormed o index e v.formed g) r i
                    active)
                  (tick-count s.id o index e g) v.tidy;
            cleared = λ p. cc;
          };
        },
        v.carried,
      );
    }

pub over_needs : (status : SessionStatus) → is_over status ≡ true → needs_command status ≡ false
over_needs status h = ground arith

tick_cases :
    (session_id : Text) (e : OutboxEvent) → (tick session_id e ≡ 0) ⊎ (1 ≤ tick session_id e)
tick_cases session_id e = ground arith

active_twice : (b : Bool) → b ≡ true → b ≡ false → ⊥
active_twice b h k = ground arith

-- An UPDATE that ends an event, where the session needs no command.
pub settled-IsSound :
    (s : Session) (w : Store) (o : List OutboxEvent) (fs : List Flight) (x y : OutboxEvent)
    (index : ℕ)
    → IsSound s (record { store = w; flights = fs })
    → Updated x y index w.outbox o
    → IsSame x y
    → is_active y.status ≡ false
    → needs_command s.status ≡ false
    → IsSound s (record { store = record w { outbox = o }; flights = fs })
settled-IsSound s w o fs x y index h u same after n =
    ended-IsSound s s w (record w { outbox = o }) fs h u h.is_row (stays s) same (λ a. after) n
      (omega (arith, h.tidy, count-Updated s.id u, tick-asleep s.id y after))

-- The acknowledgement of an event whose delivery has returned.
pub acknowledges-IsSound :
    (f : Flight) (o : List OutboxEvent) (s : Session) (w : Store) (fs : List Flight)
    → IsSound s (record { store = w; flights = fs })
    → In f fs
    → f.phase ≡ returned
    → update_at mark_processed f.index w.outbox ≡ ok o
    → IsSound s (record { store = record w { outbox = o }; flights = fs })
acknowledges-IsSound f o s w fs h i p k =
    let (x, y, m, u) = update_at-Updated mark_processed f.index w.outbox o k in
    let (same, after) = mark_processed-keeps x y m in
    let c = All-In (IsCarried s w.outbox) f fs h.carried i in
    let found = same_row c.entry.present x (sym c.entry.is_at ∙ (at-Updated u).0) in
    elim (tick_cases s.id x) [
      | inl z ↦ kept-IsSound s w o fs h u same (λ a. after) (tick-asleep s.id y after ∙ sym z)
      | inr z ↦
          let (r, j, a) =
            tick-revoke s.id x f.event (subst (IsSame f.event) found c.entry.same)
              (All-get IsFormed w.outbox f.index x h.formed (at-Updated u).0) z in
          elim ((c.known r j).cleared p) [
            | inl over ↦
                settled-IsSound s w o fs x y f.index h u same after (over_needs s.status over)
            | inr b ↦
                elim (active_twice (is_active x.status) a
                  (subst (λ e. is_active e.status ≡ false) found b)) [ ]
          ]
    ]
