-- ===== src/Realtime/Limits.antt =====
-- internal/realtime/hub.go: the state of the hub after any operations.
use mathlib.Core.Path.{subst}
use access_gateway.Prelude.{
  ap, sym, ==_iff, ℕ, ◌≤◌, ◌≡◌, refl, Bool, true, false, not, ◌&&◌, ◌==◌, ltb, if◌then◌else◌, List,
  [], ◌∷◌, length, length-append, Text, Bool-cases, inl, inr, arith, ltb→lt,
}
use access_gateway.Realtime.Hub.{
  Change, Channel, opened, closed, panicked, Hub, update, close_channel, capacity, is_topic, is_for,
  offer, deliver, new_hub, subscribe, cancel, publish, set_available, receive, Operation,
  subscribes, cancels, publishes, sets, receives, step, run,
}

-- A client has an open channel and the hub is available. What is no client has a closed channel.
-- No buffer holds more than its capacity.
abbrev pub IsEntry : Bool → Bool → Channel → Type 0
IsEntry available true (opened es) = (available ≡ true) × (length es ≤ capacity)
IsEntry available false (closed es) = length es ≤ capacity
IsEntry available _ _ = ⊥

abbrev pub IsHub : Hub → Type 0
IsHub h = (n : ℕ) → IsEntry h.available (h.clients n) (h.events n)

close-IsEntry :
    (a a' b : Bool) (ch : Channel)
    → IsEntry a b ch
    → IsEntry a' false (if b then close_channel ch else ch)
close-IsEntry a a' true (opened es) h = h.1
close-IsEntry a a' true (closed es) h = absurd h
close-IsEntry a a' true panicked h = absurd h
close-IsEntry a a' false (opened es) h = absurd h
close-IsEntry a a' false (closed es) h = h
close-IsEntry a a' false panicked h = absurd h

receive-IsEntry : (a b : Bool) (ch : Channel) → IsEntry a b ch → IsEntry a b (receive ch).1
receive-IsEntry a true (opened []) h = h
receive-IsEntry a true (opened (c ∷ es)) h = (h.0, omega (arith, h.1))
receive-IsEntry a true (closed es) h = absurd h
receive-IsEntry a true panicked h = absurd h
receive-IsEntry a false (opened es) h = absurd h
receive-IsEntry a false (closed []) h = h
receive-IsEntry a false (closed (c ∷ es)) h = omega (arith, h)
receive-IsEntry a false panicked h = absurd h

available-IsEntry : (a b : Bool) (ch : Channel) → IsEntry a b ch → IsEntry true b ch
available-IsEntry a true (opened es) h = (refl, h.1)
available-IsEntry a true (closed es) h = absurd h
available-IsEntry a true panicked h = absurd h
available-IsEntry a false (opened es) h = absurd h
available-IsEntry a false (closed es) h = h
available-IsEntry a false panicked h = absurd h

-- The select of `Publish`, by whether the buffer has room.
offered-IsEntry :
    (room : Bool) (a : Bool) (c : Change) (es : List Change)
    → ltb (length es) capacity ≡ room
    → (a ≡ true) × (length es ≤ capacity)
    → IsEntry a (offer (not room) c (opened es)).0 (offer (not room) c (opened es)).1
offered-IsEntry true a c es e h =
    (h.0, omega (arith, length-append es (c ∷ []), ltb→lt (length es) capacity e))
offered-IsEntry false a c es e h = h.1

deliver-IsEntry :
    (a w : Bool) (c : Change) (b : Bool) (ch : Channel)
    → IsEntry a b ch
    → IsEntry a (b && (deliver c w ch).0) (if b then (deliver c w ch).1 else ch)
deliver-IsEntry a false c true (opened es) h = h
deliver-IsEntry a true c true (opened es) h =
    offered-IsEntry (ltb (length es) capacity) a c es refl h
deliver-IsEntry a w c true (closed es) h = absurd h
deliver-IsEntry a w c true panicked h = absurd h
deliver-IsEntry a w c false ch h = h

updated-IsEntry :
    (a : Bool) (m : ℕ) (b : Bool) (ch : Channel) (h : Hub) (n : ℕ)
    → IsEntry a b ch
    → IsEntry a (h.clients n) (h.events n)
    → IsEntry a (update m b h.clients n) (update m ch h.events n)
updated-IsEntry a m b ch h n i j = elim (Bool-cases (n == m)) [ inl e ↦ rw e i | inr e ↦ rw e j ]

publish-IsHub : (c : Change) (h : Hub) → IsHub h → IsHub (publish c h)
unfolding publish
publish-IsHub c h i n = elim (Bool-cases (is_topic c)) [
  | inl e ↦
      rw e (deliver-IsEntry h.available (is_for (h.user_id n) c) c (h.clients n) (h.events n) (i n))
  | inr e ↦ rw e (i n)
]

pub subscribe-IsHub : (user : Text) (h : Hub) → IsHub h → IsHub (subscribe user h).0
unfolding subscribe
subscribe-IsHub user h i n = elim (Bool-cases h.available) [
  | inl e ↦ rw e (
      updated-IsEntry true h.allocated true (opened []) h n (refl, omega arith)
        (available-IsEntry h.available (h.clients n) (h.events n) (i n)))
  | inr e ↦ rw e (subst (λ a. IsEntry a (h.clients n) (h.events n)) e (i n))
]

cancel-IsHub : (m : ℕ) (h : Hub) → IsHub h → IsHub (cancel m h)
unfolding cancel
cancel-IsHub m h i n = elim (Bool-cases (h.clients m)) [
  | inl e ↦ rw e (
      updated-IsEntry h.available m false (close_channel (h.events m)) h n
        (subst
          (λ b. IsEntry h.available false (if b then close_channel (h.events m) else h.events m)) e
          (close-IsEntry h.available h.available (h.clients m) (h.events m) (i m)))
        (i n))
  | inr e ↦ rw e (i n)
]

set-IsHub : (b : Bool) (h : Hub) → IsHub h → IsHub (set_available b h)
unfolding set_available
set-IsHub true h i n = available-IsEntry h.available (h.clients n) (h.events n) (i n)
set-IsHub false h i n = close-IsEntry h.available false (h.clients n) (h.events n) (i n)

kept_clients : (m n : ℕ) (h : Hub) → update m (h.clients m) h.clients n ≡ h.clients n
kept_clients m n h = elim (Bool-cases (n == m)) [
  | inl d ↦ rw d (ap h.clients (sym ((==_iff n m).0 d)))
  | inr d ↦ rw d refl
]

step-IsHub : (o : Operation) (h : Hub) → IsHub h → IsHub (step o h)
unfolding step
step-IsHub (subscribes user) h i = subscribe-IsHub user h i
step-IsHub (cancels m) h i = cancel-IsHub m h i
step-IsHub (publishes c) h i = publish-IsHub c h i
step-IsHub (sets b) h i = set-IsHub b h i
step-IsHub (receives m) h i = λ n.
    subst (λ b. IsEntry h.available b (update m (receive (h.events m)).1 h.events n))
      (kept_clients m n h)
      (updated-IsEntry h.available m (h.clients m) (receive (h.events m)).1 h n
        (receive-IsEntry h.available (h.clients m) (h.events m) (i m)) (i n))

pub run-IsHub_from : (os : List Operation) (h : Hub) → IsHub h → IsHub (run os h)
unfolding run
run-IsHub_from [] h i = i
run-IsHub_from (o ∷ os) h i = run-IsHub_from os (step o h) (step-IsHub o h i)

-- After any operations on a new hub a subscription is a client exactly when its channel is open, the
-- hub has no client while it is not available, no buffer holds more than 32 changes, and no channel
-- was closed twice or sent to after its close.
pub run-IsHub : (os : List Operation) → IsHub (run os new_hub)
run-IsHub os = run-IsHub_from os new_hub (λ n. omega arith)
