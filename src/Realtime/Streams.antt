-- ===== src/Realtime/Streams.antt =====
-- internal/realtime/hub.go: what the reader of a subscription gets, against the changes that were
-- published for its user.
use access_gateway.Prelude.{
  ℕ, ◌<◌, ◌≡◌, refl, sym, Bool, true, false, ◌==◌, if◌then◌else◌, List, [], ◌∷◌, ◌++◌, append_assoc,
  Text, Bool-cases, inl, inr, arith, ==_iff,
}
use mathlib.Core.Path.{subst}
use access_gateway.Realtime.Hub.{
  Change, Hub, close_channel, is_topic, subscribe, cancel, publish, set_available, receive,
  Operation, subscribes, cancels, publishes, sets, receives, step, received, run, received_in,
}
use access_gateway.Realtime.Channels.{
  IsFollowed, IsStream, lost_one, publish-IsStream, received_one, unmoved, wanted, wanted_in,
}

publish-IsFollowed :
    (n : ℕ) (user : Text) (c : Change) (h : Hub) (taken all : List Change)
    → IsFollowed n user h taken all
    → IsFollowed n user (publish c h) (taken ++ []) (all ++ wanted user (publishes c))
unfolding publish
publish-IsFollowed n user c h taken all (k, u, i) = elim (Bool-cases (is_topic c)) [
  | inl e ↦ rw e (k, u, rw u (publish-IsStream c user (h.clients n) (h.events n) taken all i))
  | inr e ↦ rw e (k, u, unmoved (h.clients n) (h.events n) taken all i)
]

apart : (a b : ℕ) → a < b → (a == b) ≡ false
apart a b h = ground arith

moved :
    (h : Hub) (n m : ℕ) (taken all : List Change)
    → (n == m) ≡ true
    → IsStream (h.clients n) (h.events n) taken all
    → IsStream (h.clients m) (h.events m) taken all
moved h n m taken all d i =
    subst (λ x. IsStream (h.clients x) (h.events x) taken all) ((==_iff n m).0 d) i

cancelled-IsStream :
    (h : Hub) (m : ℕ) (taken all : List Change)
    → h.clients m ≡ true
    → IsStream (h.clients m) (h.events m) taken all
    → IsStream false (close_channel (h.events m)) (taken ++ []) (all ++ [])
cancelled-IsStream h m taken all e i =
    subst
      (λ b.
        IsStream false (if b then close_channel (h.events m) else h.events m) (taken ++ [])
          (all ++ []))
      e (lost_one (h.clients m) (h.events m) [] taken all i)

cancel-IsFollowed :
    (n m : ℕ) (user : Text) (h : Hub) (taken all : List Change)
    → IsFollowed n user h taken all
    → IsFollowed n user (cancel m h) (taken ++ []) (all ++ [])
unfolding cancel
cancel-IsFollowed n m user h taken all (k, u, i) = elim (Bool-cases (h.clients m)) [
  | inl e ↦ elim (Bool-cases (n == m)) [
    | inl d ↦ rw e (k, u, rw d (cancelled-IsStream h m taken all e (moved h n m taken all d i)))
    | inr d ↦ rw e (k, u, rw d (unmoved (h.clients n) (h.events n) taken all i))
  ]
  | inr e ↦ rw e (k, u, unmoved (h.clients n) (h.events n) taken all i)
]

set-IsFollowed :
    (n : ℕ) (b : Bool) (user : Text) (h : Hub) (taken all : List Change)
    → IsFollowed n user h taken all
    → IsFollowed n user (set_available b h) (taken ++ []) (all ++ [])
unfolding set_available
set-IsFollowed n true user h taken all (k, u, i) =
    (k, u, unmoved (h.clients n) (h.events n) taken all i)
set-IsFollowed n false user h taken all (k, u, i) =
    (k, u, lost_one (h.clients n) (h.events n) [] taken all i)

subscribe-IsFollowed :
    (n : ℕ) (user other : Text) (h : Hub) (taken all : List Change)
    → IsFollowed n user h taken all
    → IsFollowed n user (subscribe other h).0 (taken ++ []) (all ++ [])
unfolding subscribe
subscribe-IsFollowed n user other h taken all (k, u, i) = elim (Bool-cases h.available) [
  | inl e ↦
      rw (e, apart n h.allocated k)
        (omega (arith, k), u, unmoved (h.clients n) (h.events n) taken all i)
  | inr e ↦ rw e (k, u, unmoved (h.clients n) (h.events n) taken all i)
]

receive-IsFollowed :
    (n m : ℕ) (user : Text) (h : Hub) (taken all : List Change)
    → IsFollowed n user h taken all
    → IsFollowed n user (step (receives m) h) (taken ++ received n (receives m) h) (all ++ [])
unfolding step received
receive-IsFollowed n m user h taken all (k, u, i) = elim (Bool-cases (n == m)) [
  | inl d ↦ (
    k,
    u,
    rw d (
        subst
          (λ x.
            IsStream (h.clients n) (receive (h.events x)).1 (taken ++ (receive (h.events x)).0)
              (all ++ []))
          ((==_iff n m).0 d) (received_one (h.clients n) (h.events n) taken all i)),
  )
  | inr d ↦ (k, u, rw d (unmoved (h.clients n) (h.events n) taken all i))
]

step-IsFollowed :
    (n : ℕ) (user : Text) (o : Operation) (h : Hub) (taken all : List Change)
    → IsFollowed n user h taken all
    → IsFollowed n user (step o h) (taken ++ received n o h) (all ++ wanted user o)
unfolding step received
step-IsFollowed n user (subscribes other) h taken all i =
    subscribe-IsFollowed n user other h taken all i
step-IsFollowed n user (cancels m) h taken all i = cancel-IsFollowed n m user h taken all i
step-IsFollowed n user (publishes c) h taken all i = publish-IsFollowed n user c h taken all i
step-IsFollowed n user (sets b) h taken all i = set-IsFollowed n b user h taken all i
step-IsFollowed n user (receives m) h taken all i = receive-IsFollowed n m user h taken all i

run-IsFollowed :
    (n : ℕ) (user : Text) (os : List Operation) (h : Hub) (taken all : List Change)
    → IsFollowed n user h taken all
    → IsFollowed n user (run os h) (taken ++ received_in n os h) (all ++ wanted_in user os)
unfolding run received_in
run-IsFollowed n user [] h taken all (k, u, i) =
    (k, u, unmoved (h.clients n) (h.events n) taken all i)
run-IsFollowed n user (o ∷ os) h taken all i =
    rw
      (
        sym (append_assoc taken (received n o h) (received_in n os (step o h))),
        sym (append_assoc all (wanted user o) (wanted_in user os)),
      )
      (run-IsFollowed n user os (step o h) (taken ++ received n o h) (all ++ wanted user o)
        (step-IsFollowed n user o h taken all i))

-- A new subscription of an available hub.
subscribed-IsFollowed :
    (user : Text) (h : Hub)
    → h.available ≡ true
    → IsFollowed h.allocated user (subscribe user h).0 [] []
unfolding subscribe
subscribed-IsFollowed user h e =
    rw (e, (==_iff h.allocated h.allocated).1 refl) (omega arith, refl, refl)

-- A user subscribes to an available hub and any operations follow. While the subscription is a client,
-- what its reader has received and what waits in its channel are, in order and without a gap, the
-- changes of a topic that were published for the user since. When it is no client any more its channel
-- is closed, and they are the first of those changes.
pub run-IsStream :
    (user : Text) (os : List Operation) (h : Hub)
    → h.available ≡ true
    → IsStream
        ((run os (subscribe user h).0).clients h.allocated)
        ((run os (subscribe user h).0).events h.allocated)
        (received_in h.allocated os (subscribe user h).0)
        (wanted_in user os)
run-IsStream user os h e =
    (run-IsFollowed h.allocated user os (subscribe user h).0 [] []
      (subscribed-IsFollowed user h e)).2
