-- ===== src/Realtime/Channels.antt =====
-- internal/realtime/hub.go: one channel against the changes that were published for its user.
use access_gateway.Prelude.{
  ℕ, ◌<◌, ◌≡◌, sym, ap, Bool, true, false, ◌&&◌, if◌then◌else◌, List, [], ◌∷◌, ◌++◌, append_assoc,
  append-nil, Text,
}
use mathlib.Core.Path.{subst}
use access_gateway.Realtime.Hub.{
  Change, Channel, opened, closed, panicked, Hub, close_channel, is_full, is_topic, is_for, offer,
  deliver, receive, Operation, publishes,
}

-- The changes of an operation, and of a run, that a stream of the user is meant to show.
abbrev pub wanted : Text → Operation → List Change
wanted user (publishes c) = if is_topic c && is_for user c then c ∷ [] else []
wanted user _ = []

abbrev pub wanted_in : Text → List Operation → List Change
wanted_in user [] = []
wanted_in user (o ∷ os) = wanted user o ++ wanted_in user os

-- A client has an open channel whose buffer holds what is wanted and not yet taken, and nothing is
-- lost. Any other subscription has a channel that was closed once, and what was taken and what waits
-- are the first of the wanted changes.
abbrev pub IsStream : Bool → Channel → List Change → List Change → Type 0
IsStream true (opened es) taken all = taken ++ es ≡ all
IsStream false (closed es) taken all = (lost : List Change) × ((taken ++ es) ++ lost ≡ all)
IsStream _ _ taken all = ⊥

abbrev pub IsFollowed : ℕ → Text → Hub → List Change → List Change → Type 0
IsFollowed n user h taken all =
    (n < h.allocated) × (h.user_id n ≡ user) × IsStream (h.clients n) (h.events n) taken all

pub unmoved :
    (b : Bool) (ch : Channel) (taken all : List Change)
    → IsStream b ch taken all
    → IsStream b ch (taken ++ []) (all ++ [])
unmoved b ch taken all h =
    subst (λ x. IsStream b ch (taken ++ []) x) (sym (append-nil all))
      (subst (λ x. IsStream b ch x all) (sym (append-nil taken)) h)

-- The next change is lost when the channel is closed.
pub lost_one :
    (b : Bool) (ch : Channel) (c : List Change) (taken all : List Change)
    → IsStream b ch taken all
    → IsStream false (if b then close_channel ch else ch) (taken ++ []) (all ++ c)
lost_one true (opened es) c taken all h = (c, rw append-nil (ap (λ xs. xs ++ c) h))
lost_one true (closed es) c taken all h = absurd h
lost_one true panicked c taken all h = absurd h
lost_one false (opened es) c taken all h = absurd h
lost_one false (closed es) c taken all (lost, e) =
    (lost ++ c, rw (append-nil, sym (append_assoc (taken ++ es) lost c)) (ap (λ xs. xs ++ c) e))
lost_one false panicked c taken all h = absurd h

pub received_one :
    (b : Bool) (ch : Channel) (taken all : List Change)
    → IsStream b ch taken all
    → IsStream b (receive ch).1 (taken ++ (receive ch).0) (all ++ [])
received_one true (opened []) taken all h = unmoved true (opened []) taken all h
received_one true (opened (c ∷ es)) taken all h = rw (append-nil, append_assoc taken (c ∷ []) es) h
received_one true (closed es) taken all h = absurd h
received_one true panicked taken all h = absurd h
received_one false (opened es) taken all h = absurd h
received_one false (closed []) taken all h = unmoved false (closed []) taken all h
received_one false (closed (c ∷ es)) taken all (lost, e) =
    (lost, rw (append-nil, append_assoc taken (c ∷ []) es) e)
received_one false panicked taken all h = absurd h

sent_one :
    (c : Change) (es taken all : List Change)
    → taken ++ es ≡ all
    → (taken ++ []) ++ (es ++ c ∷ []) ≡ all ++ c ∷ []
sent_one c es taken all h =
    rw (append-nil, sym (append_assoc taken es (c ∷ []))) (ap (λ xs. xs ++ c ∷ []) h)

-- The select of `Publish`, by whether the buffer is full.
offered-IsStream :
    (full : Bool) (c : Change) (es taken all : List Change)
    → taken ++ es ≡ all
    → IsStream
        (offer full c (opened es)).0
        (offer full c (opened es)).1
        (taken ++ [])
        (all ++ c ∷ [])
offered-IsStream true c es taken all h = lost_one true (opened es) (c ∷ []) taken all h
offered-IsStream false c es taken all h = sent_one c es taken all h

-- The body of the loop of `Publish`, at a client whose channel is open.
deliver-IsStream :
    (c : Change) (w : Bool) (es taken all : List Change)
    → taken ++ es ≡ all
    → IsStream
        (deliver c w (opened es)).0
        (deliver c w (opened es)).1
        (taken ++ [])
        (all ++ (if w then c ∷ [] else []))
deliver-IsStream c false es taken all h = unmoved true (opened es) taken all h
deliver-IsStream c true es taken all h = offered-IsStream (is_full (opened es)) c es taken all h

pub publish-IsStream :
    (c : Change) (user : Text) (b : Bool) (ch : Channel) (taken all : List Change)
    → IsStream b ch taken all
    → IsStream
        (b && (deliver c (is_for user c) ch).0)
        (if b then (deliver c (is_for user c) ch).1 else ch)
        (taken ++ [])
        (all ++ (if is_for user c then c ∷ [] else []))
publish-IsStream c user true (opened es) taken all h =
    deliver-IsStream c (is_for user c) es taken all h
publish-IsStream c user true (closed es) taken all h = absurd h
publish-IsStream c user true panicked taken all h = absurd h
publish-IsStream c user false ch taken all h = lost_one false ch _ taken all h
