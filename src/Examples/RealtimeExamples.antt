-- ===== src/Examples/RealtimeExamples.antt =====
-- The hub of internal/realtime/hub.go with two subscriptions.
use access_gateway.Prelude.{◌++◌, ◌≡◌, refl, List, [], ◌∷◌, codes, text_eq}
use access_gateway.Realtime.Hub.{
  Change, opened, closed, new_hub, capacity, subscribe, cancel, publish, Operation, subscribes,
  cancels, publishes, receives, step, run, received_in,
}
use access_gateway.Realtime.Streams.{run-IsStream}
use access_gateway.Realtime.Channels.{IsStream, wanted_in}
use access_gateway.Realtime.Arrivals.{drains, run-arrives}
use access_gateway.Realtime.Limits.{IsHub, run-IsHub}

abbrev to_all : Change
to_all = record { topic = codes "settings"; user_id = [] }

abbrev to_bob : Change
to_bob = record { topic = codes "requests"; user_id = codes "bob" }

abbrev to_alice : Change
to_alice = record { topic = codes "sessions"; user_id = codes "alice" }

abbrev unknown : Change
unknown = record { topic = codes "billing"; user_id = [] }

abbrev operations : List Operation
operations =
    subscribes (codes "bob")
    ∷ publishes to_bob
    ∷ publishes to_all
    ∷ publishes unknown
    ∷ receives 0
    ∷ publishes to_alice
    ∷ cancels 1
    ∷ publishes to_all
    ∷ []

alice_waits :
    (run operations (subscribe (codes "alice") new_hub).0).events 0
    ≡ opened (to_alice ∷ to_all ∷ [])
unfolding run step subscribe cancel publish text_eq
alice_waits = refl

bob_is_gone :
    (run operations (subscribe (codes "alice") new_hub).0).events 1 ≡ closed (to_bob ∷ to_all ∷ [])
unfolding run step subscribe cancel publish text_eq
bob_is_gone = refl

run-IsStream_example :
    IsStream
      ((run operations (subscribe (codes "alice") new_hub).0).clients 0)
      ((run operations (subscribe (codes "alice") new_hub).0).events 0)
      (received_in 0 operations (subscribe (codes "alice") new_hub).0)
      (wanted_in (codes "alice") operations)
run-IsStream_example = run-IsStream (codes "alice") operations new_hub refl

run-IsHub_example : IsHub (run operations new_hub)
run-IsHub_example = run-IsHub operations

run-arrives_example :
    received_in 0
      (operations ++ drains capacity 0)
      (subscribe (codes "alice") (run (publishes to_all ∷ []) new_hub)).0
    ≡ wanted_in (codes "alice") operations
unfolding run step publish text_eq cancel subscribe
run-arrives_example = run-arrives (codes "alice") (publishes to_all ∷ []) operations refl refl
