-- ===== src/Delivery/World.antt =====
-- internal/service/access.go: `ProcessOutbox` in any number of workers, beside the other transactions.
-- A flight is an event that a worker has claimed and the phase of its delivery. Flights are kept when
-- they have gone on, so that a worker may also repeat a phase: there are more runs here than the code
-- has.
use access_gateway.Prelude.{ℕ, ◌≡◌, true, false, Option, List, ◌∷◌, Text, ok, In, get_elem?, some}
use access_gateway.Access.Model.{Store, OutboxEvent}
use access_gateway.Access.Queue.{update_at, claim_event, mark_processed}
use access_gateway.Access.Steps.{ServiceStep}
use access_gateway.Access.Decisions.{Environment, Decision, decide_approval}
use access_gateway.Delivery.Dispatch.{
  Phase, loading, returned, erred, revoke_next, is_revoke, session_of, after_dispatch_error,
}

pub record Flight : Type 0 where
  pub index : ℕ
  pub event : OutboxEvent
  pub phase : Phase

pub record World : Type 0 where
  pub store : Store
  pub flights : List Flight

-- One transaction or one phase.
pub data WorldStep : World → World → Type 0 where
  serves :
      (w w' : Store) (fs : List Flight)
      → ServiceStep w w'
      → WorldStep (record { store = w; flights = fs }) (record { store = w'; flights = fs })
  decides :
      (env : Environment) (now : ℕ) (d : Decision) (seen w w' : Store) (fs : List Flight)
      → decide_approval env now d seen w ≡ ok w'
      → WorldStep (record { store = w; flights = fs }) (record { store = w'; flights = fs })
  claims :
      (now index : ℕ) (e : OutboxEvent) (o : List OutboxEvent) (w : Store) (fs : List Flight)
      → update_at (claim_event now 60) index w.outbox ≡ ok o
      → get_elem? o index ≡ some e
      → WorldStep
          (record { store = w; flights = fs })
          (record {
            store = record w { outbox = o };
            flights = record { index = index; event = e; phase = loading } ∷ fs;
          })
  revokes :
      (now : ℕ) (reason : Text) (answer : Option Text) (f : Flight) (w : Store) (fs : List Flight)
      → In f fs
      → is_revoke f.event ≡ true
      → WorldStep
          (record { store = w; flights = fs })
          (record {
            store = (revoke_next now reason answer (session_of f.event) f.phase w).0;
            flights =
                record f {
                  phase = (revoke_next now reason answer (session_of f.event) f.phase w).1;
                }
                ∷ fs;
          })
  dispatches :
      (f : Flight) (phase : Phase) (w : Store) (fs : List Flight)
      → In f fs
      → is_revoke f.event ≡ false
      → WorldStep
          (record { store = w; flights = fs })
          (record { store = w; flights = record f { phase = phase } ∷ fs })
  acknowledges :
      (f : Flight) (o : List OutboxEvent) (w : Store) (fs : List Flight)
      → In f fs
      → f.phase ≡ returned
      → update_at mark_processed f.index w.outbox ≡ ok o
      → WorldStep
          (record { store = w; flights = fs })
          (record { store = record w { outbox = o }; flights = fs })
  retries :
      (now : ℕ) (reason : Text) (f : Flight) (w w' : Store) (fs : List Flight)
      → In f fs
      → f.phase ≡ erred
      → after_dispatch_error now reason f.index f.event w ≡ ok w'
      → WorldStep (record { store = w; flights = fs }) (record { store = w'; flights = fs })

pub data WorldRun : World → World → Type 0 where
  done : (w : World) → WorldRun w w
  next : (w v w' : World) → WorldStep w v → WorldRun v w' → WorldRun w w'
