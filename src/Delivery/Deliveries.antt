-- ===== src/Delivery/Deliveries.antt =====
-- Every run of the workers of `ProcessOutbox` beside the other transactions of
-- internal/service/access.go.
use access_gateway.Prelude.{
  false, get_elem?, ◌≤◌, ◌≡◌, refl, sym, ◌∙◌, true, some, List, [], ◌∷◌, Option, In, inl, inr,
  arith, Bool,
}
use mathlib.Core.Path.{subst}
use access_gateway.Access.Model.{Session, Store, OutboxEvent, is_active}
use access_gateway.Access.Life.{stays, join}
use access_gateway.Access.Commands.{needs_command, has_command}
use access_gateway.Access.Ledger.{count, most}
use access_gateway.Delivery.Dispatch.{returned, is_over, is_revoke, session_of}
use access_gateway.Delivery.World.{
  Flight, World, WorldStep, serves, decides, claims, revokes, dispatches, acknowledges, retries,
  WorldRun, done, next,
}
use access_gateway.Delivery.Soundness.{IsSound, IsCarried, All-In}
use access_gateway.Delivery.Transactions.{Follows, serves-Follows, decides-Follows}
use access_gateway.Delivery.Phases.{revoke_next-Went}
use access_gateway.Delivery.Worker.{claims-IsSound, acknowledges-IsSound}
use access_gateway.Delivery.Retries.{retries-Follows}

-- One more flight.
added-IsSound :
    (s : Session) (w : Store) (f : Flight) (fs : List Flight)
    → IsSound s (record { store = w; flights = fs })
    → IsCarried s w.outbox f
    → IsSound s (record { store = w; flights = f ∷ fs })
added-IsSound s w f fs h c = record {
  is_row = h.is_row;
  commanded = h.commanded;
  tidy = h.tidy;
  formed = h.formed;
  carried = (c, h.carried);
}

step-Follows : (s : Session) (w v : World) → WorldStep w v → IsSound s w → Follows s v
step-Follows s _ _ (serves w w' fs t) h = serves-Follows s w w' fs h t
step-Follows s _ _ (decides env now d seen w w' fs k) h =
    decides-Follows env now d seen s w w' fs h k
step-Follows s _ _ (claims now index e o w fs k g) h = record {
  row = s;
  advances = stays s;
  sound = claims-IsSound now index e o s w fs h k g;
}
step-Follows s _ _ (revokes now reason answer f w fs i r) h =
    let went = revoke_next-Went now reason answer f.phase f s w fs h i refl r in
    record {
      row = went.row;
      advances = went.advances;
      sound = added-IsSound went.row _ _ fs went.sound went.carried;
    }
step-Follows s _ _ (dispatches f phase w fs i r) h =
    let c = All-In (IsCarried s w.outbox) f fs h.carried i in
    record {
      row = s;
      advances = stays s;
      sound =
          added-IsSound s w (record f { phase = phase }) fs h
            (record { entry = c.entry; known = λ b j. ground (arith, b, r) });
    }
step-Follows s _ _ (acknowledges f o w fs i p k) h = record {
  row = s;
  advances = stays s;
  sound = acknowledges-IsSound f o s w fs h i p k;
}
step-Follows s _ _ (retries now reason f w w' fs i p k) h =
    retries-Follows now reason f s w w' fs h i k

run-Follows : (s : Session) (w w' : World) → WorldRun w w' → IsSound s w → Follows s w'
run-Follows s w w' (done _) h = record { row = s; advances = stays s; sound = h }
run-Follows s w w' (next _ v _ t r) h =
    let f = step-Follows s w v t h in
    let g = run-Follows f.row v w' r f.sound in
    record { row = g.row; advances = join s f.row g.row f.advances g.advances; sound = g.sound }

-- The store of a request that no worker has claimed an event of.
abbrev pub resting : Store → World
resting w = record { store = w; flights = [] }

same_event : (e f : OutboxEvent) → Path (Option OutboxEvent) (some e) (some f) → e ≡ f
same_event e f h = cc

same_row : (s t : Session) → Path (Option Session) (some s) (some t) → s ≡ t
same_row s t h = cc

reached-IsSound :
    (s t : Session) (w : Store) (w' : World)
    → IsSound s (resting w)
    → WorldRun (resting w) w'
    → w'.store.session ≡ some t
    → IsSound t w'
reached-IsSound s t w w' h r i =
    let f = run-Follows s (resting w) w' r h in
    subst (λ x. IsSound x w') (same_row f.row t (sym f.sound.is_row ∙ i)) f.sound

-- With any number of workers, which claim, repeat, acknowledge and give up deliveries while the other
-- transactions run, a session in `revoking` or `revoke_failed` always has a pending or processing
-- revoke command, if the store was sound before the first claim.
pub WorldRun-IsCommanded :
    (s t : Session) (w : Store) (w' : World)
    → IsSound s (resting w)
    → WorldRun (resting w) w'
    → w'.store.session ≡ some t
    → needs_command t.status ≡ true
    → has_command t.id w'.store.outbox ≡ true
WorldRun-IsCommanded s t w w' h r i = (reached-IsSound s t w w' h r i).commanded

-- In the same runs a session has at most one pending or processing revoke command, and none in
-- `provisioning`, `running` and `manual_intervention`.
pub WorldRun-most :
    (s t : Session) (w : Store) (w' : World)
    → IsSound s (resting w)
    → WorldRun (resting w) w'
    → w'.store.session ≡ some t
    → count t.id w'.store.outbox ≤ most t.status
WorldRun-most s t w w' h r i = (reached-IsSound s t w w' h r i).tidy

active_or_not : (b : Bool) → b ≡ true → b ≡ false → ⊥
active_or_not b h k = ground (arith, h, k)

-- In the same runs, when a worker may acknowledge a revoke command of the session that is still
-- pending or processing, the session is expired, closed or failed.
pub WorldRun-over :
    (s t : Session) (w : Store) (w' : World) (f : Flight) (e : OutboxEvent)
    → IsSound s (resting w)
    → WorldRun (resting w) w'
    → w'.store.session ≡ some t
    → In f w'.flights
    → f.phase ≡ returned
    → is_revoke f.event ≡ true
    → session_of f.event ≡ t.id
    → get_elem? w'.store.outbox f.index ≡ some e
    → is_active e.status ≡ true
    → is_over t.status ≡ true
WorldRun-over s t w w' f e h r i j p b k g a =
    let v = reached-IsSound s t w w' h r i in
    let c = All-In (IsCarried t w'.store.outbox) f w'.flights v.carried j in
    let found = same_event c.entry.present e (sym c.entry.is_at ∙ g) in
    elim ((c.known b k).cleared p) [
      | inl over ↦ over
      | inr asleep ↦
          elim (active_or_not (is_active e.status) a
            (subst (λ x. is_active x.status ≡ false) found asleep)) [ ]
    ]
