-- ===== src/Realtime/Arrivals.antt =====
-- internal/realtime/hub.go: a reader that goes on receiving gets all that was published for its user.
use access_gateway.Prelude.{
  ℕ, zero, suc, ◌≤◌, ◌≡◌, refl, sym, ap, ap₂, ◌∙◌, Bool, true, false, List, [], ◌∷◌, ◌++◌, length,
  append_assoc, Text, arith, ==_iff,
}
use mathlib.Core.Path.{subst}
use access_gateway.Realtime.Hub.{
  Change, Channel, opened, closed, panicked, Hub, capacity, new_hub, subscribe, receive, Operation,
  receives, step, received, run, received_in,
}
use access_gateway.Realtime.Streams.{run-IsStream}
use access_gateway.Realtime.Channels.{IsStream, wanted_in}
use access_gateway.Realtime.Limits.{IsEntry, IsHub, subscribe-IsHub, run-IsHub_from, run-IsHub}

-- So many receives.
abbrev pub drains : ℕ → ℕ → List Operation
drains zero n = []
drains (suc k) n = receives n ∷ drains k n

received_in-append :
    (n : ℕ) (os ps : List Operation) (h : Hub)
    → received_in n (os ++ ps) h ≡ received_in n os h ++ received_in n ps (run os h)
unfolding received_in run
received_in-append n [] ps h = refl
received_in-append n (o ∷ os) ps h =
    ap (λ xs. received n o h ++ xs) (received_in-append n os ps (step o h))
    ∙ sym (
        append_assoc (received n o h) (received_in n os (step o h))
          (received_in n ps (run os (step o h))))

given :
    (n : ℕ) (ch : Channel) (h : Hub) → h.events n ≡ ch → received n (receives n) h ≡ (receive ch).0
unfolding received
given n ch h e = rw ((==_iff n n).1 refl) (ap (λ x. (receive x).0) e)

left_over :
    (n : ℕ) (ch : Channel) (h : Hub)
    → h.events n ≡ ch
    → (step (receives n) h).events n ≡ (receive ch).1
unfolding step
left_over n ch h e = rw ((==_iff n n).1 refl) (ap (λ x. (receive x).1) e)

drained :
    (k n : ℕ) (es : List Change) (h : Hub)
    → h.events n ≡ opened es
    → length es ≤ k
    → received_in n (drains k n) h ≡ es
unfolding received_in
drained zero n [] h e l = refl
drained zero n (c ∷ es) h e l = absurd (omega (arith, l))
drained (suc k) n [] h e l =
    ap₂ (λ xs ys. xs ++ ys) (given n (opened []) h e)
      (drained k n [] (step (receives n) h) (left_over n (opened []) h e) (omega arith))
drained (suc k) n (c ∷ es) h e l =
    ap₂ (λ xs ys. xs ++ ys) (given n (opened (c ∷ es)) h e)
      (drained k n es (step (receives n) h) (left_over n (opened (c ∷ es)) h e) (omega (arith, l)))

client_waits :
    (a : Bool) (b : Bool) (ch : Channel)
    → IsEntry a b ch
    → b ≡ true
    → (es : List Change) × (ch ≡ opened es) × (length es ≤ capacity)
client_waits a true (opened es) i e = (es, refl, i.1)
client_waits a true (closed es) i e = absurd i
client_waits a true panicked i e = absurd i
client_waits a false ch i e = cc

arrived :
    (b : Bool) (ch : Channel) (es taken all : List Change)
    → b ≡ true
    → ch ≡ opened es
    → IsStream b ch taken all
    → taken ++ es ≡ all
arrived b ch es taken all e f i =
    subst (λ x. IsStream true x taken all) f (subst (λ x. IsStream x ch taken all) e i)

-- A user subscribes to an available hub after any operations, and any others follow. If the
-- subscription is still a client then, 32 receives more give its reader exactly the changes of a topic
-- that were published for the user since, each of them once and in order.
pub run-arrives :
    (user : Text) (past os : List Operation)
    → (run past new_hub).available ≡ true
    → (run os (subscribe user (run past new_hub)).0).clients (run past new_hub).allocated ≡ true
    → received_in
        (run past new_hub).allocated
        (os ++ drains capacity (run past new_hub).allocated)
        (subscribe user (run past new_hub)).0
      ≡ wanted_in user os
run-arrives user past os a b =
    let h : Hub = run past new_hub in
    let v : Hub = run os (subscribe user h).0 in
    let i : IsHub v =
      run-IsHub_from os (subscribe user h).0 (subscribe-IsHub user h (run-IsHub past)) in
    let (es, e, l) =
      client_waits v.available (v.clients h.allocated) (v.events h.allocated) (i h.allocated) b in
    received_in-append h.allocated os (drains capacity h.allocated) (subscribe user h).0
    ∙ ap (λ xs. received_in h.allocated os (subscribe user h).0 ++ xs)
        (drained capacity h.allocated es v e l)
    ∙ arrived (v.clients h.allocated) (v.events h.allocated) es
        (received_in h.allocated os (subscribe user h).0) (wanted_in user os) b e
        (run-IsStream user os h a)
