-- ===== src/Proxy/Guarded.antt =====
-- The order of what `serveRedis` (internal/sessionproxy/redis.go) does: nothing is forwarded before it
-- is in the audit.
use access_gateway.Prelude.{
  ℕ, Bool, true, false, ◌&&◌, ap, ◌||◌, arith, suc, zero, ◌≡◌, refl, ◌∙◌, not, List, [], Text,
  codes, text_eq, length, ok, ◌>>=◌, guard, Result-cases, ◌⊎◌, inl, inr, Bool-cases,
}
use mathlib.Core.Path.{subst}
use access_gateway.Proxy.Bytes.{protocol, to_lower, to_upper}
use access_gateway.Proxy.Framing.{resp_frame, resp_args}
use access_gateway.Proxy.Screening.{
  one_of, identity_changes, first_arg, candidate_of, Command, unauthenticated, screen,
}
use access_gateway.Proxy.Admission.{IsScreened, screen-IsScreened, screen-outside}
use access_gateway.Proxy.Serving.{
  ProxyEvent, forwarded, Environment, Proxy, stop_on, note, begin, adopt, unsolicited, settle_reply,
  answer, serve_one, Ending, stopped, quit, out_of_fuel, serve, connected, serve_redis,
}
use access_gateway.Proxy.Readings.{ConnectionState, reading_of, or_else}
use access_gateway.Proxy.Settling.{
  >>=-Keeps, IsGuarded, Keeps, forwards, settle_reply-Keeps, silent, stop_on-Keeps,
}
use access_gateway.Proxy.Exchange.{IsAsked, IsBegun, IsSafe, begin-Keeps, replied-IsSafe}

-- From the command that has been sent to the end of the round.
answered-Keeps :
    (env : Environment) (bound : Text) (c : Command) (args : List Text) (r : ConnectionState)
    (op : ℕ) (sent : Proxy)
    → IsAsked bound c args r sent
    → Keeps bound (λ x. IsSafe bound x.1) (answer env c op sent)
unfolding answer adopt
answered-Keeps env bound c args r op sent k =
    >>=-Keeps bound (λ x. resp_frame sent.backend ≡ ok x) (λ x. IsSafe bound x.1)
      (stop_on sent (resp_frame sent.backend)) _
      (stop_on-Keeps bound sent (resp_frame sent.backend) k.sent.guarded)
      (λ x _.
        >>=-Keeps bound (λ u. guard (not (unsolicited x.0)) protocol ≡ ok u) (λ y. IsSafe bound y.1)
          (stop_on sent (guard (not (unsolicited x.0)) protocol)) _
          (stop_on-Keeps bound sent (guard (not (unsolicited x.0)) protocol) k.sent.guarded)
          (λ _ _.
            >>=-Keeps bound _ (λ y. IsSafe bound y.1)
              (settle_reply env c op x.0 (adopt c x.0 (record sent { backend = x.1 }))) _
              (settle_reply-Keeps env bound args r c op x.0
                (adopt c x.0 (record sent { backend = x.1 })) k.sent)
              (λ q t. replied-IsSafe bound x.0 c args r sent q k t)))

other_than : (a b c d : Bool) → (a || (b || (c || (d || false)))) ≡ false → c ≡ false
other_than a b c d h = ground (arith, h)

in_transaction_only : (b c : Bool) → (b && c) ≡ false → b ≡ true → c ≡ false
in_transaction_only b c h e = ground (arith, h, e)

reset_outside :
    (cmd : Text) (b : Bool)
    → (b ≡ true → one_of cmd identity_changes ≡ false)
    → b ≡ true
    → text_eq cmd (codes "RESET") ≡ false
reset_outside cmd b h e =
    other_than (text_eq cmd (codes "AUTH")) (text_eq cmd (codes "HELLO"))
      (text_eq cmd (codes "RESET")) (text_eq cmd (codes "QUIT")) (h e)

-- The command has been recorded and sent.
begun-IsAsked :
    (bound frame : Text) (args : List Text) (c : Command) (p begun : Proxy)
    → IsSafe bound p
    → resp_args frame ≡ ok args
    → screen bound p.standing args ≡ ok c
    → IsBegun bound c p begun
    → IsAsked bound c args (reading_of p.trace) (note (forwarded frame) begun)
begun-IsAsked bound frame args c p begun s reads h b =
    let (screened, same, chosen, name) = screen-IsScreened bound frame p.standing args c reads h in
    let r : ConnectionState = reading_of p.trace in
    record {
      sent = record {
        guarded = rw b.recorded (
            forwards b.op p.account (to_lower c.cmd) b.text b.object frame p.trace s.account_is
              s.known
              (subst (λ n. IsScreened bound p.account r.in_transaction n (to_lower c.cmd) frame)
                s.queued_is
                (subst (λ x. IsScreened bound p.account x (length p.queued) (to_lower c.cmd) frame)
                  s.transaction_is screened))
              s.guarded);
        reads = ap reading_of b.recorded;
        asked = ap (or_else []) reads;
      };
      account_is = ap (λ x. x.account) b.same ∙ s.account_is;
      transaction_is = ap (λ x. x.in_transaction) b.same ∙ s.transaction_is;
      queued_is = ap (λ x. length x.queued) b.same ∙ s.queued_is;
      known = subst (λ x. (x ≡ unauthenticated) ⊎ (x ≡ bound)) s.account_is s.known;
      named = name;
      chooses =
          subst (λ x. candidate_of x (to_upper (first_arg args)) args ≡ ok c.candidate) s.account_is
            (subst (λ x. candidate_of p.account (to_upper (first_arg args)) args ≡ ok x) chosen
              (subst (λ x. candidate_of p.account (to_upper (first_arg x)) x ≡ ok screened.chosen)
                same screened.chooses));
      keeps =
          subst (λ x. (c.candidate ≡ x) ⊎ (c.candidate ≡ bound)) s.account_is
            (subst (λ x. (x ≡ p.account) ⊎ (x ≡ bound)) chosen screened.keeps);
      outside = λ e.
          reset_outside c.cmd p.in_transaction
            (in_transaction_only p.in_transaction (one_of c.cmd identity_changes)
              (screen-outside bound p.standing args c h))
            (s.transaction_is ∙ e);
    }

screened_round :
    (env : Environment) (p : Proxy) (frame client : Text) (args : List Text) (c : Command)
    → IsSafe env.bound p
    → resp_args frame ≡ ok args
    → screen env.bound p.standing args ≡ ok c
    → Keeps env.bound
        (λ x. IsSafe env.bound x.1)
        (begin env c args (record p { client = client }) >>= λ begun.
          answer env c p.next_operation (note (forwarded frame) begun))
screened_round env p frame client args c s reads h =
    >>=-Keeps env.bound (IsBegun env.bound c (record p { client = client }))
      (λ x. IsSafe env.bound x.1) (begin env c args (record p { client = client })) _
      (begin-Keeps env env.bound c args (record p { client = client }) s.guarded)
      (λ begun b.
        answered-Keeps env env.bound c args (reading_of p.trace) p.next_operation
          (note (forwarded frame) begun)
          (begun-IsAsked env.bound frame args c (record p { client = client }) begun
            (record {
              guarded = s.guarded;
              account_is = s.account_is;
              transaction_is = s.transaction_is;
              queued_is = s.queued_is;
              known = s.known;
            })
            reads h b))

serve_one-Keeps :
    (env : Environment) (p : Proxy)
    → IsSafe env.bound p
    → Keeps env.bound (λ x. IsSafe env.bound x.1) (serve_one env p)
unfolding serve_one
serve_one-Keeps env p s =
    >>=-Keeps env.bound (λ x. resp_frame p.client ≡ ok x) (λ x. IsSafe env.bound x.1)
      (stop_on p (resp_frame p.client)) _
      (stop_on-Keeps env.bound p (resp_frame p.client) s.guarded)
      (λ x _.
        >>=-Keeps env.bound (λ args. resp_args x.0 ≡ ok args) (λ y. IsSafe env.bound y.1)
          (stop_on p (resp_args x.0)) _ (stop_on-Keeps env.bound p (resp_args x.0) s.guarded)
          (λ args reads.
            >>=-Keeps env.bound (λ c. screen env.bound p.standing args ≡ ok c)
              (λ y. IsSafe env.bound y.1) (stop_on p (screen env.bound p.standing args)) _
              (stop_on-Keeps env.bound p (screen env.bound p.standing args) s.guarded)
              (λ c h. screened_round env p x.0 x.1 args c s reads h)))

-- What the proxy had done when the loop ended.
unfoldable pub trace_of : Ending → List ProxyEvent
trace_of (stopped s) = s.trace
trace_of (quit p) = p.trace
trace_of out_of_fuel = []

serve-IsGuarded :
    (fuel : ℕ) (env : Environment) (p : Proxy)
    → IsSafe env.bound p
    → IsGuarded env.bound (trace_of (serve fuel env p))
unfolding serve trace_of
serve-IsGuarded zero env p s = silent
serve-IsGuarded (suc fuel) env p s = elim (Result-cases (serve_one env p)) [
  | inl (e, q) ↦
      rw (q, trace_of, serve)
        (subst (Keeps env.bound (λ x. IsSafe env.bound x.1)) q (serve_one-Keeps env p s))
  | inr ((cmd, p'), q) ↦
      let t = subst (Keeps env.bound (λ x. IsSafe env.bound x.1)) q (serve_one-Keeps env p s) in
      elim (Bool-cases (text_eq cmd (codes "QUIT"))) [
        | inl f ↦ rw (q, f, trace_of, serve) t.guarded
        | inr f ↦ rw (q, f, trace_of, serve) (serve-IsGuarded fuel env p' t)
      ]
]

-- Whatever the client and the backend send, each command that is forwarded to the backend was recorded
-- just before under its name and under the account of the connection. That account is what the
-- forwarded commands and their replies give, so that a login counts only after a reply that is no
-- error and RESET ends it; it is `unauthenticated` or that of the binding. The command has passed every
-- test of the loop: its name is short, no stream and no push setting, a login names the account of the
-- binding or the present one, within a transaction it neither logs in nor leaves, at 256 queued
-- commands it ends the transaction, and without a login it asks for one or is HELLO, PING or QUIT.
pub serve_redis-IsGuarded :
    (env : Environment) (client backend : Text)
    → IsGuarded env.bound (trace_of (serve_redis env client backend))
unfolding serve_redis
serve_redis-IsGuarded env client backend =
    serve-IsGuarded (suc (length client)) env (connected client backend) (record {
      guarded = silent;
      account_is = refl;
      transaction_is = refl;
      queued_is = refl;
      known = inl refl;
    })
