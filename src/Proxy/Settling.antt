-- ===== src/Proxy/Settling.antt =====
-- The trace of `serveRedis` (internal/sessionproxy/redis.go) while the operations of a round are
-- settled.
use access_gateway.Prelude.{
  ℕ, Bool, true, false, if◌then◌else◌, length, length-append, ap, arith, ◌≡◌, refl, ◌&&◌, not,
  Option, none, some, List, [], ◌∷◌, Text, codes, text_eq, Result, ok, err, ◌>>=◌, ◌⊎◌, inl, inr,
  Bool-cases,
}
use access_gateway.Proxy.Bytes.{ProxyError}
use access_gateway.Proxy.Screening.{Command, unauthenticated}
use access_gateway.Proxy.Readings.{
  ConnectionState, reading_of, last_args, is_queued, ends_transaction, queued_after,
}
use access_gateway.Proxy.Admission.{IsScreened}
use access_gateway.Proxy.Serving.{
  ProxyEvent, started, forwarded, completed, replied, Environment, Proxy, Stop, stop_on, persist,
  failed_reply, result_of, exec_outcomes, end_queued, settle_queue, after_reply, settle_reply,
}

-- A trace, the latest event first, in which every command that is forwarded is in the audit under the
-- account that the trace before it gives, and has passed the tests for that account.
pub data IsGuarded (bound : Text) : List ProxyEvent → Type 0 where
  silent : IsGuarded bound []
  forwards :
      (op : ℕ) (account kind text object frame : Text) (trace : List ProxyEvent)
      → account ≡ (reading_of trace).account
      → (account ≡ unauthenticated) ⊎ (account ≡ bound)
      → IsScreened bound account
          (reading_of trace).in_transaction
          (reading_of trace).queued
          kind
          frame
      → IsGuarded bound trace
      → IsGuarded bound (forwarded frame ∷ started op account kind text object ∷ trace)
  completes :
      (op : ℕ) (outcome : Text) (trace : List ProxyEvent)
      → IsGuarded bound trace
      → IsGuarded bound (completed op outcome ∷ trace)
  replies :
      (reply : Text) (trace : List ProxyEvent)
      → IsGuarded bound trace
      → IsGuarded bound (replied reply ∷ trace)

-- The trace is guarded also where the loop stops.
abbrev pub Keeps : {A : Type 0} → Text → (A → Type 0) → Result Stop A → Type 0
Keeps bound P (err s) = IsGuarded bound s.trace
Keeps bound P (ok a) = P a

pub >>=-Keeps :
    {A B : Type 0} (bound : Text) (P : A → Type 0) (Q : B → Type 0) (m : Result Stop A)
    (f : A → Result Stop B)
    → Keeps bound P m
    → ((a : A) → P a → Keeps bound Q (f a))
    → Keeps bound Q (m >>= f)
>>=-Keeps bound P Q (err s) f k g = k
>>=-Keeps bound P Q (ok a) f k g = g a k

pub stop_on-Keeps :
    {A : Type 0} (bound : Text) (p : Proxy) (m : Result ProxyError A)
    → IsGuarded bound p.trace
    → Keeps bound (λ a. m ≡ ok a) (stop_on p m)
stop_on-Keeps bound p (err e) g = g
stop_on-Keeps bound p (ok a) g = refl

-- A command with these arguments has been sent and waits for its reply.
pub record IsSent (bound : Text) (args : List Text) (r : ConnectionState) (trace : List ProxyEvent)
    : Type 0 where
  pub guarded : IsGuarded bound trace
  pub reads : reading_of trace ≡ r
  pub asked : last_args trace ≡ args

-- The same, with the variables of the loop.
pub record IsHeld (bound : Text) (args : List Text) (r : ConnectionState) (account : Text)
    (in_transaction : Bool) (queued : ℕ) (p : Proxy) : Type 0 where
  pub sent : IsSent bound args r p.trace
  pub account_is : p.account ≡ account
  pub transaction_is : p.in_transaction ≡ in_transaction
  pub queued_is : length p.queued ≡ queued

module _ (env : Environment) (bound : Text) (args : List Text) (r : ConnectionState) where
  persist-Keeps :
      (op : ℕ) (outcome : Text) (a : Text) (b : Bool) (n : ℕ) (p : Proxy)
      → IsHeld bound args r a b n p
      → Keeps bound (IsHeld bound args r a b n) (persist env (completed op outcome) p)
  unfolding persist
  persist-Keeps op outcome a b n p s =
      elim (Bool-cases (env.accepts p.trace (completed op outcome))) [
        | inl e ↦ rw e (record {
          sent = record {
            guarded = completes op outcome p.trace s.sent.guarded;
            reads = s.sent.reads;
            asked = s.sent.asked;
          };
          account_is = s.account_is;
          transaction_is = s.transaction_is;
          queued_is = s.queued_is;
        })
        | inr e ↦ rw e s.sent.guarded
      ]

  end_queued-Keeps :
      (ops : List ℕ) (outcomes : Option (List Text)) (a : Text) (b : Bool) (n : ℕ) (p : Proxy)
      → IsHeld bound args r a b n p
      → Keeps bound (IsHeld bound args r a b n) (end_queued env ops outcomes p)
  unfolding end_queued
  end_queued-Keeps [] outcomes a b n p s = s
  end_queued-Keeps (op ∷ ops) none a b n p s =
      >>=-Keeps bound (IsHeld bound args r a b n) (IsHeld bound args r a b n)
        (persist env (completed op (codes "skipped")) p) (end_queued env ops none)
        (persist-Keeps op _ a b n p s) (end_queued-Keeps ops none a b n)
  end_queued-Keeps (op ∷ ops) (some []) a b n p s =
      >>=-Keeps bound (IsHeld bound args r a b n) (IsHeld bound args r a b n)
        (persist env (completed op (codes "skipped")) p) (end_queued env ops (some []))
        (persist-Keeps op _ a b n p s) (end_queued-Keeps ops (some []) a b n)
  end_queued-Keeps (op ∷ ops) (some (outcome ∷ outcomes)) a b n p s =
      >>=-Keeps bound (IsHeld bound args r a b n) (IsHeld bound args r a b n)
        (persist env (completed op outcome) p) (end_queued env ops (some outcomes))
        (persist-Keeps op outcome a b n p s) (end_queued-Keeps ops (some outcomes) a b n)

  settle_queue-Keeps :
      (cmd reply : Text) (p : Proxy)
      → IsSent bound args r p.trace
      → Keeps bound
          (IsHeld bound args r p.account
            (if ends_transaction cmd && p.in_transaction then false else p.in_transaction)
            (if ends_transaction cmd && p.in_transaction then 0 else length p.queued))
          (settle_queue env cmd reply p)
  unfolding settle_queue
  settle_queue-Keeps cmd reply p s =
      let held : IsHeld bound args r p.account p.in_transaction (length p.queued) p = record {
        sent = s;
        account_is = refl;
        transaction_is = refl;
        queued_is = refl;
      } in
      elim (Bool-cases (ends_transaction cmd && p.in_transaction)) [
        | inl e ↦ rw e (
            >>=-Keeps bound (λ o. exec_outcomes cmd reply p.queued ≡ ok o)
              (IsHeld bound args r p.account false 0) (stop_on p (exec_outcomes cmd reply p.queued))
              _ (stop_on-Keeps bound p (exec_outcomes cmd reply p.queued) s.guarded)
              (λ o _.
                >>=-Keeps bound (IsHeld bound args r p.account p.in_transaction (length p.queued))
                  (IsHeld bound args r p.account false 0) (end_queued env p.queued o p) _
                  (end_queued-Keeps p.queued o p.account p.in_transaction (length p.queued) p held)
                  (λ q t. record {
                    sent = t.sent;
                    account_is = t.account_is;
                    transaction_is = refl;
                    queued_is = refl;
                  })))
        | inr e ↦ rw e held
      ]

  pub settle_reply-Keeps :
      (c : Command) (op : ℕ) (reply : Text) (p : Proxy)
      → IsSent bound args r p.trace
      → Keeps bound
          (IsHeld bound args r
            (if is_queued p.in_transaction reply
              then p.account
              else if text_eq c.cmd (codes "RESET") && not (failed_reply reply)
              then unauthenticated
              else p.account)
            (if is_queued p.in_transaction reply
              then p.in_transaction
              else if text_eq c.cmd (codes "MULTI") && not (failed_reply reply)
              then true
              else if ends_transaction c.cmd && p.in_transaction
              then false
              else p.in_transaction)
            (queued_after c.cmd reply p.in_transaction (length p.queued)))
          (settle_reply env c op reply p)
  unfolding settle_reply after_reply
  settle_reply-Keeps c op reply p s = elim (Bool-cases (is_queued p.in_transaction reply)) [
    | inl e ↦ rw e (record {
      sent = s;
      account_is = refl;
      transaction_is = refl;
      queued_is = omega (arith, length-append p.queued (op ∷ []));
    })
    | inr e ↦ rw e (
        >>=-Keeps bound _ _ (settle_queue env c.cmd reply p) _ (settle_queue-Keeps c.cmd reply p s)
          (λ q t.
            persist-Keeps op (result_of reply) _ _ _
              (record q { standing = after_reply c.cmd reply q.standing })
              (record {
                sent = t.sent;
                account_is =
                    ap
                      (λ x.
                        if text_eq c.cmd (codes "RESET") && not (failed_reply reply)
                        then unauthenticated
                        else x)
                      t.account_is;
                transaction_is =
                    ap
                      (λ x.
                        if text_eq c.cmd (codes "MULTI") && not (failed_reply reply)
                        then true
                        else x)
                      t.transaction_is;
                queued_is = t.queued_is;
              })))
  ]
