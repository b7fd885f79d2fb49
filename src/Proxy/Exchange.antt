-- ===== src/Proxy/Exchange.antt =====
-- One exchange of `serveRedis` (internal/sessionproxy/redis.go): the variables of the loop after a reply are
-- what the trace says.
use access_gateway.Prelude.{
  ℕ, Bool, true, false, ◌&&◌, if◌then◌else◌, ap, ap₂, arith, ◌≡◌, refl, sym, ◌∙◌, not, List, ◌∷◌,
  Text, codes, text_eq, length, ok, ◌⊎◌, inl, inr, Bool-cases,
}
use mathlib.Core.Path.{subst}
use access_gateway.Proxy.Bytes.{to_lower, to_upper}
use access_gateway.Proxy.Screening.{first_arg, candidate_of, Command, unauthenticated}
use access_gateway.Proxy.Serving.{
  started, replied, Environment, Proxy, note, persist, describe, begin, failed_reply,
}
use access_gateway.Proxy.Readings.{
  ConnectionState, reading_of, is_queued, ends_transaction, queued_after, account_after,
  transaction_after, reading_after, or_else,
}
use access_gateway.Proxy.Settling.{IsGuarded, IsSent, IsHeld, Keeps, replies}

-- `begin` records the command under the account, and nothing else.
pub record IsBegun (bound : Text) (c : Command) (p p' : Proxy) : Type 0 where
  pub op : ℕ
  pub text : Text
  pub object : Text
  pub recorded : p'.trace ≡ started op p.account (to_lower c.cmd) text object ∷ p.trace
  pub same : p'.standing ≡ p.standing

pub begin-Keeps :
    (env : Environment) (bound : Text) (c : Command) (args : List Text) (p : Proxy)
    → IsGuarded bound p.trace
    → Keeps bound (IsBegun bound c p) (begin env c args p)
unfolding begin persist
begin-Keeps env bound c args p g =
    elim (Bool-cases (
      env.accepts p.trace (
        started p.next_operation p.account (to_lower c.cmd) (describe env.key_digest c.cmd args).0
          (describe env.key_digest c.cmd args).1))) [
            | inl e ↦ rw e (record {
              op = p.next_operation;
              text = (describe env.key_digest c.cmd args).0;
              object = (describe env.key_digest c.cmd args).1;
              recorded = refl;
              same = refl;
            })
            | inr e ↦ rw e g
          ]

-- What holds between two rounds: the variables of the loop are what the trace says.
pub record IsSafe (bound : Text) (p : Proxy) : Type 0 where
  pub guarded : IsGuarded bound p.trace
  pub account_is : p.account ≡ (reading_of p.trace).account
  pub transaction_is : p.in_transaction ≡ (reading_of p.trace).in_transaction
  pub queued_is : length p.queued ≡ (reading_of p.trace).queued
  pub known : (p.account ≡ unauthenticated) ⊎ (p.account ≡ bound)

-- How the account, the transaction and the queue of the code come to those of the reading.
account_agrees :
    (queued failed resets : Bool) (account candidate last : Text)
    → (queued ≡ true → resets ≡ false)
    → (if queued
        then if failed then account else candidate
        else if resets && not failed
        then last
        else if failed
        then account
        else candidate)
      ≡ (if failed then account else if resets then last else candidate)
account_agrees true true resets account candidate last h = refl
account_agrees true false resets account candidate last h = rw (h refl) refl
account_agrees false true true account candidate last h = refl
account_agrees false true false account candidate last h = refl
account_agrees false false true account candidate last h = refl
account_agrees false false false account candidate last h = refl

transaction_agrees :
    (queued begins ends b : Bool)
    → (queued ≡ true → b ≡ true)
    → (if queued then b else if begins then true else if ends && b then false else b)
      ≡ (if begins then true else if ends && not queued then false else b)
transaction_agrees queued begins ends b h = ground (arith, h)

chosen_account :
    (bound last : Text) (failed resets : Bool) (account candidate : Text)
    → last ≡ unauthenticated
    → (account ≡ unauthenticated) ⊎ (account ≡ bound)
    → (candidate ≡ account) ⊎ (candidate ≡ bound)
    → ((if failed then account else if resets then last else candidate) ≡ unauthenticated)
      ⊎ ((if failed then account else if resets then last else candidate) ≡ bound)
chosen_account bound last true resets account candidate l k c = k
chosen_account bound last false true account candidate l k c = inl l
chosen_account bound last false false account candidate l k (inl q) = elim k [
  | inl r ↦ inl (q ∙ r)
  | inr r ↦ inr (q ∙ r)
]
chosen_account bound last false false account candidate l k (inr q) = inr q

-- The command of a round, and the connection before it.
pub record IsAsked (bound : Text) (c : Command) (args : List Text) (r : ConnectionState) (p : Proxy)
    : Type 0 where
  pub sent : IsSent bound args r p.trace
  pub account_is : p.account ≡ r.account
  pub transaction_is : p.in_transaction ≡ r.in_transaction
  pub queued_is : length p.queued ≡ r.queued
  pub known : (r.account ≡ unauthenticated) ⊎ (r.account ≡ bound)
  pub named : c.cmd ≡ to_upper (first_arg args)
  pub chooses : candidate_of r.account (to_upper (first_arg args)) args ≡ ok c.candidate
  pub keeps : (c.candidate ≡ r.account) ⊎ (c.candidate ≡ bound)
  pub outside : r.in_transaction ≡ true → text_eq c.cmd (codes "RESET") ≡ false

queued_inside : (b : Bool) (reply : Text) → is_queued b reply ≡ true → b ≡ true
queued_inside b reply h = ground arith

-- The account after a reply, less what the arguments are called.
abbrev settled_account : Command → ConnectionState → Text → Text
settled_account c r reply =
    if failed_reply reply
    then r.account
    else if text_eq c.cmd (codes "RESET")
    then unauthenticated
    else c.candidate

settled-account :
    (bound reply : Text) (c : Command) (args : List Text) (r : ConnectionState) (p : Proxy)
    → IsAsked bound c args r p
    → (if is_queued p.in_transaction reply
        then if failed_reply reply then p.account else c.candidate
        else if text_eq c.cmd (codes "RESET") && not (failed_reply reply)
        then unauthenticated
        else if failed_reply reply
        then p.account
        else c.candidate)
      ≡ settled_account c r reply
settled-account bound reply c args r p k =
    ap₂
      (λ a b.
        if is_queued b reply
        then if failed_reply reply then a else c.candidate
        else if text_eq c.cmd (codes "RESET") && not (failed_reply reply)
        then unauthenticated
        else if failed_reply reply
        then a
        else c.candidate)
      k.account_is k.transaction_is
    ∙ account_agrees (is_queued r.in_transaction reply) (failed_reply reply)
        (text_eq c.cmd (codes "RESET")) r.account c.candidate unauthenticated
        (λ e. k.outside (queued_inside r.in_transaction reply e))

settled_account-after :
    (bound reply : Text) (c : Command) (args : List Text) (r : ConnectionState) (p : Proxy)
    → IsAsked bound c args r p
    → settled_account c r reply ≡ account_after args reply r.account
settled_account-after bound reply c args r p k =
    ap₂
      (λ x y.
        if failed_reply reply
        then r.account
        else if text_eq x (codes "RESET")
        then unauthenticated
        else y)
      k.named (sym (ap (or_else r.account) k.chooses))

settled-transaction :
    (bound reply : Text) (c : Command) (args : List Text) (r : ConnectionState) (p : Proxy)
    → IsAsked bound c args r p
    → (if is_queued p.in_transaction reply
        then p.in_transaction
        else if text_eq c.cmd (codes "MULTI") && not (failed_reply reply)
        then true
        else if ends_transaction c.cmd && p.in_transaction
        then false
        else p.in_transaction)
      ≡ transaction_after (to_upper (first_arg args)) reply r.in_transaction
settled-transaction bound reply c args r p k =
    ap
      (λ b.
        if is_queued b reply
        then b
        else if text_eq c.cmd (codes "MULTI") && not (failed_reply reply)
        then true
        else if ends_transaction c.cmd && b
        then false
        else b)
      k.transaction_is
    ∙ transaction_agrees (is_queued r.in_transaction reply)
        (text_eq c.cmd (codes "MULTI") && not (failed_reply reply)) (ends_transaction c.cmd)
        r.in_transaction (queued_inside r.in_transaction reply)
    ∙ ap (λ x. transaction_after x reply r.in_transaction) k.named

settled-queued :
    (bound reply : Text) (c : Command) (args : List Text) (r : ConnectionState) (p : Proxy)
    → IsAsked bound c args r p
    → queued_after c.cmd reply p.in_transaction (length p.queued)
      ≡ queued_after (to_upper (first_arg args)) reply r.in_transaction r.queued
settled-queued bound reply c args r p k =
    ap₂ (λ b n. queued_after c.cmd reply b n) k.transaction_is k.queued_is
    ∙ ap (λ x. queued_after x reply r.in_transaction r.queued) k.named

pub replied-IsSafe :
    (bound reply : Text) (c : Command) (args : List Text) (r : ConnectionState) (p q : Proxy)
    → IsAsked bound c args r p
    → IsHeld bound args r
        (if is_queued p.in_transaction reply
          then if failed_reply reply then p.account else c.candidate
          else if text_eq c.cmd (codes "RESET") && not (failed_reply reply)
          then unauthenticated
          else if failed_reply reply
          then p.account
          else c.candidate)
        (if is_queued p.in_transaction reply
          then p.in_transaction
          else if text_eq c.cmd (codes "MULTI") && not (failed_reply reply)
          then true
          else if ends_transaction c.cmd && p.in_transaction
          then false
          else p.in_transaction)
        (queued_after c.cmd reply p.in_transaction (length p.queued))
        q
    → IsSafe bound (note (replied reply) q)
replied-IsSafe bound reply c args r p q k t =
    let e : reading_of (replied reply ∷ q.trace) ≡ reading_after args reply r =
      ap₂ (λ a x. reading_after a reply x) t.sent.asked t.sent.reads in
    let a = t.account_is ∙ settled-account bound reply c args r p k in
    record {
      guarded = replies reply q.trace t.sent.guarded;
      account_is = a ∙ settled_account-after bound reply c args r p k ∙ sym (ap (λ x. x.account) e);
      transaction_is =
          t.transaction_is
          ∙ settled-transaction bound reply c args r p k
          ∙ sym (ap (λ x. x.in_transaction) e);
      queued_is =
          t.queued_is ∙ settled-queued bound reply c args r p k ∙ sym (ap (λ x. x.queued) e);
      known =
          subst (λ x. (x ≡ unauthenticated) ⊎ (x ≡ bound)) (sym a)
            (chosen_account bound unauthenticated (failed_reply reply)
              (text_eq c.cmd (codes "RESET")) r.account c.candidate refl k.known k.keeps);
    }
