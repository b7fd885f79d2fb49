-- ===== src/Proxy/Readings.antt =====
-- What a trace of `serveRedis` (internal/sessionproxy/redis.go) says of the connection: the account, the
-- transaction and the number of its queued commands, read off the commands that were forwarded and
-- the replies to them.
use access_gateway.Prelude.{
  ℕ, suc, Bool, true, false, ◌&&◌, ◌||◌, not, List, [], ◌∷◌, Text, codes, text_eq, if◌then◌else◌,
  Result, ok, err,
}
use access_gateway.Proxy.Bytes.{to_upper}
use access_gateway.Proxy.Framing.{resp_args}
use access_gateway.Proxy.Screening.{unauthenticated, first_arg, candidate_of}
use access_gateway.Proxy.Serving.{ProxyEvent, forwarded, replied, failed_reply, queued_reply}

pub record ConnectionState : Type 0 where
  pub account : Text
  pub in_transaction : Bool
  pub queued : ℕ

abbrev pub or_else {ℓ κ} : {E : Type ℓ} {A : Type κ} → A → Result E A → A
or_else a (err e) = a
or_else a (ok b) = b

-- The arguments of the last command that was forwarded.
abbrev pub last_args : List ProxyEvent → List Text
last_args [] = []
last_args (forwarded frame ∷ trace) = or_else [] (resp_args frame)
last_args (_ ∷ trace) = last_args trace

-- The account after a reply: an error changes nothing, a RESET logs out, and a login counts.
abbrev pub account_after : List Text → Text → Text → Text
account_after args reply account =
    if failed_reply reply
    then account
    else if text_eq (to_upper (first_arg args)) (codes "RESET")
    then unauthenticated
    else or_else account (candidate_of account (to_upper (first_arg args)) args)

-- Whether the reply says that the command waits for EXEC.
abbrev pub is_queued : Bool → Text → Bool
is_queued in_transaction reply = in_transaction && text_eq reply queued_reply

abbrev pub ends_transaction : Text → Bool
ends_transaction cmd = text_eq cmd (codes "EXEC") || text_eq cmd (codes "DISCARD")

abbrev pub transaction_after : Text → Text → Bool → Bool
transaction_after cmd reply in_transaction =
    if text_eq cmd (codes "MULTI") && not (failed_reply reply)
    then true
    else if ends_transaction cmd && not (is_queued in_transaction reply)
    then false
    else in_transaction

abbrev pub queued_after : Text → Text → Bool → ℕ → ℕ
queued_after cmd reply in_transaction queued =
    if is_queued in_transaction reply
    then suc queued
    else if ends_transaction cmd && in_transaction
    then 0
    else queued

abbrev pub reading_after : List Text → Text → ConnectionState → ConnectionState
reading_after args reply r = record {
  account = account_after args reply r.account;
  in_transaction = transaction_after (to_upper (first_arg args)) reply r.in_transaction;
  queued = queued_after (to_upper (first_arg args)) reply r.in_transaction r.queued;
}

abbrev pub reading_of : List ProxyEvent → ConnectionState
reading_of [] = record { account = unauthenticated; in_transaction = false; queued = 0 }
reading_of (replied reply ∷ trace) = reading_after (last_args trace) reply (reading_of trace)
reading_of (_ ∷ trace) = reading_of trace
