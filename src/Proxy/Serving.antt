-- ===== src/Proxy/Serving.antt =====
-- internal/sessionproxy/redis.go: the loop of `serveRedis`. The two connections are the bytes that
-- the peers send, so that every behaviour of a client and of a backend is one pair of lists. The
-- audit sink, which may refuse an event, is a parameter, and so is the digest of a key; a write to a
-- peer succeeds. The trace holds what the proxy has done, the latest first.
use access_gateway.Prelude.{
  ℕ, suc, zero, Bool, true, false, ◌&&◌, ◌||◌, not, Option, none, some, List, [], ◌∷◌, ◌++◌, Text,
  codes, text_eq, leb, ◌==◌, if◌then◌else◌, length, is_empty, Result, ok, err, ◌>>=◌, ◌>>◌, guard,
}
use access_gateway.Proxy.Bytes.{ProxyError, protocol, audit, ℤ, pos, negsuc, to_lower}
use access_gateway.Proxy.Framing.{header, head_byte, resp_frame, resp_args}
use access_gateway.Proxy.Screening.{Standing, Command, one_of, unauthenticated, screen}

-- An operation is named by its number, for the random id.
pub data ProxyEvent : Type 0 where
  started : ℕ → Text → Text → Text → Text → ProxyEvent
  forwarded : Text → ProxyEvent
  completed : ℕ → Text → ProxyEvent
  replied : Text → ProxyEvent

pub record Environment : Type 0 where
  pub accepts : List ProxyEvent → ProxyEvent → Bool
  pub key_digest : Text → Text
  pub bound : Text

pub record Proxy : Type 0 where
  pub standing : Standing
  pub open standing use *
  pub next_operation : ℕ
  pub client : Text
  pub backend : Text
  pub trace : List ProxyEvent

-- The end of the loop with an error, and what had been done.
pub record Stop : Type 0 where
  pub reason : ProxyError
  pub trace : List ProxyEvent

-- `if e != nil { return e }`
abbrev pub stop_on {ℓ} : {A : Type ℓ} → Proxy → Result ProxyError A → Result Stop A
stop_on p (err e) = err (record { reason = e; trace = p.trace })
stop_on p (ok a) = ok a

abbrev pub note : ProxyEvent → Proxy → Proxy
note e p = record p { trace = e ∷ p.trace }

-- `persist`
unfoldable pub persist : Environment → ProxyEvent → Proxy → Result Stop Proxy
persist env e p =
    if env.accepts p.trace e
    then ok (note e p)
    else err (record { reason = audit; trace = p.trace })

abbrev keyed : List Text
keyed = codes "GET" ∷ codes "SET" ∷ codes "DEL" ∷ codes "HGET" ∷ codes "HSET" ∷ codes "EXISTS" ∷ []

-- `text` and `object`
unfoldable pub describe : (Text → Text) → Text → List Text → Text × Text
describe digest cmd (first ∷ key ∷ args) =
    if one_of cmd keyed
    then (cmd ++ codes " " ++ codes "key-sha256:" ++ digest key, codes "key-sha256:" ++ digest key)
    else (cmd ++ codes " [arguments redacted]", [])
describe digest cmd args = (cmd, [])

-- `r.begin`
unfoldable pub begin : Environment → Command → List Text → Proxy → Result Stop Proxy
begin env c args p = do
  let (text, object) = describe env.key_digest c.cmd args
  p' ← persist env (started p.next_operation p.account (to_lower c.cmd) text object) p
  ok (record p' { next_operation = suc p'.next_operation })

abbrev pub failed_reply : Text → Bool
failed_reply reply = head_byte reply == b'-' || head_byte reply == b'!'

abbrev pub result_of : Text → Text
result_of reply = if failed_reply reply then codes "failure" else codes "success"

unfoldable pub outcomes_of : ℕ → Text → Result ProxyError (List Text × Text)
outcomes_of zero input = ok ([], input)
outcomes_of (suc n) input = elim (resp_frame input) [
  | err e ↦ err protocol
  | ok (part, rest) ↦ do
    guard (not (is_empty part)) protocol
    (outcomes, rest') ← outcomes_of n rest
    ok (result_of part ∷ outcomes, rest')
]

abbrev result_count : ℤ → Result ProxyError ℕ
result_count (negsuc n) = err protocol
result_count (pos n) = do guard (leb n 256) protocol; ok n

-- `none` is the nil slice of an aborted transaction.
unfoldable pub redis_exec_results : Text → Result ProxyError (Option (List Text))
redis_exec_results reply =
    if text_eq reply (codes "*-1" ++ 13 ∷ 10 ∷ []) || text_eq reply (codes "_" ++ 13 ∷ 10 ∷ [])
    then ok none
    else do
      (n, rest) ← header b'*' reply
      count ← result_count n
      (outcomes, rest') ← outcomes_of count rest
      guard (is_empty rest') protocol
      ok (some outcomes)

-- The outcome of each queued operation.
unfoldable pub exec_outcomes : Text → Text → List ℕ → Result ProxyError (Option (List Text))
exec_outcomes cmd reply queued =
    if text_eq cmd (codes "EXEC") && not (failed_reply reply)
    then (do
      outcomes ← redis_exec_results reply
      elim outcomes [
        | none ↦ ok none
        | some results ↦ do guard (length results == length queued) protocol; ok (some results)
      ])
    else ok none

abbrev skipped : Text
skipped = codes "skipped"

-- `pending.end(outcome)` for the operations of the queue; without outcomes they were skipped.
unfoldable pub end_queued : Environment → List ℕ → Option (List Text) → Proxy → Result Stop Proxy
end_queued env [] outcomes p = ok p
end_queued env (op ∷ ops) none p = persist env (completed op skipped) p >>= end_queued env ops none
end_queued env (op ∷ ops) (some []) p =
    persist env (completed op skipped) p >>= end_queued env ops (some [])
end_queued env (op ∷ ops) (some (outcome ∷ outcomes)) p =
    persist env (completed op outcome) p >>= end_queued env ops (some outcomes)

-- The end of a transaction.
unfoldable pub settle_queue : Environment → Text → Text → Proxy → Result Stop Proxy
settle_queue env cmd reply p =
    if (text_eq cmd (codes "EXEC") || text_eq cmd (codes "DISCARD")) && p.in_transaction
    then (do
      outcomes ← stop_on p (exec_outcomes cmd reply p.queued)
      p' ← end_queued env p.queued outcomes p
      ok (record p' {
        standing = record { account = p'.account; in_transaction = false; queued = [] };
      }))
    else ok p

abbrev pub queued_reply : Text
queued_reply = codes "+QUEUED" ++ 13 ∷ 10 ∷ []

-- What a reply changes of the account and of the transaction.
unfoldable pub after_reply : Text → Text → Standing → Standing
after_reply cmd reply s = record {
  account =
      if text_eq cmd (codes "RESET") && not (failed_reply reply)
      then unauthenticated
      else s.account;
  in_transaction =
      if text_eq cmd (codes "MULTI") && not (failed_reply reply) then true else s.in_transaction;
  queued = s.queued;
}

-- `account = candidate` unless the reply is an error.
unfoldable pub adopt : Command → Text → Proxy → Proxy
adopt c reply p = record p {
  standing = record {
    account = if failed_reply reply then p.account else c.candidate;
    in_transaction = p.in_transaction;
    queued = p.queued;
  };
}

-- From the reply of the backend to the operation `op` to the end of the audit.
unfoldable pub settle_reply : Environment → Command → ℕ → Text → Proxy → Result Stop Proxy
settle_reply env c op reply p =
    if p.in_transaction && text_eq reply queued_reply
    then ok (record p {
      standing = record {
        account = p.account;
        in_transaction = p.in_transaction;
        queued = p.queued ++ op ∷ [];
      };
    })
    else do
      p' ← settle_queue env c.cmd reply p
      persist env (completed op (result_of reply))
          (record p' { standing = after_reply c.cmd reply p'.standing })

abbrev pub unsolicited : Text → Bool
unsolicited reply = is_empty reply || head_byte reply == b'>' || head_byte reply == b'|'

-- From the command `op` that has been sent to the end of the round.
unfoldable pub answer : Environment → Command → ℕ → Proxy → Result Stop (Text × Proxy)
answer env c op sent = do
  (reply, backend) ← stop_on sent (resp_frame sent.backend)
  stop_on sent (guard (not (unsolicited reply)) protocol)
  served ← settle_reply env c op reply (adopt c reply (record sent { backend = backend }))
  ok (c.cmd, note (replied reply) served)

-- One round of the loop.
unfoldable pub serve_one : Environment → Proxy → Result Stop (Text × Proxy)
serve_one env p = do
  (frame, client) ← stop_on p (resp_frame p.client)
  args ← stop_on p (resp_args frame)
  c ← stop_on p (screen env.bound p.standing args)
  begun ← begin env c args (record p { client = client })
  answer env c p.next_operation (note (forwarded frame) begun)

-- How the loop ended: an error, or QUIT.
pub data Ending : Type 0 where
  stopped : Stop → Ending
  quit : Proxy → Ending
  out_of_fuel : Ending

-- The loop; every round takes bytes from the client.
unfoldable pub serve : ℕ → Environment → Proxy → Ending
serve zero env p = out_of_fuel
serve (suc fuel) env p = elim (serve_one env p) [
  | err stop ↦ stopped stop
  | ok (cmd, p') ↦ elim (text_eq cmd (codes "QUIT")) [ true ↦ quit p' | false ↦ serve fuel env p' ]
]

abbrev pub connected : Text → Text → Proxy
connected client backend = record {
  standing = record { account = unauthenticated; in_transaction = false; queued = [] };
  next_operation = 0;
  client = client;
  backend = backend;
  trace = [];
}

-- `serveRedis`
unfoldable pub serve_redis : Environment → Text → Text → Ending
serve_redis env client backend = serve (suc (length client)) env (connected client backend)
