-- ===== src/Proxy/Audited.antt =====
-- The operations that `serveRedis` (internal/sessionproxy/redis.go) has begun and not ended, and the
-- bytes that a round takes.
use access_gateway.Prelude.{
  ℕ, suc, ◌<◌, ◌≡◌, refl, sym, ap, ◌∙◌, Bool, true, false, ◌&&◌, ◌||◌, not, List, [], ◌∷◌, ◌++◌,
  Text, codes, text_eq, if◌then◌else◌, All, All-append, Result, ok, >>=-eq-ok, guard, arith,
}
use mathlib.Core.Path.{subst}
use access_gateway.Proxy.Bytes.{protocol}
use access_gateway.Proxy.Framing.{resp_frame}
use access_gateway.Proxy.Screening.{Command}
use access_gateway.Proxy.Serving.{
  completed, Environment, Proxy, Stop, stop_on, persist, begin, failed_reply, result_of,
  exec_outcomes, end_queued, settle_queue, queued_reply, after_reply, adopt, unsolicited,
  settle_reply, answer,
}
use access_gateway.Proxy.Operations.{
  end_queued-Ended, eq-ok, open_ops, persist-ok, remove, remove-last,
}

-- What holds between two rounds: the open operations are those that the transaction has queued.
pub record IsAudited (p : Proxy) : Type 0 where
  pub pending : open_ops p.trace ≡ p.queued
  pub numbered : All (λ op. op < p.next_operation) p.queued
  pub idle : p.in_transaction ≡ false → p.queued ≡ []

-- The operation `op` has begun after the queued ones.
pub record IsSent (op : ℕ) (p : Proxy) : Type 0 where
  pub opened : open_ops p.trace ≡ p.queued ++ op ∷ []
  pub numbered : All (λ x. x < op) p.queued
  pub next : p.next_operation ≡ suc op
  pub idle : p.in_transaction ≡ false → p.queued ≡ []

-- A test of the code with a transaction under it, and none otherwise.
when-ok :
    (b : Bool) (m : Result Stop Proxy) (p p' : Proxy) (P : Proxy → Type 0)
    → (m ≡ ok p' → P p')
    → P p
    → (if b then m else ok p) ≡ ok p'
    → P p'
when-ok true m p p' P f k h = f h
when-ok false m p p' P f k h = subst P (eq-ok h) k

-- The transaction has ended, or nothing has changed.
record IsKept (op : ℕ) (p p' : Proxy) : Type 0 where
  sent : IsSent op p'
  same_client : p'.client ≡ p.client
  stays_out : p.in_transaction ≡ false → p'.in_transaction ≡ false

settle_queue-IsKept :
    (env : Environment) (op : ℕ) (cmd reply : Text) (p p' : Proxy)
    → IsSent op p
    → settle_queue env cmd reply p ≡ ok p'
    → IsKept op p p'
unfolding settle_queue
settle_queue-IsKept env op cmd reply p p' s h =
    when-ok ((text_eq cmd (codes "EXEC") || text_eq cmd (codes "DISCARD")) && p.in_transaction) _ p
      p' (IsKept op p)
      (λ e.
        let (outcomes, d, f) = >>=-eq-ok (stop_on p (exec_outcomes cmd reply p.queued)) _ e in
        let (q, c, g) = >>=-eq-ok (end_queued env p.queued outcomes p) _ f in
        let a = end_queued-Ended env p.queued (op ∷ []) outcomes p q s.opened c in
        subst (IsKept op p) (eq-ok g) (record {
          sent = record {
            opened = a.left;
            numbered = tt;
            next = a.same_next ∙ s.next;
            idle = λ _. refl;
          };
          same_client = a.same_client;
          stays_out = λ _. refl;
        }))
      (record { sent = s; same_client = refl; stays_out = λ t. t }) h

all_suc : (op : ℕ) (ops : List ℕ) → All (λ x. x < op) ops → All (λ x. x < suc op) ops
all_suc op [] h = tt
all_suc op (x ∷ ops) h = (omega (arith, h.0), all_suc op ops h.1)

still_idle : (b t : Bool) → (if b then true else t) ≡ false → t ≡ false
still_idle b t h = ground arith

not_begun :
    (m fails t : Bool) → m ≡ false → t ≡ false → (if m && not fails then true else t) ≡ false
not_begun m fails t a b = ground arith

-- After the settlement of an operation the open ones are the queued ones again.
pub record IsSettled (cmd : Text) (p p' : Proxy) : Type 0 where
  pub audited : IsAudited p'
  pub same_client : p'.client ≡ p.client
  pub stays_out :
      text_eq cmd (codes "MULTI") ≡ false → p.in_transaction ≡ false → p'.in_transaction ≡ false

completed-IsSettled :
    (env : Environment) (op : ℕ) (cmd reply : Text) (p q p' : Proxy)
    → IsKept op p q
    → persist env
        (completed op (result_of reply))
        (record q { standing = after_reply cmd reply q.standing })
      ≡ ok p'
    → IsSettled cmd p p'
unfolding after_reply
completed-IsSettled env op cmd reply p q p' k h =
    subst (IsSettled cmd p)
      (persist-ok env (completed op (result_of reply))
        (record q { standing = after_reply cmd reply q.standing }) p' h)
      (record {
        audited = record {
          pending = ap (remove op) k.sent.opened ∙ remove-last op q.queued k.sent.numbered;
          numbered =
              subst (λ n. All (λ x. x < n) q.queued) (sym k.sent.next)
                (all_suc op q.queued k.sent.numbered);
          idle = λ t. k.sent.idle (
              still_idle (text_eq cmd (codes "MULTI") && not (failed_reply reply)) q.in_transaction
                t);
        };
        same_client = k.same_client;
        stays_out = λ m t.
            not_begun (text_eq cmd (codes "MULTI")) (failed_reply reply) q.in_transaction m
              (k.stays_out t);
      })

queued_or :
    (b : Bool) (m : Result Stop Proxy) (p p' : Proxy) (P : Proxy → Type 0)
    → (b ≡ true → P p)
    → (m ≡ ok p' → P p')
    → (if b then ok p else m) ≡ ok p'
    → P p'
queued_or true m p p' P k f h = subst P (eq-ok h) (k refl)
queued_or false m p p' P k f h = f h

in_transaction_of : (t b : Bool) → (t && b) ≡ true → t ≡ false → ⊥
in_transaction_of t b h k = ground arith

settle_reply-IsSettled :
    (env : Environment) (c : Command) (op : ℕ) (reply : Text) (p p' : Proxy)
    → IsSent op p
    → settle_reply env c op reply p ≡ ok p'
    → IsSettled c.cmd p p'
unfolding settle_reply
settle_reply-IsSettled env c op reply p p' s h =
    queued_or (p.in_transaction && text_eq reply queued_reply) _ _ p' (IsSettled c.cmd p)
      (λ b. record {
        audited = record {
          pending = s.opened;
          numbered =
              subst (λ n. All (λ x. x < n) (p.queued ++ op ∷ [])) (sym s.next)
                (All-append (λ x. x < suc op) p.queued (op ∷ []) (all_suc op p.queued s.numbered)
                  (omega arith, tt));
          idle =
              λ t. elim (in_transaction_of p.in_transaction (text_eq reply queued_reply) b t) [ ];
        };
        same_client = refl;
        stays_out = λ _ t. t;
      })
      (λ e.
        let (q, d, f) = >>=-eq-ok (settle_queue env c.cmd reply p) _ e in
        completed-IsSettled env op c.cmd reply p q p'
          (settle_queue-IsKept env op c.cmd reply p q s d) f)
      h

eq-answer :
    {a b : Text} {p q : Proxy}
    → Path (Result Stop (Text × Proxy)) (ok (a, p)) (ok (b, q))
    → (a ≡ b) × (p ≡ q)
eq-answer h = (cc, cc)

pub answer-IsSettled :
    (env : Environment) (c : Command) (op : ℕ) (sent p' : Proxy) (cmd : Text)
    → IsSent op sent
    → answer env c op sent ≡ ok (cmd, p')
    → IsSettled c.cmd sent p' × (c.cmd ≡ cmd)
unfolding answer adopt
answer-IsSettled env c op sent p' cmd s h =
    let ((reply, backend), d, f) = >>=-eq-ok (stop_on sent (resp_frame sent.backend)) _ h in
    let (_, e, g) = >>=-eq-ok (stop_on sent (guard (not (unsolicited reply)) protocol)) _ f in
    let (q, k, i) =
      >>=-eq-ok (settle_reply env c op reply (adopt c reply (record sent { backend = backend }))) _
        g in
    let t =
      settle_reply-IsSettled env c op reply (adopt c reply (record sent { backend = backend })) q
        (record { opened = s.opened; numbered = s.numbered; next = s.next; idle = s.idle }) k in
    let same = eq-answer i in
    (
      subst (IsSettled c.cmd sent) same.1 (record {
        audited = record {
          pending = t.audited.pending;
          numbered = t.audited.numbered;
          idle = t.audited.idle;
        };
        same_client = t.same_client;
        stays_out = t.stays_out;
      }),
      same.0,
    )

-- A command that has begun is the last of the open operations.
pub begin-IsSent :
    (env : Environment) (c : Command) (args : List Text) (p p' : Proxy)
    → IsAudited p
    → begin env c args p ≡ ok p'
    → IsSent p.next_operation p' × (p'.client ≡ p.client) × (p'.in_transaction ≡ p.in_transaction)
unfolding begin
begin-IsSent env c args p p' s h =
    let (q, d, f) = >>=-eq-ok (persist env _ p) _ h in
    let e = persist-ok env _ p q d in
    subst
      (λ x.
        IsSent p.next_operation x × (x.client ≡ p.client) × (x.in_transaction ≡ p.in_transaction))
      (ap {A = Proxy} {B = Proxy} (λ x. record x { next_operation = suc x.next_operation }) e
        ∙ eq-ok f)
      (
        record {
          opened = ap (λ x. x ++ p.next_operation ∷ []) s.pending;
          numbered = s.numbered;
          next = refl;
          idle = s.idle;
        },
        refl,
        refl,
      )
