-- ===== src/Proxy/Operations.antt =====
-- internal/sessionproxy/redis.go: the operations of a trace that are open, and how the queued ones end.
use access_gateway.Prelude.{
  ℕ, ◌<◌, ◌≡◌, refl, ap, ◌∙◌, Bool, true, false, Option, none, some, List, [], ◌∷◌, ◌++◌, Text,
  codes, if◌then◌else◌, ◌==◌, ==_iff, All, Result, ok, err, >>=-eq-ok, arith,
}
use mathlib.Core.Path.{subst}
use access_gateway.Proxy.Bytes.{ProxyError}
use access_gateway.Proxy.Serving.{
  ProxyEvent, started, forwarded, completed, replied, Environment, Proxy, Stop, stop_on, note,
  persist, end_queued,
}

abbrev pub remove : ℕ → List ℕ → List ℕ
remove op [] = []
remove op (x ∷ xs) = if x == op then xs else x ∷ remove op xs

-- The operations of a trace that have begun and not ended, the oldest first.
abbrev pub open_ops : List ProxyEvent → List ℕ
open_ops [] = []
open_ops (started op account kind text object ∷ trace) = open_ops trace ++ op ∷ []
open_ops (forwarded frame ∷ trace) = open_ops trace
open_ops (completed op outcome ∷ trace) = remove op (open_ops trace)
open_ops (replied reply ∷ trace) = open_ops trace

remove-head : (op : ℕ) (ops : List ℕ) → remove op (op ∷ ops) ≡ ops
remove-head op ops = rw ((==_iff op op).1 refl) refl

pub remove-last : (op : ℕ) (ops : List ℕ) → All (λ x. x < op) ops → remove op (ops ++ op ∷ []) ≡ ops
remove-last op [] h = remove-head op []
remove-last op (x ∷ ops) h = ground (arith, h.0, remove-last op ops h.1)

pub eq-ok : {A : Type 0} {p q : A} → Path (Result Stop A) (ok p) (ok q) → p ≡ q
eq-ok h = cc

pub stop_on-ok :
    {A : Type 0} (p : Proxy) (m : Result ProxyError A) {a : A} → stop_on p m ≡ ok a → m ≡ ok a
stop_on-ok p (err e) h = cc
stop_on-ok p (ok a) h = cc

persisted :
    (b : Bool) (s : Stop) {p p' : Proxy}
    → Path (Result Stop Proxy) (if b then ok p else err s) (ok p')
    → p ≡ p'
persisted true s h = eq-ok h
persisted false s h = cc

pub persist-ok :
    (env : Environment) (e : ProxyEvent) (p p' : Proxy) → persist env e p ≡ ok p' → note e p ≡ p'
unfolding persist
persist-ok env e p p' h = persisted (env.accepts p.trace e) _ h

-- The proxy after the end of some of the open operations.
pub record Ended (rest : List ℕ) (p p' : Proxy) : Type 0 where
  pub left : open_ops p'.trace ≡ rest
  pub same_standing : p'.standing ≡ p.standing
  pub same_next : p'.next_operation ≡ p.next_operation
  pub same_client : p'.client ≡ p.client

Ended-note :
    (op : ℕ) (outcome : Text) (rest : List ℕ) (p p' : Proxy)
    → remove op (open_ops p.trace) ≡ rest
    → note (completed op outcome) p ≡ p'
    → Ended rest p p'
Ended-note op outcome rest p p' e h =
    subst (λ x. Ended rest p x) h
      (record { left = e; same_standing = refl; same_next = refl; same_client = refl })

Ended-then :
    (rest rest' : List ℕ) (p q r : Proxy) → Ended rest p q → Ended rest' q r → Ended rest' p r
Ended-then rest rest' p q r a b = record {
  left = b.left;
  same_standing = b.same_standing ∙ a.same_standing;
  same_next = b.same_next ∙ a.same_next;
  same_client = b.same_client ∙ a.same_client;
}

end_one :
    (env : Environment) (op : ℕ) (outcome : Text) (ops : List ℕ) (p q : Proxy)
    → open_ops p.trace ≡ op ∷ ops
    → persist env (completed op outcome) p ≡ ok q
    → Ended ops p q
end_one env op outcome ops p q e h =
    Ended-note op outcome ops p q (ap (remove op) e ∙ remove-head op ops)
      (persist-ok env (completed op outcome) p q h)

pub end_queued-Ended :
    (env : Environment) (ops rest : List ℕ) (outcomes : Option (List Text)) (p p' : Proxy)
    → open_ops p.trace ≡ ops ++ rest
    → end_queued env ops outcomes p ≡ ok p'
    → Ended rest p p'
unfolding end_queued
end_queued-Ended env [] rest outcomes p p' e h =
    subst (λ x. Ended rest p x) (eq-ok h)
      (record { left = e; same_standing = refl; same_next = refl; same_client = refl })
end_queued-Ended env (op ∷ ops) rest none p p' e h =
    let (q, d, f) =
      >>=-eq-ok (persist env (completed op (codes "skipped")) p) (end_queued env ops none) h in
    let a = end_one env op (codes "skipped") (ops ++ rest) p q e d in
    Ended-then (ops ++ rest) rest p q p' a (end_queued-Ended env ops rest none q p' a.left f)
end_queued-Ended env (op ∷ ops) rest (some []) p p' e h =
    let (q, d, f) =
      >>=-eq-ok (persist env (completed op (codes "skipped")) p) (end_queued env ops (some [])) h in
    let a = end_one env op (codes "skipped") (ops ++ rest) p q e d in
    Ended-then (ops ++ rest) rest p q p' a (end_queued-Ended env ops rest (some []) q p' a.left f)
end_queued-Ended env (op ∷ ops) rest (some (outcome ∷ outcomes)) p p' e h =
    let (q, d, f) =
      >>=-eq-ok (persist env (completed op outcome) p) (end_queued env ops (some outcomes)) h in
    let a = end_one env op outcome (ops ++ rest) p q e d in
    Ended-then (ops ++ rest) rest p q p' a
      (end_queued-Ended env ops rest (some outcomes) q p' a.left f)
