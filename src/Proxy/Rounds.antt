-- ===== src/Proxy/Rounds.antt =====
-- The rounds of the loop of `serveRedis` (internal/sessionproxy/redis.go), one after the other.
use access_gateway.Prelude.{
  ℕ, suc, zero, ◌≤◌, ◌<◌, ◌≡◌, ◌≢◌, refl, ap, ◌∙◌, Bool, true, false, ◌&&◌, List, [], ◌∷◌, Text,
  codes, text_eq, text_eq_iff, length, length-append, ok, ◌>>=◌, >>=-eq-ok, Result-cases, inl, inr,
  Bool-cases, arith,
}
use mathlib.Core.Path.{subst}
use access_gateway.Proxy.Bytes.{read_string}
use access_gateway.Proxy.Framing.{resp_frame, resp_args}
use access_gateway.Proxy.Frames.{resp_frame-fits}
use access_gateway.Proxy.Admission.{screen-outside}
use access_gateway.Proxy.Screening.{Command, one_of, identity_changes, screen}
use access_gateway.Proxy.Serving.{
  forwarded, Environment, Proxy, Stop, stop_on, note, begin, answer, serve_one, Ending, stopped,
  quit, out_of_fuel, serve, connected, serve_redis,
}
use access_gateway.Proxy.Audited.{IsAudited, answer-IsSettled, begin-IsSent}
use access_gateway.Proxy.Operations.{open_ops, stop_on-ok}

-- What a round leaves.
record IsRound (cmd : Text) (p p' : Proxy) : Type 0 where
  audited : IsAudited p'
  shorter : suc (length p'.client) ≤ length p.client
  leaves : text_eq cmd (codes "QUIT") ≡ true → p'.in_transaction ≡ false

nonempty_frame : (frame : Text) (args : List Text) → resp_args frame ≡ ok args → 1 ≤ length frame
unfolding resp_args read_string
nonempty_frame [] args h = cc
nonempty_frame (c ∷ frame) args h = omega arith

takes_bytes :
    (input frame rest : Text) (args : List Text)
    → resp_frame input ≡ ok (frame, rest)
    → resp_args frame ≡ ok args
    → suc (length rest) ≤ length input
takes_bytes input frame rest args h k = omega (
  arith,
  ap length (resp_frame-fits input frame rest h).0,
  length-append frame rest,
  nonempty_frame frame args k,
)

quits : (cmd : Text) → text_eq cmd (codes "QUIT") ≡ true → cmd ≡ codes "QUIT"
quits cmd = (text_eq_iff cmd (codes "QUIT")).0

quit_changes : (cmd : Text) → cmd ≡ codes "QUIT" → one_of cmd identity_changes ≡ true
unfolding text_eq
quit_changes cmd h = rw h refl

quit_begins : (cmd : Text) → cmd ≡ codes "QUIT" → text_eq cmd (codes "MULTI") ≡ false
unfolding text_eq
quit_begins cmd h = rw h refl

outside : (t b : Bool) → (t && b) ≡ false → b ≡ true → t ≡ false
outside t b h k = ground arith

begin-IsRound :
    (env : Environment) (p p' : Proxy) (frame client : Text) (args : List Text) (c : Command)
    (cmd : Text)
    → IsAudited p
    → suc (length client) ≤ length p.client
    → screen env.bound p.standing args ≡ ok c
    → (begin env c args (record p { client = client }) >>= λ begun.
        answer env c p.next_operation (note (forwarded frame) begun))
      ≡ ok (cmd, p')
    → IsRound cmd p p'
begin-IsRound env p p' frame client args c cmd s l h k =
    let (begun, d, f) = >>=-eq-ok (begin env c args (record p { client = client })) _ k in
    let (sent, same_client, same_in) =
      begin-IsSent env c args (record p { client = client }) begun
        (record { pending = s.pending; numbered = s.numbered; idle = s.idle }) d in
    let (t, same_cmd) =
      answer-IsSettled env c p.next_operation (note (forwarded frame) begun) p' cmd
        (record {
          opened = sent.opened;
          numbered = sent.numbered;
          next = sent.next;
          idle = sent.idle;
        })
        f in
    record {
      audited = t.audited;
      shorter = omega (arith, l, ap length t.same_client, ap length same_client);
      leaves = λ q.
          let is_quit = same_cmd ∙ quits cmd q in
          t.stays_out (quit_begins c.cmd is_quit) (
            same_in
            ∙ outside p.in_transaction (one_of c.cmd identity_changes)
                (screen-outside env.bound p.standing args c h) (quit_changes c.cmd is_quit));
    }

serve_one-IsRound :
    (env : Environment) (p p' : Proxy) (cmd : Text)
    → IsAudited p
    → serve_one env p ≡ ok (cmd, p')
    → IsRound cmd p p'
unfolding serve_one
serve_one-IsRound env p p' cmd s h =
    let ((frame, client), d, f) = >>=-eq-ok (stop_on p (resp_frame p.client)) _ h in
    let (args, e, g) = >>=-eq-ok (stop_on p (resp_args frame)) _ f in
    let (c, k, i) = >>=-eq-ok (stop_on p (screen env.bound p.standing args)) _ g in
    begin-IsRound env p p' frame client args c cmd s
      (takes_bytes p.client frame client args (stop_on-ok p (resp_frame p.client) d)
        (stop_on-ok p (resp_args frame) e))
      (stop_on-ok p (screen env.bound p.standing args) k) i

serve-ends :
    (fuel : ℕ) (env : Environment) (p : Proxy)
    → IsAudited p
    → length p.client < fuel
    → serve fuel env p ≢ out_of_fuel
unfolding serve
serve-ends zero env p s l = λ h. omega (arith, l)
serve-ends (suc fuel) env p s l = elim (Result-cases (serve_one env p)) [
  | inl (e, q) ↦ rw (q, serve) (λ h. cc)
  | inr ((cmd, p'), q) ↦
      let r = serve_one-IsRound env p p' cmd s q in
      elim (Bool-cases (text_eq cmd (codes "QUIT"))) [
        | inl f ↦ rw (q, f, serve) (λ h. cc)
        | inr f ↦ rw (q, f, serve) (serve-ends fuel env p' r.audited (omega (arith, r.shorter, l)))
      ]
]

connected-IsAudited : (client backend : Text) → IsAudited (connected client backend)
connected-IsAudited client backend = record { pending = refl; numbered = tt; idle = λ _. refl }

-- The loop ends, with an error or with QUIT: the fuel, one more than the number of bytes that the
-- client sends, is never used up.
pub serve_redis-ends :
    (env : Environment) (client backend : Text) → serve_redis env client backend ≢ out_of_fuel
unfolding serve_redis
serve_redis-ends env client backend =
    serve-ends (suc (length client)) env (connected client backend)
      (connected-IsAudited client backend) (omega arith)

stopped_no_quit : {e : Stop} {p : Proxy} → Path Ending (stopped e) (quit p) → ⊥
stopped_no_quit h = cc

eq-quit : {p q : Proxy} → Path Ending (quit p) (quit q) → p ≡ q
eq-quit h = cc

serve-quit :
    (fuel : ℕ) (env : Environment) (p p' : Proxy)
    → IsAudited p
    → serve fuel env p ≡ quit p'
    → open_ops p'.trace ≡ []
unfolding serve
serve-quit zero env p p' s h = cc
serve-quit (suc fuel) env p p' s h = elim (Result-cases (serve_one env p)) [
  | inl (e, q) ↦ elim (stopped_no_quit (rw (q, serve) at h)) [ ]
  | inr ((cmd, r), q) ↦
      let t = serve_one-IsRound env p r cmd s q in
      elim (Bool-cases (text_eq cmd (codes "QUIT"))) [
        | inl f ↦
            subst (λ x. open_ops x.trace ≡ []) (eq-quit (rw (q, f, serve) at h))
              (t.audited.pending ∙ t.audited.idle (t.leaves f))
        | inr f ↦ serve-quit fuel env r p' t.audited (rw (q, f, serve) at h)
      ]
]

-- When the client has left with QUIT, every operation that was begun in the audit has ended in it.
pub serve_redis_complete :
    (env : Environment) (client backend : Text) (p : Proxy)
    → serve_redis env client backend ≡ quit p
    → open_ops p.trace ≡ []
unfolding serve_redis
serve_redis_complete env client backend p h =
    serve-quit (suc (length client)) env (connected client backend) p
      (connected-IsAudited client backend) h
