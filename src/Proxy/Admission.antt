-- ===== src/Proxy/Admission.antt =====
-- What a command satisfies that `serveRedis` (internal/sessionproxy/redis.go) forwards.
use access_gateway.Prelude.{
  ℕ, ◌≤◌, ◌≢◌, codes, all, leb→le, ==_iff, ◌≡◌, refl, sym, ap, Bool, true, false, ◌&&◌, ◌||◌, not,
  List, Text, text_eq, text_eq_iff, Result, ok, >>=-eq-ok, guard, ◌⊎◌, inl, inr, Bool-cases, arith,
  length, ◌==◌, leb,
}
use mathlib.Core.Path.{subst}
use access_gateway.Proxy.Bytes.{ProxyError, protocol, identity, to_upper, to_lower}
use access_gateway.Proxy.Framing.{resp_args}
use access_gateway.Proxy.Frames.{passed}
use access_gateway.Proxy.Screening.{
  is_command_char, Standing, Command, one_of, unauthenticated, streaming, bare, identity_changes,
  first_arg, candidate_of, before_login, is_push_setting, screen_shape, screen_identity, screen,
}

-- A frame is a command that may be sent to the backend of a connection with this account, transaction
-- and number of queued commands, and the audit calls it `kind`.
pub record IsScreened (bound account : Text) (in_transaction : Bool) (queued : ℕ)
    (kind frame : Text) : Type 0 where
  pub args : List Text
  pub reads : resp_args frame ≡ ok args
  pub named : kind ≡ to_lower (to_upper (first_arg args))
  pub short : length (to_upper (first_arg args)) ≤ 64
  pub letters : all is_command_char (to_upper (first_arg args)) ≡ true
  pub bounded : one_of (to_upper (first_arg args)) streaming ≡ false
  pub alone : one_of (to_upper (first_arg args)) bare ≡ true → length args ≡ 1
  pub room :
      256 ≤ queued
      → (to_upper (first_arg args) ≡ codes "EXEC") ⊎ (to_upper (first_arg args) ≡ codes "DISCARD")
  pub outside : in_transaction ≡ true → one_of (to_upper (first_arg args)) identity_changes ≡ false
  pub chosen : Text
  pub chooses : candidate_of account (to_upper (first_arg args)) args ≡ ok chosen
  pub keeps : (chosen ≡ account) ⊎ (chosen ≡ bound)
  pub no_push : is_push_setting (to_upper (first_arg args)) args ≡ false
  pub entitled :
      account ≡ unauthenticated
      → (chosen ≢ account) ⊎ (one_of (to_upper (first_arg args)) before_login ≡ true)

passed_unit : (b : Bool) (e : ProxyError) → guard b e ≡ ok tt → b ≡ true
passed_unit true e h = refl
passed_unit false e h = cc

-- What the tests of `screen_shape` say.
record IsShaped (s : Standing) (cmd : Text) (args : List Text) : Type 0 where
  short : length cmd ≤ 64
  letters : all is_command_char cmd ≡ true
  bounded : one_of cmd streaming ≡ false
  alone : one_of cmd bare ≡ true → length args ≡ 1
  room : 256 ≤ length s.queued → (cmd ≡ codes "EXEC") ⊎ (cmd ≡ codes "DISCARD")
  outside : s.in_transaction ≡ true → one_of cmd identity_changes ≡ false

single : (b : Bool) (n : ℕ) → not (b && not (n == 1)) ≡ true → b ≡ true → n ≡ 1
single b n h e = ground (arith, h, e, (==_iff n 1).0)

within : (b c : Bool) (d : Bool) → not (b || c && d) ≡ true → c ≡ true → d ≡ false
within b c d h e = ground (arith, h, e)

only_end :
    (a e d b : Bool) → not (a && not e && not d || b) ≡ true → a ≡ true → e ≡ false → d ≡ true
only_end a e d b h k l = ground (arith, h, k, l)

ends_only :
    (n : ℕ) (cmd : Text) (b : Bool)
    → not
        (leb 256 n && not (text_eq cmd (codes "EXEC")) && not (text_eq cmd (codes "DISCARD")) || b)
      ≡ true
    → 256 ≤ n
    → (cmd ≡ codes "EXEC") ⊎ (cmd ≡ codes "DISCARD")
ends_only n cmd b h l = elim (Bool-cases (text_eq cmd (codes "EXEC"))) [
  | inl e ↦ inl ((text_eq_iff cmd (codes "EXEC")).0 e)
  | inr e ↦
      inr ((text_eq_iff cmd (codes "DISCARD")).0 (only_end (leb 256 n) _ _ b h (ground arith) e))
]

screen_shape-IsShaped :
    (s : Standing) (cmd : Text) (args : List Text)
    → screen_shape s cmd args ≡ ok tt
    → IsShaped s cmd args
unfolding screen_shape
screen_shape-IsShaped s cmd args h =
    let (a, q) = passed (leb (length cmd) 64) protocol _ h in
    let (b, p) = passed (all is_command_char cmd) protocol _ q in
    let (c, o) = passed (not (one_of cmd streaming)) protocol _ p in
    let (d, n) = passed (not (one_of cmd bare && not (length args == 1))) protocol _ o in
    let e = passed_unit _ protocol n in
    record {
      short = leb→le (length cmd) 64 a;
      letters = b;
      bounded = ground arith;
      alone = single (one_of cmd bare) (length args) d;
      room = ends_only (length s.queued) cmd _ e;
      outside = within _ s.in_transaction (one_of cmd identity_changes) e;
    }

identity-keeps :
    (bound account candidate cmd : Text) (args : List Text)
    → screen_identity bound account candidate cmd args ≡ ok tt
    → (candidate ≡ account) ⊎ (candidate ≡ bound)
unfolding screen_identity
identity-keeps bound account candidate cmd args h =
    let (b, q) = passed (text_eq candidate account || text_eq candidate bound) identity _ h in
    elim (Bool-cases (text_eq candidate account)) [
      | inl e ↦ inl ((text_eq_iff candidate account).0 e)
      | inr e ↦ inr ((text_eq_iff candidate bound).0 (ground (arith, b, e)))
    ]

identity-push :
    (bound account candidate cmd : Text) (args : List Text)
    → screen_identity bound account candidate cmd args ≡ ok tt
    → is_push_setting cmd args ≡ false
unfolding screen_identity
identity-push bound account candidate cmd args h =
    let (_, q) = passed (text_eq candidate account || text_eq candidate bound) identity _ h in
    let (b, _) = passed (not (is_push_setting cmd args)) protocol _ q in ground (arith, b)

identity-entitled :
    (bound account candidate cmd : Text) (args : List Text)
    → screen_identity bound account candidate cmd args ≡ ok tt
    → account ≡ unauthenticated
    → (candidate ≢ account) ⊎ (one_of cmd before_login ≡ true)
unfolding screen_identity
identity-entitled bound account candidate cmd args h a =
    let (b, q) = passed (text_eq candidate account || text_eq candidate bound) identity _ h in
    let (_, p) = passed (not (is_push_setting cmd args)) protocol _ q in
    let c = passed_unit _ identity p in
    let d = (text_eq_iff account unauthenticated).1 a in
    elim (Bool-cases (text_eq candidate account)) [
      | inl e ↦ inr (ground (arith, c, d, e))
      | inr e ↦ inl (λ same. ground (arith, e, (text_eq_iff candidate account).1 same))
    ]

eq-command : {c d : Command} → Path (Result ProxyError Command) (ok c) (ok d) → c ≡ d
eq-command h = cc

-- A command that passes the tests, under the name that the audit gives it.
pub screen-IsScreened :
    (bound frame : Text) (s : Standing) (args : List Text) (c : Command)
    → resp_args frame ≡ ok args
    → screen bound s args ≡ ok c
    → (screened : IsScreened bound s.account s.in_transaction
        (length s.queued)
        (to_lower c.cmd)
        frame)
      × (screened.args ≡ args)
      × (screened.chosen ≡ c.candidate)
      × (c.cmd ≡ to_upper (first_arg args))
unfolding screen
screen-IsScreened bound frame s args c reads h =
    let (_, e, q) = >>=-eq-ok (screen_shape s (to_upper (first_arg args)) args) _ h in
    let (candidate, d, p) =
      >>=-eq-ok (candidate_of s.account (to_upper (first_arg args)) args) _ q in
    let (_, i, r) =
      >>=-eq-ok (screen_identity bound s.account candidate (to_upper (first_arg args)) args) _ p in
    let shape = screen_shape-IsShaped s _ args e in
    (
      record {
        args = args;
        reads = reads;
        named = ap (λ x. to_lower x.cmd) (sym (eq-command r));
        short = shape.short;
        letters = shape.letters;
        bounded = shape.bounded;
        alone = shape.alone;
        room = shape.room;
        outside = shape.outside;
        chosen = candidate;
        chooses = d;
        keeps = identity-keeps bound s.account candidate _ args i;
        no_push = identity-push bound s.account candidate _ args i;
        entitled = identity-entitled bound s.account candidate _ args i;
      },
      refl,
      ap (λ x. x.candidate) (eq-command r),
      ap (λ x. x.cmd) (sym (eq-command r)),
    )

not_both : (b c : Bool) → (b ≡ true → c ≡ false) → (b && c) ≡ false
not_both b c h = ground (arith, h)

-- The commands that change the identity are refused in a transaction.
pub screen-outside :
    (bound : Text) (s : Standing) (args : List Text) (c : Command)
    → screen bound s args ≡ ok c
    → (s.in_transaction && one_of c.cmd identity_changes) ≡ false
unfolding screen
screen-outside bound s args c h =
    let (_, e, q) = >>=-eq-ok (screen_shape s (to_upper (first_arg args)) args) _ h in
    let (candidate, _, p) =
      >>=-eq-ok (candidate_of s.account (to_upper (first_arg args)) args) _ q in
    let (_, _, r) =
      >>=-eq-ok (screen_identity bound s.account candidate (to_upper (first_arg args)) args) _ p in
    subst (λ x. (s.in_transaction && one_of x.cmd identity_changes) ≡ false) (eq-command r)
      (not_both s.in_transaction _
        (screen_shape-IsShaped s (to_upper (first_arg args)) args e).outside)
