-- ===== src/Access/Runs.antt =====
-- Runs of the transactions of internal/service/access.go on one request, in any order: what they
-- keep.
use access_gateway.Prelude.{
  ℕ, suc, ◌≤◌, ◌≡◌, refl, sym, ap, ◌∙◌, Bool, true, false, Option, none, some, List, [], ◌∷◌, ◌++◌,
  any, Text, ok, ◌⊎◌, inl, inr, arith,
}
use mathlib.Core.Path.{subst}
use access_gateway.Access.Model.{
  SessionStatus, expired, closed, failed, Session, Store, OutboxEvent, is_active_for,
  revoke_command,
}
use access_gateway.Access.Rows.{is_provisioning}
use access_gateway.Access.Life.{join, is_move, Advance, stays, renews, follows, IsRenewal}
use access_gateway.Access.Commands.{needs_command, has_command}
use access_gateway.Access.Booking.{Landed}
use access_gateway.Access.Decisions.{Environment, Decision, decide_approval}
use access_gateway.Access.Verdicts.{
  Verdict, refused, waits, granted, Notifies, decide_approval-Verdict,
}
use access_gateway.Access.Steps.{ServiceStep}
use access_gateway.Access.Landing.{step-Outcome, step-none, give_up-Landed, give_up-none}
use access_gateway.Access.Requests.{mark_revoke_manual_intervention}

-- A transaction on the session, the end of its retries, or a decision on an approval.
pub data Step : Store → Store → Type 0 where
  serves : (w w' : Store) → ServiceStep w w' → Step w w'
  gives_up :
      (now index : ℕ) (reason : Text) (w w' : Store)
      → mark_revoke_manual_intervention now index reason w ≡ ok w'
      → Step w w'
  decides :
      (env : Environment) (now : ℕ) (d : Decision) (seen w w' : Store)
      → decide_approval env now d seen w ≡ ok w'
      → Step w w'

pub data Run : Store → Store → Type 0 where
  done : (w : Store) → Run w w
  next : (w v w' : Store) → Step w v → Run v w' → Run w w'

-- A session that is being revoked, or whose revocation failed, has a command in the outbox.
pub record IsCommanded (w : Store) : Type 0 where
  pub commanded :
      (s : Session)
      → w.session ≡ some s
      → needs_command s.status ≡ true
      → has_command s.id w.outbox ≡ true

abbrev pub is_final : SessionStatus → Bool
is_final expired = true
is_final closed = true
is_final failed = true
is_final _ = false

same_row : (s t : Session) → Path (Option Session) (some s) (some t) → s ≡ t
same_row s t h = cc

Landed-IsCommanded : (s : Session) (w' : Store) → Landed s w' → IsCommanded w'
Landed-IsCommanded s w' o = record {
  commanded = λ t i n.
      let e = same_row o.row t (sym o.is_row ∙ i) in
      subst (λ x. has_command x.id w'.outbox ≡ true) e
        (o.commanded (subst (λ x. needs_command x.status ≡ true) (sym e) n));
}

any-append :
    (p : OutboxEvent → Bool) (xs : List OutboxEvent) (e : OutboxEvent)
    → any p xs ≡ true
    → any p (xs ++ e ∷ []) ≡ true
any-append p [] e h = ground arith
any-append p (x ∷ xs) e h = ground (arith, any-append p xs e)

pub more-has_command :
    (id : Text) (xs : List OutboxEvent) (e : OutboxEvent)
    → has_command id xs ≡ true
    → has_command id (xs ++ e ∷ []) ≡ true
unfolding has_command
more-has_command id xs e h = any-append (is_active_for (revoke_command id [])) xs e h

notified-IsCommanded :
    (w w' : Store) → w'.session ≡ w.session → Notifies w w' → IsCommanded w → IsCommanded w'
notified-IsCommanded w w' same (e, q, _) c = record {
  commanded = λ s i n. rw q (more-has_command s.id w.outbox e (c.commanded s (sym same ∙ i) n));
}

Verdict-IsCommanded : (w w' : Store) → Verdict w w' → IsCommanded w → IsCommanded w'
Verdict-IsCommanded w w' (refused st same q) c = notified-IsCommanded w w' same q c
Verdict-IsCommanded w w' (waits st same q l) c = notified-IsCommanded w w' same q c
Verdict-IsCommanded w w' (granted s st free i p l) c = record {
  commanded =
      λ t j n. let e = same_row s t (sym i ∙ j) in ground (arith, p.0, n, ap (λ x. x.status) e);
}

none-IsCommanded : (w : Store) → w.session ≡ none → IsCommanded w
none-IsCommanded w h = record { commanded = λ s i n. ground (arith, h, i) }

serves-IsCommanded :
    (o : Option Session) (w w' : Store)
    → w.session ≡ o
    → ServiceStep w w'
    → IsCommanded w
    → IsCommanded w'
serves-IsCommanded none w w' i t c = none-IsCommanded w' (step-none w w' i t)
serves-IsCommanded (some s) w w' i t c = elim (step-Outcome s w w' i t) [
  | inl o ↦ Landed-IsCommanded s w' o.landed
  | inr e ↦ subst IsCommanded e c
]

gives_up-IsCommanded :
    (o : Option Session) (now index : ℕ) (reason : Text) (w w' : Store)
    → w.session ≡ o
    → mark_revoke_manual_intervention now index reason w ≡ ok w'
    → IsCommanded w'
gives_up-IsCommanded none now index reason w w' i h =
    none-IsCommanded w' (give_up-none now index reason w w' i h)
gives_up-IsCommanded (some s) now index reason w w' i h =
    Landed-IsCommanded s w' (give_up-Landed now index reason s w w' i h)

-- No run of the transactions of `Step` leaves a session in `revoking` or `revoke_failed` without a
-- pending or processing revoke command in the outbox, if there was none without before it. The
-- acknowledgement of a command by the worker is no such transaction.
pub Run-IsCommanded : (w w' : Store) → Run w w' → IsCommanded w → IsCommanded w'
Run-IsCommanded w w' (done _) c = c
Run-IsCommanded w w' (next _ v _ (serves _ _ t) r) c =
    Run-IsCommanded v w' r (serves-IsCommanded w.session w v refl t c)
Run-IsCommanded w w' (next _ v _ (gives_up now index reason _ _ h) r) c =
    Run-IsCommanded v w' r (gives_up-IsCommanded w.session now index reason w v refl h)
Run-IsCommanded w w' (next _ v _ (decides env now d seen _ _ h) r) c =
    Run-IsCommanded v w' r
      (Verdict-IsCommanded w v (decide_approval-Verdict env now d seen w v h) c)

-- Where the row `s` has gone in a store.
pub record IsFollowed (s : Session) (w' : Store) : Type 0 where
  pub row : Session
  pub is_row : w'.session ≡ some row
  pub advances : Advance s row

followed : (s : Session) (w' : Store) → Landed s w' → IsFollowed s w'
followed s w' o = record { row = o.row; is_row = o.is_row; advances = o.advances }

unmoved : (s : Session) (w' : Store) → w'.session ≡ some s → IsFollowed s w'
unmoved s w' i = record { row = s; is_row = i; advances = stays s }

Verdict-IsFollowed :
    (s : Session) (w w' : Store) → w.session ≡ some s → Verdict w w' → IsFollowed s w'
Verdict-IsFollowed s w w' i (refused st same q) = unmoved s w' (same ∙ i)
Verdict-IsFollowed s w w' i (waits st same q l) = unmoved s w' (same ∙ i)
Verdict-IsFollowed s w w' i (granted t st free j p l) = ground (arith, free, i)

step-IsFollowed : (s : Session) (w w' : Store) → w.session ≡ some s → Step w w' → IsFollowed s w'
step-IsFollowed s w w' i (serves _ _ t) = elim (step-Outcome s w w' i t) [
  | inl o ↦ followed s w' o.landed
  | inr e ↦ unmoved s w' (subst (λ x. x.session ≡ some s) e i)
]
step-IsFollowed s w w' i (gives_up now index reason _ _ h) =
    followed s w' (give_up-Landed now index reason s w w' i h)
step-IsFollowed s w w' i (decides env now d seen _ _ h) =
    Verdict-IsFollowed s w w' i (decide_approval-Verdict env now d seen w w' h)

-- The session of a store is never lost or replaced. Every change of it is a move of the graph that
-- raises the version by one, or a heartbeat: a session that is provisioning gets another time of its
-- last update and nothing else.
pub Run-IsFollowed : (s : Session) (w w' : Store) → Run w w' → w.session ≡ some s → IsFollowed s w'
Run-IsFollowed s w w' (done _) i = unmoved s w' i
Run-IsFollowed s w w' (next _ v _ t r) i =
    let f = step-IsFollowed s w v i t in
    let g = Run-IsFollowed f.row v w' r f.is_row in
    record { row = g.row; is_row = g.is_row; advances = join s f.row g.row f.advances g.advances }

final_stays : (st to : SessionStatus) → is_final st ≡ true → is_move st to ≡ false
final_stays st to h = ground arith

Advance-final : (s t : Session) → Advance s t → is_final s.status ≡ true → t ≡ s
Advance-final s t (stays _) h = refl
Advance-final s t (renews _ u _ r a) h = ground (arith, r.leased, h)
Advance-final s t (follows _ u _ e a) h = ground (arith, e.moves, final_stays s.status u.status h)

-- A session that is expired, closed or failed is the same row after every run.
pub Run-final :
    (s : Session) (w w' : Store)
    → Run w w'
    → w.session ≡ some s
    → is_final s.status ≡ true
    → w'.session ≡ some s
Run-final s w w' r i h =
    let f = Run-IsFollowed s w w' r i in
    subst (λ x. w'.session ≡ some x) (Advance-final s f.row f.advances h) f.is_row

-- The row with the time of the last update of another.
abbrev pub at_time_of : Session → Session → Session
at_time_of s t = record s { updated_at = t.updated_at }

-- The same version: the same row where the session is not provisioning, and otherwise the same but
-- for the time of its last update.
abbrev pub IsSameVersion : Session → Session → Type 0
IsSameVersion s t = (at_time_of s t ≡ t) × (is_provisioning s.status ≡ false → s ≡ t)

renewed_same : (s u t : Session) → IsRenewal s u → IsSameVersion u t → IsSameVersion s t
renewed_same s u t r q =
    (ap (λ x. at_time_of x t) (sym r.same) ∙ q.0, λ p. ground (arith, r.leased, p))

Advance-version : (s t : Session) → Advance s t → IsSameVersion s t ⊎ (suc s.version ≤ t.version)
Advance-version s t (stays _) = inl (refl, λ p. refl)
Advance-version s t (renews _ u _ r a) = elim (Advance-version u t a) [
  | inl q ↦ inl (renewed_same s u t r q)
  | inr l ↦ inr (omega (arith, ap (λ x. x.version) r.same, l))
]
Advance-version s t (follows _ u _ e a) = elim (Advance-version u t a) [
  | inl q ↦ inr (omega (arith, e.counts, ap (λ x. x.version) q.0))
  | inr l ↦ inr (omega (arith, e.counts, l))
]

no_cycle : (a b c : ℕ) → suc a ≤ b → b ≡ c → a ≡ c → ⊥
no_cycle a b c l e v = omega arith

-- The version of a session tells whether it has changed, but for a heartbeat. Two rows of one run
-- with the same version are the same row where the first of them is not provisioning, and otherwise
-- they differ in the time of their last update at most.
pub Run-version :
    (s t : Session) (w w' : Store)
    → Run w w'
    → w.session ≡ some s
    → w'.session ≡ some t
    → s.version ≡ t.version
    → IsSameVersion s t
Run-version s t w w' r i j v =
    let f = Run-IsFollowed s w w' r i in
    let e = same_row f.row t (sym f.is_row ∙ j) in
    elim (Advance-version s f.row f.advances) [
      | inl q ↦ subst (λ x. IsSameVersion s x) e q
      | inr l ↦ elim (no_cycle s.version f.row.version t.version l (ap (λ x. x.version) e) v) [ ]
    ]
