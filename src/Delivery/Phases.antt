-- ===== src/Delivery/Phases.antt =====
-- The phases of `RevokeSession` (internal/service/access.go) keep a world sound.
use access_gateway.Prelude.{
  ℕ, ◌≤◌, ◌≡◌, ◌≢◌, refl, sym, ap, ◌∙◌, Bool, true, false, Option, none, some, List, Text,
  text_eq_iff, if◌then◌else◌, arith, ◌⊎◌, inl, inr, Bool-cases, In,
}
use mathlib.Core.Path.{subst}
use access_gateway.Access.Model.{SessionStatus, Session, Store, is_active, is_terminal_session}
use access_gateway.Access.Rows.{is_revoking}
use access_gateway.Access.Ledger.{count, most, IsFormed}
use access_gateway.Access.Revokes.{prepare_revoke, finish_revoke, persist_revoke_failure}
use access_gateway.Access.Steps.{prepares, finishes, records_failure}
use access_gateway.Delivery.Dispatch.{
  Phase, loading, preparing, checking, calling, finishing, rechecking, persisting, persisting_late,
  returned, erred, is_over, find_session, after_load, after_check, after_preparation, after_failure,
  revoke_next, is_revoke, session_of,
}
use access_gateway.Delivery.World.{Flight}
use access_gateway.Delivery.Updates.{tick}
use access_gateway.Delivery.Soundness.{
  IsSound, IsCarried, All-In, All-get, tick-count, revoke-tick, Advance-over,
}
use access_gateway.Delivery.Endings.{prepare_revoke-IsPrepared, finish_revoke-IsFinished}
use access_gateway.Delivery.Calls.{Went, ended, same_session, still, two_ends}

prepared_over :
    (t u : Session) (o : Option Session)
    → o ≡ some t
    → o ≡ some u
    → (is_revoking u.status ≡ true) ⊎ (is_over u.status ≡ true)
    → after_preparation o ≡ returned
    → is_over t.status ≡ true
prepared_over t u o h k e p =
    let same = same_session t u (sym h ∙ k) in
    two_ends (is_revoking t.status) (is_over t.status) calling
      (subst (λ x. (is_revoking x.status ≡ true) ⊎ (is_over x.status ≡ true)) (sym same) e)
      (subst (λ x. after_preparation x ≡ returned) h p) (λ x. cc)

terminal_or :
    (status : SessionStatus)
    → is_terminal_session status ≡ true
    → (is_over status ≡ true) ⊎ (most status ≡ 0)
terminal_or status h = ground arith

checked :
    (b : Bool) (otherwise : Phase)
    → (if b then returned else otherwise) ≡ returned
    → (otherwise ≢ returned)
    → b ≡ true
checked true otherwise h never = refl
checked false otherwise h never = elim (never h) [ ]

find_same :
    (id : Text) (s : Session) (w : Store)
    → w.session ≡ some s
    → s.id ≡ id
    → find_session id w.session ≡ some s
find_same id s w i same = rw (i, (text_eq_iff s.id id).1 same) refl

loaded_over :
    (id : Text) (s : Session) (w : Store)
    → w.session ≡ some s
    → s.id ≡ id
    → after_load (find_session id w.session) ≡ returned
    → is_over s.status ≡ true
loaded_over id s w i same p =
    checked (is_over s.status) preparing
      (subst (λ o. after_load o ≡ returned) (find_same id s w i same) p) (λ x. cc)

failed_over :
    (s : Session) (o : Option Session)
    → o ≡ some s
    → after_failure o ≡ returned
    → is_over s.status ≡ true
failed_over s o i p =
    checked (is_over s.status) erred (subst (λ x. after_failure x ≡ returned) i p) (λ x. cc)

none_left : (n t m : ℕ) → t ≤ n → 1 ≤ t → n ≤ m → m ≡ 0 → ⊥
none_left n t m a b c d = omega (arith, a, b, c, d)

-- A session that may have no command has none that the worker could still be delivering.
asleep_at :
    (s : Session) (f : Flight) (w : Store) (fs : List Flight)
    (h : IsSound s (record { store = w; flights = fs })) (c : IsCarried s w.outbox f)
    → is_revoke f.event ≡ true
    → session_of f.event ≡ s.id
    → most s.status ≡ 0
    → is_active c.entry.present.status ≡ false
asleep_at s f w fs h c r same m =
    let e = c.entry.present in
    elim (Bool-cases (is_active e.status)) [
      | inr b ↦ b
      | inl a ↦
          let one =
            revoke-tick s.id f.event e c.entry.same
              (All-get IsFormed w.outbox f.index e h.formed c.entry.is_at) r same a in
          let some_left = tick-count s.id w.outbox f.index e c.entry.is_at in
          elim (none_left (count s.id w.outbox) (tick s.id e) (most s.status) some_left one h.tidy
            m) [ ]
    ]

-- A test of the row that was found.
found_check :
    (settled : SessionStatus → Bool) (otherwise : Phase) (id : Text) (s : Session) (w : Store)
    → w.session ≡ some s
    → s.id ≡ id
    → after_check settled otherwise (find_session id w.session) ≡ returned
    → (otherwise ≢ returned)
    → settled s.status ≡ true
found_check settled otherwise id s w i same p never =
    checked (settled s.status) otherwise
      (subst (λ o. after_check settled otherwise o ≡ returned) (find_same id s w i same) p) never

pub revoke_next-Went :
    (now : ℕ) (reason : Text) (answer : Option Text) (phase : Phase) (f : Flight) (s : Session)
    (w : Store) (fs : List Flight)
    → IsSound s (record { store = w; flights = fs })
    → In f fs
    → f.phase ≡ phase
    → is_revoke f.event ≡ true
    → Went s f fs (revoke_next now reason answer (session_of f.event) phase w)
unfolding revoke_next
revoke_next-Went now reason answer loading f s w fs h i ph r =
    let c = All-In (IsCarried s w.outbox) f fs h.carried i in
    still s f fs w _ h c
      (λ same _ p. inl (loaded_over (session_of f.event) s w h.is_row (sym same) p))
revoke_next-Went now reason answer preparing f s w fs h i ph r =
    ended s f fs w (prepare_revoke now reason w) (λ w'. after_preparation w'.session) checking h i
      (λ w' q. prepares now reason w w' q)
      (λ w' t q k a b p.
        let e = prepare_revoke-IsPrepared now reason s w w' h.is_row b q in
        prepared_over t e.row w'.session k e.is_row e.state p)
      (λ x. cc) r
revoke_next-Went now reason answer checking f s w fs h i ph r =
    let c = All-In (IsCarried s w.outbox) f fs h.carried i in
    still s f fs w _ h c (λ same _ p.
      inl (found_check is_over erred (session_of f.event) s w h.is_row (sym same) p (λ x. cc)))
revoke_next-Went now reason none calling f s w fs h i ph r =
    let c = All-In (IsCarried s w.outbox) f fs h.carried i in
    still s f fs w persisting h c (λ _ _ p. cc)
revoke_next-Went now reason (some status) calling f s w fs h i ph r =
    let c = All-In (IsCarried s w.outbox) f fs h.carried i in
    still s f fs w (finishing status) h c (λ _ _ p. cc)
revoke_next-Went now reason answer (finishing status) f s w fs h i ph r =
    ended s f fs w (finish_revoke now status reason w) (λ w'. returned) rechecking h i
      (λ w' q. finishes now status reason w w' q)
      (λ w' t q k a b p.
        let e = finish_revoke-IsFinished now status reason s w w' h.is_row q in
        ap (λ x. is_over x.status) (same_session t e.row (sym k ∙ e.is_row)) ∙ e.over)
      (λ x. cc) r
revoke_next-Went now reason answer rechecking f s w fs h i ph r =
    let c = All-In (IsCarried s w.outbox) f fs h.carried i in
    still s f fs w _ h c (λ same _ p.
      elim (terminal_or s.status (
        found_check is_terminal_session persisting_late (session_of f.event) s w h.is_row (sym same)
          p (λ x. cc))) [ inl e ↦ inl e | inr e ↦ inr (asleep_at s f w fs h c r same e) ])
revoke_next-Went now reason answer persisting f s w fs h i ph r =
    ended s f fs w (persist_revoke_failure now reason w) (λ w'. after_failure w.session) erred h i
      (λ w' q. records_failure now reason w w' q)
      (λ w' t q k a b p. Advance-over s t a (failed_over s w.session h.is_row p)) (λ x. cc) r
revoke_next-Went now reason answer persisting_late f s w fs h i ph r =
    ended s f fs w (persist_revoke_failure now reason w) (λ w'. erred) erred h i
      (λ w' q. records_failure now reason w w' q) (λ w' t q k a b p. cc) (λ x. cc) r
revoke_next-Went now reason answer returned f s w fs h i ph r =
    let c = All-In (IsCarried s w.outbox) f fs h.carried i in
    still s f fs w returned h c (λ same _ p. (c.known r same).cleared ph)
revoke_next-Went now reason answer erred f s w fs h i ph r =
    let c = All-In (IsCarried s w.outbox) f fs h.carried i in still s f fs w erred h c (λ _ _ p. cc)
