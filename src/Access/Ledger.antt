-- ===== src/Access/Ledger.antt =====
-- The revoke commands of an outbox (internal/repository/events.go), counted: how many a session may
-- have in each state, and what a transaction adds.
use access_gateway.Prelude.{
  ℕ, suc, ◌+◌, ◌≤◌, ◌≡◌, refl, sym, ap, ◌∙◌, true, false, List, [], ◌∷◌, ◌++◌, append_assoc,
  append-nil, Text, codes, text_eq, if◌then◌else◌, arith, All, All-append, is_blank, Bool-cases,
  inl, inr,
}
use mathlib.Core.Path.{subst}
use access_gateway.Access.Model.{
  SessionStatus, provisioning, running, manual_intervention, Session, OutboxEvent, is_active_for,
  Details, create_if_no_active, revoke_command, session_aggregate, outbox_session_revoke,
  outbox_reference, outbox_string,
}
use access_gateway.Access.Commands.{has_command, command_counts, any-command}

-- The active commands of a session.
unfoldable pub count : Text → List OutboxEvent → ℕ
count session_id [] = 0
count session_id (e ∷ events) =
    if is_active_for (revoke_command session_id []) e
    then suc (count session_id events)
    else count session_id events

-- The commands that a session may have: none before a revocation begins or after it was given up.
abbrev pub most : SessionStatus → ℕ
most provisioning = 0
most running = 0
most manual_intervention = 0
most _ = 1

count-append :
    (session_id : Text) (xs ys : List OutboxEvent)
    → count session_id (xs ++ ys) ≡ count session_id xs + count session_id ys
unfolding count
count-append session_id [] ys = omega arith
count-append session_id (x ∷ xs) ys = ground (arith, count-append session_id xs ys)

pub has_command-none :
    (session_id : Text) (events : List OutboxEvent)
    → has_command session_id events ≡ false
    → count session_id events ≡ 0
unfolding count has_command
has_command-none session_id [] h = refl
has_command-none session_id (e ∷ events) h = ground (arith, has_command-none session_id events)

pub has_command-some :
    (session_id : Text) (events : List OutboxEvent)
    → has_command session_id events ≡ true
    → 1 ≤ count session_id events
unfolding count has_command
has_command-some session_id [] h = ground arith
has_command-some session_id (e ∷ events) h = ground (arith, has_command-some session_id events)

one_command :
    (session_id : Text) (reason : Details)
    → count session_id (revoke_command session_id reason ∷ []) ≡ 1
unfolding count
one_command session_id reason = rw (command_counts session_id reason) refl

other_type :
    (session_id : Text) (e : OutboxEvent)
    → text_eq e.event_type outbox_session_revoke ≡ false
    → count session_id (e ∷ []) ≡ 0
unfolding count is_active_for revoke_command
other_type session_id e h = ground (arith, h)

-- A revoke command names its session twice.
pub record IsFormed (e : OutboxEvent) : Type 0 where
  pub formed :
      text_eq e.event_type outbox_session_revoke ≡ true
      → (e.aggregate_type ≡ session_aggregate)
        × (outbox_reference e (codes "session_id") ≡ e.aggregate_id)

revoke_command-reference :
    (session_id : Text) (reason : Details)
    → outbox_reference (revoke_command session_id reason) (codes "session_id") ≡ session_id
unfolding outbox_reference outbox_string revoke_command text_eq is_blank
revoke_command-reference [] reason = refl
revoke_command-reference (c ∷ s) reason = elim (Bool-cases (is_blank (c ∷ s))) [
  | inl e ↦ rw e refl
  | inr e ↦ rw e refl
]

pub command-IsFormed :
    (session_id : Text) (reason : Details) → IsFormed (revoke_command session_id reason)
unfolding revoke_command
command-IsFormed session_id reason = record {
  formed = λ h. (refl, revoke_command-reference session_id reason);
}

-- What a transaction on the row `s` adds to the outbox, and what that means for the row `t`.
pub record Entry (before : List OutboxEvent) (s t : Session) (after : List OutboxEvent)
    : Type 0 where
  pub added : List OutboxEvent
  pub is_added : after ≡ before ++ added
  pub all_formed : All IsFormed added
  pub bounded : count s.id before ≤ most s.status → count s.id after ≤ most t.status

-- The outbox is left alone.
pub kept-Entry :
    (before : List OutboxEvent) (s t : Session) (after : List OutboxEvent)
    → after ≡ before
    → most s.status ≤ most t.status
    → Entry before s t after
kept-Entry before s t after e l = record {
  added = [];
  is_added = e ∙ sym (append-nil before);
  all_formed = tt;
  bounded = λ h. rw e (omega (arith, h, l));
}

-- An event of another type is appended.
pub other-Entry :
    (before : List OutboxEvent) (s t : Session) (x : OutboxEvent) (after : List OutboxEvent)
    → after ≡ before ++ x ∷ []
    → text_eq x.event_type outbox_session_revoke ≡ false
    → most s.status ≤ most t.status
    → Entry before s t after
other-Entry before s t x after e o l = record {
  added = x ∷ [];
  is_added = e;
  all_formed = (record { formed = λ h. ground (arith, h, o) }, tt);
  bounded = λ h. rw e (omega (arith, h, l, count-append s.id before (x ∷ []), other_type s.id x o));
}

-- A command is appended where there was none.
pub appended-Entry :
    (before : List OutboxEvent) (s t : Session) (reason : Details) (after : List OutboxEvent)
    → after ≡ before ++ revoke_command s.id reason ∷ []
    → (count s.id before ≤ most s.status → count s.id before ≡ 0)
    → most t.status ≡ 1
    → Entry before s t after
appended-Entry before s t reason after e z l = record {
  added = revoke_command s.id reason ∷ [];
  is_added = e;
  all_formed = (command-IsFormed s.id reason, tt);
  bounded = λ h. rw e (
      omega (
        arith,
        z h,
        l,
        count-append s.id before (revoke_command s.id reason ∷ []),
        one_command s.id reason,
      ));
}

pub most_one : (status : SessionStatus) → most status ≤ 1
most_one status = ground arith

-- `CreateIfNoActive` is called with a command.
pub queued-Entry :
    (before : List OutboxEvent) (s t : Session) (reason : Details) (after : List OutboxEvent)
    → after ≡ create_if_no_active (revoke_command s.id reason) before
    → most t.status ≡ 1
    → Entry before s t after
unfolding create_if_no_active
queued-Entry before s t reason after e l =
    let same = any-command s.id reason before in
    elim (Bool-cases (has_command s.id before)) [
      | inl b ↦ record {
        added = [];
        is_added = e ∙ (rw (same ∙ b) (sym (append-nil before)));
        all_formed = tt;
        bounded = λ h. rw (e, same ∙ b) (omega (arith, h, l, most_one s.status));
      }
      | inr b ↦
          appended-Entry before s t reason after (e ∙ (rw (same ∙ b) refl))
            (λ _. has_command-none s.id before b) l
    ]

-- One transaction on the outbox after the other.
pub join-Entry :
    (before : List OutboxEvent) (s t u : Session) (between after : List OutboxEvent)
    → t.id ≡ s.id
    → Entry before s t between
    → Entry between t u after
    → Entry before s u after
join-Entry before s t u between after same e f = record {
  added = e.added ++ f.added;
  is_added = f.is_added ∙ ap (λ x. x ++ f.added) e.is_added ∙ append_assoc before e.added f.added;
  all_formed = All-append IsFormed e.added f.added e.all_formed f.all_formed;
  bounded = λ h.
      let k = e.bounded h in
      subst (λ x. count x after ≤ most u.status) same
        (f.bounded (subst (λ x. count x between ≤ most t.status) (sym same) k));
}
