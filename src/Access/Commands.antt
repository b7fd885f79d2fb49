-- ===== src/Access/Commands.antt =====
-- The revoke command of the outbox: `CreateIfNoActive`, and what a transaction leaves of a session.
use access_gateway.Prelude.{
  ◌≡◌, refl, sym, ap, Bool, true, false, ◌&&◌, ◌||◌, List, [], ◌∷◌, ◌++◌, any, Text, text_eq,
  text_eq_iff, if◌then◌else◌, arith,
}
use access_gateway.Access.Model.{
  SessionStatus, revoking, revoke_failed, OutboxEvent, is_active_for, Details, create_if_no_active,
  revoke_command, session_aggregate, outbox_session_revoke,
}

-- The states from which only the revoke worker brings a session on.
abbrev pub needs_command : SessionStatus → Bool
needs_command revoking = true
needs_command revoke_failed = true
needs_command _ = false

-- A pending or processing `session.revoke` for the session.
unfoldable pub has_command : Text → List OutboxEvent → Bool
has_command session_id = any (is_active_for (revoke_command session_id []))

any-last :
    (p : OutboxEvent → Bool) (events : List OutboxEvent) (e : OutboxEvent)
    → p e ≡ true
    → any p (events ++ e ∷ []) ≡ true
any-last p [] e h = ground arith
any-last p (x ∷ events) e h = ground (arith, any-last p events e h)

-- The payload of a command does not count.
pub any-command :
    (session_id : Text) (reason : Details) (events : List OutboxEvent)
    → any (is_active_for (revoke_command session_id reason)) events ≡ has_command session_id events
unfolding has_command is_active_for revoke_command
any-command session_id reason [] = refl
any-command session_id reason (e ∷ events) =
    ap (λ b. is_active_for (revoke_command session_id reason) e || b)
      (any-command session_id reason events)

text_eq_refl : (s : Text) → text_eq s s ≡ true
text_eq_refl s = (text_eq_iff s s).1 refl

three_tests : (a b c : Bool) → a ≡ true → b ≡ true → c ≡ true → (a && b && c && true) ≡ true
three_tests a b c h i j = ground arith

pub command_counts :
    (session_id : Text) (reason : Details)
    → is_active_for (revoke_command session_id []) (revoke_command session_id reason) ≡ true
unfolding is_active_for revoke_command
command_counts session_id reason =
    three_tests (text_eq session_aggregate session_aggregate) (text_eq session_id session_id)
      (text_eq outbox_session_revoke outbox_session_revoke) (text_eq_refl session_aggregate)
      (text_eq_refl session_id) (text_eq_refl outbox_session_revoke)

queued_or_not :
    (session_id : Text) (reason : Details) (events : List OutboxEvent) (b : Bool)
    → has_command session_id events ≡ b
    → has_command session_id (if b then events else events ++ revoke_command session_id reason ∷ [])
      ≡ true
unfolding has_command
queued_or_not session_id reason events true h = h
queued_or_not session_id reason events false h =
    any-last (is_active_for (revoke_command session_id [])) events
      (revoke_command session_id reason) (command_counts session_id reason)

-- After `CreateIfNoActive` there is a command, whatever there was before.
pub create_if_no_active-has_command :
    (session_id : Text) (reason : Details) (events : List OutboxEvent)
    → has_command session_id (create_if_no_active (revoke_command session_id reason) events) ≡ true
unfolding create_if_no_active
create_if_no_active-has_command session_id reason events =
    queued_or_not session_id reason events
      (any (is_active_for (revoke_command session_id reason)) events)
      (sym (any-command session_id reason events))

pub append-has_command :
    (session_id : Text) (reason : Details) (events : List OutboxEvent)
    → has_command session_id (events ++ revoke_command session_id reason ∷ []) ≡ true
unfolding has_command
append-has_command session_id reason events =
    any-last (is_active_for (revoke_command session_id [])) events
      (revoke_command session_id reason) (command_counts session_id reason)
