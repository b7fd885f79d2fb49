-- ===== src/Delivery/Dispatch.antt =====
-- internal/service/access.go: what `ProcessOutbox` does with one event that it has claimed. A call of
-- `RevokeSession` is a sequence of phases, since other transactions may run between those of its own;
-- the phases of the other deliveries change no row here.
use access_gateway.Prelude.{
  ℕ, suc, zero, not, ◌+◌, Bool, true, false, ◌&&◌, ◌||◌, Option, none, some, Text, codes, text_eq,
  leb, if◌then◌else◌, Result, ok, err, ◌>>=◌,
}
use access_gateway.Access.Model.{
  SessionStatus, expired, closed, failed, Session, Store, ServiceError, not_found, OutboxEvent,
  is_terminal_session, outbox_session_revoke, outbox_reference,
}
use access_gateway.Access.Rows.{is_revoking}
use access_gateway.Access.Queue.{update_at, reschedule}
use access_gateway.Access.Revokes.{prepare_revoke, finish_revoke, persist_revoke_failure}
use access_gateway.Access.Requests.{mark_revoke_manual_intervention}

-- Where a call of `RevokeSession` stands: `returned` and `erred` are its ends.
pub data Phase : Type 0 where
  loading preparing checking calling : Phase
  finishing : Text → Phase
  rechecking persisting persisting_late returned erred : Phase

-- `isTerminalSession(status) && status != SessionManualIntervention`
abbrev pub is_over : SessionStatus → Bool
is_over expired = true
is_over closed = true
is_over failed = true
is_over _ = false

-- `GetByID`
abbrev pub find_session : Text → Option Session → Option Session
find_session id none = none
find_session id (some s) = if text_eq s.id id then some s else none

abbrev pub after_load : Option Session → Phase
after_load none = erred
after_load (some s) = if is_over s.status then returned else preparing

abbrev pub after_check : (SessionStatus → Bool) → Phase → Option Session → Phase
after_check settled failing none = failing
after_check settled failing (some s) = if settled s.status then returned else failing

-- The row after the first transaction, `transitioned`.
abbrev pub after_preparation : Option Session → Phase
after_preparation none = returned
after_preparation (some s) = if is_revoking s.status then calling else returned

-- `resolved`: the row was found at an end.
abbrev pub after_failure : Option Session → Phase
after_failure none = erred
after_failure (some s) = if is_over s.status then returned else erred

abbrev pub if_found : Option Session → Result ServiceError Store → Result ServiceError Store
if_found none m = err not_found
if_found (some s) m = m

-- A transaction of the store on the session of an id; where it fails nothing is changed.
abbrev pub on_session : Text → Store → Result ServiceError Store → Result ServiceError Store
on_session id w m = if_found (find_session id w.session) m

abbrev pub ends : Store → Result ServiceError Store → (Store → Phase) → Phase → Store × Phase
ends w (err e) good bad = (w, bad)
ends w (ok w') good bad = (w', good w')

-- One phase of `RevokeSession`; `answer` is the valid response of the gateway, if there is one.
unfoldable pub revoke_next : ℕ → Text → Option Text → Text → Phase → Store → Store × Phase
revoke_next now reason answer id loading w = (w, after_load (find_session id w.session))
revoke_next now reason answer id preparing w =
    ends w (on_session id w (prepare_revoke now reason w)) (λ w'. after_preparation w'.session)
      checking
revoke_next now reason answer id checking w =
    (w, after_check is_over erred (find_session id w.session))
revoke_next now reason none id calling w = (w, persisting)
revoke_next now reason (some status) id calling w = (w, finishing status)
revoke_next now reason answer id (finishing status) w =
    ends w (on_session id w (finish_revoke now status reason w)) (λ w'. returned) rechecking
revoke_next now reason answer id rechecking w =
    (w, after_check is_terminal_session persisting_late (find_session id w.session))
revoke_next now reason answer id persisting w =
    ends w (on_session id w (persist_revoke_failure now reason w)) (λ w'. after_failure w.session)
      erred
revoke_next now reason answer id persisting_late w =
    ends w (on_session id w (persist_revoke_failure now reason w)) (λ w'. erred) erred
revoke_next now reason answer id returned w = (w, returned)
revoke_next now reason answer id erred w = (w, erred)

abbrev pub is_revoke : OutboxEvent → Bool
is_revoke e = text_eq e.event_type outbox_session_revoke

abbrev pub session_of : OutboxEvent → Text
session_of e = outbox_reference e (codes "session_id")

-- The cases of `dispatchOutboxEvent`; another type is an unsupported event.
unfoldable pub is_supported : Text → Bool
is_supported event_type =
    text_eq event_type (codes "session.provision")
    || text_eq event_type outbox_session_revoke
    || text_eq event_type (codes "notification.approval_requested")
    || text_eq event_type (codes "notification.request_result")
    || text_eq event_type (codes "notification.session_ready")
    || text_eq event_type (codes "notification.session_closed")

-- `outboxRetryDelay`, in seconds; a count is not negative here.
unfoldable pub outbox_retry_delay : ℕ → ℕ
outbox_retry_delay zero = 10
outbox_retry_delay (suc zero) = 30
outbox_retry_delay (suc (suc zero)) = 60
outbox_retry_delay (suc (suc (suc n))) = 300

unfoldable pub retries_exhausted : OutboxEvent → Bool
retries_exhausted e = leb 4 e.retry_count

-- What `ProcessOutbox` does when the dispatch of an event has failed; `reason` is the text for the
-- administrators.
unfoldable pub after_dispatch_error : ℕ → Text → ℕ → OutboxEvent → Store → Result ServiceError Store
after_dispatch_error now reason index e w =
    if retries_exhausted e && is_revoke e
    then on_session (session_of e) w (mark_revoke_manual_intervention now index reason w)
    else (do
      outbox ←
          update_at
            (reschedule (not (is_supported e.event_type) || retries_exhausted e)
              (now + outbox_retry_delay e.retry_count))
            index w.outbox
      ok (record w { outbox = outbox }))
