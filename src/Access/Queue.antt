-- ===== src/Access/Queue.antt =====
-- internal/repository/events.go: the conditional UPDATEs of the outbox row at an index. `ClaimPending`
-- takes several rows in one statement and skips those that another transaction has locked; here it
-- takes one.
use access_gateway.Prelude.{
  ℕ, suc, zero, ◌+◌, Bool, true, false, ◌&&◌, Option, none, some, List, [], ◌∷◌, leb, if◌then◌else◌,
  Result, ok, err, ◌>>=◌,
}
use access_gateway.Access.Model.{
  OutboxStatus, pending, processing, processed, outbox_failed, OutboxEvent, ServiceError, not_found,
  is_active,
}

-- `UPDATE outbox_events ... WHERE id = $1 AND ...`
unfoldable pub update_at :
    (OutboxEvent → Result ServiceError OutboxEvent)
    → ℕ
    → List OutboxEvent
    → Result ServiceError (List OutboxEvent)
update_at f index [] = err not_found
update_at f zero (e ∷ events) = f e >>= λ e'. ok (e' ∷ events)
update_at f (suc index) (e ∷ events) = update_at f index events >>= λ rest. ok (e ∷ rest)

-- `next_retry_at IS NULL OR next_retry_at <= NOW()`
abbrev pub is_retry_due : ℕ → Option ℕ → Bool
is_retry_due now none = true
is_retry_due now (some at) = leb at now

-- `ClaimPending`, for one row.
unfoldable pub claim_event : ℕ → ℕ → OutboxEvent → Result ServiceError OutboxEvent
claim_event now lease e =
    if is_active e.status && is_retry_due now e.next_retry_at
    then ok (record e { status = processing; next_retry_at = some (now + lease) })
    else err not_found

abbrev pub is_claimed : OutboxStatus → Bool
is_claimed processing = true
is_claimed processed = true
is_claimed _ = false

-- `MarkProcessed`
unfoldable pub mark_processed : OutboxEvent → Result ServiceError OutboxEvent
mark_processed e =
    if is_claimed e.status
    then ok (record e { status = processed; next_retry_at = none })
    else err not_found

abbrev pub is_processing : OutboxStatus → Bool
is_processing processing = true
is_processing _ = false

-- `Reschedule`
unfoldable pub reschedule : Bool → ℕ → OutboxEvent → Result ServiceError OutboxEvent
reschedule terminal next_retry_at e =
    if is_processing e.status
    then ok (record e {
      status = if terminal then outbox_failed else pending;
      retry_count = e.retry_count + 1;
      next_retry_at = if terminal then none else some next_retry_at;
    })
    else err not_found
