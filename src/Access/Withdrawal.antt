-- ===== src/Access/Withdrawal.antt =====
-- What an accepted `CancelAccessRequest` (internal/service/access.go) means for the request and its
-- session.
use access_gateway.Prelude.{
  ℕ, ◌≡◌, refl, sym, ap, ◌∙◌, Bool, true, false, Option, none, some, Text, ok,
}
use mathlib.Core.Path.{subst}
use access_gateway.Access.Model.{
  RequestStatus, pending_approval, approved, rejected, cancelled, approval_expired, Session, Store,
}
use access_gateway.Access.Life.{is_stopping}
use access_gateway.Access.Sessions.{Caller}
use access_gateway.Access.Requests.{
  log_cancelled, cancel_linked, cancel_status, cancel_access_request,
}
use access_gateway.Access.Cancellation.{
  eq-store, log_cancelled-request, log_cancelled-session, cancel_linked-stops,
}
use access_gateway.Access.Guards.{cancel-linked}
use access_gateway.Access.Locked.{eq-pair}

-- The states of a request that can lead to no session.
abbrev pub is_withdrawn : RequestStatus → Bool
is_withdrawn rejected = true
is_withdrawn cancelled = true
is_withdrawn approval_expired = true
is_withdrawn _ = false

-- A session, if there is one, is ended or on its way there.
abbrev pub IsEnding : Option Session → Type 0
IsEnding none = Unit
IsEnding (some s) = is_stopping s.status ≡ true

cancel_status-withdrawn :
    (status : RequestStatus) (now : ℕ) (w : Store) (c : Bool × Store)
    → w.request.status ≡ status
    → cancel_status status now w ≡ ok c
    → is_withdrawn c.1.request.status ≡ true
unfolding cancel_status
cancel_status-withdrawn pending_approval now w c st h =
    subst (λ x. is_withdrawn x.1.request.status ≡ true) (eq-pair _ c h) refl
cancel_status-withdrawn approved now w c st h =
    subst (λ x. is_withdrawn x.1.request.status ≡ true) (eq-pair _ c h) refl
cancel_status-withdrawn rejected now w c st h =
    subst (λ x. is_withdrawn x.1.request.status ≡ true) (eq-pair _ c h) (ap is_withdrawn st)
cancel_status-withdrawn cancelled now w c st h =
    subst (λ x. is_withdrawn x.1.request.status ≡ true) (eq-pair _ c h) (ap is_withdrawn st)
cancel_status-withdrawn approval_expired now w c st h =
    subst (λ x. is_withdrawn x.1.request.status ≡ true) (eq-pair _ c h) (ap is_withdrawn st)

linked-ends :
    (terminal : Bool) (now : ℕ) (actor user_id : Text) (o : Option Session) (w w' : Store)
    → w.session ≡ o
    → cancel_linked terminal now actor user_id o w ≡ ok w'
    → IsEnding w'.session × (w'.request ≡ w.request)
unfolding cancel_linked
linked-ends terminal now actor user_id none w w' i h =
    let same = eq-store (log_cancelled terminal actor user_id w) w' h in
    (
      subst IsEnding
          (sym
            (sym (ap (λ x. x.session) same) ∙ log_cancelled-session terminal actor user_id w ∙ i))
          tt,
      sym (ap (λ x. x.request) same) ∙ log_cancelled-request terminal actor user_id w,
    )
linked-ends terminal now actor user_id (some s) w w' i h =
    let (t, is_row, stopping, request) =
      cancel_linked-stops terminal now actor user_id s w w' i h in
    (subst IsEnding (sym is_row) stopping, request)

-- An accepted cancellation leaves the request cancelled, rejected or expired, and its session, if it
-- has one, ended or on its way there: none is provisioning, running or left for manual intervention.
pub cancel_access_request-IsEnding :
    (now : ℕ) (caller : Caller) (w w' : Store)
    → cancel_access_request now caller w ≡ ok w'
    → (is_withdrawn w'.request.status ≡ true) × IsEnding w'.session
cancel_access_request-IsEnding now caller w w' h =
    let (c, actor, k, st, q) = cancel-linked now caller w w' h in
    let (ending, request) = linked-ends c.0 now actor caller.user_id c.1.session c.1 w' refl q in
    (
      subst (λ x. is_withdrawn x.status ≡ true) (sym request)
          (cancel_status-withdrawn w.request.status now w c refl st),
      ending,
    )
