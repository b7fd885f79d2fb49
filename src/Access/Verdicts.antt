-- ===== src/Access/Verdicts.antt =====
-- What a decision on an approval (`DecideApproval` in internal/service/access.go) needs and does.
use access_gateway.Prelude.{
  ℕ, ◌≡◌, ◌≢◌, refl, sym, ap, ◌∙◌, Bool, true, false, ◌&&◌, not, Option, none, some, List, [], ◌∷◌,
  ◌++◌, Text, codes, text_eq, text_eq_iff, ◌==◌, ==_iff, Result, ok, ◌>>=◌, ◌>>◌, guard, >>=-eq-ok,
  arith,
}
use mathlib.Core.Path.{subst}
use access_gateway.Approval.Model.{ApprovalDecision, decision_approved, decision_rejected, Approval}
use access_gateway.Approval.Levels.{next_approval_level}
use access_gateway.Access.Model.{
  outbox_session_revoke, provisioning, RequestStatus, pending_approval, approved, rejected,
  AccessRequest, Session, Store, ServiceError, OutboxEvent, forbidden, state_conflict, conflict,
}
use access_gateway.Access.Decisions.{
  Environment, Decision, is_pending_approval, is_undecided, find_approval, check_decision,
  decide_rows, new_session, create_session, set_status, transition_status, grant_session,
  log_decision, log_session, request_event, settle, decide_locked, decide_approval,
}

-- What the row `a`, the request and the approvals are when a decision on `a` is let through.
pub record MayDecide (approver_id : Text) (request : AccessRequest) (a : Approval)
    (approvals : List Approval) : Type 0 where
  pub own : a.approver_id ≡ approver_id
  pub not_self : request.applicant_id ≢ approver_id
  pub waiting : request.status ≡ pending_approval
  pub undecided : a.decision ≡ none
  pub current : next_approval_level approvals ≡ (a.approval_level, false)

guarded :
    (b : Bool) (e : ServiceError) (k : Result ServiceError (Unit {0}))
    → (guard b e >> k) ≡ ok tt
    → (b ≡ true) × (k ≡ ok tt)
guarded true e k h = (refl, h)
guarded false e k h = cc

guard-true : (b : Bool) (e : ServiceError) → guard b e ≡ ok tt → b ≡ true
guard-true true e h = refl
guard-true false e h = cc

pending_of :
    (st : RequestStatus) (b : Bool) → (is_pending_approval st && b) ≡ true → st ≡ pending_approval
pending_of st b h = ground arith

undecided_of : (d : Option ApprovalDecision) (b : Bool) → (b && is_undecided d) ≡ true → d ≡ none
undecided_of none b h = refl
undecided_of (some d) b h = ground arith

same_level : (n level : ℕ) → (not false && level == n) ≡ true → (level == n) ≡ true
same_level n level h = h

current_of : (p : ℕ × Bool) (level : ℕ) → (not p.1 && level == p.0) ≡ true → p ≡ (level, false)
current_of (n, true) level h = ground arith
current_of (n, false) level h =
    ap (λ m. (m, false)) (sym ((==_iff level n).0 (same_level n level h)))

pub check_decision-MayDecide :
    (approver_id : Text) (request : AccessRequest) (a : Approval) (approvals : List Approval)
    → check_decision approver_id request a approvals ≡ ok tt
    → MayDecide approver_id request a approvals
unfolding check_decision
check_decision-MayDecide approver_id request a approvals h =
    let next = next_approval_level approvals in
    let last = guard (not next.1 && a.approval_level == next.0) state_conflict in
    let third =
      guard (is_pending_approval request.status && is_undecided a.decision) state_conflict
      >> last in
    let second = guard (not (text_eq request.applicant_id approver_id)) forbidden >> third in
    let (own, h₁) = guarded (text_eq a.approver_id approver_id) forbidden second h in
    let (other, h₂) = guarded (not (text_eq request.applicant_id approver_id)) forbidden third h₁ in
    let (still, h₃) =
      guarded (is_pending_approval request.status && is_undecided a.decision) state_conflict last
        h₂ in
    record {
      own = (text_eq_iff a.approver_id approver_id).0 own;
      not_self = λ e. ground (arith, other, (text_eq_iff request.applicant_id approver_id).1 e);
      waiting = pending_of request.status (is_undecided a.decision) still;
      undecided = undecided_of a.decision (is_pending_approval request.status) still;
      current =
          current_of next a.approval_level
            (guard-true (not next.1 && a.approval_level == next.0) state_conflict h₃);
    }

-- The transaction of a decision: the row, and what `settle` made of the decided approvals.
decide_locked-parts :
    (env : Environment) (now : ℕ) (d : Decision) (w w' : Store)
    → decide_locked env now d w ≡ ok w'
    → (a : Approval) × (approvals : List Approval) × (find_approval d.approval_id w.approvals
        ≡ ok a)
      × (env.check_voter w.request a ≡ ok tt)
      × MayDecide d.approver_id w.request a w.approvals
      × (decide_rows now d w.approvals ≡ ok approvals)
      × (settle env now d
            (d.decision)
            ((next_approval_level approvals).1)
            (record w { approvals = approvals })
          ≡ ok w')
unfolding decide_locked
decide_locked-parts env now d w w' h =
    let last = λ (approvals : List Approval).
      settle env now d (d.decision) ((next_approval_level approvals).1)
        (record w { approvals = approvals }) in
    let third = decide_rows now d w.approvals >>= last in
    let second = λ (a : Approval). check_decision d.approver_id w.request a w.approvals >> third in
    let first = λ (a : Approval). env.check_voter w.request a >> second a in
    let (a, found, h₁) = >>=-eq-ok (find_approval d.approval_id w.approvals) first h in
    let (u, voted, h₂) = >>=-eq-ok (env.check_voter w.request a) (λ _. second a) h₁ in
    let (v, checked, h₃) =
      >>=-eq-ok (check_decision d.approver_id w.request a w.approvals) (λ _. third) h₂ in
    let (approvals, rows, h₄) = >>=-eq-ok (decide_rows now d w.approvals) last h₃ in
    (
      a,
      approvals,
      found,
      voted,
      check_decision-MayDecide d.approver_id w.request a w.approvals checked,
      rows,
      h₄,
    )

-- A decision that is accepted, whatever was read before the transaction, is one of the approver of
-- an existing row that passed the check of voters, who is not the applicant, on an undecided row of
-- the current level, while the request waits for approval.
pub decide_approval-MayDecide :
    (env : Environment) (now : ℕ) (d : Decision) (seen w w' : Store)
    → decide_approval env now d seen w ≡ ok w'
    → (a : Approval) × (find_approval d.approval_id w.approvals ≡ ok a)
      × (env.check_voter w.request a ≡ ok tt)
      × MayDecide d.approver_id w.request a w.approvals
unfolding decide_approval
decide_approval-MayDecide env now d seen w w' h =
    let (b, e, h₁) =
      >>=-eq-ok (find_approval d.approval_id seen.approvals)
        (λ a.
          check_decision d.approver_id seen.request a seen.approvals >> decide_locked env now d w)
        h in
    let (u, e', h₂) =
      >>=-eq-ok (check_decision d.approver_id seen.request b seen.approvals)
        (λ _. decide_locked env now d w) h₁ in
    let (a, approvals, found, voted, may, rows, rest) = decide_locked-parts env now d w w' h₂ in
    (a, found, voted, may)

-- One event is put into the outbox, and it is no revoke command.
abbrev pub Notifies : Store → Store → Type 0
Notifies w w' =
    (e : OutboxEvent) × (w'.outbox ≡ w.outbox ++ e ∷ [])
    × (text_eq e.event_type outbox_session_revoke ≡ false)

-- What a decision leaves: a request that is rejected or still pending, with the session as it was;
-- or an approved request, of which every level is complete, with a new session.
pub data Verdict (w w' : Store) : Type 0 where
  refused : w'.request.status ≡ rejected → w'.session ≡ w.session → Notifies w w' → Verdict w w'
  waits :
      w'.request.status ≡ w.request.status
      → w'.session ≡ w.session
      → Notifies w w'
      → (next_approval_level w'.approvals).1 ≡ false
      → Verdict w w'
  granted :
      (s : Session)
      → w'.request.status ≡ approved
      → w.session ≡ none
      → w'.session ≡ some s
      → (s.status ≡ provisioning) × (s.version ≡ 0) × (s.request_id ≡ w.request.id)
      → (next_approval_level w'.approvals).1 ≡ true
      → Verdict w w'

create_session-eq :
    (o : Option Session) (s : Session) (w w' : Store)
    → create_session o s w ≡ ok w'
    → (o ≡ none) × (record w { session = some s } ≡ w')
unfolding create_session
create_session-eq none s w w' h = (refl, cc)
create_session-eq (some t) s w w' h = cc

eq-store : (w w' : Store) → Path (Result ServiceError Store) (ok w) (ok w') → w ≡ w'
eq-store w w' h = cc

transition_status-eq :
    (now : ℕ) (status : RequestStatus) (w w' : Store)
    → transition_status now status w ≡ ok w'
    → set_status now status w ≡ w'
unfolding transition_status
transition_status-eq now status w w' h =
    let (u, e, q) =
      >>=-eq-ok (guard (is_pending_approval w.request.status) _) (λ _. ok (set_status now status w))
        h in
    eq-store (set_status now status w) w' q

grant_session-eq :
    (env : Environment) (now : ℕ) (w w' : Store)
    → grant_session env now w ≡ ok w'
    → (w.session ≡ none) × (record w { session = some (new_session env now w.request) } ≡ w')
unfolding grant_session
grant_session-eq env now w w' h =
    let last = create_session w.session (new_session env now w.request) w in
    let third = env.check_session >> last in
    let second = guard env.asset_enabled state_conflict >> third in
    let (u, e, h₁) = >>=-eq-ok (guard (not env.has_active_session) conflict) (λ _. second) h in
    let (v, e', h₂) = >>=-eq-ok (guard env.asset_enabled state_conflict) (λ _. third) h₁ in
    let (x, e'', h₃) = >>=-eq-ok env.check_session (λ _. last) h₂ in
    create_session-eq w.session (new_session env now w.request) w w' h₃

settle-Verdict :
    (env : Environment) (now : ℕ) (d : Decision) (decision : ApprovalDecision) (complete : Bool)
    (w w' : Store) (approvals : List Approval)
    → (next_approval_level approvals).1 ≡ complete
    → settle env now d decision complete (record w { approvals = approvals }) ≡ ok w'
    → Verdict w w'
unfolding settle log_decision log_session set_status new_session text_eq
settle-Verdict env now d decision_rejected complete w w' approvals c h =
    let (w₁, e, q) =
      >>=-eq-ok (transition_status now rejected (record w { approvals = approvals })) _ h in
    let e₁ = transition_status-eq now rejected (record w { approvals = approvals }) w₁ e in
    let e₂ = eq-store _ w' q in
    let sent = request_event w (codes "notification.request_result") in
    refused
      (subst (λ x. x.request.status ≡ rejected) e₂
        (subst (λ x. x.request.status ≡ rejected) e₁ refl))
      (subst (λ x. x.session ≡ w.session) e₂ (subst (λ x. x.session ≡ w.session) e₁ refl))
      (subst (λ x. Notifies w x) e₂ (sent, ap (λ x. x.outbox ++ sent ∷ []) (sym e₁), refl))
settle-Verdict env now d decision_approved false w w' approvals c h =
    let e₂ = eq-store _ w' h in
    waits (subst (λ x. x.request.status ≡ w.request.status) e₂ refl)
      (subst (λ x. x.session ≡ w.session) e₂ refl) (subst (λ x. Notifies w x) e₂ (_, refl, refl))
      (subst (λ x. (next_approval_level x.approvals).1 ≡ false) e₂ c)
settle-Verdict env now d decision_approved true w w' approvals c h =
    let ready = record w { approvals = approvals } in
    let (w₁, e, h₁) = >>=-eq-ok (transition_status now approved ready) _ h in
    let (w₂, f, q) = >>=-eq-ok (grant_session env now w₁) _ h₁ in
    let e₁ = transition_status-eq now approved ready w₁ e in
    let (free, f₁) = grant_session-eq env now w₁ w₂ f in
    let e₂ = eq-store _ w' q in
    let s = new_session env now w₁.request in
    granted s
      (subst (λ x. x.request.status ≡ approved) e₂
        (subst (λ x. x.request.status ≡ approved) f₁
          (subst (λ x. x.request.status ≡ approved) e₁ refl)))
      (ap (λ x. x.session) e₁ ∙ free)
      (subst (λ x. x.session ≡ some s) e₂ (subst (λ x. x.session ≡ some s) f₁ refl))
      (refl, refl, subst (λ x. x.request.id ≡ w.request.id) e₁ refl)
      (subst (λ x. (next_approval_level x.approvals).1 ≡ true) e₂
        (subst (λ x. (next_approval_level x.approvals).1 ≡ true) f₁
          (subst (λ x. (next_approval_level x.approvals).1 ≡ true) e₁ c)))

-- A decision that is accepted rejects the request, or leaves it waiting at a level that is not
-- complete, and in both cases the session is not touched; or it approves the request when every
-- level is complete, and then there was no session and there is a fresh one in `provisioning`.
pub decide_approval-Verdict :
    (env : Environment) (now : ℕ) (d : Decision) (seen w w' : Store)
    → decide_approval env now d seen w ≡ ok w'
    → Verdict w w'
unfolding decide_approval
decide_approval-Verdict env now d seen w w' h =
    let (b, e, h₁) =
      >>=-eq-ok (find_approval d.approval_id seen.approvals)
        (λ a.
          check_decision d.approver_id seen.request a seen.approvals >> decide_locked env now d w)
        h in
    let (u, e', h₂) =
      >>=-eq-ok (check_decision d.approver_id seen.request b seen.approvals)
        (λ _. decide_locked env now d w) h₁ in
    let (a, approvals, found, voted, may, rows, q) = decide_locked-parts env now d w w' h₂ in
    settle-Verdict env now d (d.decision) ((next_approval_level approvals).1) w w' approvals refl q
