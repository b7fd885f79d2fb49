-- ===== src/Access/Cancellation.antt =====
-- What `CancelAccessRequest` (internal/service/access.go) leaves of a session.
use access_gateway.Prelude.{
  ℕ, ◌≤◌, text_eq, ◌≡◌, refl, sym, ap, ◌∙◌, Bool, true, false, some, List, Text, codes, ◌==◌,
  if◌then◌else◌, Result, ok, ◌>>=◌, >>=-eq-ok, arith,
}
use mathlib.Core.Path.{subst}
use access_gateway.Access.Model.{
  because, SessionStatus, provisioning, running, revoking, expired, closed, failed, revoke_failed,
  manual_intervention, AccessRequest, Session, Store, ServiceError, queue_revoke, OutboxEvent,
  create_if_no_active, revoke_command,
}
use access_gateway.Access.Rows.{mark_provision_failed, mark_provision_revoke_failed, begin_revoke}
use access_gateway.Access.Life.{Advance, stays, is_stopping}
use access_gateway.Access.Moves.{
  begin_revoke-IsEdge, mark_provision_failed-IsEdge, mark_provision_revoke_failed-IsEdge,
}
use access_gateway.Access.Commands.{needs_command, has_command, create_if_no_active-has_command}
use access_gateway.Access.Ledger.{Entry, most, kept-Entry, other-Entry, queued-Entry, join-Entry}
use access_gateway.Access.Booking.{Outcome, commit, one_edge}
use access_gateway.Access.Requests.{
  cancel_unclaimed, cancel_claimed, Cancellation, queued_store, cancel_row, log_cancelled, queue_if,
  cancel_linked,
}

stopping_most : (from to : SessionStatus) → is_stopping to ≡ true → most from ≤ most to
stopping_most from to h = ground arith

stopping_one : (status : SessionStatus) → is_stopping status ≡ true → most status ≡ 1
stopping_one status h = ground arith

-- After the switch of a cancellation: a state that needs a command has set the flag.
record IsSwitched (request : AccessRequest) (before : List OutboxEvent) (s : Session)
    (c : Cancellation) : Type 0 where
  row : Session
  is_row : c.store.session ≡ some row
  advances : Advance s row
  same_id : row.id ≡ s.id
  stopping : is_stopping row.status ≡ true
  same_request : c.store.request ≡ request
  flagged : needs_command row.status ≡ true → c.queued ≡ true
  entry : Entry before s row c.store.outbox

eq-cancellation :
    (b : Bool) (w : Store) (c : Cancellation)
    → queued_store b w ≡ ok c
    → record { queued = b; store = w } ≡ c
eq-cancellation b w c h = cc

switched :
    (r : AccessRequest) (o : List OutboxEvent) (s t : Session) (b : Bool) (w : Store)
    (c : Cancellation)
    → w.request ≡ r
    → Entry o s t w.outbox
    → is_stopping t.status ≡ true
    → Advance s t
    → t.id ≡ s.id
    → w.session ≡ some t
    → (needs_command t.status ≡ true → b ≡ true)
    → queued_store b w ≡ ok c
    → IsSwitched r o s c
switched r o s t b w c rq ro n a same i f h =
    subst (λ x. IsSwitched r o s x) (eq-cancellation b w c h)
      (record {
        row = t;
        is_row = i;
        advances = a;
        same_id = same;
        stopping = n;
        same_request = rq;
        flagged = f;
        entry = ro;
      })

kept :
    (s : Session) (w : Store) (c : Cancellation)
    → w.session ≡ some s
    → needs_command s.status ≡ false
    → is_stopping s.status ≡ true
    → queued_store false w ≡ ok c
    → IsSwitched w.request w.outbox s c
kept s w c i n m h =
    switched w.request w.outbox s s false w c refl (kept-Entry _ s s _ refl (omega arith)) m
      (stays s) refl i (λ y. ground arith) h

pub eq-store : (w w' : Store) → Path (Result ServiceError Store) (ok w) (ok w') → w ≡ w'
eq-store w w' h = cc

cancel_unclaimed-session :
    (now : ℕ) (actor user_id : Text) (s : Session) (w : Store) (c : Cancellation)
    → (cancel_unclaimed now actor user_id s w >>= queued_store false) ≡ ok c
    → IsSwitched w.request w.outbox s c
unfolding cancel_unclaimed
cancel_unclaimed-session now actor user_id s w c h =
    let (v, e, q) = >>=-eq-ok (cancel_unclaimed now actor user_id s w) (queued_store false) h in
    let (t, e', q') = >>=-eq-ok (mark_provision_failed now s.version _ s) _ e in
    let edge = mark_provision_failed-IsEdge now s.version _ s t e' in
    switched w.request w.outbox s t false v c
      (subst (λ x. x.request ≡ w.request) (eq-store _ v q') refl)
      (subst (λ x. Entry w.outbox s t x.outbox) (eq-store _ v q')
        (kept-Entry w.outbox s t _ refl (stopping_most s.status t.status (ap is_stopping edge.1))))
      (ap is_stopping edge.1) (one_edge s t edge.0) edge.0.same_id
      (subst (λ x. x.session ≡ some t) (eq-store _ v q') refl) (λ y. ground (arith, edge.1)) q

cancel_claimed-session :
    (now : ℕ) (actor user_id : Text) (s : Session) (w : Store) (c : Cancellation)
    → (cancel_claimed now actor user_id s w >>= queued_store true) ≡ ok c
    → IsSwitched w.request w.outbox s c
unfolding cancel_claimed queue_revoke
cancel_claimed-session now actor user_id s w c h =
    let (v, e, q) = >>=-eq-ok (cancel_claimed now actor user_id s w) (queued_store true) h in
    let (t, e', q') = >>=-eq-ok (mark_provision_revoke_failed now s.version _ s) _ e in
    let edge = mark_provision_revoke_failed-IsEdge now s.version _ s t e' in
    switched w.request w.outbox s t true v c
      (subst (λ x. x.request ≡ w.request) (eq-store _ v q') refl)
      (subst (λ x. Entry w.outbox s t x.outbox) (eq-store _ v q')
        (queued-Entry w.outbox s t _ _ refl (ap most edge.1)))
      (ap is_stopping edge.1) (one_edge s t edge.0) edge.0.same_id
      (subst (λ x. x.session ≡ some t) (eq-store _ v q') refl) (λ y. refl) q

cancel_begun :
    (r : AccessRequest) (o : List OutboxEvent) (now : ℕ) (s : Session) (c : Cancellation)
    (tail : Session → Store)
    → ((t : Session)
        → ((tail t).session ≡ some t)
          × ((tail t).request ≡ r)
          × (is_stopping t.status ≡ true → Entry o s t (tail t).outbox))
    → (begin_revoke now s >>= λ t. queued_store true (tail t)) ≡ ok c
    → IsSwitched r o s c
cancel_begun r o now s c tail i h =
    let (t, e, q) = >>=-eq-ok (begin_revoke now s) (λ t. queued_store true (tail t)) h in
    let edge = begin_revoke-IsEdge now s t e in
    switched r o s t true (tail t) c (i t).1 ((i t).2 (ap is_stopping edge.1))
      (ap is_stopping edge.1) (one_edge s t edge.0) edge.0.same_id (i t).0 (λ y. refl) q

either_cancelled :
    (r : AccessRequest) (o : List OutboxEvent) (b : Bool) (m n : Result ServiceError Cancellation)
    (s : Session) (c : Cancellation)
    → (m ≡ ok c → IsSwitched r o s c)
    → (n ≡ ok c → IsSwitched r o s c)
    → (if b then m else n) ≡ ok c
    → IsSwitched r o s c
either_cancelled r o true m n s c f g h = f h
either_cancelled r o false m n s c f g h = g h

cancel_row-IsSwitched :
    (status : SessionStatus) (now : ℕ) (actor user_id : Text) (s : Session) (w : Store)
    (c : Cancellation)
    → s.status ≡ status
    → w.session ≡ some s
    → cancel_row status now actor user_id s w ≡ ok c
    → IsSwitched w.request w.outbox s c
unfolding cancel_row
cancel_row-IsSwitched provisioning now actor user_id s w c st i h =
    either_cancelled w.request w.outbox (s.version == 0) _ _ s c
      (cancel_unclaimed-session now actor user_id s w c)
      (cancel_claimed-session now actor user_id s w c) h
cancel_row-IsSwitched revoking now actor user_id s w c st i h =
    switched w.request w.outbox s s true w c refl (kept-Entry _ s s _ refl (omega arith))
      (ap is_stopping st) (stays s) refl i (λ y. refl) h
cancel_row-IsSwitched expired now actor user_id s w c st i h =
    kept s w c i (ap needs_command st) (ap is_stopping st) h
cancel_row-IsSwitched closed now actor user_id s w c st i h =
    kept s w c i (ap needs_command st) (ap is_stopping st) h
cancel_row-IsSwitched failed now actor user_id s w c st i h =
    kept s w c i (ap needs_command st) (ap is_stopping st) h
cancel_row-IsSwitched running now actor user_id s w c st i h =
    cancel_begun w.request w.outbox now s c _
      (λ t. (refl, refl, λ n. kept-Entry w.outbox s t _ refl (stopping_most s.status t.status n))) h
cancel_row-IsSwitched revoke_failed now actor user_id s w c st i h =
    cancel_begun w.request w.outbox now s c _
      (λ t. (refl, refl, λ n. kept-Entry w.outbox s t _ refl (stopping_most s.status t.status n))) h
cancel_row-IsSwitched manual_intervention now actor user_id s w c st i h =
    cancel_begun w.request w.outbox now s c _
      (λ t. (refl, refl, λ n. kept-Entry w.outbox s t _ refl (stopping_most s.status t.status n))) h

pub log_cancelled-session :
    (b : Bool) (actor user_id : Text) (w : Store)
    → (log_cancelled b actor user_id w).session ≡ w.session
unfolding log_cancelled
log_cancelled-session true actor user_id w = refl
log_cancelled-session false actor user_id w = refl

log_cancelled-Entry :
    (b : Bool) (actor user_id : Text) (t : Session) (w : Store)
    → Entry w.outbox t t (log_cancelled b actor user_id w).outbox
unfolding log_cancelled text_eq
log_cancelled-Entry true actor user_id t w = kept-Entry w.outbox t t w.outbox refl (omega arith)
log_cancelled-Entry false actor user_id t w = other-Entry w.outbox t t _ _ refl refl (omega arith)

queue_if-Entry :
    (b : Bool) (s t : Session) (w : Store)
    → t.id ≡ s.id
    → is_stopping t.status ≡ true
    → Entry w.outbox t t (queue_if b s w).outbox
unfolding queue_if queue_revoke
queue_if-Entry true s t w same n =
    queued-Entry w.outbox t t (because (codes "request_cancelled")) _
      (ap
        (λ x. create_if_no_active (revoke_command x (because (codes "request_cancelled"))) w.outbox)
        (sym same))
      (stopping_one t.status n)
queue_if-Entry false s t w same n = kept-Entry w.outbox t t w.outbox refl (omega arith)

queue_if-has_command :
    (b : Bool) (s t : Session) (w : Store)
    → t.id ≡ s.id
    → b ≡ true
    → has_command t.id (queue_if b s w).outbox ≡ true
unfolding queue_if queue_revoke
queue_if-has_command true s t w same h =
    rw same (create_if_no_active-has_command s.id (because (codes "request_cancelled")) w.outbox)
queue_if-has_command false s t w same h = ground arith

queue_if-session : (b : Bool) (s : Session) (w : Store) → (queue_if b s w).session ≡ w.session
unfolding queue_if queue_revoke
queue_if-session true s w = refl
queue_if-session false s w = refl

pub cancel_linked-Outcome :
    (terminal : Bool) (now : ℕ) (actor user_id : Text) (s : Session) (w w' : Store)
    → w.session ≡ some s
    → cancel_linked terminal now actor user_id (some s) w ≡ ok w'
    → Outcome w s w'
unfolding cancel_linked
cancel_linked-Outcome terminal now actor user_id s w w' i h =
    let (c, e, q) = >>=-eq-ok (cancel_row s.status now actor user_id s w) _ h in
    let r = cancel_row-IsSwitched s.status now actor user_id s w c refl i e in
    let logged = log_cancelled terminal actor user_id c.store in
    commit s r.row w (queue_if c.queued s logged) w' r.advances
      (queue_if-session c.queued s logged
        ∙ log_cancelled-session terminal actor user_id c.store
        ∙ r.is_row)
      (λ y. queue_if-has_command c.queued s r.row logged r.same_id (r.flagged y))
      (join-Entry w.outbox s r.row r.row c.store.outbox _ r.same_id r.entry (
        join-Entry c.store.outbox r.row r.row r.row logged.outbox _ refl
          (log_cancelled-Entry terminal actor user_id r.row c.store)
          (queue_if-Entry c.queued s r.row logged r.same_id r.stopping)))
      q

pub log_cancelled-request :
    (b : Bool) (actor user_id : Text) (w : Store)
    → (log_cancelled b actor user_id w).request ≡ w.request
unfolding log_cancelled
log_cancelled-request true actor user_id w = refl
log_cancelled-request false actor user_id w = refl

queue_if-rows :
    (b : Bool) (s : Session) (w : Store)
    → ((queue_if b s w).session ≡ w.session) × ((queue_if b s w).request ≡ w.request)
unfolding queue_if queue_revoke
queue_if-rows true s w = (refl, refl)
queue_if-rows false s w = (refl, refl)

-- What a cancellation leaves of a linked session, with the request as it was.
pub cancel_linked-stops :
    (terminal : Bool) (now : ℕ) (actor user_id : Text) (s : Session) (w w' : Store)
    → w.session ≡ some s
    → cancel_linked terminal now actor user_id (some s) w ≡ ok w'
    → (t : Session) × (w'.session ≡ some t)
      × (is_stopping t.status ≡ true)
      × (w'.request ≡ w.request)
unfolding cancel_linked
cancel_linked-stops terminal now actor user_id s w w' i h =
    let (c, e, q) = >>=-eq-ok (cancel_row s.status now actor user_id s w) _ h in
    let r = cancel_row-IsSwitched s.status now actor user_id s w c refl i e in
    let logged = log_cancelled terminal actor user_id c.store in
    let rows = queue_if-rows c.queued s logged in
    let sessions = rows.0 ∙ log_cancelled-session terminal actor user_id c.store ∙ r.is_row in
    let requests = rows.1 ∙ log_cancelled-request terminal actor user_id c.store ∙ r.same_request in
    let same = eq-store (queue_if c.queued s logged) w' q in
    (
      r.row,
      sym (ap (λ x. x.session) same) ∙ sessions,
      r.stopping,
      sym (ap (λ x. x.request) same) ∙ requests,
    )
