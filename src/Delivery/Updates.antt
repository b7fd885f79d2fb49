-- ===== src/Delivery/Updates.antt =====
-- One row of the outbox is updated (internal/repository/events.go).
use access_gateway.Prelude.{
  ℕ, suc, zero, ◌+◌, ◌≡◌, refl, ◌∙◌, false, Option, some, List, [], ◌∷◌, ◌++◌, Text, if◌then◌else◌,
  Result, ok, >>=-eq-ok, get_elem?, get_elem?-append_left, All, arith,
}
use mathlib.Core.Path.{subst}
use access_gateway.Access.Model.{
  ServiceError, OutboxEvent, is_active, is_active_for, revoke_command,
}
use access_gateway.Access.Queue.{update_at}
use access_gateway.Access.Ledger.{count}

-- The row `e` at an index has become `e'`.
pub data Updated (e e' : OutboxEvent) : ℕ → List OutboxEvent → List OutboxEvent → Type 0 where
  here : (o : List OutboxEvent) → Updated e e' 0 (e ∷ o) (e' ∷ o)
  there :
      (index : ℕ) (x : OutboxEvent) (o o' : List OutboxEvent)
      → Updated e e' index o o'
      → Updated e e' (suc index) (x ∷ o) (x ∷ o')

eq-events :
    (o o' : List OutboxEvent)
    → Path (Result ServiceError (List OutboxEvent)) (ok o) (ok o')
    → o ≡ o'
eq-events o o' h = cc

pub update_at-Updated :
    (f : OutboxEvent → Result ServiceError OutboxEvent) (index : ℕ) (o o' : List OutboxEvent)
    → update_at f index o ≡ ok o'
    → (e : OutboxEvent) × (e' : OutboxEvent) × (f e ≡ ok e') × Updated e e' index o o'
unfolding update_at
update_at-Updated f index [] o' h = cc
update_at-Updated f zero (e ∷ o) o' h =
    let (e', k, q) = >>=-eq-ok (f e) _ h in
    (e, e', k, subst (λ x. Updated e e' 0 (e ∷ o) x) (eq-events _ o' q) (here o))
update_at-Updated f (suc index) (x ∷ o) o' h =
    let (rest, k, q) = >>=-eq-ok (update_at f index o) _ h in
    let (e, e', m, u) = update_at-Updated f index o rest k in
    (
      e,
      e',
      m,
      subst (λ y. Updated e e' (suc index) (x ∷ o) y) (eq-events _ o' q) (there index x o rest u),
    )

-- Whether an event is an active command of the session.
abbrev pub tick : Text → OutboxEvent → ℕ
tick session_id e = if is_active_for (revoke_command session_id []) e then 1 else 0

pub count-Updated :
    (session_id : Text) {e e' : OutboxEvent} {index : ℕ} {o o' : List OutboxEvent}
    → Updated e e' index o o'
    → count session_id o' + tick session_id e ≡ count session_id o + tick session_id e'
unfolding count
count-Updated session_id (here o) = ground arith
count-Updated session_id (there index x o o' u) = ground (arith, count-Updated session_id u)

pub at-Updated :
    {e e' : OutboxEvent} {index : ℕ} {o o' : List OutboxEvent}
    → Updated e e' index o o'
    → (get_elem? o index ≡ some e) × (get_elem? o' index ≡ some e')
at-Updated (here o) = (refl, refl)
at-Updated (there index x o o' u) = at-Updated u

pub All-Updated :
    (P : OutboxEvent → Type 0) {e e' : OutboxEvent} {index : ℕ} {o o' : List OutboxEvent}
    → Updated e e' index o o'
    → (P e → P e')
    → All P o
    → All P o'
All-Updated P (here o) f h = (f h.0, h.1)
All-Updated P (there index x o o' u) f h = (h.0, All-Updated P u f h.1)

-- The columns that no UPDATE changes.
pub record IsSame (e e' : OutboxEvent) : Type 0 where
  pub aggregate_type : e'.aggregate_type ≡ e.aggregate_type
  pub aggregate_id : e'.aggregate_id ≡ e.aggregate_id
  pub event_type : e'.event_type ≡ e.event_type
  pub payload : e'.payload ≡ e.payload

pub IsSame-refl : (e : OutboxEvent) → IsSame e e
IsSame-refl e = record {
  aggregate_type = refl;
  aggregate_id = refl;
  event_type = refl;
  payload = refl;
}

-- What has become of an event: a row that is neither pending nor processing stays so.
pub record Evolved (index : ℕ) (e : OutboxEvent) (o : List OutboxEvent) : Type 0 where
  pub present : OutboxEvent
  pub is_at : get_elem? o index ≡ some present
  pub same : IsSame e present
  pub asleep : is_active e.status ≡ false → is_active present.status ≡ false

abbrev pub Evolves : List OutboxEvent → List OutboxEvent → Type 0
Evolves o o' = (index : ℕ) (e : OutboxEvent) → get_elem? o index ≡ some e → Evolved index e o'

pub append-Evolves : (o added : List OutboxEvent) → Evolves o (o ++ added)
append-Evolves o added index e h = record {
  present = e;
  is_at = get_elem?-append_left o added index h;
  same = IsSame-refl e;
  asleep = λ a. a;
}

unmoved_row :
    {index : ℕ} (e : OutboxEvent) {o : List OutboxEvent}
    → get_elem? o index ≡ some e
    → Evolved index e o
unmoved_row e h = record { present = e; is_at = h; same = IsSame-refl e; asleep = λ a. a }

same_event : (e f : OutboxEvent) → Path (Option OutboxEvent) (some e) (some f) → e ≡ f
same_event e f h = cc

pub Updated-Evolves :
    {e e' : OutboxEvent} {index : ℕ} {o o' : List OutboxEvent}
    → Updated e e' index o o'
    → IsSame e e'
    → (is_active e.status ≡ false → is_active e'.status ≡ false)
    → Evolves o o'
Updated-Evolves {e} {e'} (here o) s a zero x h =
    subst (λ y. Evolved 0 y (e' ∷ o)) (same_event e x h)
      (record { present = e'; is_at = refl; same = s; asleep = a })
Updated-Evolves (here o) s a (suc i) x h = record {
  present = x;
  is_at = h;
  same = IsSame-refl x;
  asleep = λ b. b;
}
Updated-Evolves (there index y o o' u) s a zero x h = record {
  present = x;
  is_at = h;
  same = IsSame-refl x;
  asleep = λ b. b;
}
Updated-Evolves (there index y o o' u) s a (suc i) x h =
    let r = Updated-Evolves u s a i x h in
    record { present = r.present; is_at = r.is_at; same = r.same; asleep = r.asleep }

pub join-IsSame : (e f g : OutboxEvent) → IsSame e f → IsSame f g → IsSame e g
join-IsSame e f g a b = record {
  aggregate_type = b.aggregate_type ∙ a.aggregate_type;
  aggregate_id = b.aggregate_id ∙ a.aggregate_id;
  event_type = b.event_type ∙ a.event_type;
  payload = b.payload ∙ a.payload;
}
