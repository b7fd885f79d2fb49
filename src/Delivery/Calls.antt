-- ===== src/Delivery/Calls.antt =====
-- `RevokeSession` (internal/service/access.go): what a flight carries from one phase to the next.
use access_gateway.Prelude.{
  ◌≡◌, ◌≢◌, refl, sym, ap, ◌∙◌, Bool, true, false, Option, none, some, List, Text, text_eq,
  text_eq_iff, if◌then◌else◌, arith, ◌⊎◌, inl, inr, Bool-cases, Result, ok, err, In, Result-cases,
}
use mathlib.Core.Path.{subst}
use access_gateway.Access.Model.{Session, Store, ServiceError, not_found, OutboxEvent, is_active}
use access_gateway.Access.Rows.{is_provisioning}
use access_gateway.Access.Life.{Advance, stays}
use access_gateway.Access.Steps.{ServiceStep}
use access_gateway.Delivery.Dispatch.{
  Phase, returned, is_over, find_session, if_found, on_session, ends, is_revoke, session_of,
}
use access_gateway.Delivery.World.{Flight}
use access_gateway.Delivery.Soundness.{IsSound, IsCarried, All-In}
use access_gateway.Delivery.Transactions.{serves-Follows}

-- A world in which the flight `f` has come to another phase.
pub record Went (s : Session) (f : Flight) (fs : List Flight) (r : Store × Phase) : Type 0 where
  pub row : Session
  pub advances : Advance s row
  pub sound : IsSound row (record { store = r.0; flights = fs })
  pub carried : IsCarried row r.0.outbox (record f { phase = r.1 })

-- The flight may take a phase that is no return, or one where the session is at an end or the event
-- is settled.
phase-IsCarried :
    (s : Session) (o : List OutboxEvent) (f : Flight) (phase : Phase) (c : IsCarried s o f)
    → (session_of f.event ≡ s.id
        → is_provisioning s.status ≡ false
        → phase ≡ returned
        → (is_over s.status ≡ true) ⊎ (is_active c.entry.present.status ≡ false))
    → IsCarried s o (record f { phase = phase })
phase-IsCarried s o f phase c k = record {
  entry = c.entry;
  known = λ b i. let n = c.known b i in record { begun = n.begun; cleared = k i n.begun };
}

pub still :
    (s : Session) (f : Flight) (fs : List Flight) (w : Store) (phase : Phase)
    (h : IsSound s (record { store = w; flights = fs })) (c : IsCarried s w.outbox f)
    → (session_of f.event ≡ s.id
        → is_provisioning s.status ≡ false
        → phase ≡ returned
        → (is_over s.status ≡ true) ⊎ (is_active c.entry.present.status ≡ false))
    → Went s f fs (w, phase)
still s f fs w phase h c k = record {
  row = s;
  advances = stays s;
  sound = h;
  carried = phase-IsCarried s w.outbox f phase c k;
}

pub found_or_not :
    (id : Text) (o : Option Session) (s : Session)
    → o ≡ some s
    → (find_session id o ≡ none) ⊎ ((find_session id o ≡ some s) × (s.id ≡ id))
found_or_not id o s h = elim (Bool-cases (text_eq s.id id)) [
  | inl e ↦ inr (rw (h, e) refl, (text_eq_iff s.id id).0 e)
  | inr e ↦ inl (rw (h, e) refl)
]

pub on_session-none :
    (id : Text) (w : Store) (m : Result ServiceError Store)
    → find_session id w.session ≡ none
    → on_session id w m ≡ err not_found
on_session-none id w m e = ap (λ o. if_found o m) e

pub on_session-some :
    (id : Text) (s : Session) (w : Store) (m : Result ServiceError Store)
    → find_session id w.session ≡ some s
    → on_session id w m ≡ m
on_session-some id s w m e = ap (λ o. if_found o m) e

-- A transaction of the call.
pub ended :
    (s : Session) (f : Flight) (fs : List Flight) (w : Store) (m : Result ServiceError Store)
    (good : Store → Phase) (bad : Phase)
    → IsSound s (record { store = w; flights = fs })
    → In f fs
    → ((w' : Store) → m ≡ ok w' → ServiceStep w w')
    → ((w' : Store) (t : Session)
        → m ≡ ok w'
        → w'.session ≡ some t
        → Advance s t
        → is_provisioning s.status ≡ false
        → good w' ≡ returned
        → is_over t.status ≡ true)
    → (bad ≢ returned)
    → is_revoke f.event ≡ true
    → Went s f fs (ends w (on_session (session_of f.event) w m) good bad)
ended s f fs w m good bad h i step over never r =
    let c = All-In (IsCarried s w.outbox) f fs h.carried i in
    let went : Result ServiceError Store → Type 0 = λ x. Went s f fs (ends w x good bad) in
    let stay = still s f fs w bad h c (λ _ _ p. elim (never p) [ ]) in
    elim (found_or_not (session_of f.event) w.session s h.is_row) [
      | inl e ↦ subst went (sym (on_session-none (session_of f.event) w m e)) stay
      | inr (e, same) ↦ elim (Result-cases m) [
        | inl (x, q) ↦ subst went (sym (on_session-some (session_of f.event) s w m e ∙ q)) stay
        | inr (w', q) ↦
            let g = serves-Follows s w w' fs h (step w' q) in
            subst went (sym (on_session-some (session_of f.event) s w m e ∙ q)) (record {
              row = g.row;
              advances = g.advances;
              sound = g.sound;
              carried =
                  phase-IsCarried g.row w'.outbox f (good w')
                    (All-In (IsCarried g.row w'.outbox) f fs g.sound.carried i)
                    (λ _ _ p.
                      inl
                        (over w' g.row q g.sound.is_row g.advances (c.known r (sym same)).begun p));
            })
      ]
    ]

pub two_ends :
    (a b : Bool) (p : Phase)
    → (a ≡ true) ⊎ (b ≡ true)
    → (if a then p else returned) ≡ returned
    → (p ≢ returned)
    → b ≡ true
two_ends true b p h k never = elim (never k) [ ]
two_ends false b p h k never = ground (arith, h)

pub same_session : (t u : Session) → Path (Option Session) (some t) (some u) → t ≡ u
same_session t u h = cc
