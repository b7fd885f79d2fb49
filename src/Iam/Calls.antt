-- ===== src/Iam/Calls.antt =====
-- Which roles the calls of `visit` mark (internal/iam/resolve.go).
use access_gateway.Prelude.{
  ℕ, zero, suc, ◌≡◌, ◌≢◌, ◌⊎◌, inl, inr, refl, ap, Bool, true, false, Option, none, some, List, [],
  ◌∷◌, Text, codes, if◌then◌else◌, In, In-append, get_elem?,
}
use access_gateway.Label.Keys.{Labels}
use access_gateway.Label.Selectors.{matches}
use access_gateway.Iam.Roles.{Role}
use access_gateway.Iam.Resolver.{
  GrantSource, CompiledBinding, Resolver, index_of, call, baseline, direct_calls, role_calls,
  binding_calls, visit, set_true, mark, no_flags, granted_roles, direct_grants,
}

set_true_elem :
    (flags : List Bool) (j i : ℕ)
    → get_elem? (set_true flags j) i ≡ some true
    → (get_elem? flags i ≡ some true) ⊎ (i ≡ j)
unfolding set_true
set_true_elem [] j i h = inl h
set_true_elem (b ∷ flags) zero zero h = inr refl
set_true_elem (b ∷ flags) zero (suc i) h = inl h
set_true_elem (b ∷ flags) (suc j) zero h = inl h
set_true_elem (b ∷ flags) (suc j) (suc i) h = elim (set_true_elem flags j i h) [
  | inl old ↦ inl old
  | inr new ↦ inr (ap suc new)
]

pub mark_elem :
    (flags : List Bool) (calls : List (ℕ × GrantSource)) (i : ℕ)
    → get_elem? (mark flags calls) i ≡ some true
    → (get_elem? flags i ≡ some true) ⊎ ((s : GrantSource) × In (i, s) calls)
unfolding mark
mark_elem flags [] i h = inl h
mark_elem flags ((j, s) ∷ calls) i h = elim (mark_elem (set_true flags j) calls i h) [
  | inr (t, later) ↦ inr (t, inr later)
  | inl now ↦ elim (set_true_elem flags j i now) [
    | inl old ↦ inl old
    | inr new ↦ inr (s, inl (rw new))
  ]
]

pub no_flags_elem : (roles : List Role) (i : ℕ) → get_elem? (no_flags roles) i ≢ some true
unfolding no_flags
no_flags_elem [] i h = cc
no_flags_elem (role ∷ roles) zero h = cc
no_flags_elem (role ∷ roles) (suc i) h = no_flags_elem roles i h

pub granted_elem :
    (roles : List Role) (flags : List Bool) (role : Role)
    → In role (granted_roles roles flags)
    → (i : ℕ) × (get_elem? roles i ≡ some role) × (get_elem? flags i ≡ some true)
unfolding granted_roles
granted_elem [] flags role h = absurd h
granted_elem (r ∷ roles) [] role h = absurd h
granted_elem (r ∷ roles) (true ∷ flags) role (inl e) = (0, rw e, refl)
granted_elem (r ∷ roles) (true ∷ flags) role (inr h) =
    let (i, at, on) = granted_elem roles flags role h in (suc i, at, on)
granted_elem (r ∷ roles) (false ∷ flags) role h =
    let (i, at, on) = granted_elem roles flags role h in (suc i, at, on)

-- Why `visit` calls `grant` at an index.
abbrev pub Called : Resolver → Labels → List Text → ℕ → Type 0
Called r subject explicit i =
    (index_of (codes "user") r.by_name ≡ some i)
    ⊎ ((name : Text) × In name explicit × (index_of name r.by_name ≡ some i))
    ⊎ ((c : CompiledBinding) × In c r.bindings × (matches c.subject subject ≡ true) × In i c.roles)

call_index :
    (source s : GrantSource) (found : Option ℕ) (i : ℕ)
    → In (i, s) (call source found)
    → found ≡ some i
call_index source s none i h = absurd h
call_index source s (some j) i (inl e) = cc
call_index source s (some j) i (inr h) = absurd h

direct_calls_index :
    (by_name : List (Text × ℕ)) (explicit : List Text) (i : ℕ) (s : GrantSource)
    → In (i, s) (direct_calls by_name (direct_grants explicit))
    → (name : Text) × In name explicit × (index_of name by_name ≡ some i)
unfolding direct_calls direct_grants
direct_calls_index by_name [] i s h = absurd h
direct_calls_index by_name (name ∷ explicit) i s h =
    elim (In-append (i, s) (call _ (index_of name by_name)) _ h) [
      | inl now ↦ (name, inl refl, call_index _ s _ i now)
      | inr later ↦
          let (n, member, at) = direct_calls_index by_name explicit i s later in (n, inr member, at)
    ]

role_calls_index :
    (source s : GrantSource) (indices : List ℕ) (i : ℕ)
    → In (i, s) (role_calls source indices)
    → In i indices
unfolding role_calls
role_calls_index source s [] i h = absurd h
role_calls_index source s (j ∷ indices) i (inl e) = inl (cc)
role_calls_index source s (j ∷ indices) i (inr h) = inr (role_calls_index source s indices i h)

binding_calls_index :
    (subject : Labels) (bindings : List CompiledBinding) (i : ℕ) (s : GrantSource)
    → In (i, s) (binding_calls subject bindings)
    → (c : CompiledBinding) × In c bindings × (matches c.subject subject ≡ true) × In i c.roles
unfolding binding_calls
binding_calls_index subject [] i s h = absurd h
binding_calls_index subject (c ∷ bindings) i s h =
    elim (In-append (i, s) (if matches c.subject subject then role_calls c.source c.roles else []) _
      h) [
        | inl now ↦ here (matches c.subject subject) refl now
        | inr later ↦
            let (d, member, m, at) = binding_calls_index subject bindings i s later in
            (d, inr member, m, at)
      ]
  where
    here :
        (b : Bool)
        → matches c.subject subject ≡ b
        → In (i, s) (if b then role_calls c.source c.roles else [])
        → (d : CompiledBinding) × In d (c ∷ bindings)
          × (matches d.subject subject ≡ true)
          × In i d.roles
    here true m h = (c, inl refl, m, role_calls_index c.source s c.roles i h)
    here false m h = absurd h

pub visit-Called :
    (r : Resolver) (subject : Labels) (explicit : List Text) (i : ℕ) (s : GrantSource)
    → In (i, s) (visit r subject (direct_grants explicit))
    → Called r subject explicit i
unfolding visit
visit-Called r subject explicit i s h =
    elim (In-append (i, s) (call baseline (index_of (codes "user") r.by_name)) _ h) [
      | inl base ↦ inl (call_index _ s _ i base)
      | inr more ↦
          elim (In-append (i, s) (direct_calls r.by_name (direct_grants explicit)) _ more) [
            | inl named ↦ inr (inl (direct_calls_index r.by_name explicit i s named))
            | inr bound ↦ inr (inr (binding_calls_index subject r.bindings i s bound))
          ]
    ]
