-- ===== src/Iam/Grounds.antt =====
-- On what grounds `Resolve` grants a role (internal/iam/resolve.go).
use access_gateway.Prelude.{
  ℕ, ◌≡◌, ◌⊎◌, inl, inr, refl, true, none, some, List, Text, codes, arith, In, get_elem?,
}
use access_gateway.Label.Keys.{Labels}
use access_gateway.Label.Selectors.{Selector, matches}
use access_gateway.Label.Bindings.{binding_selector, matches_binding}
use access_gateway.Iam.Roles.{Role, Binding}
use access_gateway.Iam.Table.{
  IsTable, IsBound, add_roles-IsTable, matching_roles-matches, add_bindings-IsBound,
  add_roles-bindings,
}
use access_gateway.Iam.Calls.{mark_elem, no_flags_elem, granted_elem, Called, visit-Called}
use access_gateway.Iam.Resolver.{
  Resolver, new_empty, add_roles, add_bindings, new_resolver, index_of, no_flags, resolver_resolve,
  resolve,
}

-- The grounds of a grant.
abbrev pub Grounds : Labels → List Binding → List Text → Role → Type 0
Grounds subject bindings explicit role =
    (role.name ≡ codes "user")
    ⊎ In role.name explicit
    ⊎ ((b : Binding) × In b bindings
        × (b.enabled ≡ true)
        × (matches_binding b.user_selector subject ≡ true)
        × (matches_binding b.role_selector role.labels ≡ true))

matches_binding_of :
    (text : Text) (selector : Selector) (labels : Labels)
    → binding_selector text ≡ (selector, none)
    → matches selector labels ≡ true
    → matches_binding text labels ≡ true
unfolding matches_binding
matches_binding_of text selector labels p m = rw p m

module _ (subject : Labels) (roles : List Role) (bindings : List Binding) (explicit : List Text)
    (table r : Resolver) (t : IsTable roles table) (b : IsBound bindings table r) where
  grounds_by_name :
      (name : Text) (i : ℕ) (role : Role)
      → index_of name r.by_name ≡ some i
      → get_elem? table.roles i ≡ some role
      → role.name ≡ name
  grounds_by_name name i role h at =
      let (found, at', e) = t.named name i (rw (← b.by_name) h) in
      let same : found ≡ role = cc in rw (← same) e

  Grounds-of_call :
      (i : ℕ) (role : Role)
      → get_elem? table.roles i ≡ some role
      → Called r subject explicit i
      → Grounds subject bindings explicit role
  Grounds-of_call i role at (inl h) = inl (grounds_by_name (codes "user") i role h at)
  Grounds-of_call i role at (inr (inl (name, member, h))) =
      inr (inl (rw (grounds_by_name name i role h at) member))
  Grounds-of_call i role at (inr (inr (c, member, m, reached))) =
      let k = b.compiled c member in
      let (j, found, e, at', m') =
        matching_roles-matches k.selector 0 table.roles i (rw k.reached at reached) in
      let here : i ≡ j = omega arith in
      let same : found ≡ role = cc in
      inr (
        inr (
          k.origin,
          k.member,
          k.on,
          matches_binding_of k.origin.user_selector c.subject subject k.subject m,
          matches_binding_of k.origin.role_selector k.selector role.labels k.role (rw same at m'),
        ))

  Grounds-of_granted :
      (role : Role)
      → In role (resolver_resolve r subject explicit)
      → In role roles × (role.enabled ≡ true) × Grounds subject bindings explicit role
  unfolding resolver_resolve
  Grounds-of_granted role h =
      let (i, at, on) = granted_elem r.roles _ role h in
      let here : get_elem? table.roles i ≡ some role = rw (← b.roles) at in
      let (listed, enabled) = t.listed i role here in
      (
        listed,
        enabled,
        elim (mark_elem (no_flags r.roles) _ i on) [
          | inl old ↦ absurd (no_flags_elem r.roles i old)
          | inr (s, called) ↦
              Grounds-of_call i role here (visit-Called r subject explicit i s called)
        ],
      )

-- `Resolve` grants a role only if it is listed and enabled, and on one of three grounds: it is the
-- role `user`; the user has it by name; or an enabled binding, both of whose selectors are accepted,
-- matches the user's labels with the one and the role's labels with the other.
pub resolve-Grounds :
    (subject : Labels) (roles : List Role) (bindings : List Binding) (explicit : List Text)
    (role : Role)
    → In role (resolve subject roles bindings explicit)
    → In role roles × (role.enabled ≡ true) × Grounds subject bindings explicit role
unfolding resolve new_resolver index_of
resolve-Grounds subject roles bindings explicit role h =
    Grounds-of_granted subject roles bindings explicit table (add_bindings table bindings)
      (add_roles-IsTable roles new_empty roles (λ x m. m)
        (record { listed = λ i x e. cc; named = λ name i e. cc }))
      (add_bindings-IsBound bindings bindings table table (λ x m. m)
        (record {
          roles = refl;
          by_name = refl;
          compiled = λ c m. absurd (rw (add_roles-bindings new_empty roles) at m);
        }))
      role h
  where
    table : Resolver
    table = add_roles new_empty roles
