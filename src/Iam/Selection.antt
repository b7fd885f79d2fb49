-- ===== src/Iam/Selection.antt =====
-- What `MatchesRole` (internal/iam/resolve.go) selects, which decides who may approve by role.
use access_gateway.Prelude.{
  ◌≡◌, refl, sym, ap, Bool, true, ◌&&◌, Option, none, some, List, [], ◌∷◌, In, Text, inl, inr, ◌↔◌,
  ◌∙◌, arith, Bool-cases,
}
use access_gateway.Label.Selectors.{Selector, matches}
use access_gateway.Label.Bindings.{BindingError, binding_selector}
use access_gateway.Iam.Roles.{Role}
use access_gateway.Iam.Resolver.{any_role_matches, no_error, matches_role}

-- An enabled role of the list whose labels match.
abbrev pub IsSelected : Selector → List Role → Type 0
IsSelected selector roles =
    (role : Role) × In role roles × (role.enabled ≡ true) × (matches selector role.labels ≡ true)

both : (a b : Bool) → (a && b) ≡ true → (a ≡ true) × (b ≡ true)
both a b h = ground arith

none_of : (o : Option BindingError) → no_error o ≡ true → o ≡ none
none_of none h = refl
none_of (some e) h = cc

selected :
    (selector : Selector) (roles : List Role)
    → any_role_matches selector roles ≡ true
    → IsSelected selector roles
unfolding any_role_matches
selected selector [] h = cc
selected selector (role ∷ roles) h =
    elim (Bool-cases (role.enabled && matches selector role.labels)) [
      | inl e ↦
          let (enabled, labels) = both role.enabled (matches selector role.labels) e in
          (role, inl refl, enabled, labels)
      | inr e ↦
          let (other, member, enabled, labels) = selected selector roles (rw e at h) in
          (other, inr member, enabled, labels)
    ]

found :
    (selector : Selector) (roles : List Role) (role : Role)
    → In role roles
    → role.enabled ≡ true
    → matches selector role.labels ≡ true
    → any_role_matches selector roles ≡ true
unfolding any_role_matches
found selector [] role member h m = elim member [ ]
found selector (r ∷ roles) role (inl e) h m =
    let enabled : r.enabled ≡ true = sym (ap (λ x. x.enabled) e) ∙ h in
    let labels : matches selector r.labels ≡ true =
      sym (ap (λ x. matches selector x.labels) e) ∙ m in
    ground (arith, enabled, labels)
found selector (r ∷ roles) role (inr member) h m =
    ground (arith, found selector roles role member h m)

-- `MatchesRole` answers yes exactly if `BindingSelector` accepts the selector without an error and
-- an enabled role of the list matches it.
pub matches_role_iff :
    (selector : Text) (roles : List Role)
    → (matches_role selector roles ≡ true)
      ↔ (((binding_selector selector).1 ≡ none) × IsSelected (binding_selector selector).0 roles)
unfolding matches_role
matches_role_iff selector roles =
    let parsed = binding_selector selector in
    (
      λ h.
          let (accepted, matched) = both (no_error parsed.1) (any_role_matches parsed.0 roles) h in
          (none_of parsed.1 accepted, selected parsed.0 roles matched),
      λ s.
          let (e, (role, member, enabled, labels)) = s in
          ground (arith, ap no_error e, found parsed.0 roles role member enabled labels),
    )
