-- ===== src/Examples/RoleExamples.antt =====
-- Roles and bindings (internal/iam) at concrete inputs.
use access_gateway.Prelude.{
  is_blank, ◌≡◌, ◌↔◌, none, refl, true, inl, inr, List, [], ◌∷◌, map, In, codes, text_eq,
}
use access_gateway.Label.Keys.{
  Labels, is_alphanumeric_lower, is_alphanumeric, is_name_char, validate_name_chars, is_dns_char,
  validate_dns_label, split, validate_dns_labels, validate_prefix, cut, validate_name,
  validate_parts, validate_key, validate_value, lookup, wrap,
}
use access_gateway.Label.Selectors.{
  first_value, is_only, matches_value, requirement_matches, all_match, matches, empty,
  validate_count, validate_values, validate_requirement, validate_requirements, validate_selector,
}
use access_gateway.Label.Parser.{
  is_identifier_char, is_space, skip_space, parse_value_token, parse_identifier, parse_single_value,
  skip_equals, parse_after_key, starts_not_exists, requirement_at, parse_requirement,
  after_requirement, parse_rounds, parse_selector, parse,
}
use access_gateway.Label.Bindings.{binding_selector}
use access_gateway.Iam.Roles.{Role, Binding}
use access_gateway.Iam.Resolver.{
  DirectGrant, no_source, add_role, add_roles, matching_roles, keep_binding, compile_binding,
  add_binding, add_bindings, new_resolver, index_of, direct_calls, role_calls, binding_calls, visit,
  set_true, mark, no_flags, granted_roles, direct_grants, resolver_resolve, explain, resolve,
  matches_role,
}
use access_gateway.Iam.Selection.{IsSelected, matches_role_iff}
use access_gateway.Iam.Agreement.{explain-resolve}
use access_gateway.Iam.Grounds.{Grounds, resolve-Grounds}

abbrev user : Role
user = record {
  name = codes "user";
  description = [];
  permissions = [];
  labels = [];
  enabled = true;
  built_in = true;
  revision = 1;
  created_at = 1;
  updated_at = 1;
}

abbrev reviewer : Role
reviewer = record user { name = codes "reviewer"; labels = (codes "kind", codes "review") ∷ [] }

abbrev roles : List Role
roles = user ∷ reviewer ∷ []

abbrev bindings : List Binding
bindings =
    record {
      id = codes "b1";
      name = codes "sre";
      user_selector = codes "team=sre";
      role_selector = codes "kind=review";
      enabled = true;
      revision = 1;
      created_at = 1;
      updated_at = 1;
    }
    ∷ []

abbrev subject : Labels
subject = (codes "team", codes "sre") ∷ []

abbrev by_name : List DirectGrant
by_name = record { role = codes "reviewer"; source = no_source } ∷ []

explain-resolve_example :
    map (λ g. g.role) (explain (new_resolver roles bindings) subject by_name)
    ≡ resolver_resolve (new_resolver roles bindings) subject (map (λ d. d.role) by_name)
explain-resolve_example = explain-resolve (new_resolver roles bindings) subject by_name

reviewer-granted : In reviewer (resolve subject roles bindings [])
unfolding direct_calls add_binding add_bindings add_role add_roles after_requirement all_match
    binding_calls binding_selector compile_binding cut direct_grants empty first_value granted_roles
    index_of is_alphanumeric is_alphanumeric_lower is_blank is_dns_char is_identifier_char
    is_name_char is_only is_space keep_binding lookup mark matches matches_value matching_roles
    new_resolver no_flags parse parse_after_key parse_identifier parse_requirement parse_rounds
    parse_selector parse_single_value parse_value_token requirement_at requirement_matches resolve
    resolver_resolve role_calls set_true skip_equals skip_space split starts_not_exists text_eq
    validate_count validate_dns_label validate_dns_labels validate_key validate_name
    validate_name_chars validate_parts validate_prefix validate_requirement validate_requirements
    validate_selector validate_value validate_values visit wrap
reviewer-granted = inr (inl refl)

resolve-Grounds_example :
    In reviewer roles × (reviewer.enabled ≡ true) × Grounds subject bindings [] reviewer
resolve-Grounds_example = resolve-Grounds subject roles bindings [] reviewer reviewer-granted

matches_role_iff_example : (matches_role (codes "kind=review") roles ≡ true) ↔ (
    ((binding_selector (codes "kind=review")).1 ≡ none)
    × IsSelected (binding_selector (codes "kind=review")).0 roles)
matches_role_iff_example = matches_role_iff (codes "kind=review") roles
