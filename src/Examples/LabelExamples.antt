-- ===== src/Examples/LabelExamples.antt =====
-- Labels and selectors (internal/label) at concrete inputs.
use access_gateway.Prelude.{◌≤◌, ◌≡◌, ◌≢◌, ◌↔◌, refl, true, [], ◌∷◌, codes, ok, err, All, length}
use access_gateway.Label.Keys.{
  Labels, validate_key, validate_value, cut, validate_parts, validate_prefix, split,
  validate_dns_labels, validate_dns_label, is_alphanumeric_lower, is_dns_char, validate_name,
  validate_name_chars, is_alphanumeric, is_name_char, wrap,
}
use access_gateway.Label.Selectors.{
  op_in, Selector, matches, selector_string, validate_selector, validate_requirements,
  validate_requirement, validate_count, validate_values,
}
use access_gateway.Label.Parser.{parse, out_of_fuel}
use access_gateway.Label.Bindings.{binding_selector, validate_editable}
use access_gateway.Label.KeyGrammar.{IsKey, IsValue, validate_key_iff, validate_value_iff}
use access_gateway.Label.RoundTrip.{parse-selector_string}
use access_gateway.Label.RoundTrip.Terms.{IsReadableTerm}
use access_gateway.Label.Matching.{Satisfies, matches_iff}
use access_gateway.Label.Safety.{
  IsEditable, IsSafeBinding, binding_selector-IsSafe, validate_editable_iff,
}
use access_gateway.Label.Fuel.{parse-ends}

abbrev labels : Labels
labels = (codes "team", codes "sre") ∷ (codes "env", codes "prod") ∷ []

abbrev by_team : Selector
by_team = record {
  requirements =
      record { key = codes "team"; operator = op_in; values = codes "sre" ∷ codes "db" ∷ [] } ∷ [];
}

by_team-valid : validate_selector by_team ≡ ok tt
unfolding validate_selector validate_requirements validate_requirement validate_count
    validate_values wrap validate_key validate_value cut validate_parts validate_prefix split
    validate_dns_labels validate_dns_label is_alphanumeric_lower is_dns_char validate_name
    validate_name_chars is_alphanumeric is_name_char
by_team-valid = refl

by_team-readable : All IsReadableTerm by_team.requirements
by_team-readable = (λ e. cc, tt)

validate_key_iff_example :
    (validate_key (codes "ops.io/team") ≡ ok tt) ↔ IsKey (codes "ops.io/team")
validate_key_iff_example = validate_key_iff (codes "ops.io/team")

validate_value_iff_example : (validate_value (codes "v1.2") ≡ ok tt) ↔ IsValue (codes "v1.2")
validate_value_iff_example = validate_value_iff (codes "v1.2")

parse-selector_string_example : parse (selector_string by_team) ≡ ok by_team
parse-selector_string_example = parse-selector_string by_team by_team-valid by_team-readable

matches_iff_example : (matches by_team labels ≡ true) ↔ All (Satisfies labels) by_team.requirements
matches_iff_example = matches_iff by_team labels

binding_selector-IsSafe_example :
    IsSafeBinding
      (binding_selector (codes "team in (sre,db)")).0
      (binding_selector (codes "team in (sre,db)")).1
binding_selector-IsSafe_example = binding_selector-IsSafe (codes "team in (sre,db)")

validate_editable_iff_example :
    (validate_editable labels ≡ ok tt) ↔ ((length labels ≤ 64) × All IsEditable labels)
validate_editable_iff_example = validate_editable_iff labels

parse-ends_example : parse (codes "team in (sre,,") ≢ err out_of_fuel
parse-ends_example = parse-ends (codes "team in (sre,,")
