-- ===== src/Label/Safety.antt =====
-- What a binding and an edit of labels may do (internal/label/binding.go).
use access_gateway.Prelude.{
  is_blank, ◌≤◌, ◌≡◌, ◌≢◌, ◌↔◌, inl, inr, refl, false, Option, some, [], ◌∷◌, Text, All, arith,
  Result, ok, err, length, has_prefix, Bool-cases, ◌||◌, not, leb,
}
use access_gateway.Label.Keys.{
  Labels, wrap, prefix_system, cut, split, validate_parts, validate_prefix, validate_dns_labels,
  validate_dns_label, is_alphanumeric_lower, is_dns_char, validate_name, validate_name_chars,
  is_alphanumeric, is_name_char, validate_key, validate_entries, validate, is_system_key,
}
use access_gateway.Label.Selectors.{
  Selector, nothing, matches, empty, validate_count, validate_values, validate_requirement,
  validate_requirements, validate_selector,
}
use access_gateway.Label.Parser.{ParseError, parse}
use access_gateway.Label.Bindings.{
  BindingError, of_parsed, binding_selector, no_system_keys, validate_editable,
}
use access_gateway.Label.KeyGrammar.{IsKey, IsValue, validate_key_iff, validate_value_iff}
use access_gateway.Label.Matching.{nothing-matches}

-- Whatever `Parse` returns has passed `Validate`.
pub parse-validate : (text : Text) (s : Selector) → parse text ≡ ok s → validate_selector s ≡ ok tt
unfolding parse
parse-validate text s h = ground arith

-- A selector that grants nothing by accident: it has a requirement, it is valid, and beside an error
-- it matches no map.
pub record IsSafeBinding (selector : Selector) (error : Option BindingError) : Type 0 where
  pub bounded : selector.requirements ≢ []
  pub valid : validate_selector selector ≡ ok tt
  pub refused :
      (e : BindingError) → error ≡ some e → (labels : Labels) → matches selector labels ≡ false

nothing-valid : validate_selector nothing ≡ ok tt
unfolding nothing validate_selector validate_requirements validate_requirement validate_count
    validate_values wrap validate_key cut validate_parts validate_prefix split validate_dns_labels
    validate_dns_label is_alphanumeric_lower is_dns_char validate_name validate_name_chars
    is_alphanumeric is_name_char
nothing-valid = refl

nothing-IsSafe : (error : Option BindingError) → IsSafeBinding nothing error
unfolding nothing
nothing-IsSafe error = record {
  bounded = cc;
  valid = nothing-valid;
  refused = λ e h labels. nothing-matches labels;
}

of_parsed-IsSafe :
    (r : Result ParseError Selector)
    → ((s : Selector) → r ≡ ok s → validate_selector s ≡ ok tt)
    → IsSafeBinding (of_parsed r).0 (of_parsed r).1
of_parsed-IsSafe (err e) h = nothing-IsSafe _
of_parsed-IsSafe (ok s) h = elim (Bool-cases (empty s)) [
  | inl none_left ↦ rw none_left (nothing-IsSafe _)
  | inr some_left ↦ rw some_left (record {
    bounded = unfold empty in ground arith;
    valid = h s refl;
    refused = λ e impossible labels. cc;
  })
]

-- Whatever the text, `BindingSelector` returns a valid selector with at least one requirement, and a
-- selector that matches no map wherever it returns an error: a caller that drops the error grants
-- nothing.
pub binding_selector-IsSafe :
    (value : Text) → IsSafeBinding (binding_selector value).0 (binding_selector value).1
unfolding binding_selector
binding_selector-IsSafe value =
    elim (Bool-cases (is_blank value || not (leb (length value) 1024))) [
      | inl refused ↦ rw refused (nothing-IsSafe _)
      | inr read ↦ rw read (of_parsed-IsSafe (parse value) (parse-validate value))
    ]

-- Each label has a key and a value of the grammar, and none belongs to the system.
abbrev pub IsEditable : Text × Text → Type 0
IsEditable (k, v) = IsKey k × IsValue v × (has_prefix k prefix_system ≡ false)

IsEditable-entries_iff :
    (l : Labels) → ((validate_entries l ≡ ok tt) × (no_system_keys l ≡ ok tt)) ↔ All IsEditable l
unfolding validate_entries no_system_keys wrap is_system_key
IsEditable-entries_iff [] = (λ _. tt, λ _. (refl, refl))
IsEditable-entries_iff ((k, v) ∷ l) =
    let (key_to, key_from) = validate_key_iff k in
    let (value_to, value_from) = validate_value_iff v in
    let (to, from) = IsEditable-entries_iff l in
    (
      λ h. (
        (key_to (ground arith), value_to (ground arith), ground arith),
        to (ground arith, ground arith),
      ),
      λ h. (ground (arith, key_from h.0.0, value_from h.0.1, from h.1), ground (arith, from h.1)),
    )

-- `ValidateEditable` accepts exactly the maps of at most 64 entries whose keys and values follow the
-- grammar and whose keys do not begin with the prefix of the system's labels.
pub validate_editable_iff :
    (l : Labels) → (validate_editable l ≡ ok tt) ↔ ((length l ≤ 64) × All IsEditable l)
unfolding validate_editable validate
validate_editable_iff l =
    let (to, from) = IsEditable-entries_iff l in
    (λ h. (ground arith, to (ground arith, ground arith)), λ h. ground (arith, from h.1))
