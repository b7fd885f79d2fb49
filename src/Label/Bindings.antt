-- ===== src/Label/Bindings.antt =====
-- internal/label/binding.go: the selectors of explicit bindings, and the labels that a user may
-- edit. A result `(selector, error)` is a pair here, since the code returns `Nothing()` beside an
-- error.
use access_gateway.Prelude.{
  Bool, true, false, ◌&&◌, Option, none, some, [], ◌∷◌, Text, leb, ◌||◌, not, is_blank,
  if◌then◌else◌, length, Result, ok, err, ◌>>◌, guard,
}
use access_gateway.Label.Keys.{Labels, LabelError, system_label, validate, is_system_key}
use access_gateway.Label.Selectors.{Selector, nothing, matches, empty}
use access_gateway.Label.Parser.{ParseError, parse}

pub data BindingError : Type 0 where
  empty_or_too_long no_requirement : BindingError
  invalid_selector : ParseError → BindingError

abbrev pub of_parsed : Result ParseError Selector → Selector × Option BindingError
of_parsed (err e) = (nothing, some (invalid_selector e))
of_parsed (ok selector) =
    if empty selector then (nothing, some no_requirement) else (selector, none)

unfoldable pub binding_selector : Text → Selector × Option BindingError
binding_selector value =
    if is_blank value || not (leb (length value) 1024)
    then (nothing, some empty_or_too_long)
    else of_parsed (parse value)

abbrev no_error {ℓ} : {E : Type ℓ} → Option E → Bool
no_error none = true
no_error (some e) = false

unfoldable pub matches_binding : Text → Labels → Bool
matches_binding selector labels =
    let (parsed, error) = binding_selector selector in no_error error && matches parsed labels

-- The loop of `ValidateEditable`.
unfoldable pub no_system_keys : Labels → Result LabelError (Unit {0})
no_system_keys [] = ok tt
no_system_keys ((k, v) ∷ l) = do guard (not (is_system_key k)) (system_label k); no_system_keys l

unfoldable pub validate_editable : Labels → Result LabelError (Unit {0})
validate_editable value = do validate value; no_system_keys value
