-- ===== src/Label/Selectors.antt =====
-- internal/label/selector.go, the first half: requirements, selectors, their matching, their
-- validation and their literal form.
use access_gateway.Prelude.{
  Bool, true, false, ◌&&◌, ◌||◌, not, Option, none, some, List, [], ◌∷◌, ◌++◌, Text, codes, text_eq,
  leb, ◌==◌, length, is_empty, Result, ok, err, ◌>>◌, guard,
}
use access_gateway.Label.Keys.{
  KeyError, validate_key, validate_value, wrap, Labels, lookup, max_requirements,
}

-- `Operator` is an int: `op_other` stands for the values that no constant names.
pub data Operator : Type 0 where
  op_equals op_not_equals op_in op_not_in op_exists op_not_exists op_other : Operator

pub record Requirement : Type 0 where
  pub key : Text
  pub operator : Operator
  pub values : List Text

pub record Selector : Type 0 where
  pub requirements : List Requirement

unfoldable pub contains_value : List Text → Text → Bool
contains_value [] target = false
contains_value (v ∷ values) target = text_eq v target || contains_value values target

unfoldable pub first_value : List Text → Text
first_value [] = []
first_value (v ∷ values) = v

-- `len(values) == 1 && value == values[0]`
unfoldable pub is_only : List Text → Text → Bool
is_only values value = length values == 1 && text_eq value (first_value values)

-- The switch of `Requirement.Matches`, on the result of `labels[r.Key]`.
unfoldable pub matches_value : Operator → List Text → Option Text → Bool
matches_value op_equals values none = false
matches_value op_equals values (some value) = is_only values value
matches_value op_not_equals values none = true
matches_value op_not_equals values (some value) =
    not (length values == 1) || not (text_eq value (first_value values))
matches_value op_in values none = false
matches_value op_in values (some value) = contains_value values value
matches_value op_not_in values none = true
matches_value op_not_in values (some value) = not (contains_value values value)
matches_value op_exists values none = false
matches_value op_exists values (some value) = true
matches_value op_not_exists values none = true
matches_value op_not_exists values (some value) = false
matches_value op_other values found = false

unfoldable pub requirement_matches : Requirement → Labels → Bool
requirement_matches r labels = matches_value r.operator r.values (lookup r.key labels)

-- The loop of `Selector.Matches`.
unfoldable pub all_match : List Requirement → Labels → Bool
all_match [] labels = true
all_match (r ∷ reqs) labels = requirement_matches r labels && all_match reqs labels

unfoldable pub matches : Selector → Labels → Bool
matches s labels = all_match s.requirements labels

unfoldable pub everything : Selector
everything = record { requirements = [] }

abbrev none_key : Text
none_key = codes "access-gateway.io/none"

unfoldable pub nothing : Selector
nothing = record {
  requirements =
      record { key = none_key; operator = op_exists; values = [] }
      ∷ record { key = none_key; operator = op_not_exists; values = [] }
      ∷ [];
}

unfoldable pub empty : Selector → Bool
empty s = is_empty s.requirements

-- `strings.Join(parts, ",")`
unfoldable pub join_comma : List Text → Text
join_comma [] = []
join_comma (v ∷ []) = v
join_comma (v ∷ w ∷ values) = v ++ b',' ∷ join_comma (w ∷ values)

unfoldable pub operator_string : Operator → Text
operator_string op_equals = codes "="
operator_string op_not_equals = codes "!="
operator_string op_in = codes "in"
operator_string op_not_in = codes "notin"
operator_string op_exists = []
operator_string op_not_exists = codes "!"
operator_string op_other = codes "?"

-- The switch of `Requirement.String`.
unfoldable pub requirement_text : Operator → Text → List Text → Text
requirement_text op_exists key values = key
requirement_text op_not_exists key values = b'!' ∷ key
requirement_text op_equals key values = key ++ b'=' ∷ first_value values
requirement_text op_not_equals key values = key ++ (codes "!=" ++ first_value values)
requirement_text op_in key values = key ++ (codes " in (" ++ (join_comma values ++ codes ")"))
requirement_text op_not_in key values =
    key ++ (codes " notin (" ++ (join_comma values ++ codes ")"))
requirement_text op_other key values = []

unfoldable pub requirement_string : Requirement → Text
requirement_string r = requirement_text r.operator r.key r.values

-- The loop of `Selector.String`.
unfoldable pub requirement_strings : List Requirement → List Text
requirement_strings [] = []
requirement_strings (r ∷ reqs) = requirement_string r ∷ requirement_strings reqs

unfoldable pub selector_string : Selector → Text
selector_string s = join_comma (requirement_strings s.requirements)

pub data SelectorError : Type 0 where
  invalid_key : KeyError → SelectorError
  invalid_value : KeyError → SelectorError
  must_not_have_values requires_one_value requires_values unknown_operator : SelectorError
  too_many_requirements : SelectorError

-- The switch of `Requirement.Validate`.
unfoldable pub validate_count : Operator → List Text → Result SelectorError (Unit {0})
validate_count op_exists values = guard (length values == 0) must_not_have_values
validate_count op_not_exists values = guard (length values == 0) must_not_have_values
validate_count op_equals values = guard (length values == 1) requires_one_value
validate_count op_not_equals values = guard (length values == 1) requires_one_value
validate_count op_in values = guard (not (length values == 0)) requires_values
validate_count op_not_in values = guard (not (length values == 0)) requires_values
validate_count op_other values = err unknown_operator

-- The loop of `Requirement.Validate`.
unfoldable pub validate_values : List Text → Result SelectorError (Unit {0})
validate_values [] = ok tt
validate_values (v ∷ values) = do wrap invalid_value (validate_value v); validate_values values

unfoldable pub validate_requirement : Requirement → Result SelectorError (Unit {0})
validate_requirement r = do
  wrap invalid_key (validate_key r.key)
  validate_count r.operator r.values
  validate_values r.values

-- The loop of `Selector.Validate`.
unfoldable pub validate_requirements : List Requirement → Result SelectorError (Unit {0})
validate_requirements [] = ok tt
validate_requirements (r ∷ reqs) = do validate_requirement r; validate_requirements reqs

unfoldable pub validate_selector : Selector → Result SelectorError (Unit {0})
validate_selector s = do
  guard (leb (length s.requirements) max_requirements) too_many_requirements
  validate_requirements s.requirements

abbrev checked : Selector → Result SelectorError (Unit {0}) → Result SelectorError Selector
checked s (ok u) = ok s
checked s (err e) = err e

unfoldable pub new_selector : List Requirement → Result SelectorError Selector
new_selector reqs =
    let s : Selector = record { requirements = reqs } in checked s (validate_selector s)
