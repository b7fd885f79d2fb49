-- ===== src/Label/Parser.antt =====
-- internal/label/selector.go, the second half: the parser of selectors. The state `parser{input,
-- pos}` is the unread input `input[pos:]`; the positions that error texts print are left out.
use access_gateway.Prelude.{
  ℕ, zero, suc, Bool, false, ◌&&◌, ◌||◌, not, List, [], ◌∷◌, ◌++◌, Text, codes, text_eq, ◌==◌,
  if◌then◌else◌, length, is_empty, Result, ok, err, ◌>>=◌,
}
use access_gateway.Label.Keys.{is_alphanumeric, max_requirements}
use access_gateway.Label.Selectors.{
  Operator, op_equals, op_not_equals, op_in, op_not_in, op_exists, op_not_exists, Requirement,
  Selector, SelectorError, validate_selector,
}

pub data ParseError : Type 0 where
  unexpected_end expected_comma expected_identifier expected_equals : ParseError
  expected_operator unknown_operator_word expected_paren expected_comma_or_paren : ParseError
  too_many out_of_fuel : ParseError
  invalid : SelectorError → ParseError

unfoldable pub is_identifier_char : ℕ → Bool
is_identifier_char c = is_alphanumeric c || c == b'-' || c == b'_' || c == b'.' || c == b'/'

unfoldable pub is_space : ℕ → Bool
is_space c = c == b' ' || c == 0x09

unfoldable pub skip_space : Text → Text
skip_space [] = []
skip_space (c ∷ s) = let rest = skip_space s in if is_space c then rest else c ∷ s

abbrev on_word : ℕ → Text × Text → Text × Text
on_word c (word, rest) = (c ∷ word, rest)

-- The loop that `parseIdentifier` and `parseValueToken` share: the word, and what is left.
unfoldable pub parse_value_token : Text → Text × Text
parse_value_token [] = ([], [])
parse_value_token (c ∷ s) =
    let longer = on_word c (parse_value_token s) in
    if is_identifier_char c then longer else ([], c ∷ s)

abbrev word_or_error : Text × Text → Result ParseError (Text × Text)
word_or_error ([], rest) = err expected_identifier
word_or_error (c ∷ word, rest) = ok (c ∷ word, rest)

unfoldable pub parse_identifier : Text → Result ParseError (Text × Text)
parse_identifier s = word_or_error (parse_value_token (skip_space s))

-- The end of one round of the loop of `parseValueSet`, behind a value.
unfoldable pub after_value :
    List Text
    → (Text → Result ParseError (List Text × Text))
    → Text
    → Result ParseError (List Text × Text)
after_value values next [] = err unexpected_end
after_value values next (c ∷ rest) =
    if c == b','
    then next rest
    else if c == b')'
    then ok (values, rest)
    else err expected_comma_or_paren

-- One round of that loop. `next` goes on with the values so far.
unfoldable pub value_round :
    List Text
    → (List Text → Text → Result ParseError (List Text × Text))
    → Text
    → Result ParseError (List Text × Text)
value_round values next [] = err unexpected_end
value_round values next (c ∷ s) =
    let (value, rest) = parse_value_token (c ∷ s) in
    if c == b')'
    then ok (values, s)
    else after_value (values ++ value ∷ []) (next (values ++ value ∷ [])) (skip_space rest)

-- The loop, on fuel: each round takes a byte.
unfoldable pub value_rounds : ℕ → List Text → Text → Result ParseError (List Text × Text)
value_rounds zero values s = err out_of_fuel
value_rounds (suc fuel) values s = value_round values (value_rounds fuel) (skip_space s)

-- `parseValueSet` behind its `skipSpace`.
unfoldable pub open_value_set : Text → Result ParseError (List Text × Text)
open_value_set [] = err expected_paren
open_value_set (c ∷ s) =
    if c == b'(' then value_rounds (suc (length s)) [] s else err expected_paren

unfoldable pub parse_value_set : Text → Result ParseError (List Text × Text)
parse_value_set s = open_value_set (skip_space s)

abbrev pub requirement : Text → Operator → List Text → Requirement
requirement key operator values = record { key = key; operator = operator; values = values }

unfoldable pub parse_single_value : Text → Operator → Text → Result ParseError (Requirement × Text)
parse_single_value key op s =
    let (value, rest) = parse_value_token (skip_space s) in
    ok (requirement key op (value ∷ []), rest)

unfoldable pub operator_of_word : Text → Result ParseError Operator
operator_of_word word =
    if text_eq word (codes "in")
    then ok op_in
    else if text_eq word (codes "notin")
    then ok op_not_in
    else err unknown_operator_word

-- The error of `parseIdentifier`, wrapped.
abbrev word_after_key : Result ParseError (Text × Text) → Result ParseError (Text × Text)
word_after_key (ok found) = ok found
word_after_key (err e) = err expected_operator

unfoldable pub parse_set_operator : Text → Text → Result ParseError (Requirement × Text)
parse_set_operator key s = do
  (word, rest) ← word_after_key (parse_identifier s)
  op ← operator_of_word word
  (values, rest') ← parse_value_set rest
  ok (requirement key op values, rest')

-- `==` is an alias of `=`.
unfoldable pub skip_equals : Text → Text
skip_equals [] = []
skip_equals (c ∷ s) = if c == b'=' then s else c ∷ s

unfoldable pub parse_not_equals : Text → Text → Result ParseError (Requirement × Text)
parse_not_equals key [] = err expected_equals
parse_not_equals key (c ∷ s) =
    if c == b'=' then parse_single_value key op_not_equals s else err expected_equals

-- What follows a key, behind the spaces.
unfoldable pub parse_after_key : Text → Text → Result ParseError (Requirement × Text)
parse_after_key key [] = ok (requirement key op_exists [], [])
parse_after_key key (c ∷ s) =
    if c == b','
    then ok (requirement key op_exists [], c ∷ s)
    else if c == b'='
    then parse_single_value key op_equals (skip_equals s)
    else if c == b'!'
    then parse_not_equals key s
    else parse_set_operator key (c ∷ s)

-- `!key`: a '!' that some byte other than '=' follows.
unfoldable pub starts_not_exists : Text → Bool
starts_not_exists (c ∷ d ∷ s) = c == b'!' && not (d == b'=')
starts_not_exists (c ∷ []) = false
starts_not_exists [] = false

abbrev pub drop_one : Text → Text
drop_one [] = []
drop_one (c ∷ s) = s

-- `parseRequirement` behind its `skipSpace`, with some input left.
unfoldable pub requirement_at : Text → Result ParseError (Requirement × Text)
requirement_at s =
    if starts_not_exists s
    then (do
      (key, rest) ← parse_identifier (drop_one s)
      ok (requirement key op_not_exists [], rest))
    else (do (key, rest) ← parse_identifier s; parse_after_key key (skip_space rest))

unfoldable pub parse_requirement : Text → Result ParseError (Requirement × Text)
parse_requirement s =
    if is_empty (skip_space s) then err unexpected_end else requirement_at (skip_space s)

-- The end of one round of `parseSelector`, behind a requirement: `next` is the next round.
unfoldable pub after_requirement :
    List Requirement
    → (Text → Result ParseError (List Requirement))
    → Text
    → Result ParseError (List Requirement)
after_requirement reqs next [] = ok reqs
after_requirement reqs next (c ∷ s) =
    if c == b','
    then (if is_empty (skip_space s) then err unexpected_end else next (skip_space s))
    else err expected_comma

-- The loop of `parseSelector`. The first argument is `MaxRequirements - len(reqs)`.
unfoldable pub parse_rounds : ℕ → List Requirement → Text → Result ParseError (List Requirement)
parse_rounds zero reqs s = err too_many
parse_rounds (suc left) reqs s = do
  (req, rest) ← parse_requirement s
  after_requirement (reqs ++ req ∷ []) (parse_rounds left (reqs ++ req ∷ [])) (skip_space rest)

unfoldable pub parse_selector : Text → Result ParseError (List Requirement)
parse_selector s =
    if is_empty (skip_space s) then ok [] else parse_rounds max_requirements [] (skip_space s)

abbrev pub accepted : Selector → Result SelectorError (Unit {0}) → Result ParseError Selector
accepted sel (ok u) = ok sel
accepted sel (err e) = err (invalid e)

abbrev pub selector_of : List Requirement → Selector
selector_of reqs = record { requirements = reqs }

unfoldable pub parse : Text → Result ParseError Selector
parse s = do
  reqs ← parse_selector s
  accepted (selector_of reqs) (validate_selector (selector_of reqs))
