-- ===== src/Label/Fuel.antt =====
-- The parser of selectors ends: its fuel is never used up (internal/label/selector.go).
use access_gateway.Prelude.{
  ℕ, zero, suc, ◌≤◌, ◌<◌, ◌≢◌, Bool-cases, inl, inr, List, [], ◌∷◌, Text, ◌==◌, arith, Result, err,
  length,
}
use access_gateway.Label.Selectors.{Requirement}
use access_gateway.Label.Parser.{
  ParseError, out_of_fuel, skip_space, parse_value_token, after_value, value_round, value_rounds,
  open_value_set, parse_value_set, parse_identifier, parse_set_operator, operator_of_word,
  parse_after_key, parse_single_value, parse_not_equals, requirement_at, parse_requirement,
  parse_rounds, after_requirement, parse_selector, parse,
}

length-skip_space : (s : Text) → length (skip_space s) ≤ length s
unfolding skip_space
length-skip_space [] = omega arith
length-skip_space (c ∷ s) = ground (arith, length-skip_space s)

length-parse_value_token : (s : Text) → length (parse_value_token s).1 ≤ length s
unfolding parse_value_token
length-parse_value_token [] = omega arith
length-parse_value_token (c ∷ s) = ground (arith, length-parse_value_token s)

-- Where every shorter input leaves fuel, so does the end of a round.
after_value-fuel :
    (values : List Text) (next : Text → Result ParseError (List Text × Text)) (s : Text)
    → ((rest : Text) → length rest < length s → next rest ≢ err out_of_fuel)
    → after_value values next s ≢ err out_of_fuel
unfolding after_value
after_value-fuel values next [] h = cc
after_value-fuel values next (c ∷ rest) h = ground (arith, h rest)

value_round-fuel :
    (values : List Text) (next : List Text → Text → Result ParseError (List Text × Text)) (s : Text)
    → ((vs : List Text) (rest : Text) → length rest < length s → next vs rest ≢ err out_of_fuel)
    → value_round values next s ≢ err out_of_fuel
unfolding value_round
value_round-fuel values next [] h = cc
value_round-fuel values next (c ∷ s) h = elim (Bool-cases (c == b')')) [
  | inl close ↦ rw close (cc)
  | inr more ↦ rw more (
      after_value-fuel _ _ _ (λ rest short. h _ rest (
        omega (
          arith,
          length-parse_value_token (c ∷ s),
          length-skip_space (parse_value_token (c ∷ s)).1,
        ))))
]

pub value_rounds-fuel :
    (fuel : ℕ) (values : List Text) (s : Text)
    → length s < fuel
    → value_rounds fuel values s ≢ err out_of_fuel
unfolding value_rounds
value_rounds-fuel zero values s h = absurd (omega arith)
value_rounds-fuel (suc fuel) values s h =
    value_round-fuel values (value_rounds fuel) (skip_space s)
      (λ vs rest short. value_rounds-fuel fuel vs rest (omega (arith, length-skip_space s)))

parse_value_set-fuel : (s : Text) → parse_value_set s ≢ err out_of_fuel
unfolding parse_value_set
parse_value_set-fuel s = opened (skip_space s)
  where
    opened : (t : Text) → open_value_set t ≢ err out_of_fuel
    opened [] = unfold open_value_set in cc
    opened (c ∷ t) =
        unfold open_value_set in ground (arith, value_rounds-fuel (suc (length t)) [] t)

parse_identifier-fuel : (s : Text) → parse_identifier s ≢ err out_of_fuel
unfolding parse_identifier
parse_identifier-fuel s = ground arith

parse_set_operator-fuel : (key s : Text) → parse_set_operator key s ≢ err out_of_fuel
unfolding parse_set_operator operator_of_word
parse_set_operator-fuel key s = grind (arith, parse_value_set-fuel)

parse_after_key-fuel : (key s : Text) → parse_after_key key s ≢ err out_of_fuel
unfolding parse_after_key parse_single_value parse_not_equals
parse_after_key-fuel key [] = cc
parse_after_key-fuel key (c ∷ s) = ground (arith, parse_set_operator-fuel key (c ∷ s))

requirement_at-fuel : (s : Text) → requirement_at s ≢ err out_of_fuel
unfolding requirement_at
requirement_at-fuel s = grind (arith, parse_identifier-fuel, parse_after_key-fuel)

parse_requirement-fuel : (s : Text) → parse_requirement s ≢ err out_of_fuel
unfolding parse_requirement
parse_requirement-fuel s = ground (arith, requirement_at-fuel (skip_space s))

parse_rounds-fuel :
    (left : ℕ) (reqs : List Requirement) (s : Text) → parse_rounds left reqs s ≢ err out_of_fuel
unfolding parse_rounds after_requirement
parse_rounds-fuel zero reqs s = cc
parse_rounds-fuel (suc left) reqs s = grind (arith, parse_requirement-fuel, parse_rounds-fuel left)

-- `Parse` ends on every text: the fuel of the loop over a set of values is never used up.
pub parse-ends : (s : Text) → parse s ≢ err out_of_fuel
unfolding parse parse_selector
parse-ends s = grind (arith, parse_rounds-fuel)
