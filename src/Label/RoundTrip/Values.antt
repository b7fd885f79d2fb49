-- ===== src/Label/RoundTrip/Values.antt =====
-- Reading back a printed set of values, `(a,b,c)` (internal/label/selector.go).
use access_gateway.Prelude.{
  ℕ, zero, suc, ◌+◌, ◌≤◌, ◌≡◌, ◌≢◌, refl, ap, true, false, ◌∙◌, List, [], ◌∷◌, ◌++◌, append_assoc,
  Text, ◌==◌, All, arith, Result, ok, length, length-append,
}
use access_gateway.Label.Keys.{is_alphanumeric, wrap}
use access_gateway.Label.Selectors.{join_comma, validate_values}
use access_gateway.Label.Parser.{
  ParseError, is_identifier_char, is_space, skip_space, parse_value_token, value_round,
  value_rounds, after_value, open_value_set, parse_value_set,
}
use access_gateway.Label.Reading.{
  IsWord, skip_space_none, parse_value_token-append, identifier-not-space, value-IsWord,
}

-- A set of values whose last one is not empty: the parser drops an empty value before ')'.
abbrev pub IsReadable : List Text → Type 0
IsReadable [] = ⊥
IsReadable (v ∷ []) = v ≢ []
IsReadable (v ∷ w ∷ values) = IsReadable (w ∷ values)

pub values-IsWord : (values : List Text) → validate_values values ≡ ok tt → All IsWord values
unfolding validate_values wrap
values-IsWord [] h = tt
values-IsWord (v ∷ values) h = (value-IsWord v (ground arith), values-IsWord values (ground arith))

not_close : (c : ℕ) → is_identifier_char c ≡ true → (c == b')') ≡ false
unfolding is_identifier_char is_alphanumeric
not_close c h = ground arith

module _ (values : List Text) (next : List Text → Text → Result ParseError (List Text × Text)) where
  value_round_word :
      (c d : ℕ) (w rest : Text)
      → IsWord (c ∷ w)
      → is_identifier_char d ≡ false
      → is_space d ≡ false
      → value_round values next (skip_space (c ∷ w ++ d ∷ rest))
        ≡ after_value (values ++ (c ∷ w) ∷ []) (next (values ++ (c ∷ w) ∷ [])) (d ∷ rest)
  unfolding value_round
  value_round_word c d w rest h stops space =
      rw (skip_space_none (c ∷ w ++ d ∷ rest) (identifier-not-space c h.0)) (
        rw (parse_value_token-append (c ∷ w) (d ∷ rest) h stops)
          (rw (not_close c h.0, skip_space_none (d ∷ rest) space)))

  -- A round reads a value up to the ',' or ')' behind it, an empty one up to a ','.
  value_round_comma :
      (w rest : Text)
      → IsWord w
      → value_round values next (skip_space (w ++ b',' ∷ rest)) ≡ next (values ++ w ∷ []) rest
  unfolding value_round after_value is_identifier_char is_alphanumeric is_space skip_space
      parse_value_token
  value_round_comma [] rest h = refl
  value_round_comma (c ∷ w) rest h = value_round_word c b',' w rest h refl refl

  value_round_close :
      (w rest : Text)
      → w ≢ []
      → IsWord w
      → value_round values next (skip_space (w ++ b')' ∷ rest)) ≡ ok (values ++ w ∷ [], rest)
  unfolding after_value is_identifier_char is_alphanumeric is_space
  value_round_close [] rest ne h = absurd (ne refl)
  value_round_close (c ∷ w) rest ne h = value_round_word c b')' w rest h refl refl

value_rounds-join :
    (fuel : ℕ) (values ws : List Text) (rest : Text)
    → length ws ≤ fuel
    → IsReadable ws
    → All IsWord ws
    → value_rounds fuel values (join_comma ws ++ b')' ∷ rest) ≡ ok (values ++ ws, rest)
unfolding value_rounds join_comma
value_rounds-join fuel values [] rest enough readable h = absurd readable
value_rounds-join zero values (w ∷ ws) rest enough readable h = absurd (omega arith)
value_rounds-join (suc fuel) values (w ∷ []) rest enough readable h =
    value_round_close values (value_rounds fuel) w rest readable h.0
value_rounds-join (suc fuel) values (w ∷ v ∷ ws) rest enough readable h = rw append_assoc (
    rw (value_round_comma values (value_rounds fuel) w (join_comma (v ∷ ws) ++ b')' ∷ rest) h.0) (
      value_rounds-join fuel (values ++ w ∷ []) (v ∷ ws) rest (omega arith) readable h.1
      ∙ ap (λ xs. ok (xs, rest)) (append_assoc values (w ∷ []) (v ∷ ws))))

-- A byte at least stands for each value, or for the comma behind it.
length-join_comma : (ws : List Text) → length ws ≤ length (join_comma ws) + 1
unfolding join_comma
length-join_comma [] = omega arith
length-join_comma (w ∷ []) = omega arith
length-join_comma (w ∷ v ∷ ws) =
    omega (arith, length-join_comma (v ∷ ws), length-append w (b',' ∷ join_comma (v ∷ ws)))

-- A printed set is read back, and the fuel is enough.
pub parse_value_set-join :
    (ws : List Text) (rest : Text)
    → IsReadable ws
    → All IsWord ws
    → parse_value_set (b' ' ∷ b'(' ∷ (join_comma ws ++ b')' ∷ rest)) ≡ ok (ws, rest)
unfolding parse_value_set open_value_set skip_space is_space
parse_value_set-join ws rest readable h =
    let text : Text = join_comma ws ++ b')' ∷ rest in
    value_rounds-join (suc (length text)) [] ws rest
      (omega (arith, length-join_comma ws, length-append (join_comma ws) (b')' ∷ rest))) readable h
