-- ===== src/Label/Reading.antt =====
-- How the parser of selectors reads the parts of a printed selector (internal/label/selector.go).
use access_gateway.Prelude.{
  ℕ, ◌≡◌, ◌≢◌, refl, true, false, List, [], ◌∷◌, ◌++◌, Text, All, All-append, arith, ok,
}
use access_gateway.Label.Keys.{
  is_alphanumeric, is_alphanumeric_lower, is_name_char, is_dns_char, validate_key, validate_value,
}
use access_gateway.Label.KeyGrammar.{
  IsKey, IsValue, IsDnsLabel, validate_key_iff, validate_value_iff,
}
use access_gateway.Label.KeyGrammar.Splitting.{join_with}
use access_gateway.Label.Parser.{
  is_identifier_char, is_space, skip_space, parse_value_token, parse_identifier,
}

-- Every byte is one of an identifier.
abbrev pub IsWord : Text → Type 0
IsWord = All (λ c. is_identifier_char c ≡ true)

-- A word that stands in front of the text ends there.
abbrev pub Stops : Text → Type 0
Stops [] = Unit
Stops (c ∷ s) = is_identifier_char c ≡ false

-- No space stands at the front.
abbrev pub NoSpace : Text → Type 0
NoSpace [] = Unit
NoSpace (c ∷ s) = is_space c ≡ false

pub skip_space_none : (s : Text) → NoSpace s → skip_space s ≡ s
unfolding skip_space
skip_space_none [] h = refl
skip_space_none (c ∷ s) h = rw h

pub identifier-not-space : (c : ℕ) → is_identifier_char c ≡ true → is_space c ≡ false
unfolding is_identifier_char is_space is_alphanumeric
identifier-not-space c h = ground arith

pub parse_value_token-append :
    (w rest : Text) → IsWord w → Stops rest → parse_value_token (w ++ rest) ≡ (w, rest)
unfolding parse_value_token
parse_value_token-append [] [] hw hr = refl
parse_value_token-append [] (c ∷ rest) hw hr = rw hr
parse_value_token-append (c ∷ w) rest hw hr = rw (hw.0, parse_value_token-append w rest hw.1 hr)

pub parse_identifier-append :
    (w rest : Text) → w ≢ [] → IsWord w → Stops rest → parse_identifier (w ++ rest) ≡ ok (w, rest)
unfolding parse_identifier
parse_identifier-append [] rest ne hw hr = absurd (ne refl)
parse_identifier-append (c ∷ w) rest ne hw hr =
    rw (skip_space_none (c ∷ w ++ rest) (identifier-not-space c hw.0))
      (rw (parse_value_token-append (c ∷ w) rest hw hr))

name-IsWord : (s : Text) → All (λ c. is_name_char c ≡ true) s → IsWord s
unfolding is_name_char is_identifier_char
name-IsWord [] h = tt
name-IsWord (c ∷ s) h = (ground arith, name-IsWord s h.1)

label-IsWord : (s : Text) → All (λ c. is_dns_char c ≡ true) s → IsWord s
unfolding is_dns_char is_alphanumeric_lower is_identifier_char is_alphanumeric
label-IsWord [] h = tt
label-IsWord (c ∷ s) h = (ground arith, label-IsWord s h.1)

dns_name-IsWord : (parts : List Text) → All IsDnsLabel parts → IsWord (join_with b'.' parts)
unfolding is_identifier_char
dns_name-IsWord [] h = tt
dns_name-IsWord (part ∷ []) h = label-IsWord part h.0.chars
dns_name-IsWord (part ∷ other ∷ parts) h =
    All-append (λ c. is_identifier_char c ≡ true) part (b'.' ∷ join_with b'.' (other ∷ parts))
      (label-IsWord part h.0.chars) (ground arith, dns_name-IsWord (other ∷ parts) h.1)

IsKey-IsWord : (key : Text) → IsKey key → IsWord key
unfolding is_identifier_char
IsKey-IsWord key (IsKey.plain n) = name-IsWord key n.0.chars
IsKey-IsWord key (IsKey.prefixed prefix name spelled p short n) = rw spelled (
    All-append (λ c. is_identifier_char c ≡ true) prefix (b'/' ∷ name)
      (rw p.spelled (dns_name-IsWord p.parts p.labels)) (ground arith, name-IsWord name n.0.chars))

-- A valid key is read as one word.
pub key-IsWord : (key : Text) → validate_key key ≡ ok tt → IsWord key
key-IsWord key h = IsKey-IsWord key ((validate_key_iff key).0 h)

pub key-ne-nil : (key : Text) → validate_key key ≡ ok tt → key ≢ []
unfolding validate_key
key-ne-nil key h = ground arith

IsValue-IsWord : (value : Text) → IsValue value → IsWord value
IsValue-IsWord value (IsValue.empty e) = rw e tt
IsValue-IsWord value (IsValue.named n short) = name-IsWord value n.chars

-- So is a valid value.
pub value-IsWord : (value : Text) → validate_value value ≡ ok tt → IsWord value
value-IsWord value h = IsValue-IsWord value ((validate_value_iff value).0 h)
