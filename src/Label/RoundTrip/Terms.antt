-- ===== src/Label/RoundTrip/Terms.antt =====
-- Reading back one printed requirement (internal/label/selector.go).
use access_gateway.Prelude.{
  ℕ, ◌≡◌, ◌≢◌, refl, true, false, List, [], ◌∷◌, ◌++◌, append_assoc, Text, codes, text_eq, All,
  arith, ok, ◌∙◌,
}
use access_gateway.Label.Keys.{is_alphanumeric, validate_key, wrap}
use access_gateway.Label.Selectors.{
  Operator, op_equals, op_not_equals, op_in, op_not_in, op_exists, op_not_exists, op_other,
  Requirement, join_comma, first_value, requirement_text, requirement_string, validate_requirement,
  validate_count, validate_values,
}
use access_gateway.Label.Parser.{
  is_identifier_char, is_space, skip_space, parse_single_value, parse_set_operator,
  parse_not_equals, skip_equals, parse_after_key, starts_not_exists, requirement_at,
  parse_requirement, operator_of_word, requirement,
}
use access_gateway.Label.Reading.{
  IsWord, Stops, NoSpace, skip_space_none, parse_value_token-append, parse_identifier-append,
  identifier-not-space, key-IsWord, key-ne-nil,
}
use access_gateway.Label.RoundTrip.Values.{IsReadable, values-IsWord, parse_value_set-join}

-- What stands behind a printed requirement: nothing, or a comma.
abbrev pub IsEnd : Text → Type 0
IsEnd [] = Unit
IsEnd (c ∷ s) = c ≡ b','

abbrev SetReadable : Operator → List Text → Type 0
SetReadable op_in values = IsReadable values
SetReadable op_not_in values = IsReadable values
SetReadable _ values = Unit

-- The sets of `in` and `notin` end in a value that is not empty.
abbrev pub IsReadableTerm : Requirement → Type 0
IsReadableTerm r = SetReadable r.operator r.values

IsEnd-Stops : (s : Text) → IsEnd s → Stops s
unfolding is_identifier_char is_alphanumeric
IsEnd-Stops [] h = tt
IsEnd-Stops (c ∷ s) h = ground arith

IsEnd-NoSpace : (s : Text) → IsEnd s → NoSpace s
unfolding is_space
IsEnd-NoSpace [] h = tt
IsEnd-NoSpace (c ∷ s) h = ground arith

word-NoSpace : (w rest : Text) → IsWord w → IsEnd rest → NoSpace (w ++ rest)
word-NoSpace [] rest h e = IsEnd-NoSpace rest e
word-NoSpace (c ∷ w) rest h e = identifier-not-space c h.0

word_no_equals : (w rest : Text) → IsWord w → IsEnd rest → skip_equals (w ++ rest) ≡ w ++ rest
unfolding skip_equals is_identifier_char is_alphanumeric
word_no_equals [] [] h e = refl
word_no_equals [] (c ∷ rest) h e = ground arith
word_no_equals (c ∷ w) rest h e = ground arith

parse_single_value-append :
    (key : Text) (op : Operator) (w rest : Text)
    → IsWord w
    → IsEnd rest
    → parse_single_value key op (w ++ rest) ≡ ok (requirement key op (w ∷ []), rest)
unfolding parse_single_value
parse_single_value-append key op w rest h e =
    rw (skip_space_none (w ++ rest) (word-NoSpace w rest h e))
      (rw (parse_value_token-append w rest h (IsEnd-Stops rest e)))

module _ (key : Text) (rest : Text) (e : IsEnd rest) where
  after_key_exists : parse_after_key key (skip_space rest) ≡ ok (requirement key op_exists [], rest)
  unfolding parse_after_key
  after_key_exists = rw (skip_space_none rest (IsEnd-NoSpace rest e)) (at_end rest e)
    where
      at_end : (s : Text) → IsEnd s → parse_after_key key s ≡ ok (requirement key op_exists [], s)
      at_end [] h = refl
      at_end (c ∷ s) h = ground arith

  after_key_equals :
      (w : Text)
      → IsWord w
      → parse_after_key key (skip_space (b'=' ∷ (w ++ rest)))
        ≡ ok (requirement key op_equals (w ∷ []), rest)
  unfolding parse_after_key skip_space is_space
  after_key_equals w h =
      rw (word_no_equals w rest h e) (parse_single_value-append key op_equals w rest h e)

  after_key_not_equals :
      (w : Text)
      → IsWord w
      → parse_after_key key (skip_space (b'!' ∷ b'=' ∷ (w ++ rest)))
        ≡ ok (requirement key op_not_equals (w ∷ []), rest)
  unfolding parse_after_key skip_space is_space parse_not_equals
  after_key_not_equals w h = parse_single_value-append key op_not_equals w rest h e

  after_key_set :
      (word : Text) (op : Operator) (ws : List Text)
      → word ≢ []
      → IsWord word
      → operator_of_word word ≡ ok op
      → IsReadable ws
      → All IsWord ws
      → parse_set_operator key (word ++ b' ' ∷ b'(' ∷ (join_comma ws ++ b')' ∷ rest))
        ≡ ok (requirement key op ws, rest)
  unfolding parse_set_operator is_identifier_char is_alphanumeric
  after_key_set word op ws ne hw hop readable h =
      rw (parse_identifier-append word (b' ' ∷ b'(' ∷ (join_comma ws ++ b')' ∷ rest)) ne hw refl)
        (rw hop (rw (parse_value_set-join ws rest readable h)))

not_bang : (c : ℕ) (s : Text) → is_identifier_char c ≡ true → starts_not_exists (c ∷ s) ≡ false
unfolding starts_not_exists is_identifier_char is_alphanumeric
not_bang c [] h = refl
not_bang c (d ∷ s) h = ground arith

-- A key in front is read as the key, and the operator is looked for behind it.
requirement_at_key :
    (key tail : Text)
    → key ≢ []
    → IsWord key
    → Stops tail
    → requirement_at (key ++ tail) ≡ parse_after_key key (skip_space tail)
unfolding requirement_at
requirement_at_key [] tail ne h stops = absurd (ne refl)
requirement_at_key (c ∷ key) tail ne h stops =
    rw (not_bang c (key ++ tail) h.0) (rw (parse_identifier-append (c ∷ key) tail ne h stops))

bang_key :
    (key rest : Text) → key ≢ [] → IsWord key → starts_not_exists (b'!' ∷ (key ++ rest)) ≡ true
unfolding starts_not_exists is_identifier_char is_alphanumeric
bang_key [] rest ne h = absurd (ne refl)
bang_key (c ∷ key) rest ne h = ground arith

requirement_at_bang :
    (key rest : Text)
    → key ≢ []
    → IsWord key
    → IsEnd rest
    → requirement_at (b'!' ∷ (key ++ rest)) ≡ ok (requirement key op_not_exists [], rest)
unfolding requirement_at
requirement_at_bang key rest ne h e =
    rw (bang_key key rest ne h) (rw (parse_identifier-append key rest ne h (IsEnd-Stops rest e)))

module _ (key : Text) (rest : Text) (ne : key ≢ []) (h : IsWord key) (e : IsEnd rest) where
  requirement_at_text :
      (op : Operator) (values : List Text)
      → validate_count op values ≡ ok tt
      → All IsWord values
      → SetReadable op values
      → requirement_at (requirement_text op key values ++ rest)
        ≡ ok (requirement key op values, rest)
  unfolding requirement_text validate_count first_value is_identifier_char is_alphanumeric
      operator_of_word parse_after_key skip_space is_space text_eq
  requirement_at_text op_exists [] c w r =
      requirement_at_key key rest ne h (IsEnd-Stops rest e) ∙ after_key_exists key rest e
  requirement_at_text op_not_exists [] c w r = requirement_at_bang key rest ne h e
  requirement_at_text op_equals (v ∷ []) c w r =
      rw append_assoc
        (requirement_at_key key (b'=' ∷ (v ++ rest)) ne h refl ∙ after_key_equals key rest e v w.0)
  requirement_at_text op_not_equals (v ∷ []) c w r = rw append_assoc (
      requirement_at_key key (b'!' ∷ b'=' ∷ (v ++ rest)) ne h refl
      ∙ after_key_not_equals key rest e v w.0)
  requirement_at_text op_in values c w r = rw append_assoc (
      rw (append_assoc (join_comma values) (codes ")") rest) (
        requirement_at_key key (codes " in (" ++ (join_comma values ++ b')' ∷ rest)) ne h refl
        ∙ after_key_set key rest e (codes "in") op_in values (cc) (refl, (refl, tt)) refl r w))
  requirement_at_text op_not_in values c w r = rw append_assoc (
      rw (append_assoc (join_comma values) (codes ")") rest) (
        requirement_at_key key (codes " notin (" ++ (join_comma values ++ b')' ∷ rest)) ne h refl
        ∙ after_key_set key rest e (codes "notin") op_not_in values (cc)
            (refl, (refl, (refl, (refl, (refl, tt))))) refl r w))
  requirement_at_text op_equals [] c w r = ground arith
  requirement_at_text op_equals (v ∷ u ∷ values) c w r = ground arith
  requirement_at_text op_not_equals [] c w r = ground arith
  requirement_at_text op_not_equals (v ∷ u ∷ values) c w r = ground arith
  requirement_at_text op_exists (v ∷ values) c w r = ground arith
  requirement_at_text op_not_exists (v ∷ values) c w r = ground arith
  requirement_at_text op_other values c w r = cc

-- The front of a printed requirement: a byte of the key, or '!'.
front :
    (op : Operator) (key : Text) (values : List Text) (rest : Text)
    → key ≢ []
    → IsWord key
    → validate_count op values ≡ ok tt
    → (c : ℕ) × (s : Text) × (requirement_text op key values ++ rest ≡ c ∷ s) × (is_space c ≡ false)
unfolding requirement_text validate_count is_space
front op [] values rest ne h c = absurd (ne refl)
front op_exists (k ∷ key) values rest ne h c = (k, _, refl, identifier-not-space k h.0)
front op_not_exists (k ∷ key) values rest ne h c = (b'!', _, refl, refl)
front op_equals (k ∷ key) values rest ne h c = (k, _, refl, identifier-not-space k h.0)
front op_not_equals (k ∷ key) values rest ne h c = (k, _, refl, identifier-not-space k h.0)
front op_in (k ∷ key) values rest ne h c = (k, _, refl, identifier-not-space k h.0)
front op_not_in (k ∷ key) values rest ne h c = (k, _, refl, identifier-not-space k h.0)
front op_other (k ∷ key) values rest ne h c = cc

abbrev pub IsValid : Requirement → Type 0
IsValid r = validate_requirement r ≡ ok tt

module _ (r : Requirement) (valid : IsValid r) where
  key_ok : validate_key r.key ≡ ok tt
  unfolding validate_requirement wrap
  key_ok = ground arith

  count_ok : validate_count r.operator r.values ≡ ok tt
  unfolding validate_requirement
  count_ok = ground arith

  values_ok : validate_values r.values ≡ ok tt
  unfolding validate_requirement
  values_ok = ground arith

  -- A printed requirement in front of a text begins with no space.
  pub string_front :
      (rest : Text)
      → (c : ℕ) × (s : Text) × (requirement_string r ++ rest ≡ c ∷ s) × (is_space c ≡ false)
  unfolding requirement_string
  string_front rest =
      front r.operator r.key r.values rest (key-ne-nil r.key key_ok) (key-IsWord r.key key_ok)
        count_ok

  -- A printed requirement is read back, up to a comma or the end.
  pub parse_requirement-append :
      (rest : Text)
      → IsReadableTerm r
      → IsEnd rest
      → parse_requirement (requirement_string r ++ rest) ≡ ok (r, rest)
  unfolding parse_requirement
  parse_requirement-append rest readable e =
      let (c, s, spelled, no_space) = string_front rest in
      let read : requirement_at (requirement_string r ++ rest) ≡ ok (r, rest) =
        (unfold requirement_string in
          requirement_at_text r.key rest (key-ne-nil r.key key_ok) (key-IsWord r.key key_ok) e
            r.operator r.values count_ok (values-IsWord r.values values_ok) readable) in
      rw spelled (rw (skip_space_none (c ∷ s) no_space) (rw spelled at read))
