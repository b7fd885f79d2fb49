-- ===== src/Label/Matching.antt =====
-- What a selector means: the matching of internal/label/selector.go against a description of each
-- operator over the map.
use access_gateway.Prelude.{
  ◌≡◌, ◌↔◌, refl, Bool, true, false, not, Option, none, some, List, [], ◌∷◌, Text, text_eq_iff, All,
  In, arith,
}
use access_gateway.Label.Keys.{Labels, lookup}
use access_gateway.Label.Selectors.{
  Operator, op_equals, op_not_equals, op_in, op_not_in, op_exists, op_not_exists, op_other,
  Requirement, Selector, contains_value, first_value, is_only, matches_value, requirement_matches,
  all_match, matches, nothing,
}

-- The meaning of an operator with its values, on what the map holds at the key.
abbrev pub Meaning : Operator → List Text → Option Text → Type 0
Meaning op_equals values found = (v : Text) × (found ≡ some v) × (values ≡ v ∷ [])
Meaning op_not_equals values found = ¬ ((v : Text) × (found ≡ some v) × (values ≡ v ∷ []))
Meaning op_in values found = (v : Text) × (found ≡ some v) × In v values
Meaning op_not_in values found = ¬ ((v : Text) × (found ≡ some v) × In v values)
Meaning op_exists values found = (v : Text) × (found ≡ some v)
Meaning op_not_exists values found = found ≡ none
Meaning op_other values found = ⊥

abbrev pub Satisfies : Labels → Requirement → Type 0
Satisfies labels r = Meaning r.operator r.values (lookup r.key labels)

contains_value_iff :
    (values : List Text) (v : Text) → (contains_value values v ≡ true) ↔ In v values
unfolding contains_value
contains_value_iff [] v = (λ h. cc, λ h. absurd h)
contains_value_iff (w ∷ values) v = ground (arith, text_eq_iff w v, contains_value_iff values v)

is_only_iff : (values : List Text) (v : Text) → (is_only values v ≡ true) ↔ (values ≡ v ∷ [])
unfolding is_only first_value
is_only_iff [] v = ground arith
is_only_iff (w ∷ []) v = ground (arith, text_eq_iff v w)
is_only_iff (w ∷ u ∷ values) v = ground arith

-- `len != 1 || value != values[0]` is the complement of the test for `=`.
not_only :
    (values : List Text) (v : Text)
    → matches_value op_not_equals values (some v) ≡ not (is_only values v)
unfolding is_only matches_value
not_only values v = ground arith

true_of_not : (b : Bool) → not b ≡ true → b ≡ true → ⊥
true_of_not b h k = ground arith

not_of_true : (b : Bool) → (b ≡ true → ⊥) → not b ≡ true
not_of_true b h = ground arith

same_only :
    {values : List Text} {v w : Text}
    → ◌≡◌ {A = Option Text} (some v) (some w)
    → values ≡ w ∷ []
    → values ≡ v ∷ []
same_only e h = cc

same_In :
    (values : List Text) {v w : Text}
    → ◌≡◌ {A = Option Text} (some v) (some w)
    → In w values
    → In v values
same_In values {v} {w} e h = let same : v ≡ w = cc in rw same h

Meaning-of_match :
    (op : Operator) (values : List Text) (found : Option Text)
    → matches_value op values found ≡ true
    → Meaning op values found
Meaning-of_match op_equals values none h = unfold matches_value in cc
Meaning-of_match op_equals values (some v) h =
    (v, refl, (is_only_iff values v).0 (unfold matches_value in h))
Meaning-of_match op_not_equals values none h = λ m. cc (m.1)
Meaning-of_match op_not_equals values (some v) h = λ m.
    true_of_not (is_only values v) (rw (not_only values v) at h)
      ((is_only_iff values v).1 (same_only m.1 m.2))
Meaning-of_match op_in values none h = unfold matches_value in cc
Meaning-of_match op_in values (some v) h =
    (v, refl, (contains_value_iff values v).0 (unfold matches_value in h))
Meaning-of_match op_not_in values none h = λ m. cc (m.1)
Meaning-of_match op_not_in values (some v) h = λ m.
    true_of_not (contains_value values v) (unfold matches_value in h)
      ((contains_value_iff values v).1 (same_In values m.1 m.2))
Meaning-of_match op_exists values none h = unfold matches_value in cc
Meaning-of_match op_exists values (some v) h = (v, refl)
Meaning-of_match op_not_exists values none h = refl
Meaning-of_match op_not_exists values (some v) h = unfold matches_value in cc
Meaning-of_match op_other values found h = unfold matches_value in cc

match_of_Meaning :
    (op : Operator) (values : List Text) (found : Option Text)
    → Meaning op values found
    → matches_value op values found ≡ true
match_of_Meaning op_equals values none m = cc (m.1)
match_of_Meaning op_equals values (some v) m =
    unfold matches_value in (is_only_iff values v).1 (same_only m.1 m.2)
match_of_Meaning op_not_equals values none m = unfold matches_value in refl
match_of_Meaning op_not_equals values (some v) m =
    rw (not_only values v)
      (not_of_true (is_only values v) (λ h. m (v, refl, (is_only_iff values v).0 h)))
match_of_Meaning op_in values none m = cc (m.1)
match_of_Meaning op_in values (some v) m =
    unfold matches_value in (contains_value_iff values v).1 (same_In values m.1 m.2)
match_of_Meaning op_not_in values none m = unfold matches_value in refl
match_of_Meaning op_not_in values (some v) m =
    unfold matches_value in
    not_of_true (contains_value values v) (λ h. m (v, refl, (contains_value_iff values v).0 h))
match_of_Meaning op_exists values none m = cc (m.1)
match_of_Meaning op_exists values (some v) m = unfold matches_value in refl
match_of_Meaning op_not_exists values none m = unfold matches_value in refl
match_of_Meaning op_not_exists values (some v) m = cc
match_of_Meaning op_other values found m = absurd m

requirement_matches_iff :
    (r : Requirement) (labels : Labels) → (requirement_matches r labels ≡ true) ↔ Satisfies labels r
unfolding requirement_matches
requirement_matches_iff r labels = (
  Meaning-of_match r.operator r.values (lookup r.key labels),
  match_of_Meaning r.operator r.values (lookup r.key labels),
)

all_match_iff :
    (reqs : List Requirement) (labels : Labels)
    → (all_match reqs labels ≡ true) ↔ All (Satisfies labels) reqs
unfolding all_match
all_match_iff [] labels = (λ _. tt, λ _. refl)
all_match_iff (r ∷ reqs) labels =
    let (to, from) = requirement_matches_iff r labels in
    let (to', from') = all_match_iff reqs labels in
    (λ h. (to (ground arith), to' (ground arith)), λ h. rw (from h.0) (from' h.1))

-- A selector matches a map exactly if the map satisfies each of its requirements: `=` and `in` want
-- the key with that value or one of the values, `!=` and `notin` hold exactly where those fail (so
-- on a missing key too), and the last two test for the key alone.
pub matches_iff :
    (s : Selector) (labels : Labels)
    → (matches s labels ≡ true) ↔ All (Satisfies labels) s.requirements
unfolding matches
matches_iff s labels = all_match_iff s.requirements labels

-- `Nothing()` matches no map.
pub nothing-matches : (labels : Labels) → matches nothing labels ≡ false
unfolding matches nothing all_match requirement_matches matches_value
nothing-matches labels = ground arith
