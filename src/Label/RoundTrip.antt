-- ===== src/Label/RoundTrip.antt =====
-- `Selector.String` and `Parse` (internal/label/selector.go): what is printed is read back.
pub mod Values
pub mod Terms
use access_gateway.Prelude.{
  ℕ, zero, suc, ◌≤◌, ◌≡◌, ◌≢◌, refl, ap, ◌∙◌, false, List, [], ◌∷◌, ◌++◌, append_assoc, append-nil,
  Text, All, arith, ok, err, Result, length, is_empty, leb, guard, ◌>>=◌,
}
use access_gateway.Label.Selectors.{
  Requirement, Selector, SelectorError, requirement_string, requirement_strings, selector_string,
  join_comma, validate_requirement, validate_requirements, validate_selector,
}
use access_gateway.Label.Parser.{
  is_space, skip_space, parse_requirement, after_requirement, parse_rounds, parse_selector, parse,
  ParseError, selector_of, accepted,
}
use access_gateway.Label.Reading.{skip_space_none}
use Terms.{IsValid, IsReadableTerm, string_front, parse_requirement-append}

requirements_text : List Requirement → Text
requirements_text reqs = join_comma (requirement_strings reqs)

text_front :
    (r : Requirement) (reqs : List Requirement)
    → IsValid r
    → (c : ℕ) × (s : Text) × (requirements_text (r ∷ reqs) ≡ c ∷ s) × (is_space c ≡ false)
unfolding requirements_text join_comma requirement_strings
text_front r [] valid = rw (append-nil (requirement_string r)) at (string_front r valid [])
text_front r (q ∷ reqs) valid = string_front r valid _

after_requirement_comma :
    (reqs : List Requirement) (next : Text → Result ParseError (List Requirement)) (text s : Text)
    (c : ℕ)
    → text ≡ c ∷ s
    → is_space c ≡ false
    → after_requirement reqs next (skip_space (b',' ∷ text)) ≡ next text
unfolding after_requirement
after_requirement_comma reqs next text s c spelled h =
    rw spelled (
      rw (skip_space_none (b',' ∷ c ∷ s) (unfold is_space in refl))
        (rw (skip_space_none (c ∷ s) h)))

parse_rounds_step :
    (left : ℕ) (acc : List Requirement) (r : Requirement) (text rest : Text)
    → parse_requirement text ≡ ok (r, rest)
    → parse_rounds (suc left) acc text
      ≡ after_requirement (acc ++ r ∷ []) (parse_rounds left (acc ++ r ∷ [])) (skip_space rest)
unfolding parse_rounds
parse_rounds_step left acc r text rest h = rw h

parse_rounds-text :
    (left : ℕ) (acc : List Requirement) (r : Requirement) (reqs : List Requirement)
    → length reqs ≤ left
    → All IsValid (r ∷ reqs)
    → All IsReadableTerm (r ∷ reqs)
    → parse_rounds (suc left) acc (requirements_text (r ∷ reqs)) ≡ ok (acc ++ r ∷ reqs)
unfolding requirements_text join_comma requirement_strings
parse_rounds-text left acc r [] short valid readable =
    parse_rounds_step left acc r (requirement_string r) [] (
      rw (append-nil (requirement_string r)) at
        (parse_requirement-append r valid.0 [] readable.0 tt))
    ∙ (unfold after_requirement skip_space in refl)
parse_rounds-text zero acc r (q ∷ reqs) short valid readable = absurd (omega arith)
parse_rounds-text (suc left) acc r (q ∷ reqs) short valid readable =
    let (c, s, spelled, no_space) = text_front q reqs valid.1.0 in
    parse_rounds_step (suc left) acc r _ (b',' ∷ requirements_text (q ∷ reqs))
      (parse_requirement-append r valid.0 (b',' ∷ requirements_text (q ∷ reqs)) readable.0 refl)
    ∙ after_requirement_comma (acc ++ r ∷ []) (parse_rounds (suc left) (acc ++ r ∷ []))
        (requirements_text (q ∷ reqs)) s c spelled no_space
    ∙ parse_rounds-text left (acc ++ r ∷ []) q reqs (omega arith) valid.1 readable.1
    ∙ ap ok (append_assoc acc (r ∷ []) (q ∷ reqs))

validated-All : (reqs : List Requirement) → validate_requirements reqs ≡ ok tt → All IsValid reqs
unfolding validate_requirements
validated-All [] h = tt
validated-All (r ∷ reqs) h = (ground arith, validated-All reqs (ground arith))

parse_selector-text :
    (reqs : List Requirement)
    → length reqs ≤ 32
    → All IsValid reqs
    → All IsReadableTerm reqs
    → parse_selector (requirements_text reqs) ≡ ok reqs
parse_selector-text [] short valid readable =
    unfold parse_selector skip_space requirements_text join_comma requirement_strings in refl
parse_selector-text (r ∷ reqs) short valid readable =
    let (c, s, spelled, no_space) = text_front r reqs valid.0 in
    start c s spelled no_space (parse_rounds-text 31 [] r reqs (omega arith) valid readable)
  where
    start :
        (c : ℕ) (s : Text)
        → requirements_text (r ∷ reqs) ≡ c ∷ s
        → is_space c ≡ false
        → parse_rounds 32 [] (requirements_text (r ∷ reqs)) ≡ ok (r ∷ reqs)
        → parse_selector (requirements_text (r ∷ reqs)) ≡ ok (r ∷ reqs)
    start c s spelled no_space read =
        rw spelled
          (unfold parse_selector in rw (skip_space_none (c ∷ s) no_space) (rw spelled at read))

parse_selector-selector_string :
    (s : Selector)
    → validate_selector s ≡ ok tt
    → All IsReadableTerm s.requirements
    → parse_selector (selector_string s) ≡ ok s.requirements
unfolding selector_string requirements_text validate_selector
parse_selector-selector_string s valid readable =
    parse_selector-text s.requirements (ground arith) (validated-All s.requirements (ground arith))
      readable

-- `Parse` gives back every selector that `Validate` accepts from its printed form, if each `in` and
-- `notin` list ends in a value that is not empty.
pub parse-selector_string :
    (s : Selector)
    → validate_selector s ≡ ok tt
    → All IsReadableTerm s.requirements
    → parse (selector_string s) ≡ ok s
unfolding parse
parse-selector_string s valid readable =
    rw (parse_selector-selector_string s valid readable) (rw valid)
