-- ===== src/Label/KeyGrammar/Splitting.antt =====
-- `strings.Split` and `strings.Index` at one byte, against joining (internal/label/label.go).
use access_gateway.Prelude.{
  ℕ, ◌≡◌, ◌≢◌, refl, Bool, true, false, not, none, some, List, [], ◌∷◌, ◌++◌, Text, ◌==◌,
  Bool-cases, ==_iff, All, all, any, arith, inl, inr, ◌↔◌, Option-cases,
}
use access_gateway.Label.Keys.{split, on_head, cut}

-- The byte does not occur.
abbrev pub Lacks : ℕ → Text → Type 0
Lacks sep = All (λ c. (c == sep) ≡ false)

-- The parts with a separator between any two.
abbrev pub join_with : ℕ → List Text → Text
join_with sep [] = []
join_with sep (part ∷ []) = part
join_with sep (part ∷ other ∷ parts) = part ++ sep ∷ join_with sep (other ∷ parts)

pub all_iff {ℓ} :
    {A : Type ℓ} (p : A → Bool) (xs : List A) → (all p xs ≡ true) ↔ All (λ x. p x ≡ true) xs
all_iff p [] = (λ _. tt, λ _. refl)
all_iff p (x ∷ xs) = ground (arith, all_iff p xs)

pub not-any_iff : (sep : ℕ) (s : Text) → (not (any (λ c. c == sep) s) ≡ true) ↔ Lacks sep s
not-any_iff sep [] = (λ _. tt, λ _. refl)
not-any_iff sep (c ∷ s) = ground (arith, not-any_iff sep s)

module _ (sep : ℕ) where
  pub cut_word : (w : Text) → Lacks sep w → cut sep w ≡ none
  unfolding cut
  cut_word [] h = refl
  cut_word (c ∷ w) h = rw (h.0, cut_word w h.1)

  pub cut-append : (w rest : Text) → Lacks sep w → cut sep (w ++ sep ∷ rest) ≡ some (w, rest)
  unfolding cut
  cut-append [] rest h = ground arith
  cut-append (c ∷ w) rest h = rw (h.0, cut-append w rest h.1)

  pub Lacks-of_cut : (s : Text) → cut sep s ≡ none → Lacks sep s
  unfolding cut
  Lacks-of_cut [] h = tt
  Lacks-of_cut (c ∷ s) h = ground (arith, Lacks-of_cut s)

  pub append_of_cut :
      (s w rest : Text) → cut sep s ≡ some (w, rest) → (s ≡ w ++ sep ∷ rest) × Lacks sep w
  unfolding cut
  append_of_cut [] w rest h = ground arith
  append_of_cut (c ∷ s) w rest h = elim (Bool-cases (c == sep)) [
    | inl here ↦ ground arith
    | inr later ↦ elim (Option-cases (cut sep s)) [
      | inl missing ↦ ground arith
      | inr ((before, after), found) ↦ ground (arith, append_of_cut s before after found)
    ]
  ]

  pub split_word : (w : Text) → Lacks sep w → split sep w ≡ w ∷ []
  unfolding split
  split_word [] h = refl
  split_word (c ∷ w) h = rw (h.0, split_word w h.1)

  pub split-append :
      (w rest : Text) → Lacks sep w → split sep (w ++ sep ∷ rest) ≡ w ∷ split sep rest
  unfolding split
  split-append [] rest h = ground arith
  split-append (c ∷ w) rest h = rw (h.0, split-append w rest h.1)

  pub split-join :
      (parts : List Text)
      → parts ≢ []
      → All (Lacks sep) parts
      → split sep (join_with sep parts) ≡ parts
  split-join [] ne h = absurd (ne refl)
  split-join (part ∷ []) ne h = split_word part h.0
  split-join (part ∷ other ∷ parts) ne h =
      rw
        (split-append part (join_with sep (other ∷ parts)) h.0, split-join (other ∷ parts) (cc) h.1)

  join-on_head :
      (c : ℕ) (parts : List Text)
      → parts ≢ []
      → join_with sep (on_head c parts) ≡ c ∷ join_with sep parts
  join-on_head c [] ne = absurd (ne refl)
  join-on_head c (part ∷ []) ne = refl
  join-on_head c (part ∷ other ∷ parts) ne = refl

  join_empty :
      (parts : List Text) → parts ≢ [] → join_with sep ([] ∷ parts) ≡ sep ∷ join_with sep parts
  join_empty [] ne = absurd (ne refl)
  join_empty (part ∷ parts) ne = refl

  pub split-ne-nil : (s : Text) → split sep s ≢ []
  unfolding split
  split-ne-nil [] = cc
  split-ne-nil (c ∷ s) = ground arith

  pub join-split : (s : Text) → join_with sep (split sep s) ≡ s
  unfolding split
  join-split [] = refl
  join-split (c ∷ s) = elim (Bool-cases (c == sep)) [
    | inl here ↦
        rw here
          (ground (arith, join_empty (split sep s) (split-ne-nil s), join-split s, ==_iff c sep))
    | inr later ↦
        rw later (ground (arith, join-on_head c (split sep s) (split-ne-nil s), join-split s))
  ]
