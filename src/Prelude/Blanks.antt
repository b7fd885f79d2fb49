-- ===== src/Prelude/Blanks.antt =====
-- `strings.TrimSpace` of a Go string, as far as it tells whether the string is blank.
use Prim.Native.Nat.{ℕ}
use mathlib.Core.Bool.{Bool, true, false, ◌&&◌, ◌||◌}
use mathlib.Core.Option.{Option, none, some}
use mathlib.Core.List.{[], ◌∷◌}
use access_gateway.Prelude.Tests.{leb, ◌==◌, if◌then◌else◌}
use access_gateway.Prelude.Texts.{Text}

-- Where `strings.TrimSpace` stands inside the UTF-8 encoding of a space.
pub data SpaceState : Type 0 where
  between after_c2 after_e1 after_e1_9a after_e2 after_e2_80 after_e2_81 after_e3 after_e3_80 :
      SpaceState

abbrev is_ascii_space : ℕ → Bool
is_ascii_space c = (leb 0x09 c && leb c 0x0d) || c == 0x20

-- U+0009 to U+000D, U+0020, U+0085, U+00A0, U+1680, U+2000 to U+200A, U+2028, U+2029, U+202F,
-- U+205F and U+3000, as `unicode.IsSpace` has them.
space_step : SpaceState → ℕ → Option SpaceState
space_step between c =
    if is_ascii_space c
    then some between
    else if c == 0xc2
    then some after_c2
    else if c == 0xe1
    then some after_e1
    else if c == 0xe2
    then some after_e2
    else if c == 0xe3
    then some after_e3
    else none
space_step after_c2 c = if c == 0x85 || c == 0xa0 then some between else none
space_step after_e1 c = if c == 0x9a then some after_e1_9a else none
space_step after_e1_9a c = if c == 0x80 then some between else none
space_step after_e2 c =
    if c == 0x80 then some after_e2_80 else if c == 0x81 then some after_e2_81 else none
space_step after_e2_80 c =
    if (leb 0x80 c && leb c 0x8a) || c == 0xa8 || c == 0xa9 || c == 0xaf then some between else none
space_step after_e2_81 c = if c == 0x9f then some between else none
space_step after_e3 c = if c == 0x80 then some after_e3_80 else none
space_step after_e3_80 c = if c == 0x80 then some between else none

is_between : SpaceState → Bool
is_between between = true
is_between _ = false

is_blank_from : SpaceState → Text → Bool
is_blank_from state [] = is_between state
is_blank_from state (c ∷ s) = elim (space_step state c) [
  | none ↦ false
  | some state' ↦ is_blank_from state' s
]

-- `strings.TrimSpace(value) == ""`
unfoldable pub is_blank : Text → Bool
unfolding is_blank_from space_step is_between
is_blank value = is_blank_from between value
