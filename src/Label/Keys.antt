-- ===== src/Label/Keys.antt =====
-- internal/label/label.go: the format of label keys and values. `Labels` is a Go map: the list
-- holds its entries in the order of one iteration. An error keeps the kind of its message and
-- drops the text.
use access_gateway.Prelude.{
  ℕ, Bool, true, false, ◌&&◌, ◌||◌, not, Option, none, some, List, [], ◌∷◌, Text, codes, text_eq,
  has_prefix, leb, ◌==◌, if◌then◌else◌, length, all, any, is_empty, Result, ok, err, ◌>>◌, guard,
}

abbrev pub max_labels : ℕ
max_labels = 64

abbrev pub max_requirements : ℕ
max_requirements = 32

abbrev pub max_key_name_length : ℕ
max_key_name_length = 63

abbrev pub max_key_prefix_length : ℕ
max_key_prefix_length = 253

abbrev pub max_value_length : ℕ
max_value_length = 63

abbrev pub prefix_system : Text
prefix_system = codes "access-gateway.io/"

abbrev pub prefix_security : Text
prefix_security = codes "security.access-gateway.io/"

pub data KeyError : Type 0 where
  empty_key empty_key_name too_many_slash key_name_too_long empty_key_prefix : KeyError
  key_prefix_too_long empty_dns_label dns_label_ends dns_label_char : KeyError
  name_ends name_char value_too_long : KeyError

unfoldable pub is_alphanumeric_lower : ℕ → Bool
is_alphanumeric_lower c = (leb b'a' c && leb c b'z') || (leb b'0' c && leb c b'9')

unfoldable pub is_alphanumeric : ℕ → Bool
is_alphanumeric c =
    (leb b'a' c && leb c b'z') || (leb b'A' c && leb c b'Z') || (leb b'0' c && leb c b'9')

-- `s[0]` and `s[len(s)-1]`, which the code reads of non-empty strings only.
abbrev pub first_byte : Text → ℕ
first_byte [] = 0
first_byte (c ∷ s) = c

abbrev pub last_byte : Text → ℕ
last_byte [] = 0
last_byte (c ∷ []) = c
last_byte (c ∷ d ∷ s) = last_byte (d ∷ s)

-- The test of the loop of `validateNameChars`.
unfoldable pub is_name_char : ℕ → Bool
is_name_char c = is_alphanumeric c || c == b'-' || c == b'_' || c == b'.'

unfoldable pub validate_name_chars : Text → Result KeyError (Unit {0})
validate_name_chars s = do
  guard (is_alphanumeric (first_byte s) && is_alphanumeric (last_byte s)) name_ends
  guard (all is_name_char s) name_char

-- The test of the loop of `validateDNSLabel`.
unfoldable pub is_dns_char : ℕ → Bool
is_dns_char c = is_alphanumeric_lower c || c == b'-'

unfoldable pub validate_dns_label : Text → Result KeyError (Unit {0})
validate_dns_label s = do
  guard (is_alphanumeric_lower (first_byte s) && is_alphanumeric_lower (last_byte s)) dns_label_ends
  guard (all is_dns_char s) dns_label_char

abbrev pub on_head : ℕ → List Text → List Text
on_head c [] = (c ∷ []) ∷ []
on_head c (part ∷ parts) = (c ∷ part) ∷ parts

-- `strings.Split(s, sep)` for a separator of one byte.
unfoldable pub split : ℕ → Text → List Text
split sep [] = [] ∷ []
split sep (c ∷ s) = let parts = split sep s in if c == sep then [] ∷ parts else on_head c parts

-- The loop of `validatePrefix` over the parts.
unfoldable pub validate_dns_labels : List Text → Result KeyError (Unit {0})
validate_dns_labels [] = ok tt
validate_dns_labels (part ∷ parts) = do
  guard (not (is_empty part)) empty_dns_label
  validate_dns_label part
  validate_dns_labels parts

unfoldable pub validate_prefix : Text → Result KeyError (Unit {0})
validate_prefix prefix = do
  guard (not (is_empty prefix)) empty_key_prefix
  guard (leb (length prefix) max_key_prefix_length) key_prefix_too_long
  validate_dns_labels (split b'.' prefix)

abbrev pub on_before : ℕ → Option (Text × Text) → Option (Text × Text)
on_before c none = none
on_before c (some (before, after)) = some (c ∷ before, after)

-- `strings.Index(s, sep)` with the slices before and behind the first occurrence.
unfoldable pub cut : ℕ → Text → Option (Text × Text)
cut sep [] = none
cut sep (c ∷ s) = let found = cut sep s in if c == sep then some ([], s) else on_before c found

-- What `ValidateKey` checks of the name, behind the prefix.
unfoldable pub validate_name : Text → Result KeyError (Unit {0})
validate_name name = do
  guard (not (is_empty name)) empty_key_name
  guard (leb (length name) max_key_name_length) key_name_too_long
  validate_name_chars name

-- The two cases of `ValidateKey`, without and with a '/'.
unfoldable pub validate_parts : Text → Option (Text × Text) → Result KeyError (Unit {0})
validate_parts key none = validate_name key
validate_parts key (some (prefix, name)) = do
  guard (not (any (λ c. c == b'/') name)) too_many_slash
  validate_prefix prefix
  validate_name name

unfoldable pub validate_key : Text → Result KeyError (Unit {0})
validate_key key = do guard (not (is_empty key)) empty_key; validate_parts key (cut b'/' key)

unfoldable pub validate_value : Text → Result KeyError (Unit {0})
validate_value value =
    if is_empty value
    then ok tt
    else (guard (leb (length value) max_value_length) value_too_long >> validate_name_chars value)

-- The entries of the map; no key stands twice.
abbrev pub Labels : Type 0
Labels = List (Text × Text)

-- `l[key]`, with its second result
unfoldable pub lookup : Text → Labels → Option Text
lookup key [] = none
lookup key ((k, v) ∷ l) = if text_eq k key then some v else lookup key l

abbrev or_empty : Option Text → Text
or_empty none = []
or_empty (some v) = v

abbrev is_some : Option Text → Bool
is_some none = false
is_some (some v) = true

unfoldable pub has : Labels → Text → Bool
has l key = is_some (lookup key l)

unfoldable pub get : Labels → Text → Text
get l key = or_empty (lookup key l)

pub data LabelError : Type 0 where
  too_many_labels : LabelError
  invalid_label_key : KeyError → LabelError
  invalid_label_value : KeyError → LabelError
  system_label : Text → LabelError

-- `fmt.Errorf("…: %w", err)`
unfoldable pub wrap {ℓ κ} :
    {E : Type ℓ} {F : Type κ} → (E → F) → Result E (Unit {0}) → Result F (Unit {0})
wrap f (ok u) = ok u
wrap f (err e) = err (f e)

-- The loop of `Validate`.
unfoldable pub validate_entries : Labels → Result LabelError (Unit {0})
validate_entries [] = ok tt
validate_entries ((k, v) ∷ l) = do
  wrap invalid_label_key (validate_key k)
  wrap invalid_label_value (validate_value v)
  validate_entries l

unfoldable pub validate : Labels → Result LabelError (Unit {0})
validate l = do guard (leb (length l) max_labels) too_many_labels; validate_entries l

unfoldable pub is_system_key : Text → Bool
is_system_key key = has_prefix key prefix_system

unfoldable pub is_security_key : Text → Bool
is_security_key key = has_prefix key prefix_security

unfoldable pub is_reserved_key : Text → Bool
is_reserved_key key = is_system_key key || is_security_key key
