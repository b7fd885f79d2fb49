-- ===== src/Label/KeyGrammar.antt =====
-- The keys and values that `ValidateKey` and `ValidateValue` accept, described without running
-- them (internal/label/label.go).
pub mod Splitting
use access_gateway.Prelude.{
  ◌≤◌, ◌≡◌, ◌≢◌, refl, sym, Bool-cases, Option-cases, Bool, true, false, not, none, some, List, [],
  ◌∷◌, ◌++◌, Text, ◌==◌, All, All-append, leb, is_empty, arith, inl, inr, ◌↔◌, Result, ok, err,
  length, >>=-eq-ok,
}
use access_gateway.Label.Keys.{
  KeyError, is_alphanumeric, is_alphanumeric_lower, is_name_char, is_dns_char, first_byte,
  last_byte, validate_name_chars, validate_dns_label, validate_dns_labels, validate_prefix,
  validate_name, validate_parts, validate_key, validate_value, split, cut, max_key_name_length,
  max_key_prefix_length, max_value_length,
}
use Splitting.{
  Lacks, join_with, all_iff, not-any_iff, cut-append, Lacks-of_cut, append_of_cut, split-join,
  split-ne-nil, join-split, cut_word,
}

-- Letters, digits, '-', '_' and '.', with a letter or a digit at both ends.
pub record IsPlainName (s : Text) : Type 0 where
  pub nonempty : s ≢ []
  pub starts : is_alphanumeric (first_byte s) ≡ true
  pub ends : is_alphanumeric (last_byte s) ≡ true
  pub chars : All (λ c. is_name_char c ≡ true) s

-- Small letters, digits and '-', with a small letter or a digit at both ends.
pub record IsDnsLabel (s : Text) : Type 0 where
  pub nonempty : s ≢ []
  pub starts : is_alphanumeric_lower (first_byte s) ≡ true
  pub ends : is_alphanumeric_lower (last_byte s) ≡ true
  pub chars : All (λ c. is_dns_char c ≡ true) s

-- DNS labels, joined by dots.
pub record IsDnsName (s : Text) : Type 0 where
  pub parts : List Text
  pub nonempty : parts ≢ []
  pub spelled : s ≡ join_with b'.' parts
  pub labels : All IsDnsLabel parts

abbrev pub IsKeyName : Text → Type 0
IsKeyName name = IsPlainName name × (length name ≤ 63)

pub data IsKey (key : Text) : Type 0 where
  plain : IsKeyName key → IsKey key
  prefixed :
      (prefix name : Text)
      → key ≡ prefix ++ b'/' ∷ name
      → IsDnsName prefix
      → length prefix ≤ 253
      → IsKeyName name
      → IsKey key

pub data IsValue (value : Text) : Type 0 where
  empty : value ≡ [] → IsValue value
  named : IsPlainName value → length value ≤ 63 → IsValue value

name_chars_iff : (s : Text) → s ≢ [] → (validate_name_chars s ≡ ok tt) ↔ IsPlainName s
unfolding validate_name_chars
name_chars_iff s ne = (
  λ h. record {
    nonempty = ne;
    starts = ground arith;
    ends = ground arith;
    chars = (all_iff is_name_char s).0 (ground arith);
  },
  λ n. ground (arith, (all_iff is_name_char s).1 n.chars),
)

dns_label_iff : (s : Text) → s ≢ [] → (validate_dns_label s ≡ ok tt) ↔ IsDnsLabel s
unfolding validate_dns_label
dns_label_iff s ne = (
  λ h. record {
    nonempty = ne;
    starts = ground arith;
    ends = ground arith;
    chars = (all_iff is_dns_char s).0 (ground arith);
  },
  λ n. ground (arith, (all_iff is_dns_char s).1 n.chars),
)

dns_labels_iff : (parts : List Text) → (validate_dns_labels parts ≡ ok tt) ↔ All IsDnsLabel parts
unfolding validate_dns_labels
dns_labels_iff [] = (λ _. tt, λ _. refl)
dns_labels_iff ([] ∷ parts) = (λ h. cc, λ h. absurd (h.0.nonempty refl))
dns_labels_iff ((c ∷ s) ∷ parts) =
    let (to, from) = dns_label_iff (c ∷ s) (cc) in
    let (to', from') = dns_labels_iff parts in
    (λ h. (to (ground arith), to' (ground arith)), λ h. rw (from h.0) (from' h.1))

-- A DNS label holds no dot.
dns_label-Lacks : (s : Text) → All (λ c. is_dns_char c ≡ true) s → Lacks b'.' s
unfolding is_dns_char is_alphanumeric_lower
dns_label-Lacks [] h = tt
dns_label-Lacks (c ∷ s) h = (ground arith, dns_label-Lacks s h.1)

dns_labels-Lacks : (parts : List Text) → All IsDnsLabel parts → All (Lacks b'.') parts
dns_labels-Lacks [] h = tt
dns_labels-Lacks (part ∷ parts) h = (dns_label-Lacks part h.0.chars, dns_labels-Lacks parts h.1)

join-ne-nil : (parts : List Text) → parts ≢ [] → All IsDnsLabel parts → join_with b'.' parts ≢ []
join-ne-nil [] ne h = absurd (ne refl)
join-ne-nil (part ∷ []) ne h = h.0.nonempty
join-ne-nil ([] ∷ other ∷ parts) ne h = absurd (h.0.nonempty refl)
join-ne-nil ((c ∷ part) ∷ other ∷ parts) ne h = cc

prefix_iff :
    (prefix : Text) → (validate_prefix prefix ≡ ok tt) ↔ (IsDnsName prefix × (length prefix ≤ 253))
unfolding validate_prefix
prefix_iff prefix = (
  λ h. (
    record {
      parts = split b'.' prefix;
      nonempty = split-ne-nil b'.' prefix;
      spelled = sym (join-split b'.' prefix);
      labels = (dns_labels_iff (split b'.' prefix)).0 (ground arith);
    },
    ground arith,
  ),
  λ n. ground (
    arith,
    join-ne-nil n.0.parts n.0.nonempty n.0.labels,
    n.0.spelled,
    (dns_labels_iff n.0.parts).1 n.0.labels,
    split-join b'.' n.0.parts n.0.nonempty (dns_labels-Lacks n.0.parts n.0.labels),
  ),
)

name_iff : (name : Text) → (validate_name name ≡ ok tt) ↔ IsKeyName name
unfolding validate_name
name_iff [] = (λ h. cc, λ n. absurd (n.0.nonempty refl))
name_iff (c ∷ s) =
    let (to, from) = name_chars_iff (c ∷ s) (cc) in
    (λ h. (to (ground arith), ground arith), λ n. ground (arith, from n.0))

name-Lacks : (s : Text) → All (λ c. is_name_char c ≡ true) s → Lacks b'/' s
unfolding is_name_char is_alphanumeric
name-Lacks [] h = tt
name-Lacks (c ∷ s) h = (ground arith, name-Lacks s h.1)

label-Lacks_slash : (s : Text) → All (λ c. is_dns_char c ≡ true) s → Lacks b'/' s
unfolding is_dns_char is_alphanumeric_lower
label-Lacks_slash [] h = tt
label-Lacks_slash (c ∷ s) h = (ground arith, label-Lacks_slash s h.1)

join-Lacks_slash : (parts : List Text) → All IsDnsLabel parts → Lacks b'/' (join_with b'.' parts)
join-Lacks_slash [] h = tt
join-Lacks_slash (part ∷ []) h = label-Lacks_slash part h.0.chars
join-Lacks_slash (part ∷ other ∷ parts) h =
    All-append (λ c. (c == b'/') ≡ false) part (b'.' ∷ join_with b'.' (other ∷ parts))
      (label-Lacks_slash part h.0.chars) (refl, join-Lacks_slash (other ∷ parts) h.1)

parts_iff :
    (key prefix name : Text)
    → (validate_parts key (some (prefix, name)) ≡ ok tt)
      ↔ (Lacks b'/' name × (validate_prefix prefix ≡ ok tt) × (validate_name name ≡ ok tt))
unfolding validate_parts
parts_iff key prefix name = ground (arith, not-any_iff b'/' name)

key_cons-ne : (prefix name : Text) → is_empty (prefix ++ b'/' ∷ name) ≡ false
key_cons-ne [] name = refl
key_cons-ne (c ∷ prefix) name = refl

parts_ok : (key : Text) → validate_key key ≡ ok tt → validate_parts key (cut b'/' key) ≡ ok tt
unfolding validate_key
parts_ok key h = ground arith

key_from_name : (key : Text) → IsKeyName key → validate_key key ≡ ok tt
unfolding validate_key validate_parts
key_from_name key n =
    ground (arith, n.0.nonempty, cut_word b'/' key (name-Lacks key n.0.chars), (name_iff key).1 n)

key_from : (key : Text) → IsKey key → validate_key key ≡ ok tt
key_from key (IsKey.plain n) = key_from_name key n
key_from key (IsKey.prefixed prefix name spelled p short n) =
    let lacks : Lacks b'/' prefix = rw p.spelled (join-Lacks_slash p.parts p.labels) in
    rw spelled (
      unfold validate_key in
      rw (key_cons-ne prefix name, cut-append b'/' prefix name lacks)
        ((parts_iff (prefix ++ b'/' ∷ name) prefix name).1
          (name-Lacks name n.0.chars, (prefix_iff prefix).1 (p, short), (name_iff name).1 n)))

-- `ValidateKey` accepts exactly the keys of the grammar `[prefix/]name`: the name has 1 to 63
-- letters, digits, '-', '_' and '.', and begins and ends with a letter or a digit; the prefix has
-- at most 253 bytes and is a sequence of DNS labels, joined by dots.
pub validate_key_iff : (key : Text) → (validate_key key ≡ ok tt) ↔ IsKey key
validate_key_iff key = (
  λ h. elim (Option-cases (cut b'/' key)) [
    | inl e ↦ IsKey.plain ((name_iff key).0 (plain_name (rw e at (parts_ok key h))))
    | inr ((prefix, name), e) ↦
        let (lacks, p, n) = (parts_iff key prefix name).0 (rw e at (parts_ok key h)) in
        let (dns, short) = (prefix_iff prefix).0 p in
        IsKey.prefixed prefix name (append_of_cut b'/' key prefix name e).0 dns short
          ((name_iff name).0 n)
  ],
  key_from key,
)
  where
    plain_name : validate_parts key none ≡ ok tt → validate_name key ≡ ok tt
    plain_name h = unfold validate_parts in h

-- `ValidateValue` accepts exactly the empty value and the names of at most 63 bytes.
pub validate_value_iff : (value : Text) → (validate_value value ≡ ok tt) ↔ IsValue value
unfolding validate_value
validate_value_iff [] = (λ _. IsValue.empty refl, λ _. refl)
validate_value_iff (c ∷ s) =
    let (to, from) = name_chars_iff (c ∷ s) (cc) in
    (
      λ h. IsValue.named (to (ground arith)) (ground arith),
      elim [ IsValue.empty e ↦ cc | IsValue.named n short ↦ ground (arith, from n) ],
    )
