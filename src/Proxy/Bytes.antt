-- ===== src/Proxy/Bytes.antt =====
-- What internal/sessionproxy/redis.go uses of bufio, io, strconv and strings. A reader is the list of
-- the bytes that its peer sends before it closes the connection.
use access_gateway.Prelude.{
  ℕ, suc, zero, ◌+◌, ◌*◌, ◌-◌, Bool, false, ◌&&◌, Option, none, some, [], ◌∷◌, Text, leb, ltb, ◌==◌,
  if◌then◌else◌, Result, ok, err,
}

pub data ProxyError : Type 0 where
  end_of_input buffer_full protocol identity audit : ProxyError

pub data ℤ : Type 0 where
  pos : ℕ → ℤ
  negsuc : ℕ → ℤ

abbrev pub Read : Type 0
Read = Result ProxyError (Text × Text)

abbrev pub on_line : ℕ → Read → Read
on_line c (err e) = err e
on_line c (ok (line, rest)) = ok (c ∷ line, rest)

-- `r.ReadSlice('\n')` of a reader with a buffer of `size` bytes.
unfoldable pub read_slice : ℕ → Text → Read
read_slice zero input = err buffer_full
read_slice (suc size) [] = err end_of_input
read_slice (suc size) (c ∷ s) =
    let rest = read_slice size s in if c == 10 then ok (c ∷ [], s) else on_line c rest

-- `r.ReadString('\n')`
unfoldable pub read_string : Text → Read
read_string [] = err end_of_input
read_string (c ∷ s) = let rest = read_string s in if c == 10 then ok (c ∷ [], s) else on_line c rest

-- `io.ReadFull(r, data)` for a slice of `n` bytes.
unfoldable pub read_full : ℕ → Text → Read
read_full zero input = ok ([], input)
read_full (suc n) [] = err end_of_input
read_full (suc n) (c ∷ s) = on_line c (read_full n s)

-- `bytes.HasSuffix(data, []byte("\r\n"))`
unfoldable pub ends_crlf : Text → Bool
ends_crlf [] = false
ends_crlf (a ∷ []) = false
ends_crlf (a ∷ b ∷ []) = a == 13 && b == 10
ends_crlf (a ∷ b ∷ c ∷ s) = ends_crlf (b ∷ c ∷ s)

-- `s[:len(s)-2]`
unfoldable pub drop_two : Text → Text
drop_two [] = []
drop_two (a ∷ []) = []
drop_two (a ∷ b ∷ []) = []
drop_two (a ∷ b ∷ c ∷ s) = a ∷ drop_two (b ∷ c ∷ s)

-- `strings.TrimSuffix(s, "\r\n")`
unfoldable pub trim_crlf : Text → Text
trim_crlf s = if ends_crlf s then drop_two s else s

abbrev is_digit : ℕ → Bool
is_digit c = leb b'0' c && leb c b'9'

unfoldable pub digits : ℕ → Text → Option ℕ
digits n [] = some n
digits n (c ∷ s) = if is_digit c then digits (n * 10 + (c - b'0')) s else none

abbrev unsigned : Text → Option ℕ
unsigned [] = none
unsigned (c ∷ s) = digits 0 (c ∷ s)

abbrev positive : Option ℕ → Option ℤ
positive none = none
positive (some n) = if ltb n 9223372036854775808 then some (pos n) else none

abbrev negative : Option ℕ → Option ℤ
negative none = none
negative (some zero) = some (pos 0)
negative (some (suc n)) = if ltb n 9223372036854775808 then some (negsuc n) else none

-- `strconv.Atoi` on 64 bits.
unfoldable pub atoi : Text → Option ℤ
atoi [] = none
atoi (c ∷ s) =
    if c == b'-'
    then negative (unsigned s)
    else if c == b'+'
    then positive (unsigned s)
    else positive (unsigned (c ∷ s))

abbrev upper : ℕ → ℕ
upper c = if leb b'a' c && leb c b'z' then c - 32 else c

abbrev lower : ℕ → ℕ
lower c = if leb b'A' c && leb c b'Z' then c + 32 else c

-- `strings.ToUpper`, as far as its result is made of ASCII letters: beside those, the runes U+0131
-- and U+017F have one for their upper case. The other runes keep a byte above 127.
unfoldable pub to_upper : Text → Text
to_upper [] = []
to_upper (a ∷ []) = upper a ∷ []
to_upper (a ∷ b ∷ s) =
    let rest = to_upper s in
    let next = to_upper (b ∷ s) in
    if a == 196 && b == 177
    then b'I' ∷ rest
    else if a == 197 && b == 191
    then b'S' ∷ rest
    else upper a ∷ next

-- `strings.ToLower` of ASCII text.
unfoldable pub to_lower : Text → Text
to_lower [] = []
to_lower (c ∷ s) = lower c ∷ to_lower s

-- The folding of `strings.EqualFold` for a comparison with ASCII letters without a K: U+017F folds
-- to `s`.
unfoldable pub fold_case : Text → Text
fold_case [] = []
fold_case (a ∷ []) = lower a ∷ []
fold_case (a ∷ b ∷ s) =
    let rest = fold_case s in
    let next = fold_case (b ∷ s) in if a == 197 && b == 191 then b's' ∷ rest else lower a ∷ next
