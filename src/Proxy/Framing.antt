-- ===== src/Proxy/Framing.antt =====
-- internal/sessionproxy/redis.go: `respRead`, `respFrame` and `respArgs`. The depth counts down: 33
-- levels are left at the start, and none at a depth above 32.
use access_gateway.Prelude.{
  ℕ, suc, zero, ◌+◌, ◌*◌, ◌&&◌, ◌||◌, Option, none, some, List, [], ◌∷◌, ◌++◌, Text, leb, ◌==◌,
  if◌then◌else◌, length, is_empty, Result, ok, err, ◌>>=◌, ◌>>◌, guard,
}
use access_gateway.Proxy.Bytes.{
  ProxyError, protocol, ℤ, pos, negsuc, read_slice, read_string, read_full, ends_crlf, drop_two,
  trim_crlf, atoi,
}

-- `16 << 20`
abbrev pub max_frame : ℕ
max_frame = 16777216

abbrev pub buffer_size : ℕ
buffer_size = 65536

abbrev pub max_depth : ℕ
max_depth = 32

-- The reader, and what has been written to the buffer.
pub record Reading : Type 0 where
  pub input : Text
  pub out : Text

pub data Kind : Type 0 where
  line bulk array map attribute unknown : Kind

-- The switch on the first byte of a line.
unfoldable pub kind_of : ℕ → Kind
kind_of c =
    if c == b'+' || c == b'-' || c == b':' || c == b',' || c == b'(' || c == b'_' || c == b'#'
    then line
    else if c == b'$' || c == b'!' || c == b'='
    then bulk
    else if c == b'*' || c == b'~' || c == b'>'
    then array
    else if c == b'%'
    then map
    else if c == b'|'
    then attribute
    else unknown

abbrev pub or_protocol {ℓ} : {A : Type ℓ} → Option A → Result ProxyError A
or_protocol none = err protocol
or_protocol (some a) = ok a

-- The data of a blob, whose size the line has given.
unfoldable pub read_bulk : ℤ → Reading → Result ProxyError Reading
read_bulk (negsuc (suc n)) r = err protocol
read_bulk (negsuc zero) r = do guard (leb (length r.out + 1) max_frame) protocol; ok r
read_bulk (pos n) r = do
  guard (leb (n + length r.out + 2) max_frame) protocol
  (data_read, rest) ← read_full (n + 2) r.input
  guard (ends_crlf data_read) protocol
  ok (record { input = rest; out = r.out ++ data_read })

-- The number of elements; -1 is a null and has none.
unfoldable pub count_of : ℤ → Result ProxyError ℕ
count_of (negsuc (suc n)) = err protocol
count_of (negsuc zero) = ok 0
count_of (pos n) = do guard (leb n 65536) protocol; ok n

abbrev pub repeat : (Reading → Result ProxyError Reading) → ℕ → Reading → Result ProxyError Reading
repeat f zero r = ok r
repeat f (suc n) r = f r >>= repeat f n

-- What follows the line, by its kind; `read` reads an element.
unfoldable pub read_rest :
    (Reading → Result ProxyError Reading) → Kind → Text → Reading → Result ProxyError Reading
read_rest read line number r = ok r
read_rest read bulk number r = do n ← or_protocol (atoi number); read_bulk n r
read_rest read array number r = do
  n ← or_protocol (atoi number)
  count ← count_of n
  repeat read count r
read_rest read map number r = do
  n ← or_protocol (atoi number)
  count ← count_of n
  repeat read (count * 2) r
read_rest read attribute number r = do
  n ← or_protocol (atoi number)
  count ← count_of n
  last ← repeat read (count * 2) r
  read last
read_rest read unknown number r = err protocol

abbrev pub head_byte : Text → ℕ
head_byte [] = 0
head_byte (c ∷ s) = c

abbrev pub tail_bytes : Text → Text
tail_bytes [] = []
tail_bytes (c ∷ s) = s

-- The line with its terminator, and the test of its length and ending.
unfoldable pub read_line : Reading → Result ProxyError (Text × Reading)
read_line r = do
  guard (leb (length r.out) max_frame) protocol
  (line_read, rest) ← read_slice buffer_size r.input
  guard (leb 3 (length line_read) && ends_crlf line_read) protocol
  guard (leb (length r.out + length line_read) max_frame) protocol
  ok (line_read, record { input = rest; out = r.out ++ line_read })

unfoldable pub resp_read : ℕ → Reading → Result ProxyError Reading
resp_read zero r = err protocol
resp_read (suc left) r = do
  (line_read, r') ← read_line r
  read_rest (λ x. resp_read left x) (kind_of (head_byte line_read))
      (drop_two (tail_bytes line_read)) r'

unfoldable pub resp_frame : Text → Result ProxyError (Text × Text)
resp_frame input = do
  r ← resp_read (max_depth + 1) (record { input = input; out = [] })
  ok (r.out, r.input)

-- One argument: a blob of a size that is not negative.
unfoldable pub read_size : ℤ → Result ProxyError ℕ
read_size (negsuc n) = err protocol
read_size (pos n) = do guard (leb n max_frame) protocol; ok n

abbrev or_stop : Result ProxyError (Text × Text) → Result ProxyError (Text × Text)
or_stop (err e) = err protocol
or_stop (ok x) = ok x

abbrev pub header : ℕ → Text → Result ProxyError (ℤ × Text)
header kind input = do
  (line_read, rest) ← or_stop (read_string input)
  guard (leb 4 (length line_read) && head_byte line_read == kind) protocol
  n ← or_protocol (atoi (trim_crlf (tail_bytes line_read)))
  ok (n, rest)

unfoldable pub read_arg : Text → Result ProxyError (Text × Text)
read_arg input = do
  (n, rest) ← header b'$' input
  size ← read_size n
  (v, rest') ← read_full (size + 2) rest
  guard (ends_crlf v) protocol
  ok (drop_two v, rest')

unfoldable pub read_args : ℕ → Text → Result ProxyError (List Text × Text)
read_args zero input = ok ([], input)
read_args (suc n) input = do
  (arg, rest) ← read_arg input
  (args, rest') ← read_args n rest
  ok (arg ∷ args, rest')

abbrev arg_count : ℤ → Result ProxyError ℕ
arg_count (negsuc n) = err protocol
arg_count (pos n) = do guard (leb 1 n && leb n 4096) protocol; ok n

-- The arguments of a frame that `respFrame` has read.
unfoldable pub resp_args : Text → Result ProxyError (List Text)
resp_args frame = do
  (n, rest) ← header b'*' frame
  count ← arg_count n
  (args, rest') ← read_args count rest
  guard (is_empty rest') protocol
  ok args
