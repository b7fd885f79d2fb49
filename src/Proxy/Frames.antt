-- ===== src/Proxy/Frames.antt =====
-- What `respFrame` (internal/sessionproxy/redis.go) takes from its reader.
use access_gateway.Prelude.{
  ℕ, suc, zero, ◌+◌, ◌*◌, ◌≤◌, ◌≡◌, refl, sym, ap, ◌∙◌, Bool, true, false, ◌&&◌, [], ◌∷◌, ◌++◌,
  append_assoc, append-nil, Text, leb, leb→le, ◌==◌, if◌then◌else◌, length, length-append, Result,
  ok, err, ◌>>=◌, ◌>>◌, >>=-eq-ok, guard, arith,
}
use mathlib.Core.Path.{subst}
use access_gateway.Proxy.Bytes.{
  ProxyError, protocol, ℤ, pos, negsuc, Read, on_line, read_slice, read_full, ends_crlf, drop_two,
  atoi,
}
use access_gateway.Proxy.Framing.{
  max_frame, buffer_size, max_depth, Reading, Kind, line, bulk, array, map, attribute, unknown,
  kind_of, or_protocol, read_bulk, count_of, repeat, head_byte, tail_bytes, read_line, read_rest,
  resp_read, resp_frame,
}

-- A test that has been passed.
pub passed {ℓ} :
    {E : Type ℓ} {A : Type ℓ} (b : Bool) (e : E) (next : Result E A) {last : A}
    → (guard b e >> next) ≡ ok last
    → (b ≡ true) × (next ≡ ok last)
passed true e next h = (refl, h)
passed false e next h = cc

-- The bytes that a reader gives are the first of its input.
abbrev pub Splits : Text → Text × Text → Type 0
Splits input (taken, rest) = input ≡ taken ++ rest

on_line-ok :
    (c : ℕ) (r : Read) (taken rest : Text)
    → on_line c r ≡ ok (taken, rest)
    → (t : Text) × (r ≡ ok (t, rest)) × (taken ≡ c ∷ t)
on_line-ok c (err e) taken rest h = cc
on_line-ok c (ok (t, r)) taken rest h = (t, cc, cc)

more-Splits :
    (c : ℕ) (s : Text) (r : Read) (taken rest : Text)
    → ((t : Text) → r ≡ ok (t, rest) → Splits s (t, rest))
    → on_line c r ≡ ok (taken, rest)
    → Splits (c ∷ s) (taken, rest)
more-Splits c s r taken rest f h =
    let (t, e, q) = on_line-ok c r taken rest h in rw q (ap (λ x. c ∷ x) (f t e))

slice-Splits :
    (b : Bool) (c : ℕ) (s : Text) (r : Read) (taken rest : Text)
    → ((t : Text) → r ≡ ok (t, rest) → Splits s (t, rest))
    → (if b then ok (c ∷ [], s) else on_line c r) ≡ ok (taken, rest)
    → Splits (c ∷ s) (taken, rest)
slice-Splits true c s r taken rest f h = cc
slice-Splits false c s r taken rest f h = more-Splits c s r taken rest f h

read_slice-Splits :
    (size : ℕ) (input taken rest : Text)
    → read_slice size input ≡ ok (taken, rest)
    → Splits input (taken, rest)
unfolding read_slice
read_slice-Splits zero input taken rest h = cc
read_slice-Splits (suc size) [] taken rest h = cc
read_slice-Splits (suc size) (c ∷ s) taken rest h =
    slice-Splits (c == 10) c s (read_slice size s) taken rest
      (λ t e. read_slice-Splits size s t rest e) h

read_full-Splits :
    (n : ℕ) (input taken rest : Text)
    → read_full n input ≡ ok (taken, rest)
    → Splits input (taken, rest) × (length taken ≡ n)
unfolding read_full
read_full-Splits zero input taken rest h = (cc, cc)
read_full-Splits (suc n) [] taken rest h = cc
read_full-Splits (suc n) (c ∷ s) taken rest h =
    let (t, e, q) = on_line-ok c (read_full n s) taken rest h in
    let f = read_full-Splits n s t rest e in (rw q (ap (λ x. c ∷ x) f.0), rw q (ap suc f.1))

-- A part of the input has moved to the buffer, which fits a frame.
pub record Moves (r r' : Reading) : Type 0 where
  pub moved : Text
  pub taken : r.input ≡ moved ++ r'.input
  pub added : r'.out ≡ r.out ++ moved
  pub fits : length r'.out ≤ max_frame

eq-reading : (r r' : Reading) → Path (Result ProxyError Reading) (ok r) (ok r') → r ≡ r'
eq-reading r r' h = cc

second-eq :
    {x y : Text} {r r' : Reading}
    → Path (Result ProxyError (Text × Reading)) (ok (x, r)) (ok (y, r'))
    → r ≡ r'
second-eq h = cc

stays : (r : Reading) → length r.out ≤ max_frame → Moves r r
stays r l = record { moved = []; taken = refl; added = sym (append-nil r.out); fits = l }

follows : (r s t : Reading) → Moves r s → Moves s t → Moves r t
follows r s t m n = record {
  moved = m.moved ++ n.moved;
  taken = m.taken ∙ ap (λ x. m.moved ++ x) n.taken ∙ sym (append_assoc m.moved n.moved t.input);
  added = n.added ∙ ap (λ x. x ++ n.moved) m.added ∙ append_assoc r.out m.moved n.moved;
  fits = n.fits;
}

takes :
    (r : Reading) (moved rest : Text)
    → Splits r.input (moved, rest)
    → length (r.out ++ moved) ≤ max_frame
    → Moves r (record { input = rest; out = r.out ++ moved })
takes r moved rest e l = record { moved = moved; taken = e; added = refl; fits = l }

-- A reader of elements that only moves input to the buffer.
abbrev IsMover : (Reading → Result ProxyError Reading) → Type 0
IsMover f = (r r' : Reading) → f r ≡ ok r' → Moves r r'

repeat-Moves :
    (f : Reading → Result ProxyError Reading) (n : ℕ) (r r' : Reading)
    → IsMover f
    → length r.out ≤ max_frame
    → repeat f n r ≡ ok r'
    → Moves r r'
repeat-Moves f zero r r' m l h = subst (λ x. Moves r x) (eq-reading r r' h) (stays r l)
repeat-Moves f (suc n) r r' m l h =
    let (s, e, q) = >>=-eq-ok (f r) (repeat f n) h in
    let a = m r s e in follows r s r' a (repeat-Moves f n s r' m a.fits q)

read_bulk-Moves :
    (n : ℤ) (r r' : Reading) → length r.out ≤ max_frame → read_bulk n r ≡ ok r' → Moves r r'
unfolding read_bulk
read_bulk-Moves (negsuc (suc n)) r r' l h = cc
read_bulk-Moves (negsuc zero) r r' l h =
    let (_, q) = passed (leb (length r.out + 1) max_frame) protocol (ok r) h in
    subst (λ x. Moves r x) (eq-reading r r' q) (stays r l)
read_bulk-Moves (pos n) r r' l h =
    let (room, q) = passed (leb (n + length r.out + 2) max_frame) protocol _ h in
    let ((taken, rest), e, p) = >>=-eq-ok (read_full (n + 2) r.input) _ q in
    let (_, f) = passed (ends_crlf taken) protocol _ p in
    let (split, size) = read_full-Splits (n + 2) r.input taken rest e in
    subst (λ x. Moves r x) (eq-reading (record { input = rest; out = r.out ++ taken }) r' f)
      (takes r taken rest split (
        omega
          (arith, length-append r.out taken, size, leb→le (n + length r.out + 2) max_frame room)))

read_line-Moves :
    (r r' : Reading) (line_read : Text) → read_line r ≡ ok (line_read, r') → Moves r r'
unfolding read_line
read_line-Moves r r' line_read h =
    let (_, q) = passed (leb (length r.out) max_frame) protocol _ h in
    let ((taken, rest), e, p) = >>=-eq-ok (read_slice buffer_size r.input) _ q in
    let (_, f) = passed (leb 3 (length taken) && ends_crlf taken) protocol _ p in
    let (room, g) = passed (leb (length r.out + length taken) max_frame) protocol _ f in
    subst (λ x. Moves r x) (second-eq g)
      (takes r taken rest (read_slice-Splits buffer_size r.input taken rest e) (
        omega
          (arith, length-append r.out taken, leb→le (length r.out + length taken) max_frame room)))

-- Elements of the number in the line.
counted-Moves :
    (f : Reading → Result ProxyError Reading) (number : Text) (times : ℕ → ℕ) (r r' : Reading)
    → IsMover f
    → length r.out ≤ max_frame
    → (or_protocol (atoi number) >>= λ n. count_of n >>= λ count. repeat f (times count) r) ≡ ok r'
    → Moves r r'
counted-Moves f number times r r' m l h =
    let (n, e, q) = >>=-eq-ok (or_protocol (atoi number)) _ h in
    let (count, d, p) = >>=-eq-ok (count_of n) _ q in repeat-Moves f (times count) r r' m l p

read_rest-Moves :
    (f : Reading → Result ProxyError Reading) (kind : Kind) (number : Text) (r r' : Reading)
    → IsMover f
    → length r.out ≤ max_frame
    → read_rest f kind number r ≡ ok r'
    → Moves r r'
unfolding read_rest
read_rest-Moves f line number r r' m l h = subst (λ x. Moves r x) (eq-reading r r' h) (stays r l)
read_rest-Moves f bulk number r r' m l h =
    let (n, e, q) = >>=-eq-ok (or_protocol (atoi number)) _ h in read_bulk-Moves n r r' l q
read_rest-Moves f array number r r' m l h = counted-Moves f number (λ n. n) r r' m l h
read_rest-Moves f map number r r' m l h = counted-Moves f number (λ n. n * 2) r r' m l h
read_rest-Moves f attribute number r r' m l h =
    let (n, e, q) = >>=-eq-ok (or_protocol (atoi number)) _ h in
    let (count, d, p) = >>=-eq-ok (count_of n) _ q in
    let (last, c, o) = >>=-eq-ok (repeat f (count * 2) r) f p in
    follows r last r' (repeat-Moves f (count * 2) r last m l c) (m last r' o)
read_rest-Moves f unknown number r r' m l h = cc

resp_read-Moves : (left : ℕ) → IsMover (resp_read left)
unfolding resp_read
resp_read-Moves zero r r' h = cc
resp_read-Moves (suc left) r r' h =
    let ((line_read, s), e, q) = >>=-eq-ok (read_line r) _ h in
    let a = read_line-Moves r s line_read e in
    follows r s r' a (
      read_rest-Moves (λ x. resp_read left x) (kind_of (head_byte line_read))
        (drop_two (tail_bytes line_read)) s r' (resp_read-Moves left) a.fits q)

-- A frame is the first part of the input, unchanged, and never longer than the bound, at any nesting
-- of its aggregates; what follows it is left for the next one.
pub resp_frame-fits :
    (input frame rest : Text)
    → resp_frame input ≡ ok (frame, rest)
    → (input ≡ frame ++ rest) × (length frame ≤ max_frame)
unfolding resp_frame
resp_frame-fits input frame rest h =
    let (r, e, q) =
      >>=-eq-ok (resp_read (max_depth + 1) (record { input = input; out = [] })) _ h in
    let m = resp_read-Moves (max_depth + 1) (record { input = input; out = [] }) r e in
    (ground (arith, m.taken, m.added, q), ground (arith, m.fits, q))
