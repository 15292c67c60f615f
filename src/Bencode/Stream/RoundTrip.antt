-- ===== src/Bencode/Stream/RoundTrip.antt =====
-- What the stream reader makes of encoded values, and of strings that are cut short.
use dht_hunter.Base.{
  ℕ, zero, suc, ◌+◌, ◌-◌, ◌*◌, ◌^◌, ◌≤◌, ◌<◌, ◌≡◌, refl, sym, ap, ◌∙◌, true, false, List, [], ◌∷◌,
  ◌++◌, append_assoc, append-nil, length, length-append, replicate, All, Result, ok, throw, ◌>>=◌,
  >>=-eq-ok, runtime_error, arith,
}
use dht_hunter.Base.Text.{to_string}
use dht_hunter.Base.Text.RoundTrip.{
  to_string-IsDigit, to_string_head, stoull-to_string, length-to_string, IsDigit,
}
use dht_hunter.Bencode.Value.{Value, string, IsValid}
use dht_hunter.Bencode.Encoder.{encode}
use dht_hunter.Bencode.Decoder.{
  max_size, exceeds, decode_bytes, decode_string, lead, decode_value, decode,
}
use dht_hunter.Bencode.Decoder.Strings.{find_colon-append}
use dht_hunter.Bencode.Decoder.RoundTrip.{decode_value-encode}
use dht_hunter.Bencode.Stream.{
  Stream, get_length, read_bytes, read_string, read_value, read, write, wrap,
}
use dht_hunter.Bencode.Stream.Agree.{read_value-decode_value, get_length-find_colon}

-- The stream reader accepts whatever the decoder accepts, with the same value: if `decode` returns
-- a value for some bytes, `read` returns it from a stream that holds these bytes, and the stream
-- has not failed.
pub read-decode :
    (bytes : List ℕ) (v : Value)
    → decode bytes ≡ ok v
    → (left : List ℕ) × (read (false, bytes) ≡ ok (v, (false, left)))
unfolding decode read
read-decode [] v h = cc
read-decode (c ∷ rest) v h =
    let ((w, left), p, h') =
      >>=-eq-ok (decode_value (2 * length (c ∷ rest) + 1) (length (c ∷ rest)) (c ∷ rest)) _ h in
    (
      left,
      rw
          (read_value-decode_value (2 * length (c ∷ rest) + 1) (length (c ∷ rest)) (c ∷ rest) w left
            p)
          (ground (arith, h')),
    )

read-encode :
    (v : Value) (rest : List ℕ)
    → IsValid v
    → length (encode v ++ rest) < 2 ^ 63
    → read (false, encode v ++ rest) ≡ ok (v, (false, rest))
unfolding read
read-encode v rest valid h =
    read_value-decode_value (2 * length (encode v ++ rest) + 1) (length (encode v ++ rest))
      (encode v ++ rest) v rest
      (decode_value-encode v (2 * length (encode v ++ rest) + 1) (length (encode v ++ rest)) rest
        valid (omega (arith, length-append (encode v) rest)) (omega arith) h)

-- Writing values one after the other to a stream, and reading as many.
unfoldable pub write_all : List Value → List ℕ → List ℕ
write_all [] out = out
write_all (v ∷ vs) out = write_all vs (write v out).1

unfoldable pub read_all : ℕ → Stream → Result (List Value × Stream)
read_all zero stream = ok ([], stream)
read_all (suc n) stream = do (v, left) ← read stream; (vs, end) ← read_all n left; ok (v ∷ vs, end)

concat : List Value → List ℕ
concat [] = []
concat (v ∷ vs) = encode v ++ concat vs

write_all-concat : (vs : List Value) (out : List ℕ) → write_all vs out ≡ out ++ concat vs
unfolding write_all write concat
write_all-concat [] out = sym (append-nil out)
write_all-concat (v ∷ vs) out =
    write_all-concat vs (out ++ encode v) ∙ append_assoc out (encode v) (concat vs)

read_all-concat :
    (vs : List Value) (rest : List ℕ)
    → All IsValid vs
    → length (concat vs ++ rest) < 2 ^ 63
    → read_all (length vs) (false, concat vs ++ rest) ≡ ok (vs, (false, rest))
unfolding read_all concat
read_all-concat [] rest valid h = refl
read_all-concat (v ∷ vs) rest valid h =
    let e = append_assoc (encode v) (concat vs) rest in
    rw e (
      rw (read-encode v (concat vs ++ rest) valid.0 (omega (arith, ap length e))) (
        rw
          (read_all-concat vs rest valid.1
            (omega (arith, ap length e, length-append (encode v) (concat vs ++ rest))))
          refl))

-- Values written to a stream one after the other are read back one after the other: for values that
-- the C++ types can hold, as many calls of `read` return them in their order and leave the bytes
-- that follow, while the stream holds fewer than 2 ^ 63 bytes.
pub read_all-write_all :
    (vs : List Value) (rest : List ℕ)
    → All IsValid vs
    → length (write_all vs [] ++ rest) < 2 ^ 63
    → read_all (length vs) (false, write_all vs [] ++ rest) ≡ ok (vs, (false, rest))
read_all-write_all vs rest valid h =
    let e = write_all-concat vs [] in rw e (read_all-concat vs rest valid (rw e at h))

get_length-printed :
    (n : ℕ) (s : List ℕ) → get_length (to_string n ++ (b':' ∷ s)) ≡ ok (to_string n, s)
get_length-printed n s =
    get_length-find_colon (to_string n ++ (b':' ∷ s)) (to_string n) (b':' ∷ s)
      (find_colon-append (to_string n) s (to_string-IsDigit n))

read_string-printed :
    (n : ℕ) (s : List ℕ)
    → length s < n
    → n ≤ max_size
    → read_string (false, to_string n ++ (b':' ∷ s))
      ≡ ok (s ++ replicate (n - length s) 0, (true, []))
unfolding read_string read_bytes
read_string-printed n s short h =
    rw (get_length-printed n s) (rw (stoull-to_string n (omega arith)) (ground arith))

decode_bytes-printed :
    (size n : ℕ) (s : List ℕ)
    → length s < n
    → n ≤ max_size
    → size ≡ length (to_string n) + 1 + length s
    → decode_bytes size (to_string n ++ (b':' ∷ s)) ≡ throw runtime_error
unfolding decode_bytes exceeds
decode_bytes-printed size n s short h e =
    rw (find_colon-append (to_string n) s (to_string-IsDigit n))
      (rw (stoull-to_string n (omega arith)) (ground (arith, length-to_string n (omega arith))))

-- One step of both, at a digit.
read_digit :
    (c : ℕ) (t : List ℕ)
    → IsDigit c
    → read (false, c ∷ t) ≡ wrap string (read_string (false, c ∷ t))
unfolding read read_value lead
read_digit c t h =
    let more : 2 * length (c ∷ t) + 1 ≡ suc (2 * length (c ∷ t)) = omega arith in
    rw more (ground arith)

decode_digit :
    (c : ℕ) (t : List ℕ)
    → IsDigit c
    → decode_bytes (length (c ∷ t)) (c ∷ t) ≡ throw runtime_error
    → decode (c ∷ t) ≡ throw runtime_error
unfolding decode decode_value decode_string lead
decode_digit c t h e =
    let more : 2 * length (c ∷ t) + 1 ≡ suc (2 * length (c ∷ t)) = omega arith in
    rw more (ground arith)

-- A string that the stream cuts short is read as if it were whole, with zeros in place of the bytes
-- that are not there: for a length up to the maximal size of a string and fewer bytes behind it,
-- `read` returns without an exception, where `decode` throws std::runtime_error.
pub read_truncated :
    (n : ℕ) (s : List ℕ)
    → length s < n
    → n ≤ max_size
    → (read (false, to_string n ++ (b':' ∷ s))
        ≡ ok (string (s ++ replicate (n - length s) 0), (true, [])))
      × (decode (to_string n ++ (b':' ∷ s)) ≡ throw runtime_error)
read_truncated n s short h =
    let (c, t, e, d) = to_string_head n in
    let front = ap (λ (u : List ℕ). u ++ (b':' ∷ s)) e in
    let whole = length-append (to_string n) (b':' ∷ s) in
    (
      rw front (
          rw (read_digit c (t ++ (b':' ∷ s)) d)
            (rw (rw front at (read_string-printed n s short h)) refl)),
      rw front (
          decode_digit c (t ++ (b':' ∷ s)) d (
            rw front at (
              decode_bytes-printed (length (to_string n ++ (b':' ∷ s))) n s short h
                (omega (arith, whole))))),
    )
