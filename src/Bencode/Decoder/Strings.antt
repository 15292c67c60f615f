-- ===== src/Bencode/Decoder/Strings.antt =====
-- The decoder of strings: what the encoder prints is read back.
use dht_hunter.Base.{
  ℕ, ◌^◌, ◌<◌, ◌≤◌, ◌≡◌, refl, false, List, [], ◌∷◌, ◌++◌, append_assoc, length, length-append,
  take-length-append, drop-length-append, All, ok, arith,
}
use dht_hunter.Base.Text.{to_string}
use dht_hunter.Base.Text.RoundTrip.{IsDigit, to_string-IsDigit, stoull-to_string}
use dht_hunter.Bencode.Encoder.{encode_string}
use dht_hunter.Bencode.Decoder.{find_colon, exceeds, string_at, decode_bytes}

pub find_colon-append :
    (ds rest : List ℕ) → All IsDigit ds → find_colon (ds ++ (b':' ∷ rest)) ≡ ok (ds, b':' ∷ rest)
unfolding find_colon
find_colon-append [] rest h = refl
find_colon-append (c ∷ ds) rest h = ground (arith, find_colon-append ds rest h.1)

exceeds-append :
    (size : ℕ) (s rest : List ℕ)
    → length (s ++ rest) ≤ size
    → size < 2 ^ 63
    → exceeds size (s ++ rest) (length s) ≡ false
unfolding exceeds
exceeds-append size s rest h k = ground (arith, length-append s rest)

string_at-append :
    (s rest : List ℕ)
    → length (s ++ rest) < 2 ^ 63
    → string_at (s ++ rest) (length s) ≡ ok (s, rest)
unfolding string_at
string_at-append s rest h =
    ground (arith, length-append s rest, take-length-append s rest, drop-length-append s rest)

-- A printed string is read off the front of the input.
pub decode_bytes-encode_string :
    (size : ℕ) (s rest : List ℕ)
    → length (encode_string s ++ rest) ≤ size
    → size < 2 ^ 63
    → decode_bytes size (encode_string s ++ rest) ≡ ok (s, rest)
unfolding decode_bytes encode_string
decode_bytes-encode_string size s rest h k =
    let digits = to_string (length s) in
    let fits : length (s ++ rest) < size = omega (
      arith,
      length-append (digits ++ (b':' ∷ s)) rest,
      length-append digits (b':' ∷ s),
      length-append s rest,
    ) in
    rw
      (
        append_assoc digits (b':' ∷ s) rest,
        find_colon-append digits (s ++ rest) (to_string-IsDigit (length s)),
      )
      (rw (stoull-to_string (length s) (omega (arith, length-append s rest)))
        (rw (exceeds-append size s rest (omega arith) k) (string_at-append s rest (omega arith))))
