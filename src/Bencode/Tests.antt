-- ===== src/Bencode/Tests.antt =====
-- Runs of the bencode functions, and instances of their theorems.
use dht_hunter.Base.{
  ◌≡◌, ◌↔◌, refl, true, ◌++◌, bytes_lt, ok, throw, Meets, negative_char, ◌∷◌, [], runtime_error,
  invalid_argument, arith,
}
use dht_hunter.Base.Int.{pos, negsuc}
use dht_hunter.Base.Text.{codes, stos, stoull, to_string, to_string_ℤ}
use dht_hunter.Bencode.Value.{
  Value, string, integer, list, dict, nil, item, end, field, set_index, value_eq, IsValid, insert,
  assign,
}
use dht_hunter.Bencode.Value.Equality.{value_eq_iff}
use dht_hunter.Bencode.Encoder.{encode, encode_string, encode_integer}
use dht_hunter.Bencode.Decoder.{
  decode, decode_value, decode_string, decode_integer, decode_bytes, find_colon, find_e, exceeds,
  string_at, lead,
}
use dht_hunter.Bencode.Decoder.RoundTrip.{decode-encode}
use dht_hunter.Bencode.Decoder.Safe.{decode-Meets}

-- {"id": -7, "l": ["ab", []]}
abbrev sample : Value
sample = dict (
    field (codes "id") (integer (negsuc 6))
      (field (codes "l") (list (item (string (codes "ab")) (item (list nil) nil))) end))

encode-sample : encode sample ≡ codes "d2:idi-7e1:ll2:ableee"
unfolding encode encode_string encode_integer to_string to_string_ℤ
encode-sample = refl

decode_unsorted :
    decode (codes "d1:bi2e1:ai1ee")
    ≡ ok (dict (field (codes "a") (integer (pos 1)) (field (codes "b") (integer (pos 2)) end)))
unfolding decode decode_value decode_integer decode_bytes find_colon find_e exceeds string_at lead
    stos stoull insert bytes_lt
decode_unsorted = refl

sample-IsValid : IsValid sample
unfolding bytes_lt
sample-IsValid = (((refl, tt), (tt, tt)), (omega arith, ((tt, (tt, tt)), tt)))

-- Other exceptions than the documented std::runtime_error.
decode_no_digits : decode (codes "ie") ≡ throw invalid_argument
unfolding decode decode_value decode_integer find_e lead stos
decode_no_digits = refl

decode_overrun : decode (codes "5:ab") ≡ throw runtime_error
unfolding decode decode_value decode_string decode_bytes find_colon exceeds lead stoull
decode_overrun = refl

-- A value that begins with the byte 128, and one with the byte 255, which is EOF.
decode_negative : decode (128 ∷ []) ≡ negative_char
unfolding decode decode_value lead
decode_negative = refl

decode_eof : decode (255 ∷ []) ≡ throw runtime_error
unfolding decode decode_value lead
decode_eof = refl

decode-encode_example : decode (encode sample ++ codes "junk") ≡ ok sample
decode-encode_example =
    decode-encode sample (codes "junk") sample-IsValid
      (unfold encode encode_string encode_integer to_string to_string_ℤ in omega arith)

decode-Meets_example : Meets IsValid (decode (codes "18446744073709551615:x"))
decode-Meets_example = decode-Meets (codes "18446744073709551615:x") (omega arith)

abbrev seven : Value
seven = integer (pos 7)

abbrev pair : Value
pair = list (item seven (item sample nil))

abbrev sevens : Value
sevens = list (item seven (item seven nil))

set_pair : set_index pair 1 seven ≡ ok sevens
unfolding set_index assign
set_pair = refl

value_eq_iff_example : (value_eq sample pair ≡ true) ↔ (sample ≡ pair)
value_eq_iff_example = value_eq_iff sample pair
