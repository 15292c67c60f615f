-- ===== src/Bencode/Stream/Tests.antt =====
-- Runs of the stream reader, and instances of its theorems.
use dht_hunter.Base.{
  ◌<◌, ◌≡◌, refl, false, List, [], ◌∷◌, ◌++◌, length, Meets, ok, throw, runtime_error,
  invalid_argument, arith,
}
use dht_hunter.Base.Int.{pos, negsuc}
use dht_hunter.Base.Text.{codes, stos, stoull, to_string, to_string_ℤ}
use dht_hunter.Bencode.Value.{
  Value, string, integer, list, dict, nil, item, end, field, IsValid, push_back,
}
use dht_hunter.Bencode.Encoder.{encode, encode_string, encode_integer}
use dht_hunter.Bencode.Decoder.{decode, decode_value, decode_integer, find_e, lead}
use dht_hunter.Bencode.Stream.{
  read, read_value, read_string, read_integer, read_bytes, read_list, expect, get_length, get_text,
  write,
}
use dht_hunter.Bencode.Stream.RoundTrip.{read-decode, write_all, read_all, read_all-write_all}
use dht_hunter.Bencode.Stream.Safe.{read-Meets}

-- [1, {"a": ""}]
abbrev sample : Value
sample = list (item (integer (pos 1)) (item (dict (field (codes "a") (string []) end)) nil))

abbrev minus : Value
minus = integer (negsuc 4)

decoded : decode (codes "li3eei5e") ≡ ok (list (item (integer (pos 3)) nil))
unfolding decode decode_value decode_integer find_e lead stos push_back
decoded = refl

listed : read_list (false, codes "li3eex") ≡ ok (item (integer (pos 3)) nil, (false, codes "x"))
unfolding read_list read_value expect read_integer get_text lead stos push_back
listed = refl

-- A string that is cut short inside a list is noticed at the list's end.
short_in_list : read (false, codes "l5:abe") ≡ throw runtime_error
unfolding read read_value read_string read_bytes get_length lead stoull push_back
short_in_list = refl

no_length : read_string (false, codes ":a") ≡ throw invalid_argument
unfolding read_string get_length stoull
no_length = refl

read-decode_example :
    (left : List _) × (read (false, codes "li3eei5e")
      ≡ ok (list (item (integer (pos 3)) nil), (false, left)))
read-decode_example = read-decode (codes "li3eei5e") (list (item (integer (pos 3)) nil)) decoded

read_all-write_all_example :
    read_all (length (sample ∷ minus ∷ [])) (false, write_all (sample ∷ minus ∷ []) [] ++ codes "x")
    ≡ ok (sample ∷ minus ∷ [], (false, codes "x"))
read_all-write_all_example =
    read_all-write_all (sample ∷ minus ∷ []) (codes "x")
      ((omega arith, (((tt, tt), (tt, tt)), tt)), (omega arith, tt))
      (unfold write_all write encode encode_string encode_integer to_string to_string_ℤ in
        omega arith)

read-Meets_example :
    Meets
      (λ (v, (failed', left)). IsValid v × (length left < length (codes "d1:ai7e")))
      (read (false, codes "d1:ai7e"))
read-Meets_example = read-Meets false (codes "d1:ai7e")
