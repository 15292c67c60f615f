-- ===== src/Bencode/Decoder.antt =====
-- modules/bencode/src/bencode_decoder.cpp. The decoder walks `data` by a position; here a function
-- takes `size` and the bytes from the position on, so that `pos` is `size - length rest`.
pub mod Strings
pub mod RoundTrip
pub mod Safe
use dht_hunter.Base.{
  ℕ, zero, suc, ◌+◌, ◌-◌, ◌*◌, ◌%◌, ◌^◌, Bool, true, false, List, [], ◌∷◌, ltb, leb, ◌==◌,
  if◌then◌else◌, length, take, drop, Result, ok, throw, undefined, negative_char, out_of_fuel,
  ◌>>=◌, runtime_error, length_error,
}
use dht_hunter.Base.Text.{isdigit, is_negative, stos, stoull}
use dht_hunter.Bencode.Value.{
  Value, Items, Fields, string, integer, list, dict, nil, end, push_back, insert,
}

-- `while (pos < size && data[pos] != ':')`: the digits passed, and the bytes from the colon on.
unfoldable pub find_colon : List ℕ → Result (List ℕ × List ℕ)
find_colon [] = throw runtime_error
find_colon (c ∷ rest) =
    let more = find_colon rest >>= λ (digits, left). ok (c ∷ digits, left) in
    if c == b':' then ok ([], c ∷ rest) else if isdigit c then more else throw runtime_error

-- std::string(data, n): too long a string throws, a read past the end is undefined behaviour.
-- `max_size` is that of 64-bit libstdc++.
abbrev pub max_size : ℕ
max_size = 2 ^ 63 - 1

unfoldable pub string_at : List ℕ → ℕ → Result (List ℕ × List ℕ)
string_at rest n =
    if ltb max_size n
    then throw length_error
    else if leb n (length rest)
    then ok (take n rest, drop n rest)
    else undefined

-- The test `pos + length > size` is made in 64 bits.
unfoldable pub exceeds : ℕ → List ℕ → ℕ → Bool
exceeds size rest n = ltb size ((size - length rest + n) % 2 ^ 64)

-- `decode_string` up to the BencodeValue that it wraps the string in.
unfoldable pub decode_bytes : ℕ → List ℕ → Result (List ℕ × List ℕ)
decode_bytes size rest = do
  (digits, colon) ← find_colon rest
  n ← stoull digits
  if exceeds size (drop 1 colon) n then throw runtime_error else string_at (drop 1 colon) n

unfoldable pub decode_string : ℕ → List ℕ → Result (Value × List ℕ)
decode_string size rest = do (s, left) ← decode_bytes size rest; ok (string s, left)

-- `while (pos < size && data[pos] != 'e')`: the bytes passed, and those behind the 'e'.
unfoldable pub find_e : List ℕ → Result (List ℕ × List ℕ)
find_e [] = throw runtime_error
find_e (c ∷ rest) =
    let more = find_e rest >>= λ (text, left). ok (c ∷ text, left) in
    if c == b'e' then ok ([], rest) else more

-- Called at the byte behind the 'i'.
unfoldable pub decode_integer : List ℕ → Result (Value × List ℕ)
decode_integer rest = do (text, left) ← find_e rest; z ← stos 64 10 text; ok (integer z, left)

-- The test that `decode_value` makes on the first byte, which it holds as a char.
pub data Lead : Type 0 where
  negative_lead digit i l d other : Lead

unfoldable pub lead : ℕ → Lead
lead c =
    if is_negative c
    then negative_lead
    else if isdigit c
    then digit
    else if c == b'i'
    then i
    else if c == b'l'
    then l
    else if c == b'd'
    then d
    else other

-- The loops of `decode_list` and `decode_dict` carry what they have read; they are entered at the
-- byte behind the 'l' or 'd'. Each call takes one unit of fuel.
unfoldable mutual
  pub decode_value : ℕ → ℕ → List ℕ → Result (Value × List ℕ)
  decode_value zero size rest = out_of_fuel
  decode_value (suc fuel) size [] = throw runtime_error
  decode_value (suc fuel) size (c ∷ rest) = elim (lead c) [
    | negative_lead ↦ negative_char
    | digit ↦ decode_string size (c ∷ rest)
    | i ↦ decode_integer rest
    | l ↦ decode_list fuel size nil rest
    | d ↦ decode_dict fuel size end rest
    | other ↦ throw runtime_error
  ]

  pub decode_list : ℕ → ℕ → Items → List ℕ → Result (Value × List ℕ)
  decode_list zero size acc rest = out_of_fuel
  decode_list (suc fuel) size acc [] = throw runtime_error
  decode_list (suc fuel) size acc (c ∷ rest) = elim (c == b'e') [
    | true ↦ ok (list acc, rest)
    | false ↦ decode_value fuel size (c ∷ rest) >>= λ (v, left).
        decode_list fuel size (push_back acc v) left
  ]

  pub decode_dict : ℕ → ℕ → Fields → List ℕ → Result (Value × List ℕ)
  decode_dict zero size acc rest = out_of_fuel
  decode_dict (suc fuel) size acc [] = throw runtime_error
  decode_dict (suc fuel) size acc (c ∷ rest) = elim (c == b'e') [
    | true ↦ ok (dict acc, rest)
    | false ↦ elim (isdigit c) [
      | false ↦ throw runtime_error
      | true ↦ decode_bytes size (c ∷ rest) >>= λ (key, after_key).
          decode_value fuel size after_key >>= λ (v, left).
          decode_dict fuel size (insert key v acc) left
    ]
  ]

-- `decode(const uint8_t*, size_t)`, to which the overloads for vectors and strings come down.
unfoldable pub decode : List ℕ → Result Value
decode [] = throw runtime_error
decode (c ∷ rest) = do
  (v, left) ← decode_value (2 * length (c ∷ rest) + 1) (length (c ∷ rest)) (c ∷ rest)
  ok v
