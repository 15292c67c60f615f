-- ===== src/Bencode/Stream.antt =====
-- modules/bencode/src/bencode_stream.cpp. An input stream is its failbit and the bytes not yet
-- read; it is at its end where no byte is left. An output stream is the bytes written to it. The
-- bencode encoder is that of Bencode/Encoder. A byte is read as a char.
pub mod Agree
pub mod RoundTrip
pub mod Safe
pub mod Tests
use dht_hunter.Base.{
  ℕ, zero, suc, ◌+◌, ◌-◌, ◌*◌, Bool, true, false, List, [], ◌∷◌, ◌++◌, ltb, leb, ◌==◌,
  if◌then◌else◌, length, take, drop, replicate, Result, ok, throw, negative_char, out_of_fuel,
  ◌>>=◌, runtime_error, length_error,
}
use dht_hunter.Base.Int.{ℤ}
use dht_hunter.Base.Text.{isdigit, is_negative, stos, stoull}
use dht_hunter.Bencode.Value.{
  Value, Items, Fields, string, integer, list, dict, nil, end, push_back, insert,
}
use dht_hunter.Bencode.Encoder.{encode}
use dht_hunter.Bencode.Decoder.{Lead, negative_lead, digit, i, l, d, other, lead, max_size}

abbrev pub Stream : Type 0
Stream = Bool × List ℕ

-- `stream.get(c)` where the code asks for one byte and throws if it gets another or none.
unfoldable pub expect : ℕ → Stream → Result (List ℕ)
expect b (true, rest) = throw runtime_error
expect b (false, []) = throw runtime_error
expect b (false, c ∷ rest) = if c == b then ok rest else throw runtime_error

-- `while (stream.get(c) && c != ':')`: the digits, and the bytes behind the colon.
unfoldable pub get_length : List ℕ → Result (List ℕ × List ℕ)
get_length [] = throw runtime_error
get_length (c ∷ rest) =
    let more = get_length rest >>= λ (digits, left). ok (c ∷ digits, left) in
    if c == b':'
    then ok ([], rest)
    else if is_negative c
    then negative_char
    else if isdigit c
    then more
    else throw runtime_error

-- `value.resize(length)` and `stream.read(&value[0], length)`: where the bytes run out, the rest of
-- the string stays zero and the failbit is set. The test behind it asks for failure without the
-- end of the stream, which does not occur.
unfoldable pub read_bytes : ℕ → List ℕ → Result (List ℕ × Stream)
read_bytes n rest =
    if ltb max_size n
    then throw length_error
    else if leb n (length rest)
    then ok (take n rest, (false, drop n rest))
    else ok (rest ++ replicate (n - length rest) 0, (true, []))

unfoldable pub read_string : Stream → Result (List ℕ × Stream)
read_string (true, rest) = throw runtime_error
read_string (false, rest) = do
  (digits, left) ← get_length rest
  n ← stoull digits
  read_bytes n left

-- `while (stream.get(c) && c != 'e')`: the text, and the bytes behind the 'e'.
unfoldable pub get_text : List ℕ → Result (List ℕ × List ℕ)
get_text [] = throw runtime_error
get_text (c ∷ rest) =
    let more = get_text rest >>= λ (text, left). ok (c ∷ text, left) in
    if c == b'e' then ok ([], rest) else more

unfoldable pub read_integer : Stream → Result (ℤ × Stream)
unfolding expect
read_integer stream = do
  rest ← expect b'i' stream
  (text, left) ← get_text rest
  z ← stos 64 10 text
  ok (z, (false, left))

-- BencodeValue(value), of what a call read.
abbrev pub wrap : {A : Type 0} → (A → Value) → Result (A × Stream) → Result (Value × Stream)
wrap f m = m >>= λ (a, left). ok (f a, left)

-- `read` peeks at the next byte; the loops of `read_list` and `read_dict` make the same choice for
-- each value. `read_items` and `read_fields` are these loops, behind the 'l' or the 'd': a stream
-- that has failed leaves them and throws at the 'e'. Each call takes one unit of fuel.
unfoldable mutual
  pub read_value : ℕ → Stream → Result (Value × Stream)
  read_value zero stream = out_of_fuel
  read_value (suc fuel) (true, rest) = throw runtime_error
  read_value (suc fuel) (false, []) = throw runtime_error
  read_value (suc fuel) (false, c ∷ rest) = elim (lead c) [
    | negative_lead ↦ negative_char
    | digit ↦ wrap string (read_string (false, c ∷ rest))
    | i ↦ wrap integer (read_integer (false, c ∷ rest))
    | l ↦ wrap list (read_items fuel nil (false, rest))
    | d ↦ wrap dict (read_fields fuel end (false, rest))
    | other ↦ throw runtime_error
  ]

  pub read_items : ℕ → Items → Stream → Result (Items × Stream)
  read_items zero acc stream = out_of_fuel
  read_items (suc fuel) acc (true, rest) = throw runtime_error
  read_items (suc fuel) acc (false, []) = throw runtime_error
  read_items (suc fuel) acc (false, c ∷ rest) = elim (c == b'e') [
    | true ↦ ok (acc, (false, rest))
    | false ↦
        read_value fuel (false, c ∷ rest) >>= λ (v, left). read_items fuel (push_back acc v) left
  ]

  pub read_fields : ℕ → Fields → Stream → Result (Fields × Stream)
  read_fields zero acc stream = out_of_fuel
  read_fields (suc fuel) acc (true, rest) = throw runtime_error
  read_fields (suc fuel) acc (false, []) = throw runtime_error
  read_fields (suc fuel) acc (false, c ∷ rest) = elim (c == b'e') [
    | true ↦ ok (acc, (false, rest))
    | false ↦ elim (isdigit c) [
      | false ↦ if is_negative c then negative_char else throw runtime_error
      | true ↦ read_string (false, c ∷ rest) >>= λ (key, after_key).
          read_value fuel after_key >>= λ (v, left). read_fields fuel (insert key v acc) left
    ]
  ]

unfoldable pub read : Stream → Result (Value × Stream)
read (failed, rest) = read_value (2 * length rest + 1) (failed, rest)

unfoldable pub read_list : Stream → Result (Items × Stream)
unfolding expect
read_list stream = do rest ← expect b'l' stream; read_items (2 * length rest + 2) nil (false, rest)

unfoldable pub read_dict : Stream → Result (Fields × Stream)
unfolding expect
read_dict stream = do rest ← expect b'd' stream; read_fields (2 * length rest + 2) end (false, rest)

-- The bytes in the output stream afterwards, and the number written.
unfoldable pub write : Value → List ℕ → ℕ × List ℕ
write v out = (length (encode v), out ++ encode v)
