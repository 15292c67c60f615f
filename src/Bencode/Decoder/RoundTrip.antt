-- ===== src/Bencode/Decoder/RoundTrip.antt =====
-- What the encoder prints, the decoder reads back.
use dht_hunter.Base.{
  ℕ, zero, suc, ◌+◌, ◌*◌, ◌^◌, ◌<◌, ◌≤◌, ◌≡◌, ◌∙◌, refl, sym, ap, false, List, [], ◌∷◌, ◌++◌,
  append_assoc, ◌==◌, length, length-append, ok, ◌>>=◌, arith, All,
}
use dht_hunter.Base.Int.{ℤ, pos, negsuc, IsInt64}
use dht_hunter.Base.Text.{to_string, to_string_ℤ}
use dht_hunter.Base.Text.RoundTrip.{IsDigit, to_string-IsDigit, to_string_head, stos-to_string_ℤ}
use dht_hunter.Bencode.Value.{
  Value, Items, Fields, string, integer, list, dict, nil, item, end, field, push_back, insert,
  IsValid, AllValid, FieldsValid, IsSorted,
}
use dht_hunter.Bencode.Value.Append.{
  append, append-nil_items, append-push_back, join, join-end, join-field, insert-join,
}
use dht_hunter.Bencode.Encoder.{encode_string, encode_integer, encode, encode_items, encode_fields}
use dht_hunter.Bencode.Decoder.{
  find_e, decode_bytes, decode_string, decode_integer, lead, decode_value, decode_list, decode_dict,
  decode,
}
use dht_hunter.Bencode.Decoder.Strings.{decode_bytes-encode_string}

-- Digits and signs are not the letter e.
abbrev NotE : ℕ → Type 0
NotE c = (c == b'e') ≡ false

IsDigit-NotE : (s : List ℕ) → All IsDigit s → All NotE s
IsDigit-NotE [] h = tt
IsDigit-NotE (c ∷ s) h = (ground arith, IsDigit-NotE s h.1)

to_string_ℤ-NotE : (z : ℤ) → All NotE (to_string_ℤ z)
unfolding to_string_ℤ
to_string_ℤ-NotE (pos n) = IsDigit-NotE (to_string n) (to_string-IsDigit n)
to_string_ℤ-NotE (negsuc n) = (refl, IsDigit-NotE (to_string (suc n)) (to_string-IsDigit (suc n)))

find_e-append : (s rest : List ℕ) → All NotE s → find_e (s ++ (b'e' ∷ rest)) ≡ ok (s, rest)
unfolding find_e
find_e-append [] rest h = refl
find_e-append (c ∷ s) rest h = ground (arith, find_e-append s rest h.1)

decode_integer-to_string_ℤ :
    (z : ℤ) (rest : List ℕ)
    → IsInt64 z
    → decode_integer (to_string_ℤ z ++ (b'e' ∷ rest)) ≡ ok (integer z, rest)
unfolding decode_integer
decode_integer-to_string_ℤ z rest h =
    rw (find_e-append (to_string_ℤ z) rest (to_string_ℤ-NotE z), stos-to_string_ℤ z h)

-- A printed string begins with a digit.
encode_string_head : (s : List ℕ) → (c : ℕ) × (t : List ℕ) × (encode_string s ≡ c ∷ t) × IsDigit c
unfolding encode_string
encode_string_head s =
    let (c, t, e, h) = to_string_head (length s) in
    (c, t ++ (b':' ∷ s), ap (λ (u : List ℕ). u ++ (b':' ∷ s)) e, h)

-- No printed value begins with an e.
encode_head : (v : Value) → (c : ℕ) × (t : List ℕ) × (encode v ≡ c ∷ t) × NotE c
unfolding encode encode_integer
encode_head (string s) = let (c, t, e, h) = encode_string_head s in (c, t, e, ground arith)
encode_head (integer z) = (b'i', to_string_ℤ z ++ (b'e' ∷ []), refl, refl)
encode_head (list xs) = (b'l', encode_items xs ++ (b'e' ∷ []), refl, refl)
encode_head (dict fs) = (b'd', encode_fields fs ++ (b'e' ∷ []), refl, refl)

pub length-encode_pos : (v : Value) → 0 < length (encode v)
length-encode_pos v = let (c, t, e, _) = encode_head v in omega (arith, ap length e)

length-encode_string_pos : (s : List ℕ) → 0 < length (encode_string s)
length-encode_string_pos s = let (c, t, e, _) = encode_string_head s in omega (arith, ap length e)

-- One round of each function, at printed input.
decode_value-string :
    (fuel size : ℕ) (s rest : List ℕ)
    → decode_value (suc fuel) size (encode_string s ++ rest)
      ≡ decode_string size (encode_string s ++ rest)
unfolding decode_value lead
decode_value-string fuel size s rest =
    let (c, t, e, h) = encode_string_head s in rw e (ground arith)

decode_list-item :
    (fuel size : ℕ) (acc : Items) (v : Value) (rest : List ℕ)
    → decode_list (suc fuel) size acc (encode v ++ rest) ≡ (
        decode_value fuel size (encode v ++ rest) >>= λ (w, left).
        decode_list fuel size (push_back acc w) left)
unfolding decode_value
decode_list-item fuel size acc v rest =
    let (c, t, e, h) = encode_head v in rw e (rw (h, decode_list))

decode_dict-field :
    (fuel size : ℕ) (acc : Fields) (k rest : List ℕ)
    → decode_dict (suc fuel) size acc (encode_string k ++ rest) ≡ (
        decode_bytes size (encode_string k ++ rest) >>= λ (key, after_key).
        decode_value fuel size after_key >>= λ (v, left).
        decode_dict fuel size (insert key v acc) left)
unfolding decode_value
decode_dict-field fuel size acc k rest =
    let (c, t, e, h) = encode_string_head k in
    let not_e : NotE c = ground arith in rw e (rw (not_e, h, decode_dict))

decode_string-encode_string :
    (size : ℕ) (s rest : List ℕ)
    → length (encode_string s ++ rest) ≤ size
    → size < 2 ^ 63
    → decode_string size (encode_string s ++ rest) ≡ ok (string s, rest)
unfolding decode_string
decode_string-encode_string size s rest h k = rw (decode_bytes-encode_string size s rest h k)

decode_value-encode_integer :
    (fuel size : ℕ) (z : ℤ) (rest : List ℕ)
    → IsInt64 z
    → decode_value (suc fuel) size (encode_integer z ++ rest) ≡ ok (integer z, rest)
unfolding decode_value lead encode_integer
decode_value-encode_integer fuel size z rest h =
    rw (append_assoc (to_string_ℤ z) (b'e' ∷ []) rest) (decode_integer-to_string_ℤ z rest h)

lengths_of :
    (xs ys zs : List ℕ)
    → (length ((xs ++ ys) ++ zs) ≡ length xs + length ys + length zs)
      × (length (xs ++ (ys ++ zs)) ≡ length xs + length ys + length zs)
      × (length (ys ++ zs) ≡ length ys + length zs)
      × (length (xs ++ ys) ≡ length xs + length ys)
lengths_of xs ys zs = omega (
  arith,
  length-append (xs ++ ys) zs,
  length-append xs (ys ++ zs),
  length-append ys zs,
  length-append xs ys,
)

-- With enough fuel, and an input below 2 ^ 63 bytes, each function reads what was printed and
-- leaves what follows.
mutual
  unfolding encode decode_value lead

  pub decode_value-encode :
      (v : Value) (fuel size : ℕ) (rest : List ℕ)
      → IsValid v
      → 2 * length (encode v) < fuel
      → length (encode v ++ rest) ≤ size
      → size < 2 ^ 63
      → decode_value fuel size (encode v ++ rest) ≡ ok (v, rest)
  decode_value-encode v zero size rest valid f h k = elim f [ ]
  decode_value-encode (string s) (suc fuel) size rest valid f h k =
      rw (decode_value-string fuel size s rest) (decode_string-encode_string size s rest h k)
  decode_value-encode (integer z) (suc fuel) size rest valid f h k =
      decode_value-encode_integer fuel size z rest valid
  decode_value-encode (list xs) (suc fuel) size rest valid f h k =
      rw (append_assoc (encode_items xs) (b'e' ∷ []) rest) (
        decode_list-encode_items xs fuel size nil rest valid
          (omega (arith, length-append (encode_items xs) (b'e' ∷ [])))
          (omega (arith, ap length (append_assoc (encode_items xs) (b'e' ∷ []) rest))) k)
  decode_value-encode (dict fs) (suc fuel) size rest valid f h k =
      rw (append_assoc (encode_fields fs) (b'e' ∷ []) rest) (
        decode_dict-encode_fields fs fuel size end rest valid.0 valid.1
          (omega (arith, length-append (encode_fields fs) (b'e' ∷ [])))
          (omega (arith, ap length (append_assoc (encode_fields fs) (b'e' ∷ []) rest))) k)

  decode_list-encode_items :
      (xs : Items) (fuel size : ℕ) (acc : Items) (rest : List ℕ)
      → AllValid xs
      → 2 * length (encode_items xs) + 1 < fuel
      → length (encode_items xs ++ (b'e' ∷ rest)) < size
      → size < 2 ^ 63
      → decode_list fuel size acc (encode_items xs ++ (b'e' ∷ rest))
        ≡ ok (list (append acc xs), rest)
  decode_list-encode_items xs zero size acc rest valid f h k = absurd (omega arith)
  decode_list-encode_items nil (suc fuel) size acc rest valid f h k =
      ap (λ (ys : Items). ok (list ys, rest)) (sym (append-nil_items acc))
  decode_list-encode_items (item v xs) (suc fuel) size acc rest valid f h k =
      let more = encode_items xs ++ (b'e' ∷ rest) in
      let sizes = lengths_of (encode v) (encode_items xs) (b'e' ∷ rest) in
      rw (append_assoc (encode v) (encode_items xs) (b'e' ∷ rest)) (
        rw (decode_list-item fuel size acc v more) (
          rw
            (decode_value-encode v fuel size more valid.0 (omega (arith, sizes))
              (omega (arith, sizes)) k)
            (rw (← append-push_back acc v xs) (
              decode_list-encode_items xs fuel size (push_back acc v) rest valid.1
                (omega (arith, sizes, length-encode_pos v)) (omega (arith, sizes)) k))))

  decode_dict-encode_fields :
      (fs : Fields) (fuel size : ℕ) (acc : Fields) (rest : List ℕ)
      → IsSorted (join acc fs)
      → FieldsValid fs
      → 2 * length (encode_fields fs) + 1 < fuel
      → length (encode_fields fs ++ (b'e' ∷ rest)) < size
      → size < 2 ^ 63
      → decode_dict fuel size acc (encode_fields fs ++ (b'e' ∷ rest))
        ≡ ok (dict (join acc fs), rest)
  decode_dict-encode_fields fs zero size acc rest sorted valid f h k = absurd (omega arith)
  decode_dict-encode_fields end (suc fuel) size acc rest sorted valid f h k =
      ap (λ (gs : Fields). ok (dict gs, rest)) (sym (join-end acc))
  decode_dict-encode_fields (field key v fs) (suc fuel) size acc rest sorted valid f h k =
      let more = encode_fields fs ++ (b'e' ∷ rest) in
      let sizes = lengths_of (encode v) (encode_fields fs) (b'e' ∷ rest) in
      let outer = lengths_of (encode_string key) (encode v ++ encode_fields fs) (b'e' ∷ rest) in
      let joined = insert-join key v acc fs sorted in
      rw (append_assoc (encode_string key) (encode v ++ encode_fields fs) (b'e' ∷ rest)) (
        rw (append_assoc (encode v) (encode_fields fs) (b'e' ∷ rest)) (
          rw (decode_dict-field fuel size acc key (encode v ++ more)) (
            rw
              (decode_bytes-encode_string size key (encode v ++ more)
                (omega (arith, sizes, outer, length-append (encode_string key) (encode v ++ more)))
                k)
              (rw
                (decode_value-encode v fuel size more valid.0 (omega (arith, sizes, outer))
                  (omega (arith, sizes, outer)) k)
                (rw joined (
                  rw (← join-field acc key v fs) (
                    decode_dict-encode_fields fs fuel size (join acc (field key v end)) rest
                      (rw (join-field acc key v fs) sorted) valid.1
                      (omega (arith, sizes, outer, length-encode_pos v))
                      (omega (arith, sizes, outer)) k)))))))

decode_step :
    (c : ℕ) (t : List ℕ) (v : Value) (left : List ℕ)
    → decode_value (2 * length (c ∷ t) + 1) (length (c ∷ t)) (c ∷ t) ≡ ok (v, left)
    → decode (c ∷ t) ≡ ok v
unfolding decode
decode_step c t v left h = rw h

-- Decoding what was encoded gives the value back, whatever bytes follow it: for every value that
-- the C++ types can hold, while the input is shorter than 2 ^ 63 bytes.
pub decode-encode :
    (v : Value) (rest : List ℕ)
    → IsValid v
    → length (encode v ++ rest) < 2 ^ 63
    → decode (encode v ++ rest) ≡ ok v
decode-encode v rest valid h =
    let (c, t, e, _) = encode_head v in
    let front = ap (λ (u : List ℕ). u ++ rest) e in
    let fuel = 2 * length (encode v ++ rest) + 1 in
    let whole =
      decode_value-encode v fuel (length (encode v ++ rest)) rest valid
        (omega (arith, length-append (encode v) rest)) (omega arith) h in
    ap decode front ∙ decode_step c (t ++ rest) v rest (rw front at whole)
