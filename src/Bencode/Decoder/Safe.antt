-- ===== src/Bencode/Decoder/Safe.antt =====
-- The decoder on arbitrary input: it comes to an end, it never reads outside the input, and what
-- it returns is a value that the C++ types can hold.
use dht_hunter.Base.{
  ℕ, zero, suc, ◌+◌, ◌*◌, ◌^◌, ◌<◌, ◌≤◌, ◌≡◌, Bool, true, false, List, [], ◌∷◌, Option, none, some,
  Bool-cases, inl, inr, ◌==◌, length, drop, length-drop, Ensures, returns, throws, Ensures-if,
  Ensures-bind, Ensures-weaken, Meets, meets, negative, Meets-weaken, Meets-bind, negative_char,
  runtime_error, ltb, leb, ◌&&◌, ◌||◌, throw, arith,
}
use dht_hunter.Base.Int.{IsInt64}
use dht_hunter.Base.Text.{isdigit, stos, stos_value, stoull, stoull_value, strto}
use dht_hunter.Bencode.Value.{
  Value, Items, Fields, nil, end, push_back, insert, IsValid, AllValid, FieldsValid, IsSorted,
}
use dht_hunter.Bencode.Value.Append.{push_back-AllValid, insert-FieldsValid, insert-IsSorted}
use dht_hunter.Bencode.Decoder.{
  find_colon, find_e, max_size, exceeds, string_at, decode_bytes, decode_string, decode_integer,
  Lead, lead, negative_lead, digit, i, l, d, other, decode_value, decode_list, decode_dict, decode,
}

pub find_colon-Ensures :
    (rest : List ℕ)
    → Ensures (λ (digits, left). (0 < length left) × (length left ≤ length rest)) (find_colon rest)
unfolding find_colon
find_colon-Ensures [] = throws
find_colon-Ensures (c ∷ rest) =
    Ensures-if (c == b':') (λ _. returns (omega arith))
      λ _.
        Ensures-if (isdigit c)
          (λ _. Ensures-bind (find_colon-Ensures rest) λ _ h. returns (omega arith)) (λ _. throws)

pub find_e-Ensures :
    (rest : List ℕ) → Ensures (λ (text, left). length left < length rest) (find_e rest)
unfolding find_e
find_e-Ensures [] = throws
find_e-Ensures (c ∷ rest) =
    Ensures-if (c == b'e') (λ _. returns (omega arith))
      λ _. Ensures-bind (find_e-Ensures rest) λ _ h. returns (omega arith)

stoull_value-Ensures : (o : Option (Bool × ℕ)) → Ensures (λ n. n < 2 ^ 64) (stoull_value o)
stoull_value-Ensures none = throws
stoull_value-Ensures (some (minus, m)) =
    Ensures-if (ltb m (2 ^ 64))
      (λ h.
        returns
          (elim (Bool-cases minus) [ inl e ↦ rw e (omega arith) | inr e ↦ rw e (ground arith) ]))
      (λ _. throws)

pub stoull-Ensures : (s : List ℕ) → Ensures (λ n. n < 2 ^ 64) (stoull s)
unfolding stoull
stoull-Ensures s = stoull_value-Ensures (strto 10 s)

abbrev fits : Bool → ℕ → Bool
fits minus m = ltb m (2 ^ 63) || (minus && m == 2 ^ 63)

stos_value-Ensures : (o : Option (Bool × ℕ)) → Ensures IsInt64 (stos_value 64 o)
stos_value-Ensures none = throws
stos_value-Ensures (some (true, zero)) = returns (omega arith)
stos_value-Ensures (some (true, suc m)) =
    Ensures-if (fits true (suc m)) (λ h. returns (ground arith)) (λ _. throws)
stos_value-Ensures (some (false, zero)) = returns (omega arith)
stos_value-Ensures (some (false, suc m)) =
    Ensures-if (fits false (suc m)) (λ h. returns (ground arith)) (λ _. throws)

pub stos-Ensures : (s : List ℕ) → Ensures IsInt64 (stos 64 10 s)
unfolding stos
stos-Ensures s = stos_value-Ensures (strto 10 s)

-- The test in 64 bits may wrap around, but then the string is longer than any std::string.
string_at-Ensures :
    (size : ℕ) (rest : List ℕ) (n : ℕ)
    → n < 2 ^ 64
    → length rest ≤ size
    → size < 2 ^ 63
    → exceeds size rest n ≡ false
    → Ensures (λ (s, left). length left ≤ length rest) (string_at rest n)
unfolding exceeds string_at
string_at-Ensures size rest n fits h k e =
    Ensures-if (ltb max_size n) (λ _. throws)
      λ short.
        Ensures-if (leb n (length rest)) (λ inside. returns (omega (arith, length-drop n rest)))
          λ outside. absurd (ground arith)

decode_bytes-Ensures :
    (size : ℕ) (rest : List ℕ)
    → length rest ≤ size
    → size < 2 ^ 63
    → Ensures (λ (s, left). length left < length rest) (decode_bytes size rest)
unfolding decode_bytes
decode_bytes-Ensures size rest h k = Ensures-bind (find_colon-Ensures rest) λ (digits, colon) p.
    Ensures-bind (stoull-Ensures digits) λ n q.
      Ensures-if (exceeds size (drop 1 colon) n) (λ _. throws)
        λ e.
          Ensures-weaken
            (string_at-Ensures size (drop 1 colon) n q (omega (arith, length-drop 1 colon)) k e)
            λ (s, left) r. omega (arith, length-drop 1 colon)

decode_string-Ensures :
    (size : ℕ) (rest : List ℕ)
    → length rest ≤ size
    → size < 2 ^ 63
    → Ensures (λ (v, left). IsValid v × (length left < length rest)) (decode_string size rest)
unfolding decode_string
decode_string-Ensures size rest h k =
    Ensures-bind (decode_bytes-Ensures size rest h k) λ _ p. returns (tt, p)

decode_integer-Ensures :
    (rest : List ℕ)
    → Ensures (λ (v, left). IsValid v × (length left < length rest)) (decode_integer rest)
unfolding decode_integer
decode_integer-Ensures rest =
    Ensures-bind (find_e-Ensures rest)
      λ (text, _) p. Ensures-bind (stos-Ensures text) λ _ q. returns (q, p)

-- The value is valid, and at least one byte has been consumed.
abbrev Consumes : List ℕ → Value × List ℕ → Type 0
Consumes rest (v, left) = IsValid v × (length left < length rest)

by_lead :
    (size c : ℕ) (rest : List ℕ) (fuel : ℕ) (kind : Lead)
    → length (c ∷ rest) ≤ size
    → size < 2 ^ 63
    → Meets (Consumes rest) (decode_list fuel size nil rest)
    → Meets (Consumes rest) (decode_dict fuel size end rest)
    → Meets (Consumes (c ∷ rest)) (elim kind [
      | negative_lead ↦ negative_char
      | digit ↦ decode_string size (c ∷ rest)
      | i ↦ decode_integer rest
      | l ↦ decode_list fuel size nil rest
      | d ↦ decode_dict fuel size end rest
      | other ↦ throw runtime_error
    ])
by_lead size c rest fuel negative_lead h k hl hd = negative
by_lead size c rest fuel digit h k hl hd = meets (decode_string-Ensures size (c ∷ rest) h k)
by_lead size c rest fuel i h k hl hd =
    Meets-weaken (meets (decode_integer-Ensures rest)) λ _ p. (p.0, omega arith)
by_lead size c rest fuel l h k hl hd = Meets-weaken hl λ _ p. (p.0, omega arith)
by_lead size c rest fuel d h k hl hd = Meets-weaken hd λ _ p. (p.0, omega arith)
by_lead size c rest fuel other h k hl hd = meets throws

mutual
  unfolding decode_value

  decode_value-Meets :
      (fuel size : ℕ) (rest : List ℕ)
      → 2 * length rest < fuel
      → length rest ≤ size
      → size < 2 ^ 63
      → Meets (Consumes rest) (decode_value fuel size rest)
  decode_value-Meets zero size rest f h k = elim f [ ]
  decode_value-Meets (suc fuel) size [] f h k = meets throws
  decode_value-Meets (suc fuel) size (c ∷ rest) f h k =
      by_lead size c rest fuel (lead c) h k
        (decode_list-Meets fuel size nil rest tt (omega arith) (omega arith) k)
        (decode_dict-Meets fuel size end rest (tt, tt) (omega arith) (omega arith) k)

  decode_list-Meets :
      (fuel size : ℕ) (acc : Items) (rest : List ℕ)
      → AllValid acc
      → 2 * length rest + 1 < fuel
      → length rest ≤ size
      → size < 2 ^ 63
      → Meets (Consumes rest) (decode_list fuel size acc rest)
  decode_list-Meets zero size acc rest a f h k = elim f [ ]
  decode_list-Meets (suc fuel) size acc [] a f h k = meets throws
  decode_list-Meets (suc fuel) size acc (c ∷ rest) a f h k = elim (Bool-cases (c == b'e')) [
    | inl e ↦ rw (e, decode_list) (meets (returns (a, omega arith)))
    | inr e ↦
        rw (e, decode_list)
          (Meets-bind (decode_value-Meets fuel size (c ∷ rest) (omega arith) h k) λ (v, left) p.
            Meets-weaken
              (decode_list-Meets fuel size (push_back acc v) left (push_back-AllValid acc v a p.0)
                (omega arith) (omega arith) k)
              λ _ q. (q.0, omega arith))
  ]

  decode_dict-Meets :
      (fuel size : ℕ) (acc : Fields) (rest : List ℕ)
      → IsSorted acc × FieldsValid acc
      → 2 * length rest + 1 < fuel
      → length rest ≤ size
      → size < 2 ^ 63
      → Meets (Consumes rest) (decode_dict fuel size acc rest)
  decode_dict-Meets zero size acc rest a f h k = elim f [ ]
  decode_dict-Meets (suc fuel) size acc [] a f h k = meets throws
  decode_dict-Meets (suc fuel) size acc (c ∷ rest) a f h k = elim (Bool-cases (c == b'e')) [
    | inl e ↦ rw (e, decode_dict) (meets (returns (a, omega arith)))
    | inr e ↦ elim (Bool-cases (isdigit c)) [
      | inr not_key ↦ rw (e, not_key, decode_dict) (meets throws)
      | inl is_key ↦
          rw (e, is_key, decode_dict)
            (Meets-bind (meets (decode_bytes-Ensures size (c ∷ rest) h k)) λ (key, after_key) s.
              Meets-bind (decode_value-Meets fuel size after_key (omega arith) (omega arith) k)
                λ (v, left) p.
                  Meets-weaken
                    (decode_dict-Meets fuel size (insert key v acc) left
                      (insert-IsSorted key v acc a.0, insert-FieldsValid key v acc a.1 p.0)
                      (omega arith) (omega arith) k)
                    λ _ q. (q.0, omega arith))
    ]
  ]

-- On every input shorter than 2 ^ 63 bytes the decoder comes to an end: it throws, or it returns a
-- value whose integers fit int64_t and whose dictionaries have their keys in strictly ascending
-- order, or it calls std::isdigit on a negative char. It has no other undefined behaviour; above
-- all, it reads no byte outside the input.
pub decode-Meets : (bytes : List ℕ) → length bytes < 2 ^ 63 → Meets IsValid (decode bytes)
unfolding decode
decode-Meets [] h = meets throws
decode-Meets (c ∷ rest) h =
    Meets-bind
      (decode_value-Meets (2 * length (c ∷ rest) + 1) (length (c ∷ rest)) (c ∷ rest) (omega arith)
        (omega arith) h)
      λ _ p. meets (returns p.0)
