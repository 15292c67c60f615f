-- ===== src/Bencode/Stream/Safe.antt =====
-- The stream reader on arbitrary input.
use dht_hunter.Base.{
  ℕ, zero, suc, ◌+◌, ◌*◌, ◌≤◌, ◌<◌, Bool, true, false, List, [], ◌∷◌, Bool-cases, inl, inr, ◌==◌,
  length, length-drop, Result, Ensures, returns, throws, Ensures-if, Ensures-bind, Meets, meets,
  negative, Meets-if, Meets-bind, Meets-weaken, negative_char, ltb, leb, throw, runtime_error,
  arith,
}
use dht_hunter.Base.Int.{IsInt64}
use dht_hunter.Base.Text.{isdigit, is_negative}
use dht_hunter.Bencode.Value.{
  Value, Items, Fields, string, integer, list, dict, nil, end, push_back, insert, IsValid, AllValid,
  FieldsValid, IsSorted,
}
use dht_hunter.Bencode.Value.Append.{push_back-AllValid, insert-FieldsValid, insert-IsSorted}
use dht_hunter.Bencode.Decoder.{max_size, Lead, negative_lead, digit, i, l, d, other, lead}
use dht_hunter.Bencode.Decoder.Safe.{stoull-Ensures, stos-Ensures, find_e-Ensures}
use dht_hunter.Bencode.Stream.{
  Stream, expect, get_length, read_bytes, read_string, read_integer, wrap, read_value, read_items,
  read_fields, read,
}
use dht_hunter.Bencode.Stream.Agree.{get_text-find_e}

-- The value has `P`, and the stream is shorter than `rest`.
abbrev Reads : {A : Type 0} → (A → Type 0) → List ℕ → A × Stream → Type 0
Reads P rest (a, (failed, left)) = P a × (length left < length rest)

abbrev Sized : {A : Type 0} → List ℕ → A × Stream → Type 0
Sized rest (a, (failed, left)) = length left ≤ length rest

get_length-Meets :
    (rest : List ℕ) → Meets (λ (digits, left). length left < length rest) (get_length rest)
unfolding get_length
get_length-Meets [] = meets throws
get_length-Meets (c ∷ rest) =
    Meets-if (c == b':') (λ _. meets (returns (omega arith)))
      λ _.
        Meets-if (is_negative c) (λ _. negative)
          λ _.
            Meets-if (isdigit c)
              (λ _. Meets-bind (get_length-Meets rest) λ _ h. meets (returns (omega arith)))
              (λ _. meets throws)

read_bytes-Ensures : (n : ℕ) (rest : List ℕ) → Ensures (Sized rest) (read_bytes n rest)
unfolding read_bytes
read_bytes-Ensures n rest =
    Ensures-if (ltb max_size n) (λ _. throws)
      λ _.
        Ensures-if (leb n (length rest)) (λ _. returns (omega (arith, length-drop n rest)))
          (λ _. returns (omega arith))

abbrev Any : {A : Type 0} → A → Type 0
Any a = Unit

read_string-Meets : (rest : List ℕ) → Meets (Reads Any rest) (read_string (false, rest))
unfolding read_string
read_string-Meets rest = Meets-bind (get_length-Meets rest) λ (digits, left) h.
    Meets-bind (meets (stoull-Ensures digits)) λ n _.
      Meets-weaken (meets (read_bytes-Ensures n left)) λ (s, (failed, after)) k. (tt, omega arith)

read_integer-Ensures :
    (c : ℕ) (rest : List ℕ) → Ensures (Reads IsInt64 (c ∷ rest)) (read_integer (false, c ∷ rest))
unfolding read_integer expect
read_integer-Ensures c rest = elim (Bool-cases (c == b'i')) [
  | inr e ↦ rw e throws
  | inl e ↦ rw e (
      rw (get_text-find_e rest) (
        Ensures-bind (find_e-Ensures rest)
          λ (text, left) h. Ensures-bind (stos-Ensures text) λ z k. returns (k, omega arith)))
]

wrapped :
    {A : Type 0} {P : A → Type 0} (rest : List ℕ) (f : A → Value) {m : Result (A × Stream)}
    → Meets (Reads P rest) m
    → ((a : A) → P a → IsValid (f a))
    → Meets (Reads IsValid rest) (wrap f m)
wrapped rest f h valid = Meets-bind h λ (a, (failed, left)) p. meets (returns (valid a p.0, p.1))

longer :
    {A : Type 0} (P : A → Type 0) (c : ℕ) (rest : List ℕ) {m : Result (A × Stream)}
    → Meets (Reads P rest) m
    → Meets (Reads P (c ∷ rest)) m
longer P c rest h = Meets-weaken h λ (a, (failed, left)) p. (p.0, omega arith)

abbrev Ordered : Fields → Type 0
Ordered fs = IsSorted fs × FieldsValid fs

by_lead :
    (c : ℕ) (rest : List ℕ) (fuel : ℕ) (kind : Lead)
    → Meets (Reads AllValid rest) (read_items fuel nil (false, rest))
    → Meets (Reads Ordered rest) (read_fields fuel end (false, rest))
    → Meets (Reads IsValid (c ∷ rest)) (elim kind [
      | negative_lead ↦ negative_char
      | digit ↦ wrap string (read_string (false, c ∷ rest))
      | i ↦ wrap integer (read_integer (false, c ∷ rest))
      | l ↦ wrap list (read_items fuel nil (false, rest))
      | d ↦ wrap dict (read_fields fuel end (false, rest))
      | other ↦ throw runtime_error
    ])
by_lead c rest fuel negative_lead hl hd = negative
by_lead c rest fuel digit hl hd = wrapped (c ∷ rest) string (read_string-Meets (c ∷ rest)) λ s p. tt
by_lead c rest fuel i hl hd =
    wrapped (c ∷ rest) integer (meets (read_integer-Ensures c rest)) λ z p. p
by_lead c rest fuel l hl hd = wrapped (c ∷ rest) list (longer AllValid c rest hl) λ xs p. p
by_lead c rest fuel d hl hd = wrapped (c ∷ rest) dict (longer Ordered c rest hd) λ fs p. p
by_lead c rest fuel other hl hd = meets throws

mutual
  unfolding read_value

  read_value-Meets :
      (fuel : ℕ) (failed : Bool) (rest : List ℕ)
      → 2 * length rest < fuel
      → Meets (Reads IsValid rest) (read_value fuel (failed, rest))
  read_value-Meets zero failed rest f = elim f [ ]
  read_value-Meets (suc fuel) true rest f = meets throws
  read_value-Meets (suc fuel) false [] f = meets throws
  read_value-Meets (suc fuel) false (c ∷ rest) f =
      by_lead c rest fuel (lead c) (read_items-Meets fuel nil false rest tt (omega arith))
        (read_fields-Meets fuel end false rest (tt, tt) (omega arith))

  read_items-Meets :
      (fuel : ℕ) (acc : Items) (failed : Bool) (rest : List ℕ)
      → AllValid acc
      → 2 * length rest + 1 < fuel
      → Meets (Reads AllValid rest) (read_items fuel acc (failed, rest))
  read_items-Meets zero acc failed rest a f = elim f [ ]
  read_items-Meets (suc fuel) acc true rest a f = meets throws
  read_items-Meets (suc fuel) acc false [] a f = meets throws
  read_items-Meets (suc fuel) acc false (c ∷ rest) a f = elim (Bool-cases (c == b'e')) [
    | inl e ↦ rw (e, read_items) (meets (returns (a, omega arith)))
    | inr e ↦
        rw (e, read_items)
          (Meets-bind (read_value-Meets fuel false (c ∷ rest) (omega arith))
            λ (v, (failed, left)) p.
              Meets-weaken
                (read_items-Meets fuel (push_back acc v) failed left
                  (push_back-AllValid acc v a p.0) (omega arith))
                λ (xs, (failed', left')) q. (q.0, omega arith))
  ]

  read_fields-Meets :
      (fuel : ℕ) (acc : Fields) (failed : Bool) (rest : List ℕ)
      → Ordered acc
      → 2 * length rest + 1 < fuel
      → Meets (Reads Ordered rest) (read_fields fuel acc (failed, rest))
  read_fields-Meets zero acc failed rest a f = elim f [ ]
  read_fields-Meets (suc fuel) acc true rest a f = meets throws
  read_fields-Meets (suc fuel) acc false [] a f = meets throws
  read_fields-Meets (suc fuel) acc false (c ∷ rest) a f = elim (Bool-cases (c == b'e')) [
    | inl e ↦ rw (e, read_fields) (meets (returns (a, omega arith)))
    | inr e ↦ elim (Bool-cases (isdigit c)) [
      | inr not_key ↦
          rw (e, not_key, read_fields)
            (Meets-if (is_negative c) (λ _. negative) (λ _. meets throws))
      | inl is_key ↦
          rw (e, is_key, read_fields)
            (Meets-bind (read_string-Meets (c ∷ rest)) λ (key, (failed, after_key)) s.
              Meets-bind (read_value-Meets fuel failed after_key (omega arith))
                λ (v, (failed', left)) p.
                  Meets-weaken
                    (read_fields-Meets fuel (insert key v acc) failed' left
                      (insert-IsSorted key v acc a.0, insert-FieldsValid key v acc a.1 p.0)
                      (omega arith))
                    λ (fs, (failed'', left')) q. (q.0, omega arith))
    ]
  ]

-- Reading from any stream, failed or not, comes to an end: it throws, or it returns a value whose
-- integers fit int64_t and whose dictionaries have their keys in strictly ascending order, and at
-- least one byte of the stream is consumed, or it calls std::isdigit on a negative char. It has no
-- other undefined behaviour.
pub read-Meets :
    (failed : Bool) (rest : List ℕ)
    → Meets (λ (v, (failed', left)). IsValid v × (length left < length rest)) (read (failed, rest))
unfolding read
read-Meets failed rest = read_value-Meets (2 * length rest + 1) failed rest (omega arith)
