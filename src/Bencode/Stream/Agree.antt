-- ===== src/Bencode/Stream/Agree.antt =====
-- The stream reader and the decoder.
use dht_hunter.Base.{
  ℕ, zero, suc, ◌≡◌, refl, true, false, List, [], ◌∷◌, drop, ◌==◌, if◌then◌else◌, Bool-cases, inl,
  inr, Result, ok, throw, >>=-eq-ok, runtime_error, arith,
}
use dht_hunter.Base.Text.{isdigit, is_negative, stos, stoull}
use dht_hunter.Bencode.Value.{
  Value, Items, Fields, integer, list, dict, nil, end, push_back, insert,
}
use dht_hunter.Bencode.Decoder.{
  find_colon, find_e, exceeds, string_at, decode_bytes, decode_string, decode_integer, Lead, lead,
  negative_lead, digit, i, l, d, other, decode_value, decode_list, decode_dict,
}
use dht_hunter.Bencode.Stream.{
  expect, get_length, get_text, read_bytes, read_string, read_integer, read_value, read_items,
  read_fields, wrap,
}

digit_positive : (c : ℕ) → isdigit c ≡ true → is_negative c ≡ false
digit_positive c h = ground arith

found_colon :
    (c : ℕ) (rest digits colon : List ℕ)
    → ◌≡◌ {A = Result (List ℕ × List ℕ)} (ok ([], c ∷ rest)) (ok (digits, colon))
    → ◌≡◌ {A = Result (List ℕ × List ℕ)} (ok ([], rest)) (ok (digits, drop 1 colon))
found_colon c rest digits colon h = ground arith

pub get_length-find_colon :
    (rest digits colon : List ℕ)
    → find_colon rest ≡ ok (digits, colon)
    → get_length rest ≡ ok (digits, drop 1 colon)
unfolding get_length find_colon
get_length-find_colon [] digits colon h = cc
get_length-find_colon (c ∷ rest) digits colon h = elim (Bool-cases (c == b':')) [
  | inl e ↦ rw e (found_colon c rest digits colon (rw e at h))
  | inr e ↦ elim (Bool-cases (isdigit c)) [
    | inr k ↦ cc (rw (e, k) at h)
    | inl k ↦
        let ((more, left), p, h') = >>=-eq-ok (find_colon rest) _ (rw (e, k) at h) in
        rw (e, k, digit_positive c k)
          (rw (get_length-find_colon rest more left p) (ground (arith, h')))
  ]
]

pub get_text-find_e : (rest : List ℕ) → get_text rest ≡ find_e rest
unfolding get_text find_e
get_text-find_e [] = refl
get_text-find_e (c ∷ rest) = ground (arith, get_text-find_e rest)

read_bytes-string_at :
    (rest : List ℕ) (n : ℕ) (s left : List ℕ)
    → string_at rest n ≡ ok (s, left)
    → read_bytes n rest ≡ ok (s, (false, left))
unfolding string_at read_bytes
read_bytes-string_at rest n s left h = ground arith

exceeds_not :
    (size : ℕ) (rest : List ℕ) (n : ℕ) {r : List ℕ × List ℕ}
    → (if exceeds size rest n then throw runtime_error else string_at rest n) ≡ ok r
    → string_at rest n ≡ ok r
exceeds_not size rest n h = ground arith

read_string-decode_bytes :
    (size : ℕ) (rest s left : List ℕ)
    → decode_bytes size rest ≡ ok (s, left)
    → read_string (false, rest) ≡ ok (s, (false, left))
unfolding decode_bytes read_string
read_string-decode_bytes size rest s left h =
    let ((digits, colon), p, h') = >>=-eq-ok (find_colon rest) _ h in
    let (n, q, h'') = >>=-eq-ok (stoull digits) _ h' in
    rw (get_length-find_colon rest digits colon p)
      (rw q (read_bytes-string_at (drop 1 colon) n s left (exceeds_not size (drop 1 colon) n h'')))

read_integer-decode_integer :
    (c : ℕ) (rest : List ℕ) (v : Value) (left : List ℕ)
    → (c == b'i') ≡ true
    → decode_integer rest ≡ ok (v, left)
    → wrap integer (read_integer (false, c ∷ rest)) ≡ ok (v, (false, left))
unfolding decode_integer read_integer expect
read_integer-decode_integer c rest v left e h =
    let ((text, after), p, h') = >>=-eq-ok (find_e rest) _ h in
    let (z, q, h'') = >>=-eq-ok (stos 64 10 text) _ h' in
    rw e (rw (get_text-find_e rest) (rw p (rw q (ground (arith, h'')))))

lead-i : (c : ℕ) → lead c ≡ i → (c == b'i') ≡ true
unfolding lead
lead-i c h = ground arith

by_lead :
    (c : ℕ) (rest : List ℕ) (fuel size : ℕ) (kind : Lead) (v : Value) (left : List ℕ)
    → lead c ≡ kind
    → (decode_list fuel size nil rest ≡ ok (v, left)
        → wrap list (read_items fuel nil (false, rest)) ≡ ok (v, (false, left)))
    → (decode_dict fuel size end rest ≡ ok (v, left)
        → wrap dict (read_fields fuel end (false, rest)) ≡ ok (v, (false, left)))
    → decode_value (suc fuel) size (c ∷ rest) ≡ ok (v, left)
    → read_value (suc fuel) (false, c ∷ rest) ≡ ok (v, (false, left))
unfolding decode_value read_value decode_string
by_lead c rest fuel size negative_lead v left k hl hd h = cc (rw (k, decode_value) at h)
by_lead c rest fuel size digit v left k hl hd h =
    let ((s, after), p, h') =
      >>=-eq-ok (decode_bytes size (c ∷ rest)) _ (rw (k, decode_value) at h) in
    rw (k, read_value)
      (rw (read_string-decode_bytes size (c ∷ rest) s after p) (ground (arith, h')))
by_lead c rest fuel size i v left k hl hd h =
    rw (k, read_value)
      (read_integer-decode_integer c rest v left (lead-i c k) (rw (k, decode_value) at h))
by_lead c rest fuel size l v left k hl hd h = rw (k, read_value) (hl (rw (k, decode_value) at h))
by_lead c rest fuel size d v left k hl hd h = rw (k, read_value) (hd (rw (k, decode_value) at h))
by_lead c rest fuel size other v left k hl hd h = cc (rw (k, decode_value) at h)

mutual
  unfolding decode_value read_value

  pub read_value-decode_value :
      (fuel size : ℕ) (rest : List ℕ) (v : Value) (left : List ℕ)
      → decode_value fuel size rest ≡ ok (v, left)
      → read_value fuel (false, rest) ≡ ok (v, (false, left))
  read_value-decode_value zero size rest v left h = cc
  read_value-decode_value (suc fuel) size [] v left h = cc
  read_value-decode_value (suc fuel) size (c ∷ rest) v left h =
      by_lead c rest fuel size (lead c) v left refl
        (read_items-decode_list fuel size nil rest v left)
        (read_fields-decode_dict fuel size end rest v left) h

  read_items-decode_list :
      (fuel size : ℕ) (acc : Items) (rest : List ℕ) (v : Value) (left : List ℕ)
      → decode_list fuel size acc rest ≡ ok (v, left)
      → wrap list (read_items fuel acc (false, rest)) ≡ ok (v, (false, left))
  read_items-decode_list zero size acc rest v left h = cc
  read_items-decode_list (suc fuel) size acc [] v left h = cc
  read_items-decode_list (suc fuel) size acc (c ∷ rest) v left h = elim (Bool-cases (c == b'e')) [
    | inl e ↦ rw (e, read_items) (ground (arith, rw (e, decode_list) at h))
    | inr e ↦
        let ((w, after), p, h') =
          >>=-eq-ok (decode_value fuel size (c ∷ rest)) _ (rw (e, decode_list) at h) in
        rw (e, read_items)
          (rw (read_value-decode_value fuel size (c ∷ rest) w after p)
            (read_items-decode_list fuel size (push_back acc w) after v left h'))
  ]

  read_fields-decode_dict :
      (fuel size : ℕ) (acc : Fields) (rest : List ℕ) (v : Value) (left : List ℕ)
      → decode_dict fuel size acc rest ≡ ok (v, left)
      → wrap dict (read_fields fuel acc (false, rest)) ≡ ok (v, (false, left))
  read_fields-decode_dict zero size acc rest v left h = cc
  read_fields-decode_dict (suc fuel) size acc [] v left h = cc
  read_fields-decode_dict (suc fuel) size acc (c ∷ rest) v left h = elim (Bool-cases (c == b'e')) [
    | inl e ↦ rw (e, read_fields) (ground (arith, rw (e, decode_dict) at h))
    | inr e ↦ elim (Bool-cases (isdigit c)) [
      | inr not_key ↦ cc (rw (e, not_key, decode_dict) at h)
      | inl is_key ↦
          let ((key, after_key), p, h') =
            >>=-eq-ok (decode_bytes size (c ∷ rest)) _ (rw (e, is_key, decode_dict) at h) in
          let ((w, after), q, h'') = >>=-eq-ok (decode_value fuel size after_key) _ h' in
          rw (e, is_key, read_fields)
            (rw (read_string-decode_bytes size (c ∷ rest) key after_key p) (
              rw (read_value-decode_value fuel size after_key w after q)
                (read_fields-decode_dict fuel size (insert key w acc) after v left h'')))
    ]
  ]
