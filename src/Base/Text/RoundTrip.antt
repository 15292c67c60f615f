-- ===== src/Base/Text/RoundTrip.antt =====
-- What std::to_string prints, std::stoull and std::stoll read back.
use dht_hunter.Base.{
  ℕ, zero, suc, ◌+◌, ◌*◌, ◌/◌, ◌%◌, ◌^◌, ◌<◌, ◌≤◌, ◌≡◌, length, ap, inl, inr, true, List, [], ◌∷◌,
  some, false, All, subst, ltb, Bool-cases, ok, arith,
}
use dht_hunter.Base.Int.{ℤ, pos, negsuc, IsInt64}
use dht_hunter.Base.Text.{isdigit, scan, strto, stos, stoull, emit, to_string, to_string_ℤ}

abbrev pub IsDigit : ℕ → Type 0
IsDigit c = isdigit c ≡ true

emit-IsDigit :
    (fuel n : ℕ) (out : List ℕ) → All IsDigit out → n < fuel → All IsDigit (emit fuel n out)
unfolding emit
emit-IsDigit zero n out h lt = h
emit-IsDigit (suc fuel) n out h lt =
    ground (arith, emit-IsDigit fuel (n / 10) ((b'0' + n % 10) ∷ out))

pub to_string-IsDigit : (n : ℕ) → All IsDigit (to_string n)
unfolding to_string
to_string-IsDigit n = emit-IsDigit (suc n) n [] tt (omega arith)

-- A printed number begins with a digit.
emit_head :
    (fuel n : ℕ) (out : List ℕ) → n < fuel → (c : ℕ) × (s : List ℕ) × (emit fuel n out ≡ c ∷ s)
unfolding emit
emit_head zero n out lt = elim lt [ ]
emit_head (suc fuel) n out lt = elim (Bool-cases (ltb n 10)) [
  | inl last ↦ (b'0' + n, out, ground arith)
  | inr more ↦
      let (c, s, e) = emit_head fuel (n / 10) ((b'0' + n % 10) ∷ out) (ground arith) in
      (c, s, ground arith)
]

pub to_string_head : (n : ℕ) → (c : ℕ) × (s : List ℕ) × (to_string n ≡ c ∷ s) × IsDigit c
unfolding to_string
to_string_head n =
    let (c, s, e) = emit_head (suc n) n [] (omega arith) in
    (c, s, e, (subst (All IsDigit) e (to_string-IsDigit n)).0)

length-emit : (fuel n : ℕ) (out : List ℕ) → 0 < n → length (emit fuel n out) ≤ n + length out
unfolding emit
length-emit zero n out h = omega arith
length-emit (suc fuel) n out h = ground (arith, length-emit fuel (n / 10) ((b'0' + n % 10) ∷ out))

-- A positive number has at most as many digits as its value.
pub length-to_string : (n : ℕ) → 0 < n → length (to_string n) ≤ n
unfolding to_string
length-to_string n h = omega (arith, length-emit (suc n) n [] h)

scan_digit :
    (acc d : ℕ) (s : List ℕ) → d < 10 → scan 10 acc ((b'0' + d) ∷ s) ≡ scan 10 (acc * 10 + d) s
unfolding scan
scan_digit acc d s h = ground arith

scan-emit : (fuel n : ℕ) (out : List ℕ) → n < fuel → scan 10 0 (emit fuel n out) ≡ scan 10 n out
unfolding emit
scan-emit zero n out lt = elim lt [ ]
scan-emit (suc fuel) n out lt = ground (
  arith,
  scan_digit 0 n out,
  scan_digit (n / 10) (n % 10) out,
  scan-emit fuel (n / 10) ((b'0' + n % 10) ∷ out),
)

pub scan-to_string : (n : ℕ) → scan 10 0 (to_string n) ≡ n
unfolding to_string scan
scan-to_string n = scan-emit (suc n) n [] (omega arith)

-- Text that begins with a digit has no space, sign or (in base 10) prefix to skip.
pub strto_digits :
    (c : ℕ) (s : List ℕ) → IsDigit c → strto 10 (c ∷ s) ≡ some (false, scan 10 0 (c ∷ s))
unfolding strto
strto_digits c [] h = ground arith
strto_digits c (d ∷ s) h = ground arith

strto_minus :
    (c : ℕ) (s : List ℕ) → IsDigit c → strto 10 (b'-' ∷ c ∷ s) ≡ some (true, scan 10 0 (c ∷ s))
unfolding strto
strto_minus c [] h = ground arith
strto_minus c (d ∷ s) h = ground arith

strto-to_string : (n : ℕ) → strto 10 (to_string n) ≡ some (false, n)
strto-to_string n =
    let (c, s, e, d) = to_string_head n in
    cc (strto_digits c s d, scan-to_string n, ap (strto 10) e, ap (scan 10 0) e)

strto-to_string_minus : (n : ℕ) → strto 10 (b'-' ∷ to_string n) ≡ some (true, n)
strto-to_string_minus n =
    let (c, s, e, d) = to_string_head n in
    cc (
      strto_minus c s d,
      scan-to_string n,
      ap (λ (t : List ℕ). strto 10 (b'-' ∷ t)) e,
      ap (scan 10 0) e,
    )

-- std::stoull reads back every size_t that std::to_string prints.
pub stoull-to_string : (n : ℕ) → n < 2 ^ 64 → stoull (to_string n) ≡ ok n
unfolding stoull
stoull-to_string n h = ground (arith, strto-to_string n)

-- std::stoll reads back every int64_t that std::to_string prints.
pub stos-to_string_ℤ : (z : ℤ) → IsInt64 z → stos 64 10 (to_string_ℤ z) ≡ ok z
unfolding stos to_string_ℤ
stos-to_string_ℤ (pos zero) h = ground (arith, strto-to_string 0)
stos-to_string_ℤ (pos (suc n)) h = ground (arith, strto-to_string (suc n))
stos-to_string_ℤ (negsuc n) h = ground (arith, strto-to_string_minus (suc n))

-- std::stoi reads back every int that is not negative.
pub stos-to_string : (n : ℕ) → n < 2 ^ 31 → stos 32 10 (to_string n) ≡ ok (pos n)
unfolding stos
stos-to_string zero h = ground (arith, strto-to_string 0)
stos-to_string (suc n) h = ground (arith, strto-to_string (suc n))
