-- ===== src/Base/Text.antt =====
-- The parts of the C++ standard library that turn numbers into text and back, over byte lists:
-- std::to_string, and std::stoi, std::stoll and std::stoull, which go through strtol and its kin.
use Prim.Native.Char.{code}
use Prim.Native.String.{String}
use Prim.Native.String
use dht_hunter.Base.{
  ℕ, zero, suc, ◌+◌, ◌-◌, ◌*◌, ◌/◌, ◌%◌, ◌^◌, Bool, true, false, ◌&&◌, ◌||◌, List, [], ◌∷◌, Option,
  none, some, ltb, leb, ◌==◌, if◌then◌else◌, Result, ok, throw, invalid_argument, out_of_range, ◌≡◌,
  refl,
}
use dht_hunter.Base.Int.{ℤ, pos, negsuc}
pub mod RoundTrip

-- The bytes of an ASCII literal.
abbrev pub codes : String → List ℕ
codes String.[] = []
codes (String.◌∷◌ c s) = code c ∷ codes s

-- std::isspace in the "C" locale.
unfoldable pub is_space : ℕ → Bool
is_space c = c == b' ' || (leb 9 c && leb c 13)

unfoldable pub drop_spaces : List ℕ → List ℕ
unfolding is_space
drop_spaces [] = []
drop_spaces (c ∷ s) = if is_space c then drop_spaces s else c ∷ s

-- One optional sign; `true` is minus.
unfoldable pub split_sign : List ℕ → Bool × List ℕ
split_sign [] = (false, [])
split_sign (c ∷ s) =
    if c == b'-' then (true, s) else if c == b'+' then (false, s) else (false, c ∷ s)

-- The value of a digit, letters of both cases included.
unfoldable pub digit_value : ℕ → ℕ
digit_value c =
    if leb b'0' c && leb c b'9'
    then c - b'0'
    else if leb b'a' c && leb c b'z'
    then c - b'a' + 10
    else if leb b'A' c && leb c b'Z'
    then c - b'A' + 10
    else 36

unfoldable pub is_digit_of : ℕ → ℕ → Bool
unfolding digit_value
is_digit_of base c = ltb (digit_value c) base

-- The longest run of digits, read behind `acc`.
unfoldable pub scan : ℕ → ℕ → List ℕ → ℕ
unfolding is_digit_of
scan base acc [] = acc
scan base acc (c ∷ s) =
    let rest = scan base (acc * base + digit_value c) s in if is_digit_of base c then rest else acc

unfoldable pub starts_with_digit : ℕ → List ℕ → Bool
unfolding is_digit_of
starts_with_digit base [] = false
starts_with_digit base (c ∷ s) = is_digit_of base c

-- In base 16 a prefix 0x is skipped where a digit follows it.
unfoldable pub strip_prefix : ℕ → List ℕ → List ℕ
unfolding starts_with_digit
strip_prefix base (z ∷ x ∷ s) =
    if (base == 16 && z == b'0') && ((x == b'x' || x == b'X') && starts_with_digit base s)
    then s
    else z ∷ x ∷ s
strip_prefix base s = s

-- strtol without its bounds: the sign and the magnitude, or `none` where no conversion is made.
unfoldable pub strto : ℕ → List ℕ → Option (Bool × ℕ)
unfolding drop_spaces split_sign strip_prefix scan
strto base s =
    let (minus, body) = split_sign (drop_spaces s) in
    let digits = strip_prefix base body in
    if starts_with_digit base digits then some (minus, scan base 0 digits) else none

abbrev pub signed : Bool → ℕ → ℤ
signed minus zero = pos 0
signed false (suc n) = pos (suc n)
signed true (suc n) = negsuc n

-- std::stoll and std::stoi are `stos 64` and `stos 32`.
abbrev pub stos_value : ℕ → Option (Bool × ℕ) → Result ℤ
stos_value width none = throw invalid_argument
stos_value width (some (minus, m)) =
    if ltb m (2 ^ (width - 1)) || (minus && m == 2 ^ (width - 1))
    then ok (signed minus m)
    else throw out_of_range

unfoldable pub stos : ℕ → ℕ → List ℕ → Result ℤ
unfolding strto
stos width base s = stos_value width (strto base s)

-- std::stoull: a minus sign is accepted, and the result wraps.
abbrev pub stoull_value : Option (Bool × ℕ) → Result ℕ
stoull_value none = throw invalid_argument
stoull_value (some (minus, m)) =
    if ltb m (2 ^ 64) then ok (if minus then (2 ^ 64 - m) % 2 ^ 64 else m) else throw out_of_range

unfoldable pub stoull : List ℕ → Result ℕ
unfolding strto
stoull s = stoull_value (strto 10 s)

abbrev pub isdigit : ℕ → Bool
isdigit c = leb b'0' c && leb c b'9'

-- The text that a C function reads from std::string::c_str: up to the first NUL.
unfoldable pub c_str : List ℕ → List ℕ
c_str [] = []
c_str (c ∷ s) = let rest = c_str s in if c == 0 then [] else c ∷ rest

-- std::isdigit is not defined on a negative char but -1, which is EOF. A char is signed.
abbrev pub is_negative : ℕ → Bool
is_negative c = leb 128 c && ltb c 255

-- The digits of `n` in front of `out`; each round of fuel writes one.
unfoldable pub emit : ℕ → ℕ → List ℕ → List ℕ
emit zero n out = out
emit (suc fuel) n out =
    let rest = emit fuel (n / 10) ((b'0' + n % 10) ∷ out) in
    if ltb n 10 then (b'0' + n) ∷ out else rest

-- std::to_string.
unfoldable pub to_string : ℕ → List ℕ
unfolding emit
to_string n = emit (suc n) n []

unfoldable pub to_string_ℤ : ℤ → List ℕ
unfolding to_string
to_string_ℤ (pos n) = to_string n
to_string_ℤ (negsuc n) = b'-' ∷ to_string (suc n)

-- Tests.
padded : stos 64 10 (codes "  -12x") ≡ ok (negsuc 11)
unfolding stos
padded = refl

hex_prefix : stos 32 16 (codes "0x") ≡ ok (pos 0)
unfolding stos
hex_prefix = refl

huge : stoull (codes "18446744073709551616") ≡ throw out_of_range
unfolding stoull
huge = refl
