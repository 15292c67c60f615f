-- ===== src/Types/NodeId/Hex.antt =====
-- Hexadecimal text of an identifier.
use dht_hunter.Base.{
  ℕ, zero, suc, ◌*◌, ◌/◌, ◌%◌, ◌<◌, ◌≡◌, refl, ap, Bool, true, false, List, [], ◌∷◌, ◌==◌, length,
  All, Result, ok, Ensures, returns, throws, Ensures-if, Ensures-bind, Bool-cases, inl, inr, Option,
  none, some, ltb, ◌&&◌, ◌||◌, ◌^◌, arith,
}
use dht_hunter.Base.Int.{ℤ, pos, negsuc}
use dht_hunter.Base.Table.{passes, passes_lem}
use dht_hunter.Base.Text.{stos, stos_value, signed, strto, is_digit_of}
use dht_hunter.Types.NodeId.{
  NodeId, IsByte, IsNodeId, id_size, to_uint8, or_invalid, hex_bytes, from_hex, hex_digit, to_hex,
}

abbrev is_pos : Result ℤ → ℕ → Bool
is_pos (ok (pos n)) b = n == b
is_pos _ b = false

is_pos_sound : (r : Result ℤ) (b : ℕ) → is_pos r b ≡ true → r ≡ ok (pos b)
is_pos_sound (ok (pos n)) b h = ground arith
is_pos_sound _ b h = cc

abbrev pair_of : ℕ → List ℕ
unfolding hex_digit
pair_of b = hex_digit (b / 16) ∷ hex_digit (b % 16) ∷ []

pair_table : passes (λ b. is_pos (stos 32 16 (pair_of b)) b) 256 ≡ true
unfolding passes stos hex_digit
pair_table = refl

-- Every byte is read back from its two digits.
stos-pair_of : (b : ℕ) → b < 256 → stos 32 16 (pair_of b) ≡ ok (pos b)
stos-pair_of b h = is_pos_sound _ b (passes_lem _ 256 h pair_table)

hex_bytes-to_hex : (id : NodeId) → All IsByte id → hex_bytes (to_hex id) ≡ ok id
unfolding hex_bytes to_hex to_uint8
hex_bytes-to_hex [] h = refl
hex_bytes-to_hex (b ∷ id) h = ground (arith, stos-pair_of b h.0, hex_bytes-to_hex id h.1)

length-to_hex : (id : NodeId) → length (to_hex id) ≡ length id * 2
unfolding to_hex
length-to_hex [] = refl
length-to_hex (b ∷ id) = omega (arith, length-to_hex id)

-- An identifier is read back from its hexadecimal text.
pub from_hex-to_hex : (id : NodeId) → IsNodeId id → from_hex (to_hex id) ≡ ok id
unfolding from_hex
from_hex-to_hex id h = ground (arith, hex_bytes-to_hex id h.1, length-to_hex id, h.0)

to_uint8-IsByte : (z : ℤ) → IsByte (to_uint8 z)
unfolding to_uint8
to_uint8-IsByte (pos n) = omega arith
to_uint8-IsByte (negsuc n) = omega arith

abbrev fits : Bool → ℕ → Bool
fits minus m = ltb m (2 ^ 31) || (minus && m == 2 ^ 31)

or_invalid-stos-Ensures :
    (s : List ℕ) → Ensures (λ z. IsByte (to_uint8 z)) (or_invalid (stos 32 16 s))
unfolding stos
or_invalid-stos-Ensures s = go (strto 16 s)
  where
    go : (o : Option (Bool × ℕ)) → Ensures (λ z. IsByte (to_uint8 z)) (or_invalid (stos_value 32 o))
    go none = throws
    go (some (minus, m)) = elim (Bool-cases (fits minus m)) [
      | inl e ↦ rw e (returns (to_uint8-IsByte (signed minus m)))
      | inr e ↦ rw e throws
    ]

-- What `hex_bytes` returns for 2 * n digits is n bytes.
hex_bytes-Ensures :
    (n : ℕ) (s : List ℕ)
    → length s ≡ n * 2
    → Ensures (λ id. (length id ≡ n) × All IsByte id) (hex_bytes s)
unfolding hex_bytes
hex_bytes-Ensures zero [] h = returns (refl, tt)
hex_bytes-Ensures (suc n) [] h = absurd (omega arith)
hex_bytes-Ensures n (a ∷ []) h = absurd (omega arith)
hex_bytes-Ensures zero (a ∷ b ∷ s) h = absurd (omega arith)
hex_bytes-Ensures (suc n) (a ∷ b ∷ s) h =
    Ensures-bind (or_invalid-stos-Ensures (a ∷ b ∷ [])) λ z p.
      Ensures-bind (hex_bytes-Ensures n s (omega arith)) λ id q. returns (ap suc q.0, (p, q.1))

-- Whatever text it is given, the constructor throws or yields an identifier of 20 bytes.
pub from_hex-Ensures : (s : List ℕ) → Ensures IsNodeId (from_hex s)
unfolding from_hex
from_hex-Ensures s =
    Ensures-if (length s == id_size * 2) (λ e. hex_bytes-Ensures 20 s (ground arith)) (λ _. throws)

stos-digit_junk :
    (d g : ℕ) → d < 16 → is_digit_of 16 g ≡ false → stos 32 16 (hex_digit d ∷ g ∷ []) ≡ ok (pos d)
unfolding stos hex_digit
stos-digit_junk d g h k = ground arith

-- A pair whose second character is no hexadecimal digit is accepted: it stands for its first
-- digit, and the text of an identifier can be spoilt so without an exception.
pub from_hex_junk :
    (d g : ℕ) (id : NodeId)
    → IsNodeId (d ∷ id)
    → d < 16
    → is_digit_of 16 g ≡ false
    → from_hex (hex_digit d ∷ g ∷ to_hex id) ≡ ok (d ∷ id)
unfolding from_hex hex_bytes to_uint8
from_hex_junk d g id h k e =
    ground (arith, stos-digit_junk d g k e, hex_bytes-to_hex id h.1.1, length-to_hex id, h.0)
