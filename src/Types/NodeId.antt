-- ===== src/Types/NodeId.antt =====
-- modules/types/src/node_id.cpp. A NodeID is the list of its bytes; `IsNodeId` says what
-- std::array<uint8_t, 20> guarantees. The randomly filled ones are arguments wherever they occur.

pub mod Distance
pub mod Hex
pub mod Order
use dht_hunter.Base.{
  ℕ, zero, suc, ◌+◌, ◌-◌, ◌*◌, ◌/◌, ◌%◌, ◌<◌, bit_xor, ◌≡◌, Bool, true, false, not, List, [], ◌∷◌,
  ltb, ◌==◌, if◌then◌else◌, length, All, bytes_lt, bytes_eq, Result, ok, throw, undefined,
  negative_char, out_of_fuel, ◌>>=◌, invalid_argument,
}
use dht_hunter.Base.Int.{ℤ, pos, negsuc}
use dht_hunter.Base.Text.{stos}

abbrev pub NodeId : Type 0
NodeId = List ℕ

abbrev pub id_size : ℕ
id_size = 20

abbrev pub IsByte : ℕ → Type 0
IsByte b = b < 256

abbrev pub IsNodeId : NodeId → Type 0
IsNodeId id = (length id ≡ id_size) × All IsByte id

-- NodeID(const std::vector<uint8_t>&).
unfoldable pub from_bytes : List ℕ → Result NodeId
from_bytes bytes = if length bytes == id_size then ok bytes else throw invalid_argument

-- static_cast<uint8_t> of an int.
unfoldable pub to_uint8 : ℤ → ℕ
to_uint8 (pos n) = n % 256
to_uint8 (negsuc n) = (255 - n % 256) % 256

-- try { ... } catch (const std::exception&) { throw std::invalid_argument }.
abbrev pub or_invalid {ℓ} : {A : Type ℓ} → Result A → Result A
or_invalid (throw e) = throw invalid_argument
or_invalid (ok a) = ok a
or_invalid undefined = undefined
or_invalid negative_char = negative_char
or_invalid out_of_fuel = out_of_fuel

-- The loop over `hex.substr(i * 2, 2)`.
unfoldable pub hex_bytes : List ℕ → Result (List ℕ)
hex_bytes (a ∷ b ∷ rest) = do
  z ← or_invalid (stos 32 16 (a ∷ b ∷ []))
  bytes ← hex_bytes rest
  ok (to_uint8 z ∷ bytes)
hex_bytes _ = ok []

-- NodeID(const std::string& hex), and the same over a string view.
unfoldable pub from_hex : List ℕ → Result NodeId
from_hex hex = if length hex == id_size * 2 then hex_bytes hex else throw invalid_argument

-- `std::hex << std::setfill('0') << std::setw(2)` of one byte.
unfoldable pub hex_digit : ℕ → ℕ
hex_digit n = if ltb n 10 then b'0' + n else b'a' + (n - 10)

unfoldable pub to_hex : NodeId → List ℕ
unfolding hex_digit
to_hex [] = []
to_hex (b ∷ id) = hex_digit (b / 16) ∷ hex_digit (b % 16) ∷ to_hex id

-- The loop over the bytes of both.
unfoldable pub distance : NodeId → NodeId → NodeId
distance (x ∷ xs) (y ∷ ys) = bit_xor x y ∷ distance xs ys
distance _ _ = []

unfoldable pub eq : NodeId → NodeId → Bool
eq a b = bytes_eq a b

unfoldable pub ne : NodeId → NodeId → Bool
ne a b = not (eq a b)

unfoldable pub lt : NodeId → NodeId → Bool
lt a b = bytes_lt a b

unfoldable pub gt : NodeId → NodeId → Bool
gt a b = lt b a

unfoldable pub le : NodeId → NodeId → Bool
le a b = not (lt b a)

unfoldable pub ge : NodeId → NodeId → Bool
ge a b = not (lt a b)
