-- ===== src/Types/InfoHash.antt =====
-- modules/types/src/info_hash.cpp. An InfoHash is the list of its bytes, of which
-- std::array<uint8_t, 20> has twenty. The constructors from text run the same loops as those of
-- NodeID.
pub mod Laws
pub mod Tests
use dht_hunter.Base.{
  ℕ, ◌*◌, List, [], ◌∷◌, ◌==◌, if◌then◌else◌, ◌≡◌, length, replicate, take, All, Result, ok, throw,
  invalid_argument,
}
use Prim.Native.Nat.{min}
use dht_hunter.Types.NodeId.{IsByte}
use dht_hunter.Types.NodeId

abbrev pub InfoHash : Type 0
InfoHash = List ℕ

abbrev pub hash_size : ℕ
hash_size = 20

abbrev pub IsInfoHash : InfoHash → Type 0
IsInfoHash hash = (length hash ≡ hash_size) × All IsByte hash

abbrev pub zero_hash : InfoHash
zero_hash = replicate hash_size 0

-- InfoHash(const std::vector<uint8_t>&).
unfoldable pub hash_from_bytes : List ℕ → Result InfoHash
hash_from_bytes bytes = if length bytes == hash_size then ok bytes else throw invalid_argument

-- InfoHash(const std::string&), and the same over a string view.
unfoldable pub hash_from_hex : List ℕ → Result InfoHash
hash_from_hex hex =
    if length hex == hash_size * 2 then NodeId.hex_bytes hex else throw invalid_argument

unfoldable pub hash_to_hex : InfoHash → List ℕ
hash_to_hex hash = NodeId.to_hex hash

-- std::copy to the front of the array; the caller copies no more than the array holds.
unfoldable pub copy : List ℕ → InfoHash → InfoHash
copy [] hash = hash
copy (b ∷ bs) [] = []
copy (b ∷ bs) (x ∷ hash) = b ∷ copy bs hash

unfoldable pub from_bencode : List ℕ → InfoHash
from_bencode [] = zero_hash
from_bencode (b ∷ bytes) = copy (take (min (length (b ∷ bytes)) hash_size) (b ∷ bytes)) zero_hash
