-- ===== src/Types/InfoHash/Laws.antt =====
-- What the constructors of info hashes give.
use dht_hunter.Base.{
  ℕ, zero, suc, ◌<◌, ◌≡◌, refl, sym, ◌∙◌, ap, List, [], ◌∷◌, ◌++◌, length, length-replicate,
  replicate, take, get_or, All, ok, arith,
}
use Prim.Native.Nat.{min}
use dht_hunter.Types.NodeId.{IsByte}
use dht_hunter.Types.NodeId
use dht_hunter.Types.NodeId.Hex
use dht_hunter.Types.InfoHash.{
  InfoHash, IsInfoHash, zero_hash, hash_from_hex, hash_to_hex, copy, from_bencode,
}

-- An info hash is read back from its hexadecimal text.
pub hash_from_hex-hash_to_hex :
    (hash : InfoHash) → IsInfoHash hash → hash_from_hex (hash_to_hex hash) ≡ ok hash
unfolding hash_from_hex hash_to_hex NodeId.from_hex
hash_from_hex-hash_to_hex hash h = Hex.from_hex-to_hex hash h

-- Of `n` zeros under at most `n` bytes of `bytes`.
copied : (n : ℕ) → List ℕ → InfoHash
copied n bytes = copy (take n bytes) (replicate n 0)

take-min : (m n : ℕ) (xs : List ℕ) → m ≡ min (length xs) n → take m xs ≡ take n xs
take-min zero zero xs e = refl
take-min (suc m) (suc n) [] e = refl
take-min zero (suc n) [] e = refl
take-min (suc m) zero [] e = refl
take-min zero (suc n) (x ∷ xs) e = absurd (omega (arith, e))
take-min (suc m) zero (x ∷ xs) e = absurd (omega (arith, e))
take-min (suc m) (suc n) (x ∷ xs) e = ap (◌∷◌ x) (take-min m n xs (omega (arith, e)))

from_bencode-copied : (bytes : List ℕ) → from_bencode bytes ≡ copied 20 bytes
unfolding from_bencode copied copy
from_bencode-copied [] = refl
from_bencode-copied (b ∷ bytes) =
    ap (λ (front : List ℕ). copy front zero_hash) (take-min _ 20 (b ∷ bytes) refl)

zeros-IsByte : (n : ℕ) → All IsByte (replicate n 0)
zeros-IsByte zero = tt
zeros-IsByte (suc n) = (omega arith, zeros-IsByte n)

get_or-zeros : (n i : ℕ) → get_or {A = ℕ} (replicate n 0) i 0 ≡ 0
get_or-zeros zero i = refl
get_or-zeros (suc n) zero = refl
get_or-zeros (suc n) (suc i) = get_or-zeros n i

copied-IsInfoHash :
    (n : ℕ) (bytes : List ℕ)
    → All IsByte bytes
    → (length (copied n bytes) ≡ n) × All IsByte (copied n bytes)
unfolding copied copy
copied-IsInfoHash zero bytes h = (refl, tt)
copied-IsInfoHash (suc n) [] h = (length-replicate (suc n) 0, zeros-IsByte (suc n))
copied-IsInfoHash (suc n) (b ∷ bytes) h =
    let rest = copied-IsInfoHash n bytes h.1 in (ap suc rest.0, (h.0, rest.1))

get_or-copied :
    (n : ℕ) (bytes : List ℕ) (i : ℕ) → i < n → get_or (copied n bytes) i 0 ≡ get_or bytes i 0
unfolding copied copy
get_or-copied zero bytes i h = absurd (omega arith)
get_or-copied (suc n) [] zero h = refl
get_or-copied (suc n) [] (suc i) h = get_or-zeros n i
get_or-copied (suc n) (b ∷ bytes) zero h = refl
get_or-copied (suc n) (b ∷ bytes) (suc i) h = get_or-copied n bytes i (omega arith)

copied-append : (p a b : List ℕ) → copied (length p) (p ++ a) ≡ copied (length p) (p ++ b)
unfolding copied copy
copied-append [] a b = refl
copied-append (x ∷ p) a b = ap (◌∷◌ x) (copied-append p a b)

-- From any bytes `from_bencode` makes an info hash of twenty bytes: the first twenty bytes of the
-- data in their places, and 0 where the data has no byte.
pub from_bencode_lem :
    (bytes : List ℕ) (i : ℕ)
    → All IsByte bytes
    → i < 20
    → IsInfoHash (from_bencode bytes) × (get_or (from_bencode bytes) i 0 ≡ get_or bytes i 0)
from_bencode_lem bytes i h below =
    rw (from_bencode-copied bytes) (copied-IsInfoHash 20 bytes h, get_or-copied 20 bytes i below)

-- Data with the same first twenty bytes has the same info hash, whatever follows.
pub from_bencode-append :
    (p a b : List ℕ) → length p ≡ 20 → from_bencode (p ++ a) ≡ from_bencode (p ++ b)
from_bencode-append p a b h =
    from_bencode-copied (p ++ a)
    ∙ (rw (sym h) (copied-append p a b))
    ∙ sym (from_bencode-copied (p ++ b))
