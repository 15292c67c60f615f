-- ===== src/Network/Buffer.antt =====
-- modules/network/src/buffer.cpp. A buffer is its bytes; capacity is not modelled. A pointer with a
-- size is `none` for nullptr, and otherwise the bytes that it points to. Sizes are added modulo
-- 2 ^ 64, and `max_size` is the largest size of a vector.
pub mod Laws
pub mod Tests
use dht_hunter.Base.{
  ℕ, zero, suc, ◌+◌, ◌-◌, ◌%◌, ◌^◌, Bool, true, false, ◌||◌, List, [], ◌∷◌, ◌++◌, Option, none,
  some, ltb, leb, ◌==◌, if◌then◌else◌, length, take, drop, Result, ok, throw, undefined, ◌>>=◌,
  length_error,
}
use dht_hunter.Bencode.Decoder.{max_size}

abbrev pub Buffer : Type 0
Buffer = List ℕ

-- The bytes behind the old end are zero.
abbrev pub resized : ℕ → Buffer → Buffer
resized zero b = []
resized (suc n) [] = 0 ∷ resized n []
resized (suc n) (x ∷ b) = x ∷ resized n b

unfoldable pub resize : ℕ → Buffer → Result Buffer
resize n b = if ltb max_size n then throw length_error else ok (resized n b)

unfoldable pub clear : Buffer → Buffer
clear b = []

abbrev pub overwrite : List ℕ → Buffer → Buffer
overwrite [] b = b
overwrite (x ∷ bytes) [] = []
overwrite (x ∷ bytes) (y ∷ b) = x ∷ overwrite bytes b

abbrev pub overwrite_at : ℕ → List ℕ → Buffer → Buffer
overwrite_at zero bytes b = overwrite bytes b
overwrite_at (suc offset) bytes [] = []
overwrite_at (suc offset) bytes (y ∷ b) = y ∷ overwrite_at offset bytes b

-- std::memcpy into the buffer, undefined past its end.
unfoldable pub copy_to : ℕ → List ℕ → Buffer → Result Buffer
copy_to offset bytes b =
    if leb (offset + length bytes) (length b) then ok (overwrite_at offset bytes b) else undefined

unfoldable pub append : Option (List ℕ) → Buffer → Result Buffer
append none b = ok b
append (some bytes) b =
    if length bytes == 0
    then ok b
    else (resize ((length b + length bytes) % 2 ^ 64) b >>= copy_to (length b) bytes)

-- The bytes read; their number is what the method returns.
unfoldable pub read_at : ℕ → ℕ → Buffer → List ℕ
read_at offset size b =
    if leb (length b) offset || size == 0
    then []
    else take (if ltb (length b - offset) size then length b - offset else size) (drop offset b)

unfoldable pub write_at : ℕ → Option (List ℕ) → Buffer → Result (ℕ × Buffer)
write_at offset none b = ok (0, b)
write_at offset (some bytes) b =
    let end = (offset + length bytes) % 2 ^ 64 in
    if length bytes == 0
    then ok (0, b)
    else ((if ltb (length b) end then resize end b else ok b) >>= λ grown.
        copy_to offset bytes grown >>= λ after. ok (length bytes, after))
