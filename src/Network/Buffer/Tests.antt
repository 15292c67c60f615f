-- ===== src/Network/Buffer/Tests.antt =====
-- Runs of the buffer, and instances of its theorems.
use dht_hunter.Base.{
  ℕ, ◌≤◌, ◌<◌, ◌≡◌, refl, ◌⊎◌, List, [], ◌∷◌, some, ltb, if◌then◌else◌, length, get_or, ok, arith,
}
use dht_hunter.Network.Buffer.{Buffer, append, read_at, write_at}
use dht_hunter.Network.Buffer.Laws.{read_at-write_at}

abbrev four : Buffer
four = 1 ∷ 2 ∷ 3 ∷ 4 ∷ []

abbrev two : List ℕ
two = 8 ∷ 9 ∷ []

test_append : append (some two) four ≡ ok (1 ∷ 2 ∷ 3 ∷ 4 ∷ 8 ∷ 9 ∷ [])
unfolding append dht_hunter.Network.Buffer.resize dht_hunter.Network.Buffer.copy_to
test_append = refl

test_write_at : write_at 5 (some two) four ≡ ok (2, 1 ∷ 2 ∷ 3 ∷ 4 ∷ 0 ∷ 8 ∷ 9 ∷ [])
unfolding write_at dht_hunter.Network.Buffer.resize dht_hunter.Network.Buffer.copy_to
test_write_at = refl

test_read_at : read_at 2 9 four ≡ 3 ∷ 4 ∷ []
unfolding read_at
test_read_at = refl

read_at-write_at_example :
    (after : Buffer) × (write_at 5 (some two) four ≡ ok (2, after))
    × (read_at 5 2 after ≡ two)
    × (length after ≡ (if ltb 4 7 then 7 else 4))
    × ((i : ℕ) → (i < 5) ⊎ (7 ≤ i) → get_or after i 0 ≡ get_or four i 0)
read_at-write_at_example = read_at-write_at 5 two four (omega arith) (omega arith)
