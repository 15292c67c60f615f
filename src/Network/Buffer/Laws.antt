-- ===== src/Network/Buffer/Laws.antt =====
-- What is written to a buffer, and what is read from it.
use dht_hunter.Base.{
  ℕ, zero, suc, ◌+◌, ◌-◌, ◌%◌, ◌^◌, ◌≤◌, ◌<◌, ◌≡◌, refl, ap, ◌∙◌, ◌⊎◌, inl, inr, true, false, ◌||◌,
  List, [], ◌∷◌, some, ◌==◌, ltb, leb, if◌then◌else◌, length, take, drop, get_or, ok, undefined,
  Bool-cases, tests, arith,
}
use dht_hunter.Bencode.Decoder.{max_size}
use dht_hunter.Network.Buffer.{
  Buffer, resized, resize, overwrite, overwrite_at, copy_to, read_at, write_at,
}

length-resized : (n : ℕ) (b : Buffer) → length (resized n b) ≡ n
length-resized zero b = refl
length-resized (suc n) [] = ap suc (length-resized n [])
length-resized (suc n) (x ∷ b) = ap suc (length-resized n b)

get_or-resized : (n i : ℕ) (b : Buffer) → length b ≤ n → get_or (resized n b) i 0 ≡ get_or b i 0
get_or-resized zero i [] h = refl
get_or-resized zero i (x ∷ b) h = absurd (omega (arith, h))
get_or-resized (suc n) zero [] h = refl
get_or-resized (suc n) (suc i) [] h = get_or-resized n i [] (omega arith)
get_or-resized (suc n) zero (x ∷ b) h = refl
get_or-resized (suc n) (suc i) (x ∷ b) h = get_or-resized n i b (omega (arith, h))

length-overwrite : (bytes : List ℕ) (b : Buffer) → length (overwrite bytes b) ≡ length b
length-overwrite [] b = refl
length-overwrite (x ∷ bytes) [] = refl
length-overwrite (x ∷ bytes) (y ∷ b) = ap suc (length-overwrite bytes b)

take-overwrite :
    (bytes : List ℕ) (b : Buffer)
    → length bytes ≤ length b
    → take (length bytes) (overwrite bytes b) ≡ bytes
take-overwrite [] b h = refl
take-overwrite (x ∷ bytes) [] h = absurd (omega (arith, h))
take-overwrite (x ∷ bytes) (y ∷ b) h = ap (◌∷◌ x) (take-overwrite bytes b (omega (arith, h)))

get_or-overwrite :
    (bytes : List ℕ) (b : Buffer) (i : ℕ)
    → length bytes ≤ i
    → get_or (overwrite bytes b) i 0 ≡ get_or b i 0
get_or-overwrite [] b i h = refl
get_or-overwrite (x ∷ bytes) [] i h = refl
get_or-overwrite (x ∷ bytes) (y ∷ b) zero h = absurd (omega (arith, h))
get_or-overwrite (x ∷ bytes) (y ∷ b) (suc i) h = get_or-overwrite bytes b i (omega (arith, h))

length-overwrite_at :
    (offset : ℕ) (bytes : List ℕ) (b : Buffer) → length (overwrite_at offset bytes b) ≡ length b
length-overwrite_at zero bytes b = length-overwrite bytes b
length-overwrite_at (suc offset) bytes [] = refl
length-overwrite_at (suc offset) bytes (y ∷ b) = ap suc (length-overwrite_at offset bytes b)

take-overwrite_at :
    (offset : ℕ) (bytes : List ℕ) (b : Buffer)
    → offset + length bytes ≤ length b
    → take (length bytes) (drop offset (overwrite_at offset bytes b)) ≡ bytes
take-overwrite_at zero bytes b h = take-overwrite bytes b (omega (arith, h))
take-overwrite_at (suc offset) bytes [] h = absurd (omega (arith, h))
take-overwrite_at (suc offset) bytes (y ∷ b) h = take-overwrite_at offset bytes b (omega (arith, h))

get_or-overwrite_at :
    (offset : ℕ) (bytes : List ℕ) (b : Buffer) (i : ℕ)
    → (i < offset) ⊎ (offset + length bytes ≤ i)
    → get_or (overwrite_at offset bytes b) i 0 ≡ get_or b i 0
get_or-overwrite_at zero bytes b i (inl h) = absurd (omega (arith, h))
get_or-overwrite_at zero bytes b i (inr h) = get_or-overwrite bytes b i (omega (arith, h))
get_or-overwrite_at (suc offset) bytes [] i h = refl
get_or-overwrite_at (suc offset) bytes (y ∷ b) zero h = refl
get_or-overwrite_at (suc offset) bytes (y ∷ b) (suc i) (inl h) =
    get_or-overwrite_at offset bytes b i (inl (omega (arith, h)))
get_or-overwrite_at (suc offset) bytes (y ∷ b) (suc i) (inr h) =
    get_or-overwrite_at offset bytes b i (inr (omega (arith, h)))

-- The buffer that `write_at` copies into.
grown :
    (end : ℕ) (b : Buffer)
    → end ≤ max_size
    → (g : Buffer) × ((if ltb (length b) end then resize end b else ok b) ≡ ok g)
      × (length g ≡ (if ltb (length b) end then end else length b))
      × ((i : ℕ) → get_or g i 0 ≡ get_or b i 0)
unfolding resize
grown end b h =
    let small : ltb max_size end ≡ false = ground arith in
    elim (Bool-cases (ltb (length b) end)) [
      | inl k ↦
          rw (k, small)
            (
              resized end b,
              refl,
              length-resized end b,
              λ i. get_or-resized end i b (omega (tests, k)),
            )
      | inr k ↦ rw k (b, refl, refl, λ i. refl)
    ]

read_at-take :
    (offset n : ℕ) (b : Buffer)
    → 0 < n
    → offset + n ≤ length b
    → read_at offset n b ≡ take n (drop offset b)
unfolding read_at
read_at-take offset n b h k =
    let inside : (leb (length b) offset || n == 0) ≡ false = ground arith in
    let enough : ltb (length b - offset) n ≡ false = ground arith in rw (inside, enough) refl

-- Bytes that are written are read back. Where there are bytes and their end is no larger than a
-- vector can be, `write_at` returns their number; `read_at` then reads them at that place, the buffer
-- has grown to their end if it was shorter, and every other byte is the one from before, or 0 where
-- there was none.
pub read_at-write_at :
    (offset : ℕ) (bytes : List ℕ) (b : Buffer)
    → 0 < length bytes
    → offset + length bytes ≤ max_size
    → (after : Buffer) × (write_at offset (some bytes) b ≡ ok (length bytes, after))
      × (read_at offset (length bytes) after ≡ bytes)
      × (length after
          ≡ (if ltb (length b) (offset + length bytes) then offset + length bytes else length b))
      × ((i : ℕ) → (i < offset) ⊎ (offset + length bytes ≤ i) → get_or after i 0 ≡ get_or b i 0)
unfolding write_at copy_to
read_at-write_at offset bytes b some_bytes small =
    let (g, opened, size, same) = grown (offset + length bytes) b small in
    let exact : (offset + length bytes) % 2 ^ 64 ≡ offset + length bytes = omega (arith, small) in
    let full : (length bytes == 0) ≡ false = ground arith in
    let room : offset + length bytes ≤ length g = ground (arith, size) in
    let fits : leb (offset + length bytes) (length g) ≡ true = ground arith in
    (
      overwrite_at offset bytes g,
      rw (exact, full, opened, fits) refl,
      read_at-take offset (length bytes) (overwrite_at offset bytes g) some_bytes
            (omega (arith, room, length-overwrite_at offset bytes g))
          ∙ take-overwrite_at offset bytes g room,
      length-overwrite_at offset bytes g ∙ size,
      λ i outside. get_or-overwrite_at offset bytes g i outside ∙ same i,
    )

-- Where the sum of the offset and the size does not fit into 64 bits, the test for room passes, and
-- `write_at` writes outside the buffer.
pub write_at_overflow :
    (offset : ℕ) (bytes : List ℕ) (b : Buffer)
    → offset < 2 ^ 64
    → length bytes ≤ max_size
    → length b ≤ max_size
    → 2 ^ 64 ≤ offset + length bytes
    → write_at offset (some bytes) b ≡ undefined
unfolding write_at copy_to
write_at_overflow offset bytes b h k l over =
    let end : ℕ = (offset + length bytes) % 2 ^ 64 in
    let bound : end ≤ max_size = omega (arith, h, k, over) in
    let (g, opened, size, same) = grown end b bound in
    let full : (length bytes == 0) ≡ false = ground arith in
    let room : length g ≤ max_size = ground (arith, size, l, bound) in
    let outside : leb (offset + length bytes) (length g) ≡ false = ground (arith, over, room) in
    rw (full, opened, outside) refl
