-- ===== src/Bencode/Value/Laws.antt =====
-- Reading after writing and removing, by key and by index.
use dht_hunter.Base.{
  ℕ, zero, suc, ◌<◌, ◌≡◌, refl, ap, List, none, some, inl, inr, ltb, ◌==◌, if◌then◌else◌, bytes_eq,
  bytes_eq_iff, bytes_lt_irrefl, bytes_lt_total, ok, ◌>>=◌, ◌>>◌, Ensures, Ensures-if, Bool-cases,
  returns, throws, arith,
}
use dht_hunter.Bencode.Value.{
  Value, Items, Fields, list, dict, nil, item, end, field, size, at, assign, erase_at, find, insert,
  erase, get_key, get_index, set_key, set_index, add, remove_key, remove_index, found, Above,
  IsSorted, IsValid, AllValid, FieldsValid,
}
use dht_hunter.Bencode.Value.Append.{push_back-AllValid, insert-FieldsValid, insert-IsSorted}

pub find-insert :
    (k j : List ℕ) (v : Value) (fs : Fields)
    → find j (insert k v fs) ≡ (if bytes_eq k j then some v else find j fs)
unfolding find insert
find-insert k j v end = refl
find-insert k j v (field i w fs) = ground (
  arith,
  find-insert k j v fs,
  bytes_lt_total i k,
  bytes_lt_irrefl k,
  bytes_eq_iff i j,
  bytes_eq_iff k j,
)

-- A key below all others is not in the map.
find-Above : (k : List ℕ) (fs : Fields) → Above k fs → find k fs ≡ none
unfolding find
find-Above k end h = refl
find-Above k (field i w fs) h =
    ground (arith, find-Above k fs h.1, bytes_eq_iff i k, bytes_lt_irrefl k)

pub find-erase :
    (k j : List ℕ) (fs : Fields)
    → IsSorted fs
    → find j (erase k fs) ≡ (if bytes_eq k j then none else find j fs)
unfolding find erase
find-erase k j end h = ground arith
find-erase k j (field i w fs) h = ground (
  arith,
  find-erase k j fs h.1,
  find-Above i fs h.0,
  bytes_eq_iff i j,
  bytes_eq_iff k j,
  bytes_eq_iff i k,
)

Above-erase : (j k : List ℕ) (fs : Fields) → Above j fs → Above j (erase k fs)
unfolding erase
Above-erase j k end h = tt
Above-erase j k (field i w fs) h = ground (arith, Above-erase j k fs h.1)

erase-IsSorted : (k : List ℕ) (fs : Fields) → IsSorted fs → IsSorted (erase k fs)
unfolding erase
erase-IsSorted k end h = tt
erase-IsSorted k (field i w fs) h = ground (arith, erase-IsSorted k fs h.1, Above-erase i k fs h.0)

erase-FieldsValid : (k : List ℕ) (fs : Fields) → FieldsValid fs → FieldsValid (erase k fs)
unfolding erase
erase-FieldsValid k end h = tt
erase-FieldsValid k (field i w fs) h = ground (arith, erase-FieldsValid k fs h.1)

assign-AllValid :
    (xs : Items) (n : ℕ) (v : Value) → AllValid xs → IsValid v → AllValid (assign xs n v)
unfolding assign
assign-AllValid nil n v h k = tt
assign-AllValid (item x xs) zero v h k = (k, h.1)
assign-AllValid (item x xs) (suc n) v h k = (h.0, assign-AllValid xs n v h.1 k)

erase_at-AllValid : (xs : Items) (n : ℕ) → AllValid xs → AllValid (erase_at xs n)
unfolding erase_at
erase_at-AllValid nil n h = tt
erase_at-AllValid (item x xs) zero h = h.1
erase_at-AllValid (item x xs) (suc n) h = (h.0, erase_at-AllValid xs n h.1)

size-assign : (xs : Items) (n : ℕ) (v : Value) → size (assign xs n v) ≡ size xs
unfolding assign
size-assign nil n v = refl
size-assign (item x xs) zero v = refl
size-assign (item x xs) (suc n) v = ap suc (size-assign xs n v)

at-assign :
    (xs : Items) (n m : ℕ) (v : Value)
    → n < size xs
    → at (assign xs n v) m ≡ (if n == m then some v else at xs m)
unfolding at assign
at-assign nil n m v h = elim h [ ]
at-assign (item x xs) zero zero v h = ground arith
at-assign (item x xs) zero (suc m) v h = ground arith
at-assign (item x xs) (suc n) zero v h = ground arith
at-assign (item x xs) (suc n) (suc m) v h = ground (arith, at-assign xs n m v (omega arith))

-- Writing a key and reading one: the written key has the new value, every other key reads as
-- before, and where the value is no dictionary both throw.
pub get_key-set_key :
    (d v : Value) (k j : List ℕ)
    → (set_key d k v >>= λ d'. get_key d' j)
      ≡ (if bytes_eq k j then (get_key d j >> ok (some v)) else get_key d j)
unfolding get_key set_key
get_key-set_key (dict fs) v k j = ground (arith, find-insert k j v fs)
get_key-set_key _ v k j = ground arith

-- Removing a key and reading one: the removed key is gone, every other key reads as before, and
-- `remove` reports whether the key was there.
pub get_key-remove_key :
    (d : Value) (k j : List ℕ)
    → IsValid d
    → ((remove_key d k >>= λ (d', _). get_key d' j)
        ≡ (if bytes_eq k j then (get_key d j >> ok none) else get_key d j))
      × ((remove_key d k >>= λ (_, removed). ok removed) ≡ (get_key d k >>= λ o. ok (found o)))
unfolding get_key remove_key
get_key-remove_key (dict fs) k j h = (ground (arith, find-erase k j fs h.0), refl)
get_key-remove_key _ k j h = ground arith

-- Writing an index in range and reading one: the written index has the new value, and every other
-- index reads as before, out of range included.
pub get_index-set_index :
    (d d' v : Value) (n m : ℕ)
    → set_index d n v ≡ ok d'
    → get_index d' m ≡ (if n == m then ok v else get_index d m)
unfolding get_index set_index
get_index-set_index (list xs) d' v n m h = elim (Bool-cases (ltb n (size xs))) [
  | inr out ↦ absurd (cc (rw out at h))
  | inl inside ↦
      let written : list (assign xs n v) ≡ d' = cc (rw inside at h) in
      rw (← written) (ground (arith, at-assign xs n m v (ground arith), size-assign xs n v))
]
get_index-set_index _ d' v n m h = cc

-- Every operation that changes a value keeps its integers in range and its dictionaries sorted.
pub update-Ensures :
    (d v : Value) (k : List ℕ) (n : ℕ)
    → IsValid d
    → IsValid v
    → Ensures IsValid (set_key d k v)
      × Ensures IsValid (set_index d n v)
      × Ensures IsValid (add d v)
      × Ensures (λ (d', _). IsValid d') (remove_key d k)
      × Ensures (λ (d', _). IsValid d') (remove_index d n)
unfolding set_key set_index add remove_key remove_index
update-Ensures (list xs) v k n h hv = (
  throws,
  Ensures-if (ltb n (size xs)) (λ _. returns (assign-AllValid xs n v h hv)) (λ _. throws),
  returns (push_back-AllValid xs v h hv),
  throws,
  Ensures-if (ltb n (size xs)) (λ _. returns (erase_at-AllValid xs n h)) (λ _. returns h),
)
update-Ensures (dict fs) v k n h hv = (
  returns (insert-IsSorted k v fs h.0, insert-FieldsValid k v fs h.1 hv),
  throws,
  throws,
  returns (erase-IsSorted k fs h.0, erase-FieldsValid k fs h.1),
  throws,
)
update-Ensures _ v k n h hv = (throws, throws, throws, throws, throws)
