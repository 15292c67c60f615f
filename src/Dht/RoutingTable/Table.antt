-- ===== src/Dht/RoutingTable/Table.antt =====
-- The table's invariant.
use Prim.Native.Nat.{max}
use native.Mathlib.Nat.{add-zero}
use dht_hunter.Base.{
  ℕ, zero, suc, ◌+◌, ◌*◌, ◌≤◌, ◌<◌, ◌≡◌, refl, subst, Bool, false, List, [], ◌∷◌, ◌++◌, some, inl,
  inr, Bool-cases, leb, length, length-append, get_elem?, set, All, arith,
}
use dht_hunter.Types.NodeId.{NodeId, id_size, distance}
use dht_hunter.Types.NodeId
use dht_hunter.Types.Node.{DhtNode}
use dht_hunter.Dht.KBucket.{KBucket, make_bucket}
use dht_hunter.Dht.KBucket.Laws.{IsBucket}
use dht_hunter.Dht.RoutingTable.{RoutingTable, first_set_bit, get_bucket_index, grow}

module _ (is_bit_set : NodeId → ℕ → Bool) where
  -- Bucket `i` holds nodes at prefix length `i` from the local identifier, which is not among them.
  abbrev pub Belongs : NodeId → ℕ → DhtNode → Type 0
  Belongs local_id i n =
      (get_bucket_index is_bit_set local_id n.id ≡ i) × (NodeId.eq n.id local_id ≡ false)

  abbrev pub AllPlaced : NodeId → ℕ → List KBucket → Type 0
  AllPlaced local_id i [] = Unit
  AllPlaced local_id i (b ∷ bs) =
      (IsBucket b × All (Belongs local_id i) b.nodes) × AllPlaced local_id (suc i) bs

  abbrev pub Layout : RoutingTable → Type 0
  Layout t = (length t.buckets ≤ id_size * 8) × AllPlaced t.local_id 0 t.buckets

  -- At most 160 buckets, every node in the bucket of its prefix length, and the mutex free.
  pub record IsTable (t : RoutingTable) : Type 0 where
    pub unlocked : t.held ≡ false
    pub layout : Layout t

  first_set_bit_lt :
      (rounds i : ℕ) (id : NodeId)
      → 0 < i + rounds
      → first_set_bit is_bit_set rounds i id < i + rounds
  unfolding first_set_bit
  first_set_bit_lt zero i id h = omega arith
  first_set_bit_lt (suc rounds) i id h = ground (arith, first_set_bit_lt rounds (suc i) id)

  pub get_bucket_index_lt :
      (local_id id : NodeId) → get_bucket_index is_bit_set local_id id < id_size * 8
  unfolding get_bucket_index
  get_bucket_index_lt local_id id =
      first_set_bit_lt (id_size * 8) 0 (distance local_id id) (omega arith)

  make_bucket-IsBucket : (prefix now : ℕ) → IsBucket (make_bucket prefix now)
  unfolding make_bucket
  make_bucket-IsBucket prefix now = record { bounded = omega arith; distinct = tt; free = refl }

  AllPlaced-append :
      (local_id : NodeId) (i now p : ℕ) (bs : List KBucket)
      → AllPlaced local_id i bs
      → AllPlaced local_id i (bs ++ (make_bucket p now ∷ []))
  unfolding make_bucket
  AllPlaced-append local_id i now p [] h = ((make_bucket-IsBucket p now, tt), tt)
  AllPlaced-append local_id i now p (b ∷ bs) h =
      (h.0, AllPlaced-append local_id (suc i) now p bs h.1)

  pub grow-AllPlaced :
      (rounds now index : ℕ) (local_id : NodeId) (bs : List KBucket)
      → AllPlaced local_id 0 bs
      → AllPlaced local_id 0 (grow rounds now index bs)
  unfolding grow
  grow-AllPlaced zero now index local_id bs h = h
  grow-AllPlaced (suc rounds) now index local_id bs h = elim (Bool-cases (leb (length bs) index)) [
    | inl e ↦ rw e (
        grow-AllPlaced rounds now index local_id _
          (AllPlaced-append local_id 0 now (length bs) bs h))
    | inr e ↦ rw e h
  ]

  -- Bucket `i` of a table, counted from `k`.
  pub AllPlaced-at :
      (local_id : NodeId) (k i : ℕ) (bs : List KBucket) (b : KBucket)
      → AllPlaced local_id k bs
      → get_elem? bs i ≡ some b
      → IsBucket b × All (Belongs local_id (k + i)) b.nodes
  AllPlaced-at local_id k i [] b h e = cc
  AllPlaced-at local_id k zero (c ∷ bs) b h e =
      rw add-zero (subst (λ x. IsBucket x × All (Belongs local_id k) x.nodes) (cc) h.0)
  AllPlaced-at local_id k (suc i) (c ∷ bs) b h e =
      let next : k + suc i ≡ suc k + i = omega arith in
      rw next (AllPlaced-at local_id (suc k) i bs b h.1 e)

  pub AllPlaced-set :
      (local_id : NodeId) (k i : ℕ) (bs : List KBucket) (b : KBucket)
      → AllPlaced local_id k bs
      → IsBucket b
      → All (Belongs local_id (k + i)) b.nodes
      → AllPlaced local_id k (set bs i b)
  AllPlaced-set local_id k i [] b h v a = tt
  AllPlaced-set local_id k zero (c ∷ bs) b h v a = ((v, rw add-zero at a), h.1)
  AllPlaced-set local_id k (suc i) (c ∷ bs) b h v a =
      let next : k + suc i ≡ suc k + i = omega arith in
      (h.0, AllPlaced-set local_id (suc k) i bs b h.1 v (rw next at a))

-- Enough buckets are made, and no more than the index asks for.
pub grow_lengths :
    (rounds now index : ℕ) (bs : List KBucket)
    → index < length bs + rounds
    → (index < length (grow rounds now index bs))
      × (length (grow rounds now index bs) ≤ max (length bs) (suc index))
unfolding grow
grow_lengths zero now index bs h = omega arith
grow_lengths (suc rounds) now index bs h = ground (
  arith,
  grow_lengths rounds now index (bs ++ (make_bucket (length bs) now ∷ [])),
  length-append bs (make_bucket (length bs) now ∷ []),
)
