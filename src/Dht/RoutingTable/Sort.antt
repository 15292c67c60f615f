-- ===== src/Dht/RoutingTable/Sort.antt =====
-- The order of the nodes by distance.
use mathlib.Core.List.{Perm}
use mathlib.Core.List.Perm
use Prim.Native.Nat.{min}
use dht_hunter.Base.{
  ℕ, suc, ◌≡◌, refl, true, false, List, [], ◌∷◌, ◌++◌, append-nil, inl, inr, Bool-cases, ltb,
  length, drop, take-append-drop, length-take, All, bytes_lt_trans, bytes_lt_total, bytes_lt_asym,
  arith,
}
use dht_hunter.Types.NodeId.{NodeId, distance}
use dht_hunter.Types.NodeId
use dht_hunter.Types.Node.{DhtNode}
use dht_hunter.Dht.RoutingTable.{closer, insert_sorted, sort, truncate}

-- Each node is at least as near to the target as all that follow it.
abbrev pub NoneCloser : NodeId → DhtNode → List DhtNode → Type 0
NoneCloser target n ns = All (λ m. closer target m n ≡ false) ns

abbrev pub IsSorted : NodeId → List DhtNode → Type 0
IsSorted target [] = Unit
IsSorted target (n ∷ ns) = NoneCloser target n ns × IsSorted target ns

closer_asym :
    (target : NodeId) (a b : DhtNode) → closer target a b ≡ true → closer target b a ≡ false
unfolding closer NodeId.lt
closer_asym target a b = bytes_lt_asym (distance a.id target) (distance b.id target)

-- Not being closer is transitive.
not_closer_trans :
    (target : NodeId) (a b c : DhtNode)
    → closer target b a ≡ false
    → closer target c b ≡ false
    → closer target c a ≡ false
unfolding closer NodeId.lt
not_closer_trans target a b c h k =
    let da = distance a.id target in
    let db = distance b.id target in
    let dc = distance c.id target in ground (arith, bytes_lt_total da db, bytes_lt_trans dc da db)

NoneCloser-trans :
    (target : NodeId) (a b : DhtNode) (ns : List DhtNode)
    → closer target b a ≡ false
    → NoneCloser target b ns
    → NoneCloser target a ns
NoneCloser-trans target a b [] h k = tt
NoneCloser-trans target a b (c ∷ ns) h k =
    (not_closer_trans target a b c h k.0, NoneCloser-trans target a b ns h k.1)

insert_sorted-NoneCloser :
    (target : NodeId) (a n : DhtNode) (ns : List DhtNode)
    → closer target n a ≡ false
    → NoneCloser target a ns
    → NoneCloser target a (insert_sorted target n ns)
unfolding insert_sorted
insert_sorted-NoneCloser target a n [] h k = (h, tt)
insert_sorted-NoneCloser target a n (m ∷ ns) h k =
    ground (arith, insert_sorted-NoneCloser target a n ns h k.1)

insert_sorted-IsSorted :
    (target : NodeId) (n : DhtNode) (ns : List DhtNode)
    → IsSorted target ns
    → IsSorted target (insert_sorted target n ns)
unfolding insert_sorted
insert_sorted-IsSorted target n [] h = (tt, tt)
insert_sorted-IsSorted target n (m ∷ ns) h = ground (
  arith,
  insert_sorted-IsSorted target n ns h.1,
  insert_sorted-NoneCloser target m n ns,
  NoneCloser-trans target n m ns,
  closer_asym target m n,
)

pub sort-IsSorted : (target : NodeId) (ns : List DhtNode) → IsSorted target (sort target ns)
unfolding sort
sort-IsSorted target [] = tt
sort-IsSorted target (n ∷ ns) =
    insert_sorted-IsSorted target n (sort target ns) (sort-IsSorted target ns)

insert_sorted-perm :
    (target : NodeId) (n : DhtNode) (ns : List DhtNode) → Perm (insert_sorted target n ns) (n ∷ ns)
unfolding insert_sorted
insert_sorted-perm target n [] = Perm.refl (n ∷ [])
insert_sorted-perm target n (m ∷ ns) = elim (Bool-cases (closer target m n)) [
  | inl e ↦ rw e (Perm.trans (Perm.cons m (insert_sorted-perm target n ns)) (Perm.swap n m ns))
  | inr e ↦ rw e (Perm.refl (n ∷ m ∷ ns))
]

pub sort-perm : (target : NodeId) (ns : List DhtNode) → Perm (sort target ns) ns
unfolding sort
sort-perm target [] = Perm.refl []
sort-perm target (n ∷ ns) =
    Perm.trans (insert_sorted-perm target n (sort target ns)) (Perm.cons n (sort-perm target ns))

-- `resize` leaves the first k.
pub truncate_lem :
    (k : ℕ) (ns : List DhtNode)
    → (rest : List DhtNode) × (truncate k ns ++ rest ≡ ns)
      × (length (truncate k ns) ≡ min k (length ns))
unfolding truncate
truncate_lem k ns = elim (Bool-cases (ltb k (length ns))) [
  | inl more ↦ rw more (drop k ns, take-append-drop k ns, length-take k ns)
  | inr fits ↦ rw fits ([], append-nil ns, ground arith)
]

length-insert_sorted :
    (target : NodeId) (n : DhtNode) (ns : List DhtNode)
    → length (insert_sorted target n ns) ≡ suc (length ns)
unfolding insert_sorted
length-insert_sorted target n [] = refl
length-insert_sorted target n (m ∷ ns) = ground (arith, length-insert_sorted target n ns)

pub length-sort : (target : NodeId) (ns : List DhtNode) → length (sort target ns) ≡ length ns
unfolding sort
length-sort target [] = refl
length-sort target (n ∷ ns) =
    omega (arith, length-insert_sorted target n (sort target ns), length-sort target ns)
