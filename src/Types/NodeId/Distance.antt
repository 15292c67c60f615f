-- ===== src/Types/NodeId/Distance.antt =====
-- The exclusive-or distance is a metric: Kademlia's laws.
use dht_hunter.Base.{suc, ◌≡◌, refl, sym, ap, ap₂, ◌∙◌, ◌↔◌, [], ◌∷◌, length, replicate, All, arith}
use dht_hunter.Base.Xor.{bit_xor_comm, bit_xor_assoc, bit_xor_self, bit_xor-zero, bit_xor_bound}
use dht_hunter.Types.NodeId.{NodeId, IsByte, IsNodeId, distance}

pub distance_comm : (a b : NodeId) → distance a b ≡ distance b a
unfolding distance
distance_comm [] [] = refl
distance_comm [] (y ∷ ys) = refl
distance_comm (x ∷ xs) [] = refl
distance_comm (x ∷ xs) (y ∷ ys) = ap₂ (λ s t. s ∷ t) (bit_xor_comm x y) (distance_comm xs ys)

pub distance_assoc : (a b c : NodeId) → distance (distance a b) c ≡ distance a (distance b c)
unfolding distance
distance_assoc [] b c = refl
distance_assoc (x ∷ xs) [] c = refl
distance_assoc (x ∷ xs) (y ∷ ys) [] = refl
distance_assoc (x ∷ xs) (y ∷ ys) (z ∷ zs) =
    ap₂ (λ s t. s ∷ t) (bit_xor_assoc x y z) (distance_assoc xs ys zs)

pub distance_self : (a : NodeId) → distance a a ≡ replicate (length a) 0
unfolding distance
distance_self [] = refl
distance_self (x ∷ xs) = ap₂ (λ s t. s ∷ t) (bit_xor_self x) (distance_self xs)

distance-zeros : (a : NodeId) → distance a (replicate (length a) 0) ≡ a
unfolding distance
distance-zeros [] = refl
distance-zeros (x ∷ xs) = ap₂ (λ s t. s ∷ t) (bit_xor-zero x) (distance-zeros xs)

-- Adding the same identifier twice changes nothing.
pub distance_cancel : (a b : NodeId) → length a ≡ length b → distance (distance a b) b ≡ a
distance_cancel a b h =
    distance_assoc a b b
    ∙ ap (distance a) (distance_self b ∙ ap (λ n. replicate n 0) (sym h))
    ∙ distance-zeros a

length-distance : (a b : NodeId) → length a ≡ length b → length (distance a b) ≡ length a
unfolding distance
length-distance [] b h = refl
length-distance (x ∷ xs) [] h = sym h
length-distance (x ∷ xs) (y ∷ ys) h = ap suc (length-distance xs ys (omega arith))

distance-IsByte : (a b : NodeId) → All IsByte a → All IsByte b → All IsByte (distance a b)
unfolding distance
distance-IsByte [] b h k = tt
distance-IsByte (x ∷ xs) [] h k = tt
distance-IsByte (x ∷ xs) (y ∷ ys) h k = (bit_xor_bound 8 x y h.0 k.0, distance-IsByte xs ys h.1 k.1)

pub distance-IsNodeId : (a b : NodeId) → IsNodeId a → IsNodeId b → IsNodeId (distance a b)
distance-IsNodeId a b h k = (length-distance a b (h.0 ∙ sym k.0) ∙ h.0, distance-IsByte a b h.1 k.1)

-- An identifier at a given distance from a target is unique.
pub distance-injective :
    (a b t : NodeId)
    → length a ≡ length t
    → length b ≡ length t
    → distance a t ≡ distance b t
    → a ≡ b
distance-injective a b t h k e =
    sym (distance_cancel a t h) ∙ ap (λ u. distance u t) e ∙ distance_cancel b t k

-- The distance of two identifiers is an identifier; it is symmetric, it is zero exactly between
-- equal ones, the distance along a third identifier composes, and no two identifiers are at the
-- same distance from a third.
pub distance_metric :
    (a b c : NodeId)
    → IsNodeId a
    → IsNodeId b
    → IsNodeId c
    → IsNodeId (distance a b)
      × (distance a b ≡ distance b a)
      × ((distance a b ≡ replicate 20 0) ↔ (a ≡ b))
      × (distance a c ≡ distance (distance a b) (distance b c))
      × (distance a c ≡ distance b c → a ≡ b)
distance_metric a b c ha hb hc = (
  distance-IsNodeId a b ha hb,
  distance_comm a b,
  (λ e. distance-injective a b b (ha.0 ∙ sym hb.0) refl (e ∙ zeros), λ e. rw e (sym zeros)),
  along,
  distance-injective a b c (ha.0 ∙ sym hc.0) (hb.0 ∙ sym hc.0),
)
  where
    zeros : replicate 20 0 ≡ distance b b
    zeros = sym (distance_self b ∙ ap (λ n. replicate n 0) hb.0)

    along : distance a c ≡ distance (distance a b) (distance b c)
    along =
        ap (λ u. distance u c) (sym (distance_cancel a b (ha.0 ∙ sym hb.0)))
        ∙ distance_assoc (distance a b) b c
