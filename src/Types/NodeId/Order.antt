-- ===== src/Types/NodeId/Order.antt =====
-- The comparison operators of NodeID.
use dht_hunter.Base.{
  ◌≡◌, refl, ◌≢◌, ◌↔◌, ◌⊎◌, true, false, bytes_lt_irrefl, bytes_lt_trans, bytes_lt_total,
  bytes_lt_asym, bytes_eq_iff, arith,
}
use dht_hunter.Types.NodeId.{NodeId, eq, ne, lt, gt, le, ge}

pub eq_iff : (a b : NodeId) → (eq a b ≡ true) ↔ (a ≡ b)
unfolding eq
eq_iff a b = bytes_eq_iff a b

-- `<` is a strict total order, and the other five operators agree with it and with equality.
pub order_laws :
    (a b c : NodeId)
    → (lt a a ≡ false)
      × (lt a b ≡ true → lt b c ≡ true → lt a c ≡ true)
      × ((lt a b ≡ true) ⊎ (lt b a ≡ true) ⊎ (a ≡ b))
      × ((le a b ≡ true) ↔ ((lt a b ≡ true) ⊎ (a ≡ b)))
      × (gt a b ≡ lt b a)
      × (ge a b ≡ le b a)
      × ((eq a b ≡ true) ↔ (a ≡ b))
      × ((ne a b ≡ true) ↔ (a ≢ b))
unfolding eq ne lt gt le ge
order_laws a b c = (
  bytes_lt_irrefl a,
  bytes_lt_trans a b c,
  bytes_lt_total a b,
  le_iff,
  refl,
  refl,
  bytes_eq_iff a b,
  ground (arith, bytes_eq_iff a b),
)
  where
    le_iff : (le a b ≡ true) ↔ ((lt a b ≡ true) ⊎ (a ≡ b))
    le_iff = ground (arith, bytes_lt_total a b, bytes_lt_asym a b, bytes_lt_irrefl a)
