-- ===== src/Types/TableEntry/Tests.antt =====
-- Instances of the theorems on table entries.
use dht_hunter.Base.{ℕ, ◌≡◌, refl, true, [], ◌∷◌, replicate, bytes_eq}
use dht_hunter.Base.Text.{codes}
use dht_hunter.Types.NodeId
use dht_hunter.Types.Node.{DhtNode, ipv4, unknown, node_eq, endpoint_eq}
use dht_hunter.Types.TableEntry.{TableEntry, occurs, entry_is_full, entry_contains, entry_add}

abbrev node_at : ℕ → ℕ → DhtNode
node_at b port = record {
  id = replicate 20 b;
  endpoint = record { address = codes "10.0.0.7"; port = port; address_type = ipv4 };
  status = unknown;
  last_seen = 0;
}

abbrev entry : TableEntry
entry = record { prefix_length = 3; nodes = node_at 7 6881 ∷ node_at 9 80 ∷ []; last_updated = 0 }

-- One identifier may stand twice, with two endpoints.
added_twice : (entry_add 5 (node_at 7 6882) entry).0 ≡ true
unfolding entry_add entry_is_full entry_contains occurs node_eq endpoint_eq NodeId.eq bytes_eq
added_twice = refl
