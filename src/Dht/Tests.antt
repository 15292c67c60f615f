-- ===== src/Dht/Tests.antt =====
-- Instances of the theorems on buckets and tables.
use dht_hunter.Base.{
  ℕ, ◌-◌, ◌/◌, ◌%◌, ◌^◌, ◌≡◌, refl, Bool, false, [], ◌∷◌, ◌==◌, replicate, get_or, bytes_eq, arith,
}
use dht_hunter.Base.Text.{codes}
use dht_hunter.Types.NodeId.{NodeId}
use dht_hunter.Types.NodeId
use dht_hunter.Types.Node.{DhtNode, Endpoint, ipv4, unknown}
use dht_hunter.Dht.Mutex.{blocks, stuck, Returns}
use dht_hunter.Dht.KBucket.{KBucket, find}
use dht_hunter.Dht.KBucket.Laws.{IsBucket}
use dht_hunter.Dht.RoutingTable.{
  RoutingTable, get_bucket_index, first_set_bit, add_node, remove_node, update_node, get_node,
  contains_node,
}
use dht_hunter.Dht.RoutingTable.Table.{IsTable}
use dht_hunter.Dht.RoutingTable.Methods.{methods-IsTable, add_node-blocks_table}

-- Bit `i` from the left, as the callers of `is_bit_set` expect it.
abbrev bit_from_left : NodeId → ℕ → Bool
bit_from_left id i = (get_or id (i / 8) 0 / 2 ^ (7 - i % 8)) % 2 == 1

abbrev home : Endpoint
home = record { address = codes "127.0.0.1"; port = 6881; address_type = ipv4 }

abbrev node_of : ℕ → DhtNode
node_of b = record { id = b ∷ replicate 19 0; endpoint = home; status = unknown; last_seen = 0 }

abbrev local_id : NodeId
local_id = replicate 20 0

abbrev bucket : KBucket
bucket = record { prefix_length = 0; nodes = node_of 200 ∷ []; last_updated = 0; held = false }

bucket-IsBucket : IsBucket bucket
unfolding find
bucket-IsBucket = record { bounded = omega arith; distinct = (refl, tt); free = refl }

abbrev table : RoutingTable
table = record { local_id = local_id; buckets = bucket ∷ []; held = false }

table-IsTable : IsTable bit_from_left table
unfolding get_bucket_index first_set_bit NodeId.distance NodeId.eq bytes_eq
table-IsTable = record {
  unlocked = refl;
  layout = (omega arith, ((bucket-IsBucket, ((refl, refl), tt)), tt));
}

other_than_local : NodeId.eq (node_of 70).id local_id ≡ false
unfolding NodeId.eq bytes_eq
other_than_local = refl

add_node-blocks_table_example : add_node bit_from_left blocks 5 (node_of 70) table ≡ stuck
add_node-blocks_table_example =
    add_node-blocks_table bit_from_left 5 (node_of 70) table table-IsTable other_than_local

methods-IsTable_example :
    Returns (IsTable bit_from_left) (remove_node bit_from_left blocks 5 (node_of 200).id table)
    × Returns (IsTable bit_from_left) (update_node bit_from_left blocks 5 (node_of 70) table)
    × Returns (IsTable bit_from_left) (get_node bit_from_left blocks (node_of 200).id table)
    × Returns (IsTable bit_from_left) (contains_node bit_from_left blocks (node_of 200).id table)
methods-IsTable_example =
    methods-IsTable bit_from_left blocks 5 (node_of 70) (node_of 200).id table table-IsTable
