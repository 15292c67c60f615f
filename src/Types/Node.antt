-- ===== src/Types/Node.antt =====
-- modules/types/src/endpoint.cpp and dht_node.cpp: what the DHT uses of endpoints and nodes. Times
-- are numbers, and the clock's reading is an argument.
use dht_hunter.Base.{ℕ, Bool, ◌&&◌, not, List, ltb, ◌==◌, if◌then◌else◌, length, bytes_lt, bytes_eq}
use dht_hunter.Types.NodeId.{NodeId, distance}
use dht_hunter.Types.NodeId

pub data AddressType : Type 0 where
  ipv4 ipv6 : AddressType

pub record Endpoint : Type 0 where
  pub address : List ℕ
  pub port : ℕ
  pub address_type : AddressType

-- The address type is not compared.
unfoldable pub endpoint_eq : Endpoint → Endpoint → Bool
endpoint_eq a b = bytes_eq a.address b.address && a.port == b.port

unfoldable pub endpoint_lt : Endpoint → Endpoint → Bool
endpoint_lt a b =
    if not (bytes_eq a.address b.address) then bytes_lt a.address b.address else ltb a.port b.port

unfoldable pub endpoint_is_valid : Endpoint → Bool
endpoint_is_valid e = ltb 0 (length e.address) && ltb 0 e.port

pub data Status : Type 0 where
  unknown good questionable bad : Status

pub record DhtNode : Type 0 where
  pub id : NodeId
  pub endpoint : Endpoint
  pub status : Status
  pub last_seen : ℕ

unfoldable pub node_eq : DhtNode → DhtNode → Bool
node_eq a b = NodeId.eq a.id b.id && endpoint_eq a.endpoint b.endpoint
