-- ===== src/Types.antt =====
-- modules/types: identifiers, endpoints, nodes and the bucket type of the routing table.
pub mod NodeId
pub mod Node
pub mod Endpoint
pub mod InfoHash
pub mod TableEntry
pub mod Tests
