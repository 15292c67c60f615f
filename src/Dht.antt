-- ===== src/Dht.antt =====
-- modules/dht: the routing table with its buckets and locks, lookups, tokens, messages and sessions.
pub mod Mutex
pub mod KBucket
pub mod RoutingTable
pub mod NodeLookup
pub mod TokenManager
pub mod Message
pub mod Session
pub mod Bootstrap
pub mod Tests
