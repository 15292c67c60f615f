-- ===== src/Network.antt =====
-- modules/network: addresses, the buffer, and the HTTP client.
pub mod Address
pub mod Buffer
pub mod Client
pub mod Request
pub mod Response
pub mod Socket
pub mod Url
