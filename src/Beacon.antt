-- ===== src/Beacon.antt =====
-- modules/beacon: the sinks of log messages, and the beacon that writes to them.
pub mod Severity
pub mod Filter
pub mod FileSink
pub mod Log
