-- ===== src/Rln.antt =====
-- waku/v2/protocol/rln: rate limiting nullifiers.
pub mod NullifierLog
pub mod RootTracker
pub mod Relay
