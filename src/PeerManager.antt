-- ===== src/PeerManager.antt =====
-- waku/v2/peermanager.
pub mod ConnectionGater
pub mod Selection
