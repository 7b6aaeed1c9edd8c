-- ===== src/Rest.antt =====
-- cmd/waku/server/rest.
pub mod Message
pub mod FilterCache
