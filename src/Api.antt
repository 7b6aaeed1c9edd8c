-- ===== src/Api.antt =====
-- waku/v2/api: what an application builds on the protocols.
pub mod History
pub mod Missing
pub mod Publish
