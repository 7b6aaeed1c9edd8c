-- ===== src/Filter.antt =====
-- waku/v2/protocol/filter: the subscribers that a full node keeps, and its request handlers.
pub mod Subscribers
pub mod Server
