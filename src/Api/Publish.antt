-- ===== src/Api/Publish.antt =====
-- waku/v2/api/publish: what happens to a message that is published.
pub mod SentCheck
