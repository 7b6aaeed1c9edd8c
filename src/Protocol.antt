-- ===== src/Protocol.antt =====
-- waku/v2/protocol: pubsub topics, content topics, content filters and shards.
pub mod PubsubTopic
pub mod ContentTopic
pub mod Shard
pub mod Message
pub mod ContentFilter
pub mod Subscription
pub mod Store
pub mod Broadcast
