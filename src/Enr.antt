-- ===== src/Enr.antt =====
-- waku/v2/protocol/enr/shards.go: the shards in a node's record. The record of go-ethereum is
-- reduced to its two sharding fields; a field that does not load is an error.
pub mod Sharding
mod Tests
use go_waku.Base.{
  ℕ, ◌==◌, Bool, true, false, Option, none, some, List, [], ◌∷◌, ltb, leb, if◌then◌else◌, length,
}
use go_waku.Base.Text.{Text}
use go_waku.Base.Result.{Result, ok, err, panic, ◌>>=◌}
use go_waku.Protocol.PubsubTopic.{
  WakuPubSubTopic, StaticShardingPubsubTopic, to_shard_pubsub_topic, to_waku_pubsub_topic,
  static_sharding,
}
use go_waku.Protocol.Shard.{
  RelayShards, max_shard_index, shard_list, bit_vector, from_shard_list, from_bit_vector,
  topics_to_relay_shards, contains_shard,
}

-- An entry: missing, bytes, or something that `Load` cannot read as bytes.
pub data Entry : Type 0 where
  absent unreadable : Entry
  bytes : List ℕ → Entry

pub record Record : Type 0 where
  pub indices_list : Entry
  pub sharding_bit_vector : Entry

pub data EnrError : Type 0 where
  load_failed bad_field bad_topics several_clusters : EnrError

unfoldable pub delete_sharding_enr_entries : Record → Record
delete_sharding_enr_entries node = record { indices_list = absent; sharding_bit_vector = absent }

-- `ShardList` never returns an error.
unfoldable pub with_waku_relay_shard_list : RelayShards → Record → Result EnrError Record
with_waku_relay_shard_list rs node =
    ok (record (delete_sharding_enr_entries node) { indices_list = bytes (shard_list rs) })

-- An error of a function of another package, as one of this package.
abbrev pub lift : {E A : Type 0} → EnrError → Result E A → Result EnrError A
lift e (ok a) = ok a
lift e (err _) = err e
lift e panic = panic

unfoldable pub with_waku_relay_sharding_bit_vector : RelayShards → Record → Result EnrError Record
with_waku_relay_sharding_bit_vector rs node = lift bad_field (bit_vector rs) >>= λ b.
    ok (record (delete_sharding_enr_entries node) { sharding_bit_vector = bytes b })

unfoldable pub with_waku_relay_sharding : RelayShards → Record → Result EnrError Record
with_waku_relay_sharding rs node =
    if leb 64 (length rs.shard_ids)
    then with_waku_relay_sharding_bit_vector rs node
    else with_waku_relay_shard_list rs node

-- The test that there is a single value.
unfoldable pub single : List RelayShards → Result EnrError RelayShards
single (rs ∷ []) = ok rs
single _ = err several_clusters

unfoldable pub with_waku_relay_sharding_topics : List Text → Record → Result EnrError Record
with_waku_relay_sharding_topics topics node =
    lift bad_topics (topics_to_relay_shards topics) >>= λ rss.
    single rss >>= λ rs. with_waku_relay_sharding rs node

-- Nothing stands for the nil pointer.
unfoldable pub relay_shard_list : Record → Result EnrError (Option RelayShards)
relay_shard_list node = elim node.indices_list [
  | absent ↦ ok none
  | unreadable ↦ err load_failed
  | bytes field ↦ lift bad_field (from_shard_list field) >>= λ rs. ok (some rs)
]

unfoldable pub relay_sharding_bit_vector : Record → Result EnrError (Option RelayShards)
relay_sharding_bit_vector node = elim node.sharding_bit_vector [
  | absent ↦ ok none
  | unreadable ↦ err load_failed
  | bytes field ↦ lift bad_field (from_bit_vector field) >>= λ rs. ok (some rs)
]

unfoldable pub relay_sharding : Record → Result EnrError (Option RelayShards)
relay_sharding node = elim (relay_shard_list node) [
  | ok (some rs) ↦ ok (some rs)
  | ok none ↦ relay_sharding_bit_vector node
  | err e ↦ err e
  | panic ↦ panic
]

-- `rs.Contains` with what `RelaySharding` returned; the nil pointer has no fields to read.
unfoldable pub shards_contain : Result EnrError (Option RelayShards) → ℕ → ℕ → Result EnrError Bool
shards_contain (ok (some rs)) cluster index = ok (contains_shard rs cluster index)
shards_contain (ok none) cluster index = panic
shards_contain (err _) cluster index = ok false
shards_contain panic cluster index = panic

unfoldable pub record_contains_shard : Record → ℕ → ℕ → Result EnrError Bool
record_contains_shard node cluster index =
    if ltb max_shard_index index
    then ok false
    else shards_contain (relay_sharding node) cluster index

unfoldable pub contains_shard_with_waku_topic : Record → WakuPubSubTopic → Result EnrError Bool
contains_shard_with_waku_topic node topic = elim (to_shard_pubsub_topic topic) [
  | ok t ↦ record_contains_shard node t.cluster_id t.shard_id
  | _ ↦ ok false
]

unfoldable pub contains_relay_shard : Record → StaticShardingPubsubTopic → Result EnrError Bool
contains_relay_shard node topic = contains_shard_with_waku_topic node (static_sharding topic)

unfoldable pub contains_shard_topic : Record → Text → Result EnrError Bool
contains_shard_topic node topic = elim (to_waku_pubsub_topic topic) [
  | ok t ↦ contains_shard_with_waku_topic node t
  | err _ ↦ ok false
  | panic ↦ panic
]
