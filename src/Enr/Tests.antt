-- ===== src/Enr/Tests.antt =====
-- Runs of shards.go, and an instance of the theorem.
use go_waku.Base.{ℕ_discrete, ◌≡◌, refl, true, false, [], ◌∷◌, arith}
use go_waku.Base.Text.{codes, text_dec, after_prefix, split}
use go_waku.Base.Decimal.{parse_uint}
use go_waku.Base.Keys.{contains, add}
use go_waku.Base.Dict.{lookup, insert}
use go_waku.Base.Result.{ok, err, panic}
use go_waku.Protocol.PubsubTopic.{
  to_shard_pubsub_topic, to_waku_pubsub_topic, read_sharded, has_prefix, parse, parse_rest,
  parse_parts, read_part, read_uint16, default,
}
use go_waku.Protocol.Shard.{
  RelayShards, contains_shard, contains_any_shard, any_shard, any_index, shard_list,
  from_shard_list, uint16_bytes, index_bytes, read_indexes, new_relay_shards, collect,
  topics_to_relay_shards, group_topics, build_shards, note_shard, shards_of,
}
use go_waku.Enr.{
  Record, absent, unreadable, bytes, load_failed, several_clusters, delete_sharding_enr_entries,
  with_waku_relay_shard_list, with_waku_relay_sharding, single, with_waku_relay_sharding_topics,
  relay_shard_list, relay_sharding_bit_vector, relay_sharding, shards_contain,
  record_contains_shard, contains_shard_with_waku_topic, contains_relay_shard, contains_shard_topic,
}
use go_waku.Enr.Sharding.{contains_shard-with_sharding}

program : Unit {0}
unfolding ℕ_discrete text_dec after_prefix split parse_uint contains add lookup insert
    to_shard_pubsub_topic to_waku_pubsub_topic read_sharded has_prefix parse parse_rest parse_parts
    read_part read_uint16 contains_shard contains_any_shard any_shard any_index shard_list
    from_shard_list uint16_bytes index_bytes read_indexes new_relay_shards collect
    topics_to_relay_shards group_topics build_shards note_shard shards_of
    delete_sharding_enr_entries with_waku_relay_shard_list with_waku_relay_sharding single
    with_waku_relay_sharding_topics relay_shard_list relay_sharding_bit_vector relay_sharding
    shards_contain record_contains_shard contains_shard_with_waku_topic contains_relay_shard
    contains_shard_topic
program = tt

abbrev empty : Record
empty = record { indices_list = absent; sharding_bit_vector = absent }

abbrev shards : RelayShards
shards = record { cluster_id = 16; shard_ids = 1 ∷ 42 ∷ [] }

abbrev filled : Record
filled = record {
  indices_list = bytes (0 ∷ 16 ∷ 2 ∷ 0 ∷ 1 ∷ 0 ∷ 42 ∷ []);
  sharding_bit_vector = absent;
}

record_tests :
    (with_waku_relay_sharding shards empty ≡ ok filled)
    × (with_waku_relay_sharding_topics
          (codes "/waku/2/rs/16/1" ∷ codes "/waku/2/rs/16/42" ∷ [])
          empty
        ≡ ok filled)
    × (with_waku_relay_sharding_topics (codes "/waku/2/rs/16/1" ∷ codes "/waku/2/rs/1/1" ∷ []) empty
        ≡ err several_clusters)
    × (record_contains_shard filled 16 42 ≡ ok true)
    × (record_contains_shard filled 1 42 ≡ ok false)
    × (contains_shard_topic filled (codes "/waku/2/rs/16/42") ≡ ok true)
    × (contains_shard_with_waku_topic filled default ≡ ok false)
    × (record_contains_shard empty 16 42 ≡ panic)
    × (relay_sharding (record empty { indices_list = unreadable }) ≡ err load_failed)
unfolding program
record_tests = (refl, refl, refl, refl, refl, refl, refl, refl, refl)

contains_shard-with_sharding_example :
    (node' : Record) × (with_waku_relay_sharding shards empty ≡ ok node')
    × (record_contains_shard node' 16 42 ≡ ok (contains_shard shards 16 42))
contains_shard-with_sharding_example =
    contains_shard-with_sharding shards empty 16 42 (omega arith) (ground arith) (λ e. ground arith)
      (omega arith)
