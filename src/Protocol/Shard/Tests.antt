-- ===== src/Protocol/Shard/Tests.antt =====
-- Runs of shard.go, and instances of the theorems. `toy_hash` stands for SHA-256: 32 bytes that end
-- in the length of the text.
use go_waku.Base.{
  ℕ, ◌≡◌, ◌<◌, ◌%◌, refl, true, List, [], ◌∷◌, ◌++◌, arith, ℕ_discrete, length, replicate,
}
use go_waku.Base.Text.{Text, codes, after_prefix, split, text_dec}
use go_waku.Base.Decimal.{format, parse_uint}
use go_waku.Base.Dict.{Dict, lookup, insert}
use go_waku.Base.Keys.{contains, add}
use go_waku.Base.Result.{ok, err, panic}
use go_waku.Protocol.PubsubTopic.{
  StaticShardingPubsubTopic, to_string, parse, read_uint16, read_part, parse_parts, parse_rest,
  has_prefix, read_sharded, to_waku_pubsub_topic, to_shard_pubsub_topic,
}
use go_waku.Protocol.ContentTopic.{
  ContentTopic, string_to_content_topic, read_parts, build, is_empty, read_generation,
}
use go_waku.Protocol.ContentTopic.Tests.{chat}
use go_waku.Protocol.Shard.{
  RelayShards, invalid_shard, invalid_shard_count, cluster_index, collect, new_relay_shards,
  any_index, any_shard, contains_any_shard, contains_shard, contains_shard_pubsub_topic,
  contains_topic, shards_of, note_shard, group_topics, build_shards, topics_to_relay_shards,
  uint16_bytes, index_bytes, shard_list, read_indexes, from_shard_list, set_bit, has_bit,
  set_shards, bit_vector, byte_shards, vector_shards, from_bit_vector, shards_to_topics,
}
use go_waku.Protocol.Shard.Sets.{SameShards}
use go_waku.Protocol.Shard.ShardList.{from_shard_list-shard_list}
use go_waku.Protocol.Shard.BitVector.{from_bit_vector-bit_vector}
use go_waku.Protocol.Shard.Topics.{names, some_contains, Separate, topics_to_relay_shards_lem}
use go_waku.Protocol.Shard.Autosharding.{
  big_endian, list_of, get_shard_from_content_topic, get_pubsub_topic_from_content_topic,
  group_content_topics, generate_pubsub_to_content_topic_map,
}
use go_waku.Protocol.Shard.Autosharding.Laws.{get_shard_range}

program : Unit {0}
unfolding to_string parse read_uint16 read_part parse_parts parse_rest has_prefix read_sharded
    to_waku_pubsub_topic to_shard_pubsub_topic after_prefix split text_dec format parse_uint
    ℕ_discrete lookup insert contains add string_to_content_topic read_parts build is_empty
    read_generation collect new_relay_shards any_index any_shard contains_any_shard contains_shard
    contains_shard_pubsub_topic contains_topic shards_of note_shard group_topics build_shards
    topics_to_relay_shards uint16_bytes index_bytes shard_list read_indexes from_shard_list set_bit
    has_bit set_shards bit_vector byte_shards vector_shards from_bit_vector shards_to_topics
    big_endian list_of get_shard_from_content_topic get_pubsub_topic_from_content_topic
    group_content_topics generate_pubsub_to_content_topic_map
program = tt

abbrev toy_hash : Text → List ℕ
toy_hash s = replicate 31 0 ++ (length s % 256) ∷ []

abbrev shards : RelayShards
shards = record { cluster_id = 16; shard_ids = 1 ∷ 42 ∷ 1023 ∷ [] }

abbrev topic_list : List Text
topic_list =
    codes "/waku/2/rs/16/42"
    ∷ codes "/other"
    ∷ codes "/waku/2/rs/1/7"
    ∷ codes "/waku/2/rs/16/1"
    ∷ []

abbrev grouped : List RelayShards
grouped =
    record { cluster_id = 16; shard_ids = 42 ∷ 1 ∷ [] }
    ∷ record { cluster_id = 1; shard_ids = 7 ∷ [] }
    ∷ []

abbrev chat_text : Text
chat_text = codes "/toychat/2/huilong/proto"

shard_tests :
    (new_relay_shards 1 (3 ∷ 3 ∷ 4 ∷ []) ≡ ok (record { cluster_id = 1; shard_ids = 3 ∷ 4 ∷ [] }))
    × (new_relay_shards 1 (3 ∷ 1024 ∷ []) ≡ err invalid_shard)
    × (new_relay_shards 1 [] ≡ err invalid_shard_count)
    × (contains_topic shards (codes "/waku/2/rs/16/42") ≡ ok true)
    × (contains_topic shards (codes "/waku/2/rs") ≡ panic)
    × (shard_list shards ≡ 0 ∷ 16 ∷ 3 ∷ 0 ∷ 1 ∷ 0 ∷ 42 ∷ 3 ∷ 255 ∷ [])
    × (from_shard_list (shard_list shards) ≡ ok shards)
    × (topics_to_relay_shards topic_list ≡ ok grouped)
    × (shards_to_topics 16 (42 ∷ []) ≡ codes "/waku/2/rs/16/42" ∷ [])
unfolding program
shard_tests = (refl, refl, refl, refl, refl, refl, refl, refl, refl)

vector_back :
    from_bit_vector (0 ∷ 16 ∷ 2 ∷ 0 ∷ 4 ∷ replicate 125 0)
    ≡ ok (record { cluster_id = 16; shard_ids = 1 ∷ 18 ∷ [] })
unfolding program
vector_back = refl

-- "toychat" and "2" have eight bytes together.
autosharding_tests :
    get_pubsub_topic_from_content_topic toy_hash chat_text ≡ ok (codes "/waku/2/rs/1/0")
unfolding program
autosharding_tests = refl

from_shard_list-shard_list_example :
    from_shard_list (shard_list shards) ≡ new_relay_shards 16 (1 ∷ 42 ∷ 1023 ∷ [])
from_shard_list-shard_list_example =
    from_shard_list-shard_list shards (omega arith) (omega arith) (omega arith)

abbrev many : RelayShards
many = record { cluster_id = 1; shard_ids = replicate 256 7 }

from_bit_vector-bit_vector_example :
    (bytes : List ℕ) × (back : RelayShards) × (bit_vector shards ≡ ok bytes)
    × (length bytes ≡ 130)
    × (from_bit_vector bytes ≡ ok back)
    × (back.cluster_id ≡ 16)
    × SameShards back.shard_ids shards.shard_ids
from_bit_vector-bit_vector_example = from_bit_vector-bit_vector shards (omega arith) (omega arith)

topics_to_relay_shards_lem_example :
    Separate grouped
    × ((cluster shard : ℕ) → some_contains grouped cluster shard ≡ names topic_list cluster shard)
unfolding program
topics_to_relay_shards_lem_example = topics_to_relay_shards_lem topic_list grouped refl

abbrev other_chat : ContentTopic
other_chat = record chat { encoding = codes "json" }

get_shard_range_example :
    (t : StaticShardingPubsubTopic) × (get_shard_from_content_topic toy_hash chat 8 ≡ ok t)
    × (get_shard_from_content_topic toy_hash other_chat 8 ≡ ok t)
    × (t.cluster_id ≡ cluster_index)
    × (t.shard_id < 8)
get_shard_range_example = get_shard_range toy_hash chat other_chat 8 (omega arith) refl refl

abbrev chat_map : Dict Text (List Text)
chat_map = (codes "/waku/2/rs/1/0", chat_text ∷ []) ∷ []
