-- ===== src/Protocol/PubsubTopic.antt =====
-- waku/v2/protocol/pubsub_topic.go. A `uint16` is a number below 2 ^ 16, and a Go string its bytes.
-- `Parse` slices the topic at 11, one byte behind the ten of the prefix, and never reads that byte.
pub mod RoundTrip
pub mod Parse
mod Tests
use go_waku.Base.{
  ℕ, ◌+◌, ◌<◌, ◌^◌, ◌-◌, ◌≡◌, Bool, true, false, Option, none, some, List, [], ◌∷◌, ◌++◌, ite,
}
use go_waku.Base.Text.{Text, codes, after_prefix, split, text_dec}
use go_waku.Base.Decimal.{format, parse_uint}
use go_waku.Base.Result.{Result, ok, err, panic, ◌>>=◌}

abbrev pub max_uint16 : ℕ
max_uint16 = 65535

abbrev pub slash : ℕ
slash = b'/'

pub data TopicError : Type 0 where
  not_waku_pubsub_topic not_shard_pubsub_topic invalid_structure : TopicError
  invalid_sharded_topic_prefix missing_cluster_index : TopicError
  missing_shard_number invalid_number_format : TopicError

abbrev pub default_pubsub_topic : Text
default_pubsub_topic = codes "/waku/2/default-waku/proto"

abbrev pub static_sharding_prefix : Text
static_sharding_prefix = codes "/waku/2/rs"

pub record StaticShardingPubsubTopic : Type 0 where
  pub cluster_id : ℕ
  pub shard_id : ℕ

-- The two implementations of the interface `WakuPubSubTopic`.
pub data WakuPubSubTopic : Type 0 where
  default : WakuPubSubTopic
  static_sharding : StaticShardingPubsubTopic → WakuPubSubTopic

unfoldable pub to_string : StaticShardingPubsubTopic → Text
to_string t = static_sharding_prefix ++ slash ∷ (format t.cluster_id ++ slash ∷ format t.shard_id)

unfoldable pub waku_to_string : WakuPubSubTopic → Text
waku_to_string default = default_pubsub_topic
waku_to_string (static_sharding t) = to_string t

-- The method `Equal`.
unfoldable pub equal : StaticShardingPubsubTopic → StaticShardingPubsubTopic → Bool
equal s t = ite (text_dec (to_string s) (to_string t)) true false

unfoldable pub read_uint16 : Text → Result TopicError ℕ
read_uint16 s = elim (parse_uint max_uint16 s) [ none ↦ err invalid_number_format | some n ↦ ok n ]

-- `if len(part) == 0 { return missing }` and the call of `ParseUint`.
unfoldable pub read_part : TopicError → Text → Result TopicError ℕ
read_part missing [] = err missing
read_part missing (c ∷ s) = read_uint16 (c ∷ s)

unfoldable pub parse_parts : List Text → Result TopicError StaticShardingPubsubTopic
parse_parts (cluster_part ∷ shard_part ∷ []) = do
  cluster ← read_part missing_cluster_index cluster_part
  shard ← read_part missing_shard_number shard_part
  ok (record { cluster_id = cluster; shard_id = shard })
parse_parts _ = err invalid_structure

-- What stands behind the prefix; `topic[11:]` is out of range if that is nothing.
unfoldable pub parse_rest : Text → Result TopicError StaticShardingPubsubTopic
parse_rest [] = panic
parse_rest (c ∷ body) = parse_parts (split slash body)

unfoldable pub parse : Text → Result TopicError StaticShardingPubsubTopic
parse topic = elim (after_prefix static_sharding_prefix topic) [
  | none ↦ err invalid_sharded_topic_prefix
  | some rest ↦ parse_rest rest
]

unfoldable pub to_shard_pubsub_topic : WakuPubSubTopic → Result TopicError StaticShardingPubsubTopic
to_shard_pubsub_topic default = err not_shard_pubsub_topic
to_shard_pubsub_topic (static_sharding t) = ok t

unfoldable pub has_prefix : Text → Bool
has_prefix topic = elim (after_prefix static_sharding_prefix topic) [ none ↦ false | some _ ↦ true ]

-- The test of the prefix and the call of `Parse`.
unfoldable pub read_sharded : Text → Result TopicError WakuPubSubTopic
read_sharded topic = elim (has_prefix topic) [
  | true ↦ parse topic >>= λ t. ok (static_sharding t)
  | false ↦ err not_waku_pubsub_topic
]

unfoldable pub to_waku_pubsub_topic : Text → Result TopicError WakuPubSubTopic
to_waku_pubsub_topic topic =
    ite (text_dec topic default_pubsub_topic) (ok default) (read_sharded topic)
