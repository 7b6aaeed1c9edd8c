-- ===== src/Protocol/Shard/Autosharding.antt =====
-- The autosharding part of waku/v2/protocol/shard.go and of content_filter.go. `sha256` stands for
-- `hash.SHA256`.
pub mod Laws
use go_waku.Base.{
  ℕ, zero, suc, ◌+◌, ◌*◌, ◌%◌, ◌^◌, ◌≡◌, Option, none, some, List, [], ◌∷◌, ◌++◌, ite, drop,
}
use go_waku.Base.Text.{Text, text_dec}
use go_waku.Base.Dict.{Dict, lookup, insert}
use go_waku.Base.Result.{Result, ok, err, panic, ◌>>=◌}
use go_waku.Protocol.PubsubTopic.{StaticShardingPubsubTopic, to_string}
use go_waku.Protocol.ContentTopic.{ContentTopic, ContentTopicError, string_to_content_topic}
use go_waku.Protocol.Shard.{cluster_index, generation_zero_shards_count}

-- `binary.BigEndian.Uint64`, behind the number `n`.
unfoldable pub big_endian : List ℕ → ℕ → ℕ
big_endian [] n = n
big_endian (b ∷ bs) n = big_endian bs (n * 256 + b)

-- `m[key]` for a map of slices: a missing key gives the empty slice.
unfoldable pub list_of : {A : Type 0} → Text → Dict Text (List A) → List A
list_of k m = elim (lookup text_dec k m) [ none ↦ [] | some l ↦ l ]

module _ (sha256 : Text → List ℕ) where
  -- A count of 0 is a division by zero.
  unfoldable pub get_shard_from_content_topic :
      ContentTopic → ℕ → Result ContentTopicError StaticShardingPubsubTopic
  get_shard_from_content_topic topic zero = panic
  get_shard_from_content_topic topic (suc n) =
      let bytes = topic.application_name ++ topic.application_version in
      let hash_value = big_endian (drop 24 (sha256 bytes)) 0 in
      ok (record { cluster_id = cluster_index; shard_id = hash_value % suc n % 2 ^ 16 })

  unfoldable pub get_pubsub_topic_from_content_topic : Text → Result ContentTopicError Text
  get_pubsub_topic_from_content_topic c_topic_string = do
    c_topic ← string_to_content_topic c_topic_string
    p_topic ← get_shard_from_content_topic c_topic generation_zero_shards_count
    ok (to_string p_topic)

  -- The loop of `GeneratePubsubToContentTopicMap` where no pubsub topic is given.
  unfoldable pub group_content_topics :
      List Text → Dict Text (List Text) → Result ContentTopicError (Dict Text (List Text))
  group_content_topics [] m = ok m
  group_content_topics (c_topic ∷ rest) m = do
    p_topic ← get_pubsub_topic_from_content_topic c_topic
    group_content_topics rest (insert text_dec p_topic (list_of p_topic m ++ c_topic ∷ []) m)

  unfoldable pub generate_pubsub_to_content_topic_map :
      Text → List Text → Result ContentTopicError (Dict Text (List Text))
  generate_pubsub_to_content_topic_map pubsub_topic content_topics =
      ite (text_dec pubsub_topic []) (group_content_topics content_topics [])
        (ok (insert text_dec pubsub_topic content_topics []))
