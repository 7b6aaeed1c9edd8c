-- ===== src/Protocol/PubsubTopic/Tests.antt =====
-- Runs of pubsub_topic.go on the topics of waku/v2/protocol/topic_test.go, and instances of the
-- theorems.
use go_waku.Base.{ℕ, ◌≡◌, ◌↔◌, refl, ◌∷◌, ◌++◌, arith, ℕ_discrete}
use go_waku.Base.Text.{Text, codes, after_prefix, split, text_dec}
use go_waku.Base.Decimal.{format, parse_uint}
use go_waku.Base.Result.{ok, err, panic}
use go_waku.Protocol.PubsubTopic.{
  StaticShardingPubsubTopic, default, static_sharding, to_string, waku_to_string, equal, parse,
  read_uint16, read_part, parse_parts, parse_rest, has_prefix, read_sharded, to_waku_pubsub_topic,
  invalid_sharded_topic_prefix, not_waku_pubsub_topic, missing_cluster_index, missing_shard_number,
  invalid_number_format, invalid_structure, slash, static_sharding_prefix,
}
use go_waku.Protocol.PubsubTopic.RoundTrip.{to_waku_pubsub_topic-waku_to_string}
use go_waku.Protocol.PubsubTopic.Parse.{Spells, parse_sound, parse_panics_iff}

program : Unit {0}
unfolding to_string waku_to_string equal parse read_uint16 read_part parse_parts parse_rest
    has_prefix read_sharded to_waku_pubsub_topic after_prefix split text_dec format parse_uint
    ℕ_discrete
program = tt

abbrev topic : StaticShardingPubsubTopic
topic = record { cluster_id = 16; shard_id = 42 }

topic_tests :
    (to_waku_pubsub_topic (codes "/waku/1/2/3") ≡ err not_waku_pubsub_topic)
    × (to_waku_pubsub_topic (codes "/waku/2/default-waku/proto") ≡ ok default)
    × (to_waku_pubsub_topic (codes "/waku/2/rs/16/42") ≡ ok (static_sharding topic))
    × (parse (codes "/waku/1/rs/16/42") ≡ err invalid_sharded_topic_prefix)
    × (to_waku_pubsub_topic (codes "/waku/2/rs//02") ≡ err missing_cluster_index)
    × (to_waku_pubsub_topic (codes "/waku/2/rs/1/") ≡ err missing_shard_number)
    × (to_waku_pubsub_topic (codes "/waku/2/rs/xx/77") ≡ err invalid_number_format)
unfolding program
topic_tests = (refl, refl, refl, refl, refl, refl, refl)

other_tests :
    (to_string topic ≡ codes "/waku/2/rs/16/42")
    × (parse (codes "/waku/2/rs/65536/1") ≡ err invalid_number_format)
    × (parse (codes "/waku/2/rs/1/2/3") ≡ err invalid_structure)
    × (parse (codes "/waku/2/rsX16/42") ≡ ok topic)
    × (to_waku_pubsub_topic (codes "/waku/2/rs") ≡ panic)
unfolding program
other_tests = (refl, refl, refl, refl, refl)

to_waku_pubsub_topic-waku_to_string_example :
    to_waku_pubsub_topic (waku_to_string (static_sharding topic)) ≡ ok (static_sharding topic)
to_waku_pubsub_topic-waku_to_string_example =
    to_waku_pubsub_topic-waku_to_string (static_sharding topic) (omega arith)

parse_sound_example :
    (x : ℕ) × (a b : Text) × (codes "/waku/2/rsX16/42"
      ≡ static_sharding_prefix ++ x ∷ (a ++ slash ∷ b))
    × Spells a 16
    × Spells b 42
unfolding program
parse_sound_example = parse_sound (codes "/waku/2/rsX16/42") topic refl

parse_panics_iff_example :
    (parse (codes "/waku/2/rs") ≡ panic) ↔ (codes "/waku/2/rs" ≡ static_sharding_prefix)
parse_panics_iff_example = parse_panics_iff (codes "/waku/2/rs")
