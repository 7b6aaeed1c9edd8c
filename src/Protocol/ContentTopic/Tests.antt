-- ===== src/Protocol/ContentTopic/Tests.antt =====
-- Runs of content_topic.go on the topics of waku/v2/protocol/topic_test.go, and instances of the
-- theorems.
use go_waku.Base.{◌≡◌, refl, [], ◌∷◌, arith, ℕ_discrete}
use go_waku.Base.Text.{codes, split, text_dec}
use go_waku.Base.Decimal.{parse_uint}
use go_waku.Base.Int.{pos, negsuc, atoi, ℤ_dec}
use go_waku.Base.Result.{ok, err}
use go_waku.Protocol.ContentTopic.{
  ContentTopic, with_generation, default_options, apply_options, new_content_topic, to_string,
  equal, is_empty, build, read_generation, read_parts, string_to_content_topic, invalid_format,
  missing_generation, invalid_generation,
}
use go_waku.Protocol.ContentTopic.Laws.{IsWellFormed, string_to_content_topic-to_string}

program : Unit {0}
unfolding with_generation default_options apply_options new_content_topic to_string equal is_empty
    build read_generation read_parts string_to_content_topic split text_dec parse_uint atoi ℤ_dec
    ℕ_discrete
program = tt

abbrev pub chat : ContentTopic
chat = record {
  params = record { generation = pos 0 };
  application_name = codes "toychat";
  application_version = codes "2";
  content_topic_name = codes "huilong";
  encoding = codes "proto";
}

content_topic_tests :
    (string_to_content_topic (codes "/toychat/2/huilong/proto") ≡ ok chat)
    × (string_to_content_topic (codes "/0/toychat/2/huilong/proto") ≡ ok chat)
    × (string_to_content_topic (codes "waku/1/a/b") ≡ err invalid_format)
    × (string_to_content_topic (codes "////") ≡ err invalid_format)
    × (string_to_content_topic (codes "//a/b/c/d") ≡ err missing_generation)
    × (string_to_content_topic (codes "/abc/toychat/2/huilong/proto") ≡ err invalid_generation)
    × (string_to_content_topic (codes "/1/toychat/2/huilong/proto") ≡ err invalid_generation)
    × (new_content_topic
          (codes "a")
          (codes "1")
          (codes "b")
          (codes "c")
          (with_generation (pos 1) ∷ [])
        ≡ err invalid_generation)
unfolding program
content_topic_tests = (refl, refl, refl, refl, refl, refl, refl, refl)

-- A text before the first slash is accepted, and so is a negative generation.
other_tests :
    (string_to_content_topic (codes "x/toychat/2/huilong/proto") ≡ ok chat)
    × (string_to_content_topic (codes "/-1/toychat/2/huilong/proto")
        ≡ ok (record chat { params = record { generation = negsuc 0 } }))
unfolding program
other_tests = (refl, refl)

chat-IsWellFormed : IsWellFormed chat
chat-IsWellFormed = record {
  name_part = (λ e. cc, omega arith);
  version_part = (λ e. cc, omega arith);
  topic_part = (λ e. cc, omega arith);
  encoding_part = (λ e. cc, omega arith);
}

string_to_content_topic-to_string_example : string_to_content_topic (to_string chat) ≡ ok chat
string_to_content_topic-to_string_example = string_to_content_topic-to_string chat chat-IsWellFormed
