-- ===== src/Protocol/ContentFilter/Tests.antt =====
-- Runs of content_filter.go, and an instance of the theorem.
use go_waku.Base.{ℕ_discrete, ◌≡◌, refl, true, false, List, [], ◌∷◌}
use go_waku.Base.Text.{Text, codes, text_dec}
use go_waku.Base.Keys.{contains, add, add_all}
use go_waku.Base.Dict.{insert, lookup}
use go_waku.Base.Result.{ok}
use go_waku.Protocol.Shard.Autosharding.{generate_pubsub_to_content_topic_map}
use go_waku.Protocol.ContentFilter.{
  new_topic_set, new_content_topic_set, print_topics, to_string, content_topics_list,
  new_content_filter, all_in, equals, content_filter_to_pubsub_topic_map,
}

program : Unit {0}
unfolding ℕ_discrete text_dec contains add add_all insert lookup
    generate_pubsub_to_content_topic_map new_topic_set new_content_topic_set print_topics to_string
    content_topics_list new_content_filter all_in equals content_filter_to_pubsub_topic_map
program = tt

abbrev one : List Text
one = codes "a" ∷ codes "b" ∷ codes "a" ∷ []

abbrev two : List Text
two = codes "b" ∷ codes "a" ∷ []

filter_tests :
    (equals (new_content_filter (codes "p") one) (new_content_filter (codes "p") two) ≡ true)
    × (equals (new_content_filter (codes "p") one) (new_content_filter (codes "q") two) ≡ false)
    × (equals (new_content_filter (codes "p") one) (new_content_filter (codes "p") (codes "a" ∷ []))
        ≡ false)
    × (to_string (new_content_filter (codes "p") one)
        ≡ codes "{ pubsubTopic: p, contentTopics: [ ab ] }")
    × (content_filter_to_pubsub_topic_map (λ s. []) (new_content_filter (codes "p") one)
        ≡ ok ((codes "p", codes "a" ∷ codes "b" ∷ []) ∷ []))
unfolding program
filter_tests = (refl, refl, refl, refl, refl)
