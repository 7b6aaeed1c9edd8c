-- ===== src/Protocol/ContentFilter.antt =====
-- waku/v2/protocol/content_filter.go. A set is a list with no topic twice; its order stands for the
-- order in which Go ranges over the map.
pub mod Equality
mod Tests
use go_waku.Base.{
  ℕ, Bool, true, false, not, ◌||◌, ◌==◌, List, [], ◌∷◌, ◌++◌, if◌then◌else◌, length, ite,
}
use go_waku.Base.Text.{same, Text, codes, text_dec}
use go_waku.Base.Dict.{Dict}
use go_waku.Base.Keys.{contains, add, add_all}
use go_waku.Base.Result.{Result}
use go_waku.Protocol.ContentTopic.{ContentTopicError}
use go_waku.Protocol.Shard.Autosharding.{generate_pubsub_to_content_topic_map}

-- `ContentTopicSet` and `TopicSet`.
abbrev pub ContentTopicSet : Type 0
ContentTopicSet = List Text

unfoldable pub new_topic_set : List Text → ContentTopicSet
new_topic_set topics = add_all text_dec topics []

unfoldable pub new_content_topic_set : List Text → ContentTopicSet
new_content_topic_set content_topics = add_all text_dec content_topics []

abbrev pub to_list : ContentTopicSet → List Text
to_list cf = cf

pub record ContentFilter : Type 0 where
  pub pubsub_topic : Text
  pub content_topics : ContentTopicSet

-- The loop of `String`.
unfoldable pub print_topics : List Text → Text → Text
print_topics [] ret = ret
print_topics (ct ∷ rest) ret = print_topics rest (ret ++ ct)

unfoldable pub to_string : ContentFilter → Text
to_string cf =
    print_topics cf.content_topics
      (codes "{ pubsubTopic: " ++ cf.pubsub_topic ++ codes ", contentTopics: [ ")
    ++ codes " ] }"

unfoldable pub content_topics_list : ContentFilter → List Text
content_topics_list cf = to_list cf.content_topics

unfoldable pub new_content_filter : Text → List Text → ContentFilter
new_content_filter pubsub_topic content_topics = record {
  pubsub_topic = pubsub_topic;
  content_topics = new_content_topic_set content_topics;
}

-- The loop of `Equals`.
unfoldable pub all_in : List Text → ContentTopicSet → Bool
all_in [] s = true
all_in (t ∷ ts) s = if contains text_dec t s then all_in ts s else false

unfoldable pub equals : ContentFilter → ContentFilter → Bool
equals cf cf1 =
    if not (same cf.pubsub_topic cf1.pubsub_topic)
      || not (length cf.content_topics == length cf1.content_topics)
    then false
    else all_in cf.content_topics cf1.content_topics

unfoldable pub content_filter_to_pubsub_topic_map :
    (Text → List ℕ) → ContentFilter → Result ContentTopicError (Dict Text (List Text))
content_filter_to_pubsub_topic_map sha256 content_filter =
    generate_pubsub_to_content_topic_map sha256 content_filter.pubsub_topic
      (content_topics_list content_filter)
