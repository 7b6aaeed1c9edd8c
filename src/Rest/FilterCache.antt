-- ===== src/Rest/FilterCache.antt =====
-- cmd/waku/server/rest/filter_cache.go. An entry of the inner map is nil exactly when the key is
-- missing, since every slice that the code stores is made.
pub mod Kept
mod Tests
use go_waku.Base.{
  ℕ, Bool, true, false, ◌==◌, Option, none, some, List, [], ◌∷◌, ◌++◌, leb, if◌then◌else◌, length,
}
use go_waku.Base.Windows.{tail}
use go_waku.Base.Text.{Text, text_dec}
use go_waku.Base.Dict.{Dict, lookup, insert, erase}
use go_waku.Base.Result.{Result, ok, err, panic}
use go_waku.Protocol.Message.{WakuMessage, Envelope}
use go_waku.Protocol.Shard.Autosharding.{generate_pubsub_to_content_topic_map}
use go_waku.Rest.Message.{RestWakuMessage, from_proto}

-- The messages by content topic.
abbrev pub Messages : Type 0
Messages = Dict Text (List RestWakuMessage)

pub record FilterCache : Type 0 where
  pub capacity : ℕ
  pub entries : Dict Text Messages

pub data CacheError : Type 0 where
  not_subscribed : CacheError

unfoldable pub new_filter_cache : ℕ → FilterCache
new_filter_cache capacity = record { capacity = capacity; entries = [] }

-- `c.data[pubsubTopic][contentTopic]`, nothing for nil.
unfoldable pub messages_of : Text → Text → FilterCache → Option (List RestWakuMessage)
messages_of p t c = elim (lookup text_dec p c.entries) [
  | none ↦ none
  | some by_topic ↦ lookup text_dec t by_topic
]

-- `c.data[pubsubTopic][contentTopic] = l`, where there is an inner map.
unfoldable pub store : Text → Text → List RestWakuMessage → FilterCache → FilterCache
store p t l c = elim (lookup text_dec p c.entries) [
  | none ↦ c
  | some by_topic ↦ record c {
    entries = insert text_dec p (insert text_dec t l by_topic) c.entries;
  }
]

unfoldable pub add_topic : Text → Text → FilterCache → FilterCache
add_topic p t c = elim (messages_of p t c) [ none ↦ store p t [] c | some _ ↦ c ]

unfoldable pub add_topics : Text → List Text → FilterCache → FilterCache
add_topics p [] c = c
add_topics p (t ∷ ts) c = add_topics p ts (add_topic p t c)

-- The inner map is made where there is none.
unfoldable pub make_entry : Text → FilterCache → FilterCache
make_entry p c = elim (lookup text_dec p c.entries) [
  | none ↦ record c { entries = insert text_dec p [] c.entries }
  | some _ ↦ c
]

unfoldable pub add_groups : Dict Text (List Text) → FilterCache → FilterCache
add_groups [] c = c
add_groups ((p, ts) ∷ rest) c = add_groups rest (add_topics p ts (make_entry p c))

-- An error of the grouping is ignored, and then there are no groups.
unfoldable pub subscribe : (Text → List ℕ) → Text → List Text → FilterCache → FilterCache
subscribe sha256 pubsub_topic content_topics c =
    elim (generate_pubsub_to_content_topic_map sha256 pubsub_topic content_topics) [
      | ok groups ↦ add_groups groups c
      | _ ↦ c
    ]

unfoldable pub unsubscribe : Text → Text → FilterCache → FilterCache
unsubscribe p t c = elim (lookup text_dec p c.entries) [
  | none ↦ c
  | some by_topic ↦ record c { entries = insert text_dec p (erase text_dec t by_topic) c.entries }
]

-- The conversion, and the append to the messages that are kept.
unfoldable pub append_message :
    Text → Text → WakuMessage → List RestWakuMessage → FilterCache → FilterCache
append_message p t msg kept c = elim (from_proto msg) [
  | ok message ↦ store p t (kept ++ message ∷ []) c
  | _ ↦ store p t kept c
]

-- At the capacity the oldest message goes first; with no message to take off, `[1:]` panics.
unfoldable pub add_message : Envelope → FilterCache → Result CacheError FilterCache
add_message envelope c =
    let p = envelope.pubsub_topic in
    let t = envelope.message.content_topic in
    elim (messages_of p t c) [
      | none ↦ ok c
      | some l ↦
          if leb c.capacity (length l)
          then (if length l == 0
              then panic
              else ok (append_message p t envelope.message (tail l) c))
          else ok (append_message p t envelope.message l c)
    ]

unfoldable pub get_messages :
    Text → Text → FilterCache → Result CacheError (FilterCache × List RestWakuMessage)
get_messages p t c = elim (messages_of p t c) [
  | none ↦ err not_subscribed
  | some msgs ↦ ok (store p t [] c, msgs)
]

-- The envelopes that reach the cache, one after the other.
unfoldable pub add_all : List Envelope → FilterCache → Result CacheError FilterCache
add_all [] c = ok c
add_all (e ∷ es) c = elim (add_message e c) [
  | ok c' ↦ add_all es c'
  | err x ↦ err x
  | panic ↦ panic
]
