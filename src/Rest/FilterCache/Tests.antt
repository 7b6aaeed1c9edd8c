-- ===== src/Rest/FilterCache/Tests.antt =====
-- Runs of filter_cache.go, and an instance of the theorem.
use go_waku.Base.{ℕ_discrete, ◌-◌, ◌≡◌, refl, none, some, List, [], ◌∷◌, arith, drop, length}
use go_waku.Base.Text.{Text, codes, text_dec}
use go_waku.Base.Dict.{lookup, insert, erase}
use go_waku.Base.Result.{ok, err, panic}
use go_waku.Protocol.Message.{Envelope, validate}
use go_waku.Protocol.Shard.Autosharding.{generate_pubsub_to_content_topic_map}
use go_waku.Rest.Message.{copy, from_proto}
use go_waku.Rest.FilterCache.{
  FilterCache, not_subscribed, new_filter_cache, messages_of, store, add_topic, add_topics,
  make_entry, add_groups, subscribe, unsubscribe, append_message, add_message, get_messages,
  add_all,
}
use go_waku.Rest.FilterCache.Kept.{sent, get_messages-add_all}

program : Unit {0}
unfolding ℕ_discrete text_dec lookup insert erase validate generate_pubsub_to_content_topic_map copy
    from_proto new_filter_cache messages_of store add_topic add_topics make_entry add_groups
    subscribe unsubscribe append_message add_message get_messages add_all sent
program = tt

abbrev envelope : Text → Envelope
envelope payload = record {
  pubsub_topic = codes "p";
  message = record {
    payload = payload;
    content_topic = codes "t";
    version = none;
    timestamp = none;
    meta = none;
    ephemeral = none;
    rate_limit_proof = none;
  };
}

abbrev ready : FilterCache
ready = record { capacity = 2; entries = (codes "p", (codes "t", []) ∷ []) ∷ [] }

abbrev three : List Envelope
three = envelope (codes "1") ∷ envelope (codes "2") ∷ envelope (codes "3") ∷ []

cache_tests :
    (subscribe (λ s. []) (codes "p") (codes "t" ∷ []) (new_filter_cache 2) ≡ ready)
    × (get_messages (codes "p") (codes "u") ready ≡ err not_subscribed)
    × (get_messages (codes "p") (codes "t") (unsubscribe (codes "p") (codes "t") ready)
        ≡ err not_subscribed)
    × (add_message (envelope []) ready ≡ ok ready)
    × (add_message (envelope (codes "1")) (record ready { capacity = 0 }) ≡ panic)
    × (sent (codes "p") (codes "t") three
        ≡ copy (envelope (codes "1")).message
          ∷ copy (envelope (codes "2")).message
          ∷ copy (envelope (codes "3")).message
          ∷ [])
unfolding program
cache_tests = (refl, refl, refl, refl, refl, refl)

get_messages-add_all_example :
    (c' c'' : FilterCache) × (add_all three ready ≡ ok c')
    × (get_messages (codes "p") (codes "t") c'
        ≡ ok (
          c'',
          drop
              (length (sent (codes "p") (codes "t") three) - 2)
              (sent (codes "p") (codes "t") three),
        ))
    × (messages_of (codes "p") (codes "t") c'' ≡ some [])
unfolding program
get_messages-add_all_example =
    get_messages-add_all (codes "p") (codes "t") three ready (omega arith)
      (refl, (refl, (refl, tt))) refl
