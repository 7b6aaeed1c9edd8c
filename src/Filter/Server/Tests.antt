-- ===== src/Filter/Server/Tests.antt =====
-- Runs of server.go, and instances of the theorems.
use go_waku.Base.{ℕ_discrete, ◌≡◌, refl, none, some, [], ◌∷◌, arith}
use go_waku.Base.Text.{Text, codes, text_dec}
use go_waku.Base.Dict.{lookup, insert, erase}
use go_waku.Base.Keys.{contains, add, remove, add_all, remove_all}
use go_waku.Base.Result.{ok}
use go_waku.Filter.Subscribers.{
  new_subscribers_map, get, has, count, refresh, drop_if_empty, get_key, add_to_interest_map,
  remove_from_interest_map, add_interests, remove_interests, set, delete_topics, delete,
  remove_all_interests, delete_all, items_for,
}
use go_waku.Filter.Subscribers.Lookup.{subscribed}
use go_waku.Filter.Server.{
  FilterSubscribeRequest, FilterSubscribeResponse, WakuFilterFullNode, Outcome, subscribe,
  unsubscribe, message, missing_pubsub_topic, validate, validate_kind, validate_topics, reply,
  status_ok, total, ping, exceeds_criteria, handle_subscribe, after_removal, handle_unsubscribe,
  handle_unsubscribe_all, dispatch, on_request,
}
use go_waku.Filter.Server.Sizes.{HasLimits}
use go_waku.Filter.Server.Bounds.{on_request-HasLimits}
use go_waku.Filter.Server.Replies.{Answers, is_named, on_request-Answers}

program : Unit {0}
unfolding ℕ_discrete text_dec lookup insert erase contains add remove add_all remove_all
    new_subscribers_map get has count refresh drop_if_empty get_key add_to_interest_map
    remove_from_interest_map add_interests remove_interests set delete_topics delete
    remove_all_interests delete_all items_for subscribed validate validate_kind validate_topics
    reply total ping exceeds_criteria handle_subscribe after_removal handle_unsubscribe
    handle_unsubscribe_all dispatch on_request
program = tt

abbrev plain : Text → Text
plain s = s

abbrev alice : Text
alice = codes "a"

abbrev empty_node : WakuFilterFullNode
empty_node = record {
  subscriptions = record { items = []; interest_map = []; timeout = 300; last_seen = [] };
  max_subscriptions = 1;
}

abbrev wanted : FilterSubscribeRequest
wanted = record {
  request_id = codes "1";
  filter_subscribe_type = subscribe;
  pubsub_topic = some (codes "t");
  content_topics = codes "c" ∷ [];
}

abbrev no_topic : FilterSubscribeRequest
no_topic = record {
  request_id = codes "2";
  filter_subscribe_type = unsubscribe;
  pubsub_topic = none;
  content_topics = codes "c" ∷ [];
}

abbrev one_peer : WakuFilterFullNode
one_peer = record {
  subscriptions = record {
    items = (alice, (codes "t", codes "c" ∷ []) ∷ []) ∷ [];
    interest_map = (codes "tc", alice ∷ []) ∷ [];
    timeout = 300;
    last_seen = (alice, 7) ∷ [];
  };
  max_subscriptions = 1;
}

abbrev accepted : FilterSubscribeResponse
accepted = record { request_id = codes "1"; status_code = 200; status_desc = status_ok }

server_tests :
    (on_request plain 7 alice empty_node wanted ≡ ok (one_peer, some accepted))
    × (on_request plain 7 alice empty_node no_topic
        ≡ ok (
          empty_node,
          some (record {
            request_id = codes "2";
            status_code = 400;
            status_desc = message missing_pubsub_topic;
          }),
        ))
    × (on_request plain 7 (codes "b") one_peer wanted
        ≡ ok (
          one_peer,
          some (record {
            request_id = codes "1";
            status_code = 503;
            status_desc = codes "node has reached maximum number of subscriptions";
          }),
        ))
unfolding program
server_tests = (refl, refl, refl)

on_request-HasLimits_example : HasLimits 1 one_peer
on_request-HasLimits_example =
    on_request-HasLimits plain 7 alice empty_node wanted (one_peer, some accepted)
      (unfold count in record { few = omega arith; small = tt }) server_tests.0

on_request-Answers_example :
    (o : Outcome) × (on_request plain 7 alice empty_node no_topic ≡ ok o)
    × Answers empty_node no_topic o (is_named unsubscribe)
on_request-Answers_example = on_request-Answers plain 7 alice empty_node no_topic
