-- ===== src/Protocol/Store/Tests.antt =====
-- A store client and a peer with two pages, and instances of the theorems.
use go_waku.Base.{ℕ_discrete, ℕ, ◌≡◌, ◌↔◌, refl, true, Option, none, some, List, [], ◌∷◌, replicate}
use go_waku.Protocol.Store.{
  validate_inner_message, validate_key_value, validate_messages, validate_response, check_hashes,
  check_times, check_topics, validate_by_hash, validate_by_filter, populate_store_request,
  no_peers_available, must_select_peer, invalid_time_range, StoreQueryRequest, StoreQueryResponse,
  WakuMessageKeyValue, filter_criteria, message_hash_criteria, validate, Criteria,
}
use go_waku.Protocol.Store.Client.{
  checked_response, page_limit_of, require_peer, first_of, make_request, choose_peer, Parameters,
  StoreResult, request, query_from, result_of, send,
}
use go_waku.Protocol.ContentFilter.{content_topics_list, ContentFilter}
use go_waku.Base.Int.{pos}
use go_waku.Base.Text.{Text, codes, text_dec}
use go_waku.Base.Result.{ok, err}
use go_waku.Protocol.Store.Validation.{IsValid, validate_iff}
use go_waku.Protocol.Store.Requests.{IsSound, request-IsSound}

abbrev key_value : ℕ → WakuMessageKeyValue
key_value n = record { message_hash = replicate 32 n; message = none; pubsub_topic = none }

abbrev answer : Option Text → StoreQueryResponse
answer none = record {
  request_id = [];
  status_code = some 200;
  status_desc = none;
  messages = key_value 1 ∷ [];
  pagination_cursor = some (codes "c");
}
answer (some c) = record {
  request_id = codes "N/A";
  status_code = some 200;
  status_desc = none;
  messages = key_value 2 ∷ [];
  pagination_cursor = none;
}

abbrev exchange : Text → StoreQueryRequest → Option StoreQueryResponse
exchange peer q = some (answer q.pagination_cursor)

abbrev params : Parameters
params = record {
  selected_peer = [];
  request_id = codes "1";
  cursor = none;
  page_limit = 500;
  forward = true;
  include_data = true;
}

abbrev filter : ContentFilter
filter = record { pubsub_topic = codes "p"; content_topics = codes "a" ∷ [] }

abbrev criteria : Criteria
criteria = filter_criteria filter (some (pos 1)) none

abbrev pm : Option (Text → Option (List Text))
pm = some (λ topic. some (codes "peer" ∷ []))

program : Unit {0}
unfolding request choose_peer first_of require_peer send make_request page_limit_of
    populate_store_request content_topics_list validate validate_by_filter validate_by_hash
    check_topics check_times check_hashes query_from checked_response validate_response
    validate_messages validate_key_value validate_inner_message text_dec ℕ_discrete
program = tt

abbrev asked : StoreQueryRequest
asked = make_request params criteria

abbrev first : StoreResult
first = result_of exchange (codes "peer") asked (answer none)

went : request exchange pm params criteria ≡ ok first
unfolding program
went = refl

error_tests :
    (request exchange pm params (message_hash_criteria []) ≡ err must_select_peer)
    × (request exchange none params criteria ≡ err no_peers_available)
    × (request exchange pm params (filter_criteria filter (some (pos 2)) (some (pos 1)))
        ≡ err invalid_time_range)
unfolding program
error_tests = (refl, refl, refl)

validate_iff_example : (validate asked ≡ ok tt) ↔ IsValid asked
validate_iff_example = validate_iff asked

request-IsSound_example : IsSound exchange first
request-IsSound_example = request-IsSound exchange pm params criteria first went
