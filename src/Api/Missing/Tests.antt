-- ===== src/Api/Missing/Tests.antt =====
-- A store node with two pages that fails at first, and an instance of the theorem.
use go_waku.Base.{
  ℕ, ◌≡◌, refl, Bool, true, false, Option, none, some, [], ◌∷◌, replicate, if◌then◌else◌,
  ℕ_discrete, zero, suc,
}
use go_waku.Base.Text.{Text, codes, text_dec, same}
use go_waku.Base.Result.{ok, err}
use go_waku.Protocol.Store.{
  StoreQueryRequest, StoreQueryResponse, WakuMessageKeyValue, validate_response, validate_messages,
  validate_key_value, validate_inner_message,
}
use go_waku.Protocol.Store.Client.{StoreResult, query_from, checked_response, next, next_page}
use go_waku.Api.Missing.{
  exists_failed, retry, store_query_with_retry, keep_missing, collect_missing,
}
use go_waku.Api.Missing.Pages.{Pages}

abbrev hash : ℕ → Text
hash n = replicate 32 n

abbrev key_value : ℕ → WakuMessageKeyValue
key_value n = record { message_hash = hash n; message = none; pubsub_topic = none }

abbrev second_page : StoreQueryResponse
second_page = record {
  request_id = codes "N/A";
  status_code = some 200;
  status_desc = none;
  messages = key_value 3 ∷ [];
  pagination_cursor = none;
}

-- The request with the ID "0" fails.
abbrev exchange : Text → StoreQueryRequest → Option StoreQueryResponse
exchange peer q = if same q.request_id (codes "0") then none else some second_page

abbrev ids : ℕ → Text
ids zero = codes "0"
ids (suc k) = codes "1"

-- The message 2 exists.
abbrev exists : Text → Option Bool
exists h = some (same h (hash 2))

abbrev broken : Text → Option Bool
broken h = if same h (hash 3) then none else some false

abbrev query : StoreQueryRequest
query = record {
  request_id = codes "9";
  include_data = false;
  pubsub_topic = none;
  content_topics = [];
  time_start = none;
  time_end = none;
  message_hashes = [];
  pagination_cursor = none;
  pagination_forward = true;
  pagination_limit = some 2;
}

abbrev first : StoreResult
first = record {
  done = false;
  messages = key_value 1 ∷ key_value 2 ∷ [];
  store_request = query;
  store_response = second_page;
  cursor = some (codes "c");
  peer_id = codes "peer";
}

program : Unit {0}
unfolding collect_missing keep_missing store_query_with_retry retry next next_page query_from
    checked_response validate_response validate_messages validate_key_value validate_inner_message
    text_dec ℕ_discrete
program = tt

runs :
    (collect_missing exchange exists ids 3 9 0 first [] ≡ some (ok (hash 1 ∷ hash 3 ∷ [])))
    × (collect_missing exchange broken ids 3 9 0 first [] ≡ some (err exists_failed))
    × (collect_missing exchange exists ids 3 2 0 first [] ≡ none)
unfolding program
runs = (refl, refl, refl)
