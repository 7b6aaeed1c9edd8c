-- ===== src/Protocol/Store/Client.antt =====
-- waku/v2/protocol/store/client.go and result.go. The peer manager's selection and the exchange of one
-- request for one response with a peer are parameters; a time limit or a rate limiter that fails is
-- an exchange that fails. The selection of a peer by its address is left out.
use go_waku.Base.{
  ℕ, Bool, true, false, not, Option, none, some, List, [], ◌∷◌, ltb, ◌==◌, if◌then◌else◌, length,
}
use go_waku.Base.Text.{Text}
use go_waku.Base.Result.{Result, ok, err, panic, ◌>>=◌}
use go_waku.Protocol.Store.{
  StoreError, no_peers_available, must_select_peer, select_failed, query_failed, status,
  StoreQueryRequest, StoreQueryResponse, WakuMessageKeyValue, Criteria, filter_criteria,
  message_hash_criteria, populate_store_request, validate, validate_response, text_or_empty,
}

abbrev pub max_page_size : ℕ
max_page_size = 100

abbrev pub default_page_size : ℕ
default_page_size = 20

-- The status code of a response that went well.
abbrev pub ok_code : ℕ
ok_code = 200

-- `selected_peer` is empty if none is given.
pub record Parameters : Type 0 where
  pub selected_peer : Text
  pub request_id : Text
  pub cursor : Option Text
  pub page_limit : ℕ
  pub forward : Bool
  pub include_data : Bool

-- `resultImpl`
pub record StoreResult : Type 0 where
  pub done : Bool
  pub messages : List WakuMessageKeyValue
  pub store_request : StoreQueryRequest
  pub store_response : StoreQueryResponse
  pub cursor : Option Text
  pub peer_id : Text

abbrev pub Fallible : Type 0 → Type 0
Fallible A = Result StoreError A

unfoldable pub page_limit_of : ℕ → ℕ
page_limit_of limit =
    if limit == 0
    then default_page_size
    else if ltb max_page_size limit
    then max_page_size
    else limit

-- The first of the peers that the peer manager selects.
unfoldable pub first_of : Option (List Text) → Fallible Text
first_of none = err select_failed
first_of (some []) = panic
first_of (some (p ∷ ps)) = ok p

abbrev pub select_for : (Text → Option (List Text)) → Criteria → Fallible Text
select_for select_peers (filter_criteria cf start end) = first_of (select_peers cf.pubsub_topic)
select_for select_peers (message_hash_criteria hashes) = err must_select_peer

unfoldable pub require_peer : Text → Fallible Text
require_peer p = if length p == 0 then err no_peers_available else ok p

-- `pm` selects peers for a pubsub topic, if there is a peer manager.
unfoldable pub choose_peer : Option (Text → Option (List Text)) → Criteria → Text → Fallible Text
choose_peer none criteria selected = require_peer selected
choose_peer (some select_peers) criteria selected =
    if length selected == 0
    then (select_for select_peers criteria >>= require_peer)
    else require_peer selected

abbrev pub or_keep : Option Text → Option Text → Option Text
or_keep none old = old
or_keep (some c) old = some c

unfoldable pub make_request : Parameters → Criteria → StoreQueryRequest
make_request params criteria =
    let r = populate_store_request criteria (record {
      request_id = params.request_id;
      include_data = params.include_data;
      pubsub_topic = none;
      content_topics = [];
      time_start = none;
      time_end = none;
      message_hashes = [];
      pagination_cursor = none;
      pagination_forward = params.forward;
      pagination_limit = some (page_limit_of params.page_limit);
    }) in
    record r { pagination_cursor = or_keep params.cursor r.pagination_cursor }

abbrev pub code_or_zero : Option ℕ → ℕ
code_or_zero none = 0
code_or_zero (some n) = n

unfoldable pub checked_response :
    StoreQueryRequest → StoreQueryResponse → Fallible StoreQueryResponse
checked_response request response = validate_response request.request_id response >>= λ _.
    if not (code_or_zero response.status_code == ok_code)
    then err (status (code_or_zero response.status_code) (text_or_empty response.status_desc))
    else ok response

module _ (exchange : Text → StoreQueryRequest → Option StoreQueryResponse) where
  unfoldable pub query_from : Text → StoreQueryRequest → Fallible StoreQueryResponse
  query_from peer request = elim (exchange peer request) [
    | none ↦ err query_failed
    | some response ↦ checked_response request response
  ]

  abbrev pub result_of : Text → StoreQueryRequest → StoreQueryResponse → StoreResult
  result_of peer request response = record {
    done = false;
    messages = response.messages;
    store_request = request;
    store_response = response;
    cursor = response.pagination_cursor;
    peer_id = peer;
  }

  -- The validation, the exchange and the result.
  unfoldable pub send : Text → StoreQueryRequest → Fallible StoreResult
  send peer request = validate request >>= λ _.
      query_from peer request >>= λ response. ok (result_of peer request response)

  -- `Request`
  unfoldable pub request :
      Option (Text → Option (List Text)) → Parameters → Criteria → Fallible StoreResult
  request pm params criteria = choose_peer pm criteria params.selected_peer >>= λ peer.
      send peer (make_request params criteria)

  unfoldable pub request_raw : Text → StoreQueryRequest → Fallible StoreResult
  request_raw peer store_request = validate store_request >>= λ _.
      if length peer == 0
      then err must_select_peer
      else (query_from peer store_request >>= λ response.
          ok (result_of peer store_request response))

  -- `store.next`, with the fresh ID of the request.
  unfoldable pub next_page : Text → StoreResult → Fallible StoreResult
  next_page request_id r =
      let store_request = record r.store_request {
        request_id = request_id;
        pagination_cursor = r.cursor;
      } in
      query_from r.peer_id store_request >>= λ response.
      ok (result_of r.peer_id store_request response)

  abbrev pub turn_page : StoreResult → StoreResult → StoreResult
  turn_page r new_result = record r { cursor = new_result.cursor; messages = new_result.messages }

  -- `Next` of a result.
  unfoldable pub next : Text → StoreResult → Fallible StoreResult
  next request_id r = elim r.cursor [
    | none ↦ ok (record r { done = true; messages = [] })
    | some c ↦ next_page request_id r >>= λ new_result. ok (turn_page r new_result)
  ]
