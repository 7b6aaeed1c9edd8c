-- ===== src/Protocol/Store.antt =====
-- waku/v2/protocol/store: the messages of pb/validation.go and criteria.go.
pub mod Client
pub mod Validation
pub mod Requests
mod Tests
use go_waku.Base.{
  ℕ, Bool, true, false, not, ◌&&◌, ◌||◌, Option, none, some, List, [], ◌∷◌, ltb, ◌==◌,
  if◌then◌else◌, length,
}
use go_waku.Base.Int.{ℤ, pos, negsuc, is_positive}
use go_waku.Base.Text.{Text, codes, same}
use go_waku.Base.Result.{Result, ok, err, panic}
use go_waku.Protocol.Message.{WakuMessage, MessageError}
use go_waku.Protocol.Message
use go_waku.Protocol.ContentFilter.{ContentFilter, content_topics_list}

abbrev pub max_content_topics : ℕ
max_content_topics = 10

pub data StoreError : Type 0 where
  missing_request_id message_hash_other_fields max_topics_exceeded empty_content_topic : StoreError
  missing_pubsub_topic missing_status_code invalid_time_range invalid_message_hash : StoreError
  request_id_mismatch no_peers_available must_select_peer select_failed query_failed : StoreError
  invalid_message : MessageError → StoreError
  status : ℕ → Text → StoreError

pub record StoreQueryRequest : Type 0 where
  pub request_id : Text
  pub include_data : Bool
  pub pubsub_topic : Option Text
  pub content_topics : List Text
  pub time_start : Option ℤ
  pub time_end : Option ℤ
  pub message_hashes : List Text
  pub pagination_cursor : Option Text
  pub pagination_forward : Bool
  pub pagination_limit : Option ℕ

pub record WakuMessageKeyValue : Type 0 where
  pub message_hash : Text
  pub message : Option WakuMessage
  pub pubsub_topic : Option Text

pub record StoreQueryResponse : Type 0 where
  pub request_id : Text
  pub status_code : Option ℕ
  pub status_desc : Option Text
  pub messages : List WakuMessageKeyValue
  pub pagination_cursor : Option Text

-- The getters of the generated code: a field that is missing reads as its zero value.
abbrev pub text_or_empty : Option Text → Text
text_or_empty none = []
text_or_empty (some s) = s

abbrev pub int_or_zero : Option ℤ → ℤ
int_or_zero none = pos 0
int_or_zero (some n) = n

-- `m > n`
abbrev pub exceeds : ℤ → ℤ → Bool
exceeds (pos m) (pos n) = ltb n m
exceeds (pos m) (negsuc n) = true
exceeds (negsuc m) (pos n) = false
exceeds (negsuc m) (negsuc n) = ltb m n

abbrev pub Checked : Type 0
Checked = Result StoreError (Unit {0})

unfoldable pub check_hashes : List Text → Checked
check_hashes [] = ok tt
check_hashes (h ∷ hs) =
    let rest = check_hashes hs in if not (length h == 32) then err invalid_message_hash else rest

unfoldable pub check_topics : List Text → Checked
check_topics [] = ok tt
check_topics (t ∷ ts) =
    let rest = check_topics ts in if length t == 0 then err empty_content_topic else rest

unfoldable pub check_times : StoreQueryRequest → Checked
check_times x =
    let start = int_or_zero x.time_start in
    let end = int_or_zero x.time_end in
    if is_positive start && (is_positive end && exceeds start end)
    then err invalid_time_range
    else ok tt

infixl 5 ◌and_then◌
abbrev pub ◌and_then◌ : Checked → Checked → Checked
ok u and_then next = next
err e and_then next = err e
panic and_then next = panic

unfoldable pub validate_by_hash : StoreQueryRequest → Checked
validate_by_hash x =
    if not (length x.content_topics == 0) || not (length (text_or_empty x.pubsub_topic) == 0)
    then err message_hash_other_fields
    else check_hashes x.message_hashes

unfoldable pub validate_by_filter : StoreQueryRequest → Checked
validate_by_filter x =
    if length (text_or_empty x.pubsub_topic) == 0
    then err missing_pubsub_topic
    else if ltb max_content_topics (length x.content_topics)
    then err max_topics_exceeded
    else check_topics x.content_topics and_then check_times x

unfoldable pub validate : StoreQueryRequest → Checked
validate x =
    if length x.request_id == 0
    then err missing_request_id
    else if not (length x.message_hashes == 0)
    then validate_by_hash x
    else validate_by_filter x

-- The validation of a message, with its error.
abbrev pub lift : Result MessageError (Unit {0}) → Checked
lift (ok u) = ok u
lift (err e) = err (invalid_message e)
lift panic = panic

unfoldable pub validate_inner_message : Option WakuMessage → Option Text → Checked
validate_inner_message none topic = ok tt
validate_inner_message (some msg) topic =
    if length (text_or_empty topic) == 0
    then err missing_pubsub_topic
    else lift (Message.validate msg)

unfoldable pub validate_key_value : WakuMessageKeyValue → Checked
validate_key_value x =
    if not (length x.message_hash == 32)
    then err invalid_message_hash
    else validate_inner_message x.message x.pubsub_topic

unfoldable pub validate_messages : List WakuMessageKeyValue → Checked
validate_messages [] = ok tt
validate_messages (m ∷ ms) = validate_key_value m and_then validate_messages ms

abbrev pub is_missing : Option ℕ → Bool
is_missing none = true
is_missing (some n) = false

unfoldable pub validate_response : Text → StoreQueryResponse → Checked
validate_response request_id x =
    if not (length x.request_id == 0)
      && (not (same x.request_id (codes "N/A")) && not (same x.request_id request_id))
    then err request_id_mismatch
    else if is_missing x.status_code
    then err missing_status_code
    else validate_messages x.messages

-- `Criteria`, and what it puts into a request.
pub data Criteria : Type 0 where
  filter_criteria : ContentFilter → Option ℤ → Option ℤ → Criteria
  message_hash_criteria : List Text → Criteria

unfoldable pub populate_store_request : Criteria → StoreQueryRequest → StoreQueryRequest
populate_store_request (filter_criteria cf start end) request = record request {
  content_topics = content_topics_list cf;
  pubsub_topic = some cf.pubsub_topic;
  time_start = start;
  time_end = end;
}
populate_store_request (message_hash_criteria hashes) request = record request {
  message_hashes = hashes;
}
