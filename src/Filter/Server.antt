-- ===== src/Filter/Server.antt =====
-- waku/v2/protocol/filter/server.go and pb/validation.go: the handlers of the full node. A request
-- comes with the peer of its stream and the time. Reading it from and writing the response to the
-- stream, the metrics and the log are not modelled.
mod Sizes
pub mod Bounds
pub mod Replies
mod Tests
use go_waku.Base.{
  ℕ, ◌+◌, ◌≡◌, Bool, true, false, ◌||◌, Option, none, some, List, [], ◌∷◌, ltb, leb, ◌==◌,
  if◌then◌else◌, length,
}
use go_waku.Base.Text.{Text, codes, text_dec}
use go_waku.Base.Dict.{Dict}
use go_waku.Base.Keys.{contains}
use go_waku.Base.Result.{Result, ok, err, panic, ◌>>=◌}
use go_waku.Filter.Subscribers.{
  SubscribersMap, PubsubTopics, SubscribersError, get, has, count, refresh, set, delete, delete_all,
}

abbrev pub max_content_topics_per_request : ℕ
max_content_topics_per_request = 100

abbrev pub max_criteria_per_subscription : ℕ
max_criteria_per_subscription = 1000

-- The message on the wire may hold a number with no name.
pub data FilterSubscribeType : Type 0 where
  subscriber_ping subscribe unsubscribe unsubscribe_all : FilterSubscribeType
  unnamed : ℕ → FilterSubscribeType

pub record FilterSubscribeRequest : Type 0 where
  pub request_id : Text
  pub filter_subscribe_type : FilterSubscribeType
  pub pubsub_topic : Option Text
  pub content_topics : List Text

pub record FilterSubscribeResponse : Type 0 where
  pub request_id : Text
  pub status_code : ℕ
  pub status_desc : Text

pub data ValidationError : Type 0 where
  missing_request_id missing_pubsub_topic no_content_topics : ValidationError
  empty_content_topics max_content_topics : ValidationError

abbrev pub message : ValidationError → Text
message missing_request_id = codes "missing RequestId field"
message missing_pubsub_topic = codes "missing PubsubTopic field"
message no_content_topics = codes "at least one contenttopic should be specified"
message empty_content_topics = codes "one or more content topics specified is empty"
message max_content_topics = codes "exceeds maximum content topics: 100"

-- `x.PubsubTopic == nil || *x.PubsubTopic == ""`.
abbrev pub lacks_pubsub_topic : Option Text → Bool
lacks_pubsub_topic none = true
lacks_pubsub_topic (some []) = true
lacks_pubsub_topic (some (c ∷ s)) = false

-- The tests of a request that changes subscriptions.
unfoldable pub validate_topics : FilterSubscribeRequest → Result ValidationError (Unit {0})
validate_topics x =
    if lacks_pubsub_topic x.pubsub_topic
    then err missing_pubsub_topic
    else if length x.content_topics == 0
    then err no_content_topics
    else if contains text_dec [] x.content_topics
    then err empty_content_topics
    else if ltb max_content_topics_per_request (length x.content_topics)
    then err max_content_topics
    else ok tt

-- The part of `Validate` behind the test of the request's id.
unfoldable pub validate_kind :
    FilterSubscribeType → FilterSubscribeRequest → Result ValidationError (Unit {0})
validate_kind subscribe x = validate_topics x
validate_kind unsubscribe x = validate_topics x
validate_kind _ x = ok tt

unfoldable pub validate : FilterSubscribeRequest → Result ValidationError (Unit {0})
validate x =
    if length x.request_id == 0
    then err missing_request_id
    else validate_kind x.filter_subscribe_type x

pub record WakuFilterFullNode : Type 0 where
  pub subscriptions : SubscribersMap
  pub max_subscriptions : ℕ

-- What a handler leaves: the node, and the response if one is written.
abbrev pub Outcome : Type 0
Outcome = WakuFilterFullNode × Option FilterSubscribeResponse

unfoldable pub reply : FilterSubscribeRequest → ℕ → Text → Option FilterSubscribeResponse
reply request status_code description = some (record {
  request_id = request.request_id;
  status_code = status_code;
  status_desc = description;
})

-- `http.StatusText(http.StatusOK)`.
abbrev pub status_ok : Text
status_ok = codes "OK"

abbrev pub peer_has_no_subscription : Text
peer_has_no_subscription = codes "peer has no subscriptions"

-- The loop that sums up the content topics of a peer.
unfoldable pub total : PubsubTopics → ℕ
total [] = 0
total ((topic, cs) ∷ rest) = length cs + total rest

module _ (digest : Text → Text) (now : ℕ) (peer_id : Text) where
  unfoldable pub ping : WakuFilterFullNode → FilterSubscribeRequest → Outcome
  ping wf request =
      if has wf.subscriptions peer_id
      then (
        record wf { subscriptions = refresh now peer_id wf.subscriptions },
        reply request 200 status_ok,
      )
      else (wf, reply request 404 peer_has_no_subscription)

  -- `ctTotal+len(request.ContentTopics) > MaxCriteriaPerSubscription` for a peer that exists.
  unfoldable pub exceeds_criteria : Option PubsubTopics → FilterSubscribeRequest → Bool
  exceeds_criteria none request = false
  exceeds_criteria (some total_subs) request =
      ltb max_criteria_per_subscription (total total_subs + length request.content_topics)

  unfoldable pub handle_subscribe : WakuFilterFullNode → FilterSubscribeRequest → Text → Outcome
  handle_subscribe wf request pubsub_topic =
      if leb wf.max_subscriptions (count wf.subscriptions)
      then (wf, reply request 503 (codes "node has reached maximum number of subscriptions"))
      else if exceeds_criteria (get wf.subscriptions peer_id) request
      then (wf, reply request 503 (codes "peer has reached maximum number of filter criteria"))
      else (
        record wf {
          subscriptions =
              set digest now peer_id pubsub_topic request.content_topics wf.subscriptions;
        },
        reply request 200 status_ok,
      )

  -- The end of both ways to unsubscribe.
  unfoldable pub after_removal :
      WakuFilterFullNode → FilterSubscribeRequest → Result SubscribersError SubscribersMap → Outcome
  after_removal wf request (ok sub) =
      (record wf { subscriptions = sub }, reply request 200 status_ok)
  after_removal wf request _ = (wf, reply request 404 peer_has_no_subscription)

  unfoldable pub handle_unsubscribe : WakuFilterFullNode → FilterSubscribeRequest → Text → Outcome
  handle_unsubscribe wf request pubsub_topic =
      after_removal wf request
        (delete digest now peer_id pubsub_topic request.content_topics wf.subscriptions)

  unfoldable pub handle_unsubscribe_all : WakuFilterFullNode → FilterSubscribeRequest → Outcome
  handle_unsubscribe_all wf request =
      after_removal wf request (delete_all digest peer_id wf.subscriptions)

  -- `*request.PubsubTopic`, which panics at nil.
  abbrev pub deref : Option Text → (Text → Outcome) → Result ValidationError Outcome
  deref none f = panic
  deref (some t) f = ok (f t)

  unfoldable pub dispatch :
      FilterSubscribeType
      → WakuFilterFullNode
      → FilterSubscribeRequest
      → Result ValidationError Outcome
  dispatch subscribe wf request = deref request.pubsub_topic (handle_subscribe wf request)
  dispatch subscriber_ping wf request = ok (ping wf request)
  dispatch unsubscribe wf request = deref request.pubsub_topic (handle_unsubscribe wf request)
  dispatch unsubscribe_all wf request = ok (handle_unsubscribe_all wf request)
  dispatch (unnamed _) wf request = ok (wf, none)

  unfoldable pub on_request :
      WakuFilterFullNode → FilterSubscribeRequest → Result ValidationError Outcome
  on_request wf request = elim (validate request) [
    | ok _ ↦ dispatch request.filter_subscribe_type wf request
    | err e ↦ ok (wf, reply request 400 (message e))
    | panic ↦ panic
  ]
