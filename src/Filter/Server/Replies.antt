-- ===== src/Filter/Server/Replies.antt =====
-- What the full node answers.
use go_waku.Base.{
  if-elim, ℕ, ◌≡◌, ◌≢◌, refl, ap, ◌∙◌, Bool, true, false, ◌||◌, Option, none, some, arith, leb,
  ◌==◌, ◌⊎◌, inl, inr,
}
use go_waku.Base.Text.{Text}
use go_waku.Base.Result.{Result, ok, err, panic}
use go_waku.Filter.Subscribers.{SubscribersMap, SubscribersError, set, count, get, has}
use go_waku.Filter.Subscribers.Lookup.{subscribed, covers, subscribed-set}
use go_waku.Filter.Server.{
  message, exceeds_criteria, WakuFilterFullNode, FilterSubscribeRequest, FilterSubscribeResponse,
  FilterSubscribeType, ValidationError, Outcome, subscribe, subscriber_ping, unsubscribe,
  unsubscribe_all, unnamed, lacks_pubsub_topic, validate, validate_kind, validate_topics, ping,
  handle_subscribe, handle_unsubscribe, handle_unsubscribe_all, after_removal, dispatch, deref,
  on_request, reply,
}

-- The kinds of request that need a pubsub topic.
unfoldable pub changes_topics : FilterSubscribeType → Bool
changes_topics subscribe = true
changes_topics unsubscribe = true
changes_topics _ = false

unfoldable pub is_named : FilterSubscribeType → Bool
is_named (unnamed _) = false
is_named _ = true

unfoldable pub is_error : ℕ → Bool
is_error status = status == 400 || (status == 404 || status == 503)

-- A response to the request: one of the four statuses, and 200 if the node changed.
unfoldable pub Answers : WakuFilterFullNode → FilterSubscribeRequest → Outcome → Bool → Type 0
Answers wf request (wf', none) named = (named ≡ false) × (wf' ≡ wf)
Answers wf request (wf', some response) named =
    (response.request_id ≡ request.request_id)
    × ((response.status_code ≡ 200) ⊎ (is_error response.status_code ≡ true) × (wf' ≡ wf))

valid-topic :
    (request : FilterSubscribeRequest)
    → changes_topics request.filter_subscribe_type ≡ true
    → validate request ≡ ok tt
    → lacks_pubsub_topic request.pubsub_topic ≡ false
unfolding validate validate_kind validate_topics changes_topics
valid-topic request k h = ground arith

validate-no_panic : (request : FilterSubscribeRequest) → validate request ≢ panic
unfolding validate validate_kind validate_topics
validate-no_panic request h = ground arith

module _ (digest : Text → Text) (now : ℕ) (peer : Text) where
  ok-Answers :
      (wf wf' : WakuFilterFullNode) (request : FilterSubscribeRequest) (t : Text) (named : Bool)
      → Answers wf request (wf', reply request 200 t) named
  unfolding Answers reply
  ok-Answers wf wf' request t named = (refl, inl refl)

  err-Answers :
      (wf : WakuFilterFullNode) (request : FilterSubscribeRequest) (status : ℕ) (t : Text)
      (named : Bool)
      → is_error status ≡ true
      → Answers wf request (wf, reply request status t) named
  unfolding Answers reply
  err-Answers wf request status t named h = (refl, inr (h, refl))

  after_removal-Answers :
      (wf : WakuFilterFullNode) (request : FilterSubscribeRequest)
      (r : Result SubscribersError SubscribersMap) (named : Bool)
      → Answers wf request (after_removal digest now peer wf request r) named
  unfolding after_removal is_error
  after_removal-Answers wf request (ok sub) named = ok-Answers wf _ request _ named
  after_removal-Answers wf request (err e) named = err-Answers wf request 404 _ named refl
  after_removal-Answers wf request panic named = err-Answers wf request 404 _ named refl

  subscribe-Answers :
      (wf : WakuFilterFullNode) (request : FilterSubscribeRequest) (t : Text) (named : Bool)
      → Answers wf request (handle_subscribe digest now peer wf request t) named
  unfolding handle_subscribe is_error
  subscribe-Answers wf request t named =
      let Good : Outcome → Type 0 = λ o. Answers wf request o named in
      if-elim Good (leb wf.max_subscriptions (count wf.subscriptions)) _ _
        (λ full. err-Answers wf request 503 _ named refl)
        (λ room.
          if-elim Good (exceeds_criteria digest now peer (get wf.subscriptions peer) request) _ _
            (λ much. err-Answers wf request 503 _ named refl)
            (λ little. ok-Answers wf _ request _ named))

  ping-Answers :
      (wf : WakuFilterFullNode) (request : FilterSubscribeRequest) (named : Bool)
      → Answers wf request (ping digest now peer wf request) named
  unfolding ping is_error
  ping-Answers wf request named =
      if-elim (λ (o : Outcome). Answers wf request o named) (has wf.subscriptions peer) _ _
        (λ known. ok-Answers wf _ request _ named)
        (λ unknown. err-Answers wf request 404 _ named refl)

  -- A pubsub topic that is there is read without a panic.
  deref-Answers :
      (wf : WakuFilterFullNode) (request : FilterSubscribeRequest) (t : Option Text)
      (f : Text → Outcome) (named : Bool)
      → lacks_pubsub_topic t ≡ false
      → ((s : Text) → Answers wf request (f s) named)
      → (o : Outcome) × (deref digest now peer t f ≡ ok o) × Answers wf request o named
  deref-Answers wf request none f named h good = absurd (ground arith)
  deref-Answers wf request (some s) f named h good = (f s, refl, good s)

  dispatch-Answers :
      (k : FilterSubscribeType) (wf : WakuFilterFullNode) (request : FilterSubscribeRequest)
      → (changes_topics k ≡ true → lacks_pubsub_topic request.pubsub_topic ≡ false)
      → (o : Outcome) × (dispatch digest now peer k wf request ≡ ok o)
        × Answers wf request o (is_named k)
  unfolding dispatch handle_unsubscribe handle_unsubscribe_all changes_topics is_named Answers
  dispatch-Answers subscribe wf request h =
      deref-Answers wf request request.pubsub_topic _ true (h refl)
        (λ s. subscribe-Answers wf request s true)
  dispatch-Answers subscriber_ping wf request h = (_, refl, ping-Answers wf request true)
  dispatch-Answers unsubscribe wf request h =
      deref-Answers wf request request.pubsub_topic _ true (h refl)
        (λ s. after_removal-Answers wf request _ true)
  dispatch-Answers unsubscribe_all wf request h = (_, refl, after_removal-Answers wf request _ true)
  dispatch-Answers (unnamed n) wf request h = ((wf, none), refl, (refl, refl))

  -- The handler of the full node never panics. It answers every request except a valid one of a
  -- kind with no name, for which it does nothing. The response carries the request's id, and its
  -- status is 200, or one of 400, 404 and 503 and the node is as it was.
  pub on_request-Answers :
      (wf : WakuFilterFullNode) (request : FilterSubscribeRequest)
      → (o : Outcome) × (on_request digest now peer wf request ≡ ok o)
        × Answers wf request o (is_named request.filter_subscribe_type)
  unfolding on_request
  on_request-Answers wf request = go (validate request) refl
    where
      go :
          (v : Result ValidationError (Unit {0}))
          → validate request ≡ v
          → (o : Outcome) × ((elim v [
            | ok _ ↦ dispatch digest now peer request.filter_subscribe_type wf request
            | err e ↦ ok (wf, reply request 400 (message e))
            | panic ↦ panic
          ])
              ≡ ok o)
            × Answers wf request o (is_named request.filter_subscribe_type)
      go (ok tt) e =
          dispatch-Answers request.filter_subscribe_type wf request (λ k. valid-topic request k e)
      go (err x) e = (_, refl, unfold is_error in err-Answers wf request 400 (message x) _ refl)
      go panic e = absurd (validate-no_panic request e)

  handle_subscribe-inv :
      (wf : WakuFilterFullNode) (request : FilterSubscribeRequest) (topic : Text)
      (response : FilterSubscribeResponse)
      → (handle_subscribe digest now peer wf request topic).1 ≡ some response
      → response.status_code ≡ 200
      → (handle_subscribe digest now peer wf request topic).0 ≡ record wf {
        subscriptions = set digest now peer topic request.content_topics wf.subscriptions;
      }
  unfolding handle_subscribe reply
  handle_subscribe-inv wf request topic response r s = ground arith

  on_request-inv :
      (wf : WakuFilterFullNode) (request : FilterSubscribeRequest) (topic : Text) (o : Outcome)
      (response : FilterSubscribeResponse)
      → request.filter_subscribe_type ≡ subscribe
      → request.pubsub_topic ≡ some topic
      → on_request digest now peer wf request ≡ ok o
      → o.1 ≡ some response
      → response.status_code ≡ 200
      → handle_subscribe digest now peer wf request topic ≡ o
  unfolding on_request dispatch reply
  on_request-inv wf request topic o response k p h r s = ground arith

  -- A subscription that is answered with 200 adds the request's content topics on its pubsub topic
  -- to those of the peer, and no other subscription of any peer changes.
  pub on_request-subscribed :
      (wf : WakuFilterFullNode) (request : FilterSubscribeRequest) (topic : Text) (o : Outcome)
      (response : FilterSubscribeResponse) (q t d : Text)
      → request.filter_subscribe_type ≡ subscribe
      → request.pubsub_topic ≡ some topic
      → on_request digest now peer wf request ≡ ok o
      → o.1 ≡ some response
      → response.status_code ≡ 200
      → subscribed o.0.subscriptions q t d
        ≡ covers peer topic request.content_topics q t d || subscribed wf.subscriptions q t d
  on_request-subscribed wf request topic o response q t d k p h r s =
      let e = on_request-inv wf request topic o response k p h r s in
      let node =
        handle_subscribe-inv wf request topic response (ap (λ (a : Outcome). a.1) e ∙ r) s in
      rw (← e, node)
        (subscribed-set digest now peer topic request.content_topics wf.subscriptions q t d)
