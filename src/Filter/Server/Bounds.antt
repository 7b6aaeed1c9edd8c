-- ===== src/Filter/Server/Bounds.antt =====
-- The limits of the full node hold after every request.
use go_waku.Base.{if-elim, ℕ, ◌+◌, ◌≤◌, ◌≡◌, refl, false, Option, none, some, arith, leb, length}
use go_waku.Base.Text.{Text, text_dec}
use go_waku.Base.Dict.{or_empty, lookup}
use go_waku.Base.Result.{Result, ok, err, panic, ok-injective}
use go_waku.Filter.Subscribers.{SubscribersMap, PubsubTopics, SubscribersError, get, count, refresh}
use go_waku.Filter.Server.{
  WakuFilterFullNode, FilterSubscribeRequest, FilterSubscribeType, ValidationError, Outcome,
  subscribe, subscriber_ping, unsubscribe, unsubscribe_all, unnamed, max_content_topics_per_request,
  max_criteria_per_subscription, total, validate, validate_kind, validate_topics, ping,
  exceeds_criteria, handle_subscribe, after_removal, handle_unsubscribe, handle_unsubscribe_all,
  dispatch, on_request, reply, message, deref,
}
use go_waku.Filter.Server.Sizes.{
  IsWithin, HasLimits, set-IsWithin, delete-IsWithin, delete_all-IsWithin,
}

-- A valid request that subscribes has at most 100 content topics.
valid-few :
    (request : FilterSubscribeRequest)
    → request.filter_subscribe_type ≡ subscribe
    → validate request ≡ ok tt
    → length request.content_topics ≤ max_content_topics_per_request
unfolding validate validate_kind validate_topics
valid-few request k h = ground arith

module _ (digest : Text → Text) (now : ℕ) (peer : Text) where
  after_removal-HasLimits :
      (wf : WakuFilterFullNode) (request : FilterSubscribeRequest)
      (r : Result SubscribersError SubscribersMap)
      → ((sub : SubscribersMap) → r ≡ ok sub → IsWithin wf.max_subscriptions sub)
      → IsWithin wf.max_subscriptions wf.subscriptions
      → HasLimits wf.max_subscriptions (after_removal digest now peer wf request r).0
  unfolding after_removal
  after_removal-HasLimits wf request (ok sub) good w = (refl, good sub refl)
  after_removal-HasLimits wf request (err e) good w = (refl, w)
  after_removal-HasLimits wf request panic good w = (refl, w)

  -- The test of the criteria bounds what the peer has together with what it asks for.
  fits :
      (wf : WakuFilterFullNode) (request : FilterSubscribeRequest) (found : Option PubsubTopics)
      → length request.content_topics ≤ max_content_topics_per_request
      → exceeds_criteria digest now peer found request ≡ false
      → total (or_empty found) + length request.content_topics ≤ max_criteria_per_subscription
  unfolding exceeds_criteria total
  fits wf request none few h = omega (arith, few)
  fits wf request (some m) few h = ground arith

  subscribe-HasLimits :
      (wf : WakuFilterFullNode) (request : FilterSubscribeRequest) (topic : Text)
      → length request.content_topics ≤ max_content_topics_per_request
      → IsWithin wf.max_subscriptions wf.subscriptions
      → HasLimits wf.max_subscriptions (handle_subscribe digest now peer wf request topic).0
  unfolding handle_subscribe get
  subscribe-HasLimits wf request topic few w =
      let Good : Outcome → Type 0 = λ o. HasLimits wf.max_subscriptions o.0 in
      if-elim Good (leb wf.max_subscriptions (count wf.subscriptions)) _ _ (λ full. (refl, w))
        (λ room.
          if-elim Good _ _ _ (λ much. (refl, w))
            (λ little. (
              refl,
              set-IsWithin digest now peer topic request.content_topics wf.subscriptions
                  wf.max_subscriptions (ground arith)
                  (fits wf request (lookup text_dec peer wf.subscriptions.items) few little) w,
            )))

  ping-HasLimits :
      (wf : WakuFilterFullNode) (request : FilterSubscribeRequest)
      → IsWithin wf.max_subscriptions wf.subscriptions
      → HasLimits wf.max_subscriptions (ping digest now peer wf request).0
  unfolding ping refresh count
  ping-HasLimits wf request w =
      if-elim (λ (o : Outcome). HasLimits wf.max_subscriptions o.0) _ _ _
        (λ known. (refl, record { few = w.few; small = w.small })) (λ unknown. (refl, w))

  deref-HasLimits :
      (max : ℕ) (t : Option Text) (f : Text → Outcome) (o : Outcome)
      → ((s : Text) → HasLimits max (f s).0)
      → deref digest now peer t f ≡ ok o
      → HasLimits max o.0
  deref-HasLimits max none f o good h = absurd (ground arith)
  deref-HasLimits max (some s) f o good h = rw (← ok-injective h) (good s)

  dispatch-HasLimits :
      (k : FilterSubscribeType) (wf : WakuFilterFullNode) (request : FilterSubscribeRequest)
      (o : Outcome)
      → (k ≡ subscribe → length request.content_topics ≤ max_content_topics_per_request)
      → IsWithin wf.max_subscriptions wf.subscriptions
      → dispatch digest now peer k wf request ≡ ok o
      → HasLimits wf.max_subscriptions o.0
  unfolding dispatch handle_unsubscribe handle_unsubscribe_all
  dispatch-HasLimits subscribe wf request o few w h =
      deref-HasLimits wf.max_subscriptions request.pubsub_topic _ o
        (λ s. subscribe-HasLimits wf request s (few refl) w) h
  dispatch-HasLimits subscriber_ping wf request o few w h =
      rw (← ok-injective h) (ping-HasLimits wf request w)
  dispatch-HasLimits unsubscribe wf request o few w h =
      deref-HasLimits wf.max_subscriptions request.pubsub_topic _ o
        (λ s.
          after_removal-HasLimits wf request _
            (λ sub e.
              delete-IsWithin digest now peer s request.content_topics wf.subscriptions sub
                wf.max_subscriptions e w)
            w)
        h
  dispatch-HasLimits unsubscribe_all wf request o few w h = rw (← ok-injective h) (
      after_removal-HasLimits wf request _
        (λ sub e. delete_all-IsWithin digest peer wf.subscriptions sub wf.max_subscriptions e w) w)
  dispatch-HasLimits (unnamed n) wf request o few w h = rw (← ok-injective h) (refl, w)

  -- A request that a full node answers, whatever its kind and whether it is valid, keeps the
  -- limits: with at most the allowed number of peers and at most 1000 criteria for each before it,
  -- the node has them after it too, and its allowed number is the same.
  pub on_request-HasLimits :
      (wf : WakuFilterFullNode) (request : FilterSubscribeRequest) (o : Outcome)
      → IsWithin wf.max_subscriptions wf.subscriptions
      → on_request digest now peer wf request ≡ ok o
      → HasLimits wf.max_subscriptions o.0
  unfolding on_request
  on_request-HasLimits wf request o w h = go (validate request) refl h
    where
      go :
          (v : Result ValidationError (Unit {0}))
          → validate request ≡ v
          → (elim v [
            | ok _ ↦ dispatch digest now peer request.filter_subscribe_type wf request
            | err e ↦ ok (wf, reply request 400 (message e))
            | panic ↦ panic
          ])
            ≡ ok o
          → HasLimits wf.max_subscriptions o.0
      go (ok tt) e h' =
          dispatch-HasLimits request.filter_subscribe_type wf request o (λ k. valid-few request k e)
            w h'
      go (err x) e h' = rw (← ok-injective h') (refl, w)
      go panic e h' = absurd (ground arith)
