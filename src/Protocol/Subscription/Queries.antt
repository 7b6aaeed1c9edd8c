-- ===== src/Protocol/Subscription/Queries.antt =====
-- waku/v2/protocol/subscription/subscriptions_map.go. What is asked of the map, and the delivery of a
-- message. The order of an association list stands for the one in which Go ranges over the map.
use go_waku.Base.{
  ℕ, Bool, true, false, not, ◌||◌, none, some, List, [], ◌∷◌, ◌++◌, ltb, ◌==◌, if◌then◌else◌,
  length,
}
use go_waku.Base.Text.{Text, text_dec, same}
use go_waku.Base.Dict.{or_empty, Dict, lookup, keys}
use go_waku.Base.Keys.{contains}
use go_waku.Base.Result.{Result, ok, panic}
use go_waku.Protocol.Message.{Envelope}
use go_waku.Protocol.ContentFilter.{ContentFilter}
use go_waku.Protocol.Subscription.{
  SubscriptionDetails, SubscriptionSet, PeerSubscription, SubscriptionsMap, SubscriptionError,
  channel_capacity,
}
use go_waku.Protocol.Subscription.Details.{is_part_of, close_c, put}

unfoldable pub count : SubscriptionsMap → ℕ
count m = length m.items

unfoldable pub get_subscribed_peers : SubscriptionsMap → List Text
get_subscribed_peers m = keys m.items

unfoldable pub is_subscribed_to : Text → SubscriptionsMap → Bool
is_subscribed_to peer sub = elim (lookup text_dec peer sub.items) [ none ↦ false | some _ ↦ true ]

-- The content topics of the subscription that an ID points to.
unfoldable pub topics_at : Dict Text SubscriptionDetails → Text → List Text
topics_at details id = elim (lookup text_dec id details) [
  | none ↦ []
  | some d ↦ d.content_filter.content_topics
]

-- The inner loop of `Has`, with its break.
unfoldable pub found : Dict Text SubscriptionDetails → Text → SubscriptionSet → Bool
found details ct [] = false
found details ct (id ∷ ids) =
    let rest = found details ct ids in
    if contains text_dec ct (topics_at details id) then true else rest

unfoldable pub all_found : Dict Text SubscriptionDetails → List Text → SubscriptionSet → Bool
all_found details [] ids = true
all_found details (ct ∷ cts) ids =
    let rest = all_found details cts ids in if found details ct ids then rest else false

unfoldable pub has : Text → ContentFilter → SubscriptionsMap → Bool
has peer cf sub = elim (lookup text_dec peer sub.items) [
  | none ↦ false
  | some of_peer ↦ elim (lookup text_dec cf.pubsub_topic of_peer) [
    | none ↦ false
    | some subscriptions ↦ all_found sub.details cf.content_topics subscriptions
  ]
]

-- The innermost loop of `GetSubscriptionsForPeer`.
unfoldable pub parts_of :
    Dict Text SubscriptionDetails → ContentFilter → SubscriptionSet → List SubscriptionDetails
parts_of details cf [] = []
parts_of details cf (id ∷ ids) =
    let rest = parts_of details cf ids in
    elim (lookup text_dec id details) [
      | none ↦ rest
      | some d ↦ if is_part_of cf d then d ∷ rest else rest
    ]

unfoldable pub parts_of_peer :
    Dict Text SubscriptionDetails → ContentFilter → PeerSubscription → List SubscriptionDetails
parts_of_peer details cf [] = []
parts_of_peer details cf ((p, ids) ∷ rest) =
    parts_of details cf ids ++ parts_of_peer details cf rest

unfoldable pub parts_of_peers :
    Dict Text SubscriptionDetails
    → Text
    → ContentFilter
    → Dict Text PeerSubscription
    → List SubscriptionDetails
parts_of_peers details peer cf [] = []
parts_of_peers details peer cf ((q, of_peer) ∷ rest) =
    let others = parts_of_peers details peer cf rest in
    if length peer == 0 || same q peer then parts_of_peer details cf of_peer ++ others else others

unfoldable pub get_subscriptions_for_peer :
    Text → ContentFilter → SubscriptionsMap → List SubscriptionDetails
get_subscriptions_for_peer peer cf m = parts_of_peers m.details peer cf m.items

abbrev pub no_filter : ContentFilter
no_filter = record { pubsub_topic = []; content_topics = [] }

unfoldable pub get_all_subscriptions : SubscriptionsMap → List SubscriptionDetails
get_all_subscriptions m = get_subscriptions_for_peer [] no_filter m

unfoldable pub details_of :
    Dict Text SubscriptionDetails → SubscriptionSet → List SubscriptionDetails
details_of details [] = []
details_of details (id ∷ ids) =
    let rest = details_of details ids in
    elim (lookup text_dec id details) [ none ↦ rest | some d ↦ d ∷ rest ]

unfoldable pub details_of_peer :
    Dict Text SubscriptionDetails → PeerSubscription → List SubscriptionDetails
details_of_peer details [] = []
details_of_peer details ((p, ids) ∷ rest) = details_of details ids ++ details_of_peer details rest

unfoldable pub get_all_subscriptions_for_peer : Text → SubscriptionsMap → List SubscriptionDetails
get_all_subscriptions_for_peer peer m =
    details_of_peer m.details (or_empty (lookup text_dec peer m.items))

-- The send of `iterateSubscriptionSet`, where `gives_up` tells that the select takes `ctx.Done`.
unfoldable pub deliver : Bool → Envelope → SubscriptionDetails → SubscriptionDetails
deliver gives_up envelope d =
    if not (contains text_dec envelope.message.content_topic d.content_filter.content_topics)
    then d
    else if d.closed || gives_up
    then d
    else if ltb (length d.buffer) channel_capacity
    then record d { buffer = d.buffer ++ envelope ∷ [] }
    else d

-- What happens to the subscription that an ID points to.
unfoldable pub change_at :
    (SubscriptionDetails → SubscriptionDetails) → Text → SubscriptionsMap → SubscriptionsMap
change_at change id sub = elim (lookup text_dec id sub.details) [
  | none ↦ sub
  | some d ↦ put id (change d) sub
]

unfoldable pub iterate_subscription_set :
    (Text → Bool) → Envelope → SubscriptionSet → SubscriptionsMap → SubscriptionsMap
iterate_subscription_set gives_up envelope [] sub = sub
iterate_subscription_set gives_up envelope (id ∷ ids) sub =
    iterate_subscription_set gives_up envelope ids
      (change_at (deliver (gives_up id) envelope) id sub)

-- With no entry for the peer a nil pointer is read.
unfoldable pub notify :
    (Text → Bool) → Text → Envelope → SubscriptionsMap → Result SubscriptionError SubscriptionsMap
notify gives_up peer envelope sub = elim (lookup text_dec peer sub.items) [
  | none ↦ panic
  | some of_peer ↦ elim (lookup text_dec envelope.pubsub_topic of_peer) [
    | none ↦ ok sub
    | some ids ↦ ok (iterate_subscription_set gives_up envelope ids sub)
  ]
]

unfoldable pub close_all : SubscriptionSet → SubscriptionsMap → SubscriptionsMap
close_all [] sub = sub
close_all (id ∷ ids) sub = close_all ids (change_at close_c id sub)

unfoldable pub close_peer : PeerSubscription → SubscriptionsMap → SubscriptionsMap
close_peer [] sub = sub
close_peer ((p, ids) ∷ rest) sub = close_peer rest (close_all ids sub)

unfoldable pub close_peers : Dict Text PeerSubscription → SubscriptionsMap → SubscriptionsMap
close_peers [] sub = sub
close_peers ((peer, of_peer) ∷ rest) sub = close_peers rest (close_peer of_peer sub)

unfoldable pub clear : SubscriptionsMap → SubscriptionsMap
clear sub = record (close_peers sub.items sub) { items = [] }
