-- ===== src/Protocol/Subscription/Details.antt =====
-- waku/v2/protocol/subscription/subscription_details.go. The methods of a subscription, which the
-- client holds by its pointer, also when the maps have it no more.
use go_waku.Base.{
  Bool, true, false, not, ◌&&◌, ◌+◌, List, [], ◌∷◌, ◌==◌, if◌then◌else◌, length, ltb,
}
use go_waku.Base.Text.{Text, text_dec, same}
use go_waku.Base.Dict.{insert}
use go_waku.Base.Keys.{contains, add, remove}
use go_waku.Base.Result.{Result, ok, err, panic}
use go_waku.Protocol.ContentFilter.{ContentFilter}
use go_waku.Protocol.Subscription.{
  SubscriptionDetails, Counts, SubscriptionsMap, SubscriptionError, increase_sub_for,
  decrease_sub_for, delete_no_lock,
}

-- The details are written to where the pointers of the subscription lead.
abbrev pub put : Text → SubscriptionDetails → SubscriptionsMap → SubscriptionsMap
put id d sub = record sub { details = insert text_dec id d sub.details }

abbrev pub with_topics : List Text → SubscriptionDetails → SubscriptionDetails
with_topics topics d = record d {
  content_filter = record d.content_filter { content_topics = topics };
}

-- The loop of `Add`, over the topics of the subscription and the counts.
unfoldable pub add_loop : Text → List Text → List Text → Counts → List Text × Counts
add_loop p [] topics counts = (topics, counts)
add_loop p (ct ∷ cts) topics counts =
    let skip = add_loop p cts topics counts in
    let added = add_loop p cts (add text_dec ct topics) (increase_sub_for p ct counts) in
    if contains text_dec ct topics then skip else added

-- A write to a nil map panics.
unfoldable pub add_content_topics :
    Text
    → List Text
    → SubscriptionDetails
    → SubscriptionsMap
    → Result SubscriptionError SubscriptionsMap
add_content_topics id cts d sub =
    let cf = d.content_filter in
    let (topics, counts) = add_loop cf.pubsub_topic cts cf.content_topics sub.no_of_subs in
    if d.topics_nil && ltb 0 (length cts)
    then panic
    else ok (put id (with_topics topics d) (record sub { no_of_subs = counts }))

-- The loop of `Remove`.
unfoldable pub remove_loop :
    Text → List Text → List Text → Counts → Result SubscriptionError (List Text × Counts)
remove_loop p [] topics counts = ok (topics, counts)
remove_loop p (ct ∷ cts) topics counts =
    let skip = remove_loop p cts topics counts in
    let removed : Result SubscriptionError (List Text × Counts) =
      elim (decrease_sub_for p ct counts) [
        | ok counts' ↦ remove_loop p cts (remove text_dec ct topics) counts'
        | err e ↦ err e
        | panic ↦ panic
      ] in
    if contains text_dec ct topics then removed else skip

-- The error of `DeleteNoLock` is ignored.
unfoldable pub ignore_error :
    SubscriptionsMap
    → Result SubscriptionError SubscriptionsMap
    → Result SubscriptionError SubscriptionsMap
ignore_error sub (ok sub') = ok sub'
ignore_error sub (err e) = ok sub
ignore_error sub panic = panic

-- A subscription with no content topic left goes.
unfoldable pub delete_if_empty :
    Text → SubscriptionDetails → SubscriptionsMap → Result SubscriptionError SubscriptionsMap
delete_if_empty id d sub =
    if length d.content_filter.content_topics == 0
    then ignore_error sub (delete_no_lock id d sub)
    else ok sub

unfoldable pub remove_content_topics :
    Text
    → List Text
    → SubscriptionDetails
    → SubscriptionsMap
    → Result SubscriptionError SubscriptionsMap
remove_content_topics id cts d sub =
    let cf = d.content_filter in
    elim (remove_loop cf.pubsub_topic cts cf.content_topics sub.no_of_subs) [
      | ok r ↦
          let d' = with_topics r.0 d in
          delete_if_empty id d' (put id d' (record sub { no_of_subs = r.1 }))
      | err e ↦ err e
      | panic ↦ panic
    ]

-- The loop of `isPartOf`.
unfoldable pub shares_topic : List Text → SubscriptionDetails → Bool
shares_topic [] d = false
shares_topic (ct ∷ cts) d =
    let rest = shares_topic cts d in
    if contains text_dec ct d.content_filter.content_topics then true else rest

unfoldable pub is_part_of : ContentFilter → SubscriptionDetails → Bool
is_part_of cf d =
    if not (length cf.pubsub_topic == 0) && not (same d.content_filter.pubsub_topic cf.pubsub_topic)
    then false
    else if length cf.content_topics == 0
    then true
    else shares_topic cf.content_topics d

-- `once` is spent exactly when the channels are closed.
unfoldable pub close_c : SubscriptionDetails → SubscriptionDetails
close_c d = if d.channels_closed then d else record d { closed = true; channels_closed = true }

unfoldable pub close :
    Text → SubscriptionDetails → SubscriptionsMap → Result SubscriptionError SubscriptionsMap
close id d sub = let d' = close_c d in delete_no_lock id d' (put id d' sub)

-- The send on `Closing` waits for its receiver.
unfoldable pub set_closing : SubscriptionDetails → SubscriptionDetails
set_closing d = if d.closed then d else record d { closed = true; signals = d.signals + 1 }
