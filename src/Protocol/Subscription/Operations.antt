-- ===== src/Protocol/Subscription/Operations.antt =====
-- Every operation keeps the counts right.
use go_waku.Base.{
  ◌+◌, ◌≡◌, refl, ap, Bool, true, none, some, List, [], ◌∷◌, arith, Option-cases, Bool-cases, inl,
  inr, length, ◌==◌, false, ◌&&◌, ltb,
}
use go_waku.Base.Text.{Text, text_dec}
use go_waku.Base.Dict.{lookup}
use go_waku.Base.Result.{Result, ok}
use go_waku.Base.Occurrences.{IsNodup}
use go_waku.Base.Sums.{total, total-erase}
use go_waku.Protocol.Message.{Envelope}
use go_waku.Protocol.ContentFilter.{ContentFilter}
use go_waku.Protocol.Subscription.{
  SubscriptionDetails, SubscriptionsMap, SubscriptionError, increase_all, new_subscription,
  new_details,
}
use go_waku.Protocol.Subscription.Details.{
  put, with_topics, add_loop, add_content_topics, remove_content_topics, delete_if_empty,
  ignore_error, close_c, close, set_closing,
}
use go_waku.Protocol.Subscription.Queries.{
  is_subscribed_to, change_at, deliver, iterate_subscription_set, notify,
}
use go_waku.Protocol.Subscription.Counters.{
  weight_of, Agrees-ext, increase_all-Agrees, add_loop_lem, remove_loop_lem,
}
use go_waku.Protocol.Subscription.Listed.{listed-insert}
use go_waku.Protocol.Subscription.Invariant.{
  topics_of, pubsub_of, kept, weight, Inv, others, others-Agrees, others-Agrees_fresh, changed-Inv,
}
use go_waku.Protocol.Subscription.Changes.{IsLive, Keeps, sets_at, put-Inv, delete-Inv}

-- What a call gives: a result with the invariant.
abbrev pub Succeeds : Result SubscriptionError SubscriptionsMap → Type 0
Succeeds r = (sub : SubscriptionsMap) × (r ≡ ok sub) × Inv sub

pub new_subscription-Inv :
    (id peer : Text) (topics_nil : Bool) (cf : ContentFilter) (sub : SubscriptionsMap)
    → Inv sub
    → lookup text_dec id sub.details ≡ none
    → IsNodup text_dec cf.content_topics
    → Inv (new_subscription id peer topics_nil cf sub)
unfolding new_subscription new_details
new_subscription-Inv id peer topics_nil cf sub inv fresh set =
    let d = new_details peer topics_nil cf in
    let p = cf.pubsub_topic in
    let items' = (new_subscription id peer topics_nil cf sub).items in
    let counts' = increase_all p cf.content_topics sub.no_of_subs in
    changed-Inv sub id d items' counts' inv
      (λ i q r ne. ground (arith, listed-insert id peer p sub.items i q r)) set
      (Agrees-ext (λ q u. others sub id q u + weight_of p cf.content_topics q u)
        (λ q u. others sub id q u + weight items' q u id d) counts'
        (λ q u.
          unfold weight in
          unfold kept in ground (arith, listed-insert id peer p sub.items id peer p))
        (increase_all-Agrees (others sub id) p cf.content_topics sub.no_of_subs
          (others-Agrees_fresh sub id inv fresh)))

pub add_content_topics-Inv :
    (id : Text) (cts : List Text) (d : SubscriptionDetails) (sub : SubscriptionsMap)
    → Inv sub
    → IsLive sub id d
    → (d.topics_nil && ltb 0 (length cts)) ≡ false
    → Succeeds (add_content_topics id cts d sub)
unfolding add_content_topics
add_content_topics-Inv id cts d sub inv l writes =
    let p = pubsub_of d in
    let r = add_loop p cts (topics_of d) sub.no_of_subs in
    let (set, a) =
      add_loop_lem (others sub id) p cts (topics_of d) sub.no_of_subs (sets_at sub id d inv l.there)
        (others-Agrees sub id d inv l.there l.live) in
    (
      put id (with_topics r.0 d) (record sub { no_of_subs = r.1 }),
      ground (arith, writes),
      put-Inv sub id d (with_topics r.0 d) r.1 inv l (record { peer = refl; pubsub = refl }) set a,
    )

-- A subscription that ends with no topic goes, and any other stays.
pub remove_content_topics-Inv :
    (id : Text) (cts : List Text) (d : SubscriptionDetails) (sub : SubscriptionsMap)
    → Inv sub
    → IsLive sub id d
    → Succeeds (remove_content_topics id cts d sub)
unfolding remove_content_topics delete_if_empty ignore_error
remove_content_topics-Inv id cts d sub inv l =
    let p = pubsub_of d in
    let (left, counts, went, set, a) =
      remove_loop_lem (others sub id) p cts (topics_of d) sub.no_of_subs
        (sets_at sub id d inv l.there) (others-Agrees sub id d inv l.there l.live) in
    let d' = with_topics left d in
    let k : Keeps d d' = record { peer = refl; pubsub = refl } in
    elim (Bool-cases (length left == 0)) [
      | inr more ↦ (
        put id d' (record sub { no_of_subs = counts }),
        ground (arith, went, more),
        put-Inv sub id d d' counts inv l k set a,
      )
      | inl empty ↦
          let (sub', gone, inv') = delete-Inv sub id d d' counts inv l k set a in
          (sub', ground (arith, went, empty, gone), inv')
    ]

-- A change of the channels only, at any subscription.
change-Inv :
    (id : Text) (d d' : SubscriptionDetails) (sub : SubscriptionsMap)
    → Inv sub
    → lookup text_dec id sub.details ≡ some d
    → d'.peer_id ≡ d.peer_id
    → d'.content_filter ≡ d.content_filter
    → Inv (put id d' sub)
change-Inv id d d' sub inv there e f =
    changed-Inv sub id d' sub.items sub.no_of_subs inv (λ i q r ne. refl)
      (rw f (sets_at sub id d inv there))
      (Agrees-ext (λ q u. total text_dec (weight sub.items q u) sub.details)
        (λ q u. others sub id q u + weight sub.items q u id d') sub.no_of_subs
        (λ q u.
          unfold others in
          unfold weight in
          unfold kept in
          ground (
            arith,
            total-erase text_dec (weight sub.items q u) id d sub.details inv.distinct there,
          ))
        inv.agrees)

close_c_lem :
    (d : SubscriptionDetails)
    → ((close_c d).peer_id ≡ d.peer_id) × ((close_c d).content_filter ≡ d.content_filter)
unfolding close_c
close_c_lem d = ground arith

pub close-Inv :
    (id : Text) (d : SubscriptionDetails) (sub : SubscriptionsMap)
    → Inv sub
    → IsLive sub id d
    → Succeeds (close id d sub)
unfolding close
close-Inv id d sub inv l =
    let (e, f) = close_c_lem d in
    delete-Inv sub id d (close_c d) sub.no_of_subs inv l
      (record { peer = e; pubsub = ap (λ (c : ContentFilter). c.pubsub_topic) f })
      (rw f (sets_at sub id d inv l.there)) (rw f (others-Agrees sub id d inv l.there l.live))

pub set_closing-Inv :
    (id : Text) (d : SubscriptionDetails) (sub : SubscriptionsMap)
    → Inv sub
    → lookup text_dec id sub.details ≡ some d
    → Inv (put id (set_closing d) sub)
unfolding set_closing
set_closing-Inv id d sub inv there =
    change-Inv id d (set_closing d) sub inv there (ground arith) (ground arith)

deliver_keeps :
    (gives_up : Bool) (envelope : Envelope) (d : SubscriptionDetails)
    → ((deliver gives_up envelope d).peer_id ≡ d.peer_id)
      × ((deliver gives_up envelope d).content_filter ≡ d.content_filter)
unfolding deliver
deliver_keeps gives_up envelope d = ground arith

deliver-Inv :
    (gives_up : Bool) (envelope : Envelope) (id : Text) (sub : SubscriptionsMap)
    → Inv sub
    → Inv (change_at (deliver gives_up envelope) id sub)
unfolding change_at
deliver-Inv gives_up envelope id sub inv =
    elim (lookup text_dec id sub.details)
        as (λ o.
          lookup text_dec id sub.details ≡ o
          → Inv (elim o [ none ↦ sub | some d ↦ put id (deliver gives_up envelope d) sub ])) [
            | none ↦ λ missing. inv
            | some d ↦ λ there.
                let (e, f) = deliver_keeps gives_up envelope d in
                change-Inv id d (deliver gives_up envelope d) sub inv there e f
          ]
      refl

iterate_subscription_set-Inv :
    (gives_up : Text → Bool) (envelope : Envelope) (ids : List Text) (sub : SubscriptionsMap)
    → Inv sub
    → Inv (iterate_subscription_set gives_up envelope ids sub)
unfolding iterate_subscription_set
iterate_subscription_set-Inv gives_up envelope [] sub inv = inv
iterate_subscription_set-Inv gives_up envelope (id ∷ ids) sub inv =
    iterate_subscription_set-Inv gives_up envelope ids
      (change_at (deliver (gives_up id) envelope) id sub)
      (deliver-Inv (gives_up id) envelope id sub inv)

pub notify-Inv :
    (gives_up : Text → Bool) (peer : Text) (envelope : Envelope) (sub : SubscriptionsMap)
    → Inv sub
    → is_subscribed_to peer sub ≡ true
    → Succeeds (notify gives_up peer envelope sub)
unfolding notify is_subscribed_to
notify-Inv gives_up peer envelope sub inv has_entry =
    elim (Option-cases (lookup text_dec peer sub.items)) [
      | inl missing ↦ absurd (ground arith)
      | inr (of_peer, entry) ↦ elim (Option-cases (lookup text_dec envelope.pubsub_topic of_peer)) [
        | inl none_there ↦ (sub, ground arith, inv)
        | inr (ids, found) ↦ (
          iterate_subscription_set gives_up envelope ids sub,
          ground arith,
          iterate_subscription_set-Inv gives_up envelope ids sub inv,
        )
      ]
    ]
