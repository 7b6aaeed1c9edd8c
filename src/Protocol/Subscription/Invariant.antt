-- ===== src/Protocol/Subscription/Invariant.antt =====
-- The counts say how many of the subscriptions that the maps have want a content topic.
use go_waku.Base.{ℕ, ◌+◌, ◌≡◌, ◌≢◌, refl, Bool, true, none, some, List, arith, if◌then◌else◌}
use go_waku.Base.Text.{Text, text_dec}
use go_waku.Base.Dict.{
  Dict, lookup, insert, erase, IsDistinct, Every, insert-IsDistinct, Every-insert,
}
use go_waku.Base.Occurrences.{IsNodup}
use go_waku.Base.Sums.{total, total-erase, total-erase_absent, total-insert, total-erase_ext}
use go_waku.Protocol.Subscription.{
  SubscriptionDetails, PeerSubscription, Counts, SubscriptionsMap, new_subscription_map, subs_for,
}
use go_waku.Protocol.Subscription.Counters.{weight_of, Agrees, Agrees-ext}
use go_waku.Protocol.Subscription.Listed.{listed}

-- The content topics of a subscription.
abbrev pub topics_of : SubscriptionDetails → List Text
topics_of d = d.content_filter.content_topics

abbrev pub pubsub_of : SubscriptionDetails → Text
pubsub_of d = d.content_filter.pubsub_topic

-- The maps have the subscription where its details say.
unfoldable pub kept : Dict Text PeerSubscription → Text → SubscriptionDetails → Bool
kept items id d = listed id d.peer_id (pubsub_of d) items

unfoldable pub weight : Dict Text PeerSubscription → Text → Text → Text → SubscriptionDetails → ℕ
weight items q u id d = if kept items id d then weight_of (pubsub_of d) (topics_of d) q u else 0

abbrev pub HasSet : Text → SubscriptionDetails → Type 0
HasSet id d = IsNodup text_dec (topics_of d)

pub record Inv (sub : SubscriptionsMap) : Type 0 where
  pub distinct : IsDistinct text_dec sub.details
  pub sets : Every text_dec HasSet sub.details
  pub agrees : Agrees (λ q u. total text_dec (weight sub.items q u) sub.details) sub.no_of_subs

pub new_subscription_map-Inv : Inv new_subscription_map
unfolding new_subscription_map total subs_for lookup
new_subscription_map-Inv = record { distinct = tt; sets = tt; agrees = λ q u. refl }

-- What the other subscriptions count for.
unfoldable pub others : SubscriptionsMap → Text → Text → Text → ℕ
others sub id q u = total text_dec (weight sub.items q u) (erase text_dec id sub.details)

-- The counts are those of the others and of one subscription that the maps have.
pub others-Agrees :
    (sub : SubscriptionsMap) (id : Text) (d : SubscriptionDetails)
    → Inv sub
    → lookup text_dec id sub.details ≡ some d
    → kept sub.items id d ≡ true
    → Agrees (λ q u. others sub id q u + weight_of (pubsub_of d) (topics_of d) q u) sub.no_of_subs
unfolding others weight
others-Agrees sub id d inv there live =
    Agrees-ext (λ q u. total text_dec (weight sub.items q u) sub.details)
      (λ q u. others sub id q u + weight_of (pubsub_of d) (topics_of d) q u) sub.no_of_subs
      (λ q u.
        ground
          (arith, total-erase text_dec (weight sub.items q u) id d sub.details inv.distinct there))
      inv.agrees

-- A fresh subscription is none of the others.
pub others-Agrees_fresh :
    (sub : SubscriptionsMap) (id : Text)
    → Inv sub
    → lookup text_dec id sub.details ≡ none
    → Agrees (others sub id) sub.no_of_subs
unfolding others
others-Agrees_fresh sub id inv fresh =
    Agrees-ext (λ q u. total text_dec (weight sub.items q u) sub.details) (others sub id)
      sub.no_of_subs
      (λ q u. total-erase_absent text_dec (weight sub.items q u) id sub.details fresh) inv.agrees

others-eq :
    (sub : SubscriptionsMap) (id : Text) (items : Dict Text PeerSubscription) (q u : Text)
    → ((i q r : Text) → i ≢ id → listed i q r sub.items ≡ listed i q r items)
    → others sub id q u ≡ total text_dec (weight items q u) (erase text_dec id sub.details)
unfolding others weight kept
others-eq sub id items q u same_others =
    total-erase_ext text_dec (weight sub.items q u) (weight items q u) id sub.details
      (λ i d ne. ground (arith, same_others i d.peer_id (pubsub_of d) ne))

-- The invariant of a map that differs in one subscription.
pub changed-Inv :
    (sub : SubscriptionsMap) (id : Text) (d : SubscriptionDetails)
    (items : Dict Text PeerSubscription) (counts : Counts)
    → Inv sub
    → ((i q r : Text) → i ≢ id → listed i q r sub.items ≡ listed i q r items)
    → IsNodup text_dec (topics_of d)
    → Agrees (λ q u. others sub id q u + weight items q u id d) counts
    → Inv
        (record { items = items; no_of_subs = counts; details = insert text_dec id d sub.details })
changed-Inv sub id d items counts inv same_others set a = record {
  distinct = insert-IsDistinct text_dec id d sub.details inv.distinct;
  sets = Every-insert text_dec HasSet id d sub.details set inv.sets;
  agrees =
      Agrees-ext (λ q u. others sub id q u + weight items q u id d)
        (λ q u. total text_dec (weight items q u) (insert text_dec id d sub.details)) counts
        (λ q u. omega (
          arith,
          total-insert text_dec (weight items q u) id d sub.details inv.distinct,
          others-eq sub id items q u same_others,
        ))
        a;
}
