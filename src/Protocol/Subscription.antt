-- ===== src/Protocol/Subscription.antt =====
-- waku/v2/protocol/subscription. The subscriptions that a light node keeps for each peer and pubsub
-- topic. A pointer to `SubscriptionDetails` is the subscription's ID, which is fresh, and the details
-- are kept in a store of their own: `Add`, `Remove` and `Close` change what the maps point to.
pub mod Details
pub mod Queries
pub mod Counters
pub mod Listed
pub mod Invariant
pub mod Changes
pub mod Operations
pub mod Runs
pub mod Delivery
mod Tests
use go_waku.Base.{ℕ, Bool, false, Option, none, some, List, [], ◌∷◌}
use go_waku.Base.Int.{ℤ, pos, succ, pred, is_positive}
use go_waku.Base.Text.{Text, text_dec}
use go_waku.Base.Dict.{or_empty, Dict, lookup, insert, erase}
use go_waku.Base.Keys.{add, remove}
use go_waku.Base.Result.{Result, ok, err, panic}
use go_waku.Protocol.Message.{Envelope}
use go_waku.Protocol.ContentFilter.{ContentFilter}

-- The channel `C` is its buffer, and whether it is closed; `signals` counts the sends on `Closing`.
pub record SubscriptionDetails : Type 0 where
  pub closed : Bool
  pub channels_closed : Bool
  pub signals : ℕ
  pub peer_id : Text
  pub content_filter : ContentFilter
  -- Whether the map of its content topics is nil, and not only empty.
  pub topics_nil : Bool
  pub buffer : List Envelope

abbrev pub channel_capacity : ℕ
channel_capacity = 1024

-- A set of subscriptions by ID.
abbrev pub SubscriptionSet : Type 0
SubscriptionSet = List Text

abbrev pub PeerSubscription : Type 0
PeerSubscription = Dict Text SubscriptionSet

abbrev pub Counts : Type 0
Counts = Dict Text (Dict Text ℤ)

pub record SubscriptionsMap : Type 0 where
  pub items : Dict Text PeerSubscription
  pub no_of_subs : Counts
  pub details : Dict Text SubscriptionDetails

pub data SubscriptionError : Type 0 where
  not_found : SubscriptionError

unfoldable pub new_subscription_map : SubscriptionsMap
new_subscription_map = record { items = []; no_of_subs = []; details = [] }

abbrev pub or_zero : Option ℤ → ℤ
or_zero none = pos 0
or_zero (some n) = n

unfoldable pub subs_for : Text → Text → Counts → ℤ
subs_for p t counts = or_zero (lookup text_dec t (or_empty (lookup text_dec p counts)))

unfoldable pub is_listening : Text → Text → SubscriptionsMap → Bool
is_listening p t m = is_positive (subs_for p t m.no_of_subs)

unfoldable pub increase_sub_for : Text → Text → Counts → Counts
increase_sub_for p t counts =
    insert text_dec p
      (insert text_dec t (succ (subs_for p t counts)) (or_empty (lookup text_dec p counts))) counts

-- A write to an inner map that is nil panics.
unfoldable pub decrease_sub_for : Text → Text → Counts → Result SubscriptionError Counts
decrease_sub_for p t counts = elim (lookup text_dec p counts) [
  | none ↦ panic
  | some inner ↦
      ok (insert text_dec p (insert text_dec t (pred (subs_for p t counts)) inner) counts)
]

unfoldable pub increase_all : Text → List Text → Counts → Counts
increase_all p [] counts = counts
increase_all p (t ∷ ts) counts = increase_all p ts (increase_sub_for p t counts)

unfoldable pub decrease_all : Text → List Text → Counts → Result SubscriptionError Counts
decrease_all p [] counts = ok counts
decrease_all p (t ∷ ts) counts = elim (decrease_sub_for p t counts) [
  | ok counts' ↦ decrease_all p ts counts'
  | err e ↦ err e
  | panic ↦ panic
]

-- The IDs that stand under a peer and a pubsub topic.
unfoldable pub set_of : Text → Text → Dict Text PeerSubscription → SubscriptionSet
set_of peer p items = or_empty (lookup text_dec p (or_empty (lookup text_dec peer items)))

unfoldable pub new_details : Text → Bool → ContentFilter → SubscriptionDetails
new_details peer topics_nil cf = record {
  closed = false;
  channels_closed = false;
  signals = 0;
  peer_id = peer;
  content_filter = cf;
  topics_nil = topics_nil;
  buffer = [];
}

-- `id` is the fresh UUID of the subscription, which is the result. `maps.Clone` of a nil map is nil:
-- `topics_nil` tells that the content topics are a nil map, which has no topic.
unfoldable pub new_subscription :
    Text → Text → Bool → ContentFilter → SubscriptionsMap → SubscriptionsMap
new_subscription id peer topics_nil cf sub =
    let p = cf.pubsub_topic in
    let subscriptions = add text_dec id (set_of peer p sub.items) in
    let of_peer = or_empty (lookup text_dec peer sub.items) in
    record {
      items = insert text_dec peer (insert text_dec p subscriptions of_peer) sub.items;
      no_of_subs = increase_all p cf.content_topics sub.no_of_subs;
      details = insert text_dec id (new_details peer topics_nil cf) sub.details;
    }

-- A key whose list is empty goes.
unfoldable pub put_or_erase : {A : Type 0} → Text → List A → Dict Text (List A) → Dict Text (List A)
put_or_erase k [] m = erase text_dec k m
put_or_erase k (x ∷ l) m = insert text_dec k (x ∷ l) m

unfoldable pub delete_items :
    Text → Text → Text → PeerSubscription → Dict Text PeerSubscription → Dict Text PeerSubscription
delete_items id peer p of_peer items =
    put_or_erase peer
      (put_or_erase p (remove text_dec id (or_empty (lookup text_dec p of_peer))) of_peer) items

-- `DeleteNoLock` with the details that the pointer leads to.
unfoldable pub delete_no_lock :
    Text → SubscriptionDetails → SubscriptionsMap → Result SubscriptionError SubscriptionsMap
delete_no_lock id d sub = elim (lookup text_dec d.peer_id sub.items) [
  | none ↦ err not_found
  | some of_peer ↦
      let p = d.content_filter.pubsub_topic in
      elim (decrease_all p d.content_filter.content_topics sub.no_of_subs) [
        | ok counts ↦ ok (record sub {
          items = delete_items id d.peer_id p of_peer sub.items;
          no_of_subs = counts;
        })
        | err e ↦ err e
        | panic ↦ panic
      ]
]
