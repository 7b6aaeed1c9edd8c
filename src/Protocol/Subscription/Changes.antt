-- ===== src/Protocol/Subscription/Changes.antt =====
-- Changes of one subscription that keep the counts right.
use go_waku.Base.{◌+◌, ◌≡◌, refl, true, some, arith}
use go_waku.Base.Text.{Text, text_dec}
use go_waku.Base.Dict.{lookup, insert, Every-lookup}
use go_waku.Base.Result.{ok}
use go_waku.Base.Occurrences.{IsNodup}
use go_waku.Protocol.Subscription.{
  SubscriptionDetails, PeerSubscription, Counts, SubscriptionsMap, delete_items, delete_no_lock,
}
use go_waku.Protocol.Subscription.Details.{put}
use go_waku.Protocol.Subscription.Counters.{weight_of, Agrees, Agrees-ext, decrease_all-Agrees}
use go_waku.Protocol.Subscription.Listed.{listed-delete_items, listed_entry}
use go_waku.Protocol.Subscription.Invariant.{
  topics_of, pubsub_of, kept, weight, HasSet, Inv, others, changed-Inv,
}

-- The details that a pointer leads to are those of a subscription that the maps have.
pub record IsLive (sub : SubscriptionsMap) (id : Text) (d : SubscriptionDetails) : Type 0 where
  pub there : lookup text_dec id sub.details ≡ some d
  pub live : kept sub.items id d ≡ true

-- A change that leaves the peer and the pubsub topic of a subscription.
pub record Keeps (d d' : SubscriptionDetails) : Type 0 where
  pub peer : d'.peer_id ≡ d.peer_id
  pub pubsub : pubsub_of d' ≡ pubsub_of d

pub sets_at :
    (sub : SubscriptionsMap) (id : Text) (d : SubscriptionDetails)
    → Inv sub
    → lookup text_dec id sub.details ≡ some d
    → IsNodup text_dec (topics_of d)
sets_at sub id d inv there = Every-lookup text_dec HasSet id d sub.details inv.sets there

-- Other details at a subscription that stays.
pub put-Inv :
    (sub : SubscriptionsMap) (id : Text) (d d' : SubscriptionDetails) (counts : Counts)
    → Inv sub
    → IsLive sub id d
    → Keeps d d'
    → IsNodup text_dec (topics_of d')
    → Agrees (λ q u. others sub id q u + weight_of (pubsub_of d) (topics_of d') q u) counts
    → Inv (put id d' (record sub { no_of_subs = counts }))
unfolding weight kept
put-Inv sub id d d' counts inv l k set a =
    changed-Inv sub id d' sub.items counts inv (λ i q r ne. refl) set
      (Agrees-ext (λ q u. others sub id q u + weight_of (pubsub_of d) (topics_of d') q u)
        (λ q u. others sub id q u + weight sub.items q u id d') counts (λ q u. ground arith) a)

gone :
    (sub : SubscriptionsMap) (id : Text) (d : SubscriptionDetails) (of_peer : PeerSubscription)
    (q u : Text)
    → lookup text_dec d.peer_id sub.items ≡ some of_peer
    → others sub id q u
      ≡ others sub id q u
        + weight (delete_items id d.peer_id (pubsub_of d) of_peer sub.items) q u id d
unfolding weight kept
gone sub id d of_peer q u entry = ground (
  arith,
  listed-delete_items id d.peer_id (pubsub_of d) of_peer sub.items id d.peer_id (pubsub_of d) entry,
)

-- A subscription that goes takes its topics from the counts.
pub delete-Inv :
    (sub : SubscriptionsMap) (id : Text) (d d' : SubscriptionDetails) (counts : Counts)
    → Inv sub
    → IsLive sub id d
    → Keeps d d'
    → IsNodup text_dec (topics_of d')
    → Agrees (λ q u. others sub id q u + weight_of (pubsub_of d) (topics_of d') q u) counts
    → (sub' : SubscriptionsMap) × (delete_no_lock id d'
          (put id d' (record sub { no_of_subs = counts }))
        ≡ ok sub')
      × Inv sub'
unfolding delete_no_lock
delete-Inv sub id d d' counts inv l k set a =
    let p = pubsub_of d' in
    let (of_peer, entry) =
      listed_entry id d.peer_id (pubsub_of d) sub.items (unfold kept in l.live) in
    let (left, went, b) = decrease_all-Agrees (others sub id) p (topics_of d') counts (
      Agrees-ext (λ q u. others sub id q u + weight_of (pubsub_of d) (topics_of d') q u)
        (λ q u. others sub id q u + weight_of p (topics_of d') q u) counts (λ q u. ground arith)
        a) in
    let items' = delete_items id d'.peer_id p of_peer sub.items in
    let entry' : lookup text_dec d'.peer_id sub.items ≡ some of_peer = rw (k.peer) entry in
    (
      record { items = items'; no_of_subs = left; details = insert text_dec id d' sub.details },
      ground (arith, entry', went),
      changed-Inv sub id d' items' left inv
          (λ i q r ne.
            ground (arith, listed-delete_items id d'.peer_id p of_peer sub.items i q r entry'))
          set
          (Agrees-ext (others sub id) (λ q u. others sub id q u + weight items' q u id d') left
            (λ q u. gone sub id d' of_peer q u entry') b),
    )
