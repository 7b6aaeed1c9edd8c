-- ===== src/Protocol/Subscription/Runs.antt =====
-- The calls of the client on the subscriptions, and the maps that they lead to.
use go_waku.Base.{
  ◌<◌, ◌≡◌, ◌↔◌, refl, sym, subst, ◌∙◌, Bool, true, none, some, List, arith, false, ◌&&◌, ltb,
  length,
}
use go_waku.Base.Int.{pos}
use go_waku.Base.Text.{Text, text_dec}
use go_waku.Base.Dict.{lookup}
use go_waku.Base.Keys.{contains}
use go_waku.Base.Result.{Result, ok, panic, ok-injective}
use go_waku.Base.Occurrences.{IsNodup, at_key, occurrences-pos, pos-occurrences}
use go_waku.Base.Sums.{total, total-pos, total-erase}
use go_waku.Protocol.Message.{Envelope}
use go_waku.Protocol.ContentFilter.{ContentFilter}
use go_waku.Protocol.Subscription.{
  SubscriptionDetails, SubscriptionsMap, SubscriptionError, new_subscription_map, subs_for,
  is_listening, new_subscription,
}
use go_waku.Protocol.Subscription.Details.{
  put, add_content_topics, remove_content_topics, close, set_closing,
}
use go_waku.Protocol.Subscription.Queries.{is_subscribed_to, notify}
use go_waku.Protocol.Subscription.Counters.{weight_of}
use go_waku.Protocol.Subscription.Invariant.{
  topics_of, pubsub_of, kept, weight, Inv, new_subscription_map-Inv,
}
use go_waku.Protocol.Subscription.Changes.{IsLive}
use go_waku.Protocol.Subscription.Operations.{
  new_subscription-Inv, add_content_topics-Inv, remove_content_topics-Inv, close-Inv,
  set_closing-Inv, notify-Inv,
}

-- `subscribes` has the fresh ID as an argument; `adds` to `sets_closing` take a pointer, and `notifies`
-- tells which sends the select gives up.
pub data Call : Type 0 where
  subscribes : Text → Text → Bool → ContentFilter → Call
  adds : Text → List Text → Call
  removes : Text → List Text → Call
  closes : Text → Call
  sets_closing : Text → Call
  notifies : (Text → Bool) → Text → Envelope → Call

-- A method of the subscription that the pointer leads to.
unfoldable pub at_pointer :
    (SubscriptionDetails → Result SubscriptionError SubscriptionsMap)
    → Text
    → SubscriptionsMap
    → Result SubscriptionError SubscriptionsMap
at_pointer method id sub = elim (lookup text_dec id sub.details) [
  | none ↦ panic
  | some d ↦ method d
]

unfoldable pub call : Call → SubscriptionsMap → Result SubscriptionError SubscriptionsMap
call (subscribes id peer topics_nil cf) sub = ok (new_subscription id peer topics_nil cf sub)
call (adds id cts) sub = at_pointer (λ d. add_content_topics id cts d sub) id sub
call (removes id cts) sub = at_pointer (λ d. remove_content_topics id cts d sub) id sub
call (closes id) sub = at_pointer (λ d. close id d sub) id sub
call (sets_closing id) sub = at_pointer (λ d. ok (put id (set_closing d) sub)) id sub
call (notifies gives_up peer envelope) sub = notify gives_up peer envelope sub

-- The maps have the subscription that the pointer leads to.
abbrev pub Live : SubscriptionsMap → Text → Type 0
Live sub id = (d : SubscriptionDetails) × IsLive sub id d

-- The calls under which the counts stay right. Add, Remove and Close are of subscriptions that the maps
-- have, and Add does not write to a nil map; an ID is fresh, a content filter has each topic once, and
-- a message is notified for a peer that has subscriptions. `Clear`, which keeps the counts, and Close
-- or Remove of a subscription that is gone, which lower them again, are left out.
abbrev pub Allowed : Call → SubscriptionsMap → Type 0
Allowed (subscribes id peer topics_nil cf) sub =
    (lookup text_dec id sub.details ≡ none) × IsNodup text_dec cf.content_topics
Allowed (adds id cts) sub =
    (d : SubscriptionDetails) × IsLive sub id d × ((d.topics_nil && ltb 0 (length cts)) ≡ false)
Allowed (removes id cts) sub = Live sub id
Allowed (closes id) sub = Live sub id
Allowed (sets_closing id) sub =
    (d : SubscriptionDetails) × (lookup text_dec id sub.details ≡ some d)
Allowed (notifies gives_up peer envelope) sub = is_subscribed_to peer sub ≡ true

pub data Reaches : SubscriptionsMap → Type 0 where
  at_first : Reaches new_subscription_map
  after :
      {sub sub' : SubscriptionsMap} (c : Call)
      → Reaches sub
      → Allowed c sub
      → call c sub ≡ ok sub'
      → Reaches sub'

-- Every allowed call (on subscriptions that the maps have, with no Add to a nil map, and a `Notify` for a
-- peer that has subscriptions) succeeds, without a panic, and keeps the invariant: the counts say for
-- each pubsub topic and content topic how many of the subscriptions that the maps have want it.
pub call-Inv :
    (c : Call) (sub : SubscriptionsMap)
    → Inv sub
    → Allowed c sub
    → (sub' : SubscriptionsMap) × (call c sub ≡ ok sub') × Inv sub'
unfolding call at_pointer
call-Inv (subscribes id peer topics_nil cf) sub inv a = (
  new_subscription id peer topics_nil cf sub,
  refl,
  new_subscription-Inv id peer topics_nil cf sub inv a.0 a.1,
)
call-Inv (adds id cts) sub inv (d, l, writes) =
    let (sub', went, inv') = add_content_topics-Inv id cts d sub inv l writes in
    (sub', ground (arith, went, l.there), inv')
call-Inv (removes id cts) sub inv (d, l) =
    let (sub', went, inv') = remove_content_topics-Inv id cts d sub inv l in
    (sub', ground (arith, went), inv')
call-Inv (closes id) sub inv (d, l) =
    let (sub', went, inv') = close-Inv id d sub inv l in (sub', ground (arith, went), inv')
call-Inv (sets_closing id) sub inv (d, there) =
    (put id (set_closing d) sub, ground arith, set_closing-Inv id d sub inv there)
call-Inv (notifies gives_up peer envelope) sub inv a = notify-Inv gives_up peer envelope sub inv a

Reaches-Inv : {sub : SubscriptionsMap} → Reaches sub → Inv sub
Reaches-Inv at_first = new_subscription_map-Inv
Reaches-Inv (after {sub = s} c before a e) =
    let (sub', went, inv) = call-Inv c s (Reaches-Inv before) a in
    subst Inv (ok-injective (sym went ∙ e)) inv

-- The maps have a subscription to the content topic on the pubsub topic.
abbrev pub Wanted : Text → Text → SubscriptionsMap → Type 0
Wanted p t sub =
    (id : Text) × (d : SubscriptionDetails) × IsLive sub id d
    × (pubsub_of d ≡ p)
    × (contains text_dec t (topics_of d) ≡ true)

weight-pos :
    (sub : SubscriptionsMap) (p t id : Text) (d : SubscriptionDetails)
    → 0 < weight sub.items p t id d
    → (kept sub.items id d ≡ true) × (pubsub_of d ≡ p) × (contains text_dec t (topics_of d) ≡ true)
unfolding weight weight_of at_key
weight-pos sub p t id d h =
    (ground arith, ground arith, ground (arith, pos-occurrences text_dec t (topics_of d)))

pos-weight :
    (sub : SubscriptionsMap) (p t id : Text) (d : SubscriptionDetails)
    → kept sub.items id d ≡ true
    → pubsub_of d ≡ p
    → contains text_dec t (topics_of d) ≡ true
    → 0 < weight sub.items p t id d
unfolding weight weight_of at_key
pos-weight sub p t id d live e h = ground (arith, occurrences-pos text_dec t (topics_of d) h)

-- After any sequence of allowed calls (on subscriptions that the maps have, and without `Clear`) the map
-- listens to a content topic on a pubsub topic exactly when it has a subscription to it.
pub is_listening_iff :
    (p t : Text) {sub : SubscriptionsMap}
    → Reaches sub
    → (is_listening p t sub ≡ true) ↔ Wanted p t sub
unfolding is_listening
is_listening_iff p t {sub} r =
    let inv = Reaches-Inv r in
    let sum = total text_dec (weight sub.items p t) sub.details in
    let counted : subs_for p t sub.no_of_subs ≡ pos sum = inv.agrees p t in
    (
      λ listens.
          let (id, d, there, heavy) =
            total-pos text_dec (weight sub.items p t) sub.details inv.distinct (ground arith) in
          let (live, e, h) = weight-pos sub p t id d heavy in
          (id, d, record { there = there; live = live }, e, h),
      λ w.
          let (id, d, l, e, h) = w in
          let heavy = pos-weight sub p t id d l.live e h in
          ground (
            arith,
            total-erase text_dec (weight sub.items p t) id d sub.details inv.distinct l.there,
          ),
    )
