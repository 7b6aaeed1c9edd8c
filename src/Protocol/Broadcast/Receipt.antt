-- ===== src/Protocol/Broadcast/Receipt.antt =====
-- What every registered subscription receives of a message.
use go_waku.Base.{
  ℕ, ◌+◌, ◌≤◌, ◌≡◌, ◌∙◌, ap, List, [], ◌∷◌, ◌++◌, some, arith, ite, Bool-cases, inl, inr,
  Option-cases, ℕ_discrete, if◌then◌else◌, replicate,
}
use go_waku.Base.Text.{Text, text_dec}
use go_waku.Base.Dict.{or_empty, Dict, lookup, Every-lookup}
use go_waku.Base.Result.{ok}
use go_waku.Protocol.Message.{Envelope}
use go_waku.Protocol.Broadcast.{Subscription, Broadcaster}
use go_waku.Protocol.Broadcast.Channels.{Channels, Context, wants, subs_at, run}
use go_waku.Protocol.Broadcast.Balance.{open_count}
use go_waku.Protocol.Broadcast.Invariant.{Inv, AreFiled}
use go_waku.Protocol.Broadcast.Operations.{run-Inv}
use go_waku.Protocol.Broadcast.Runs.{Reaches, Reaches-Inv}
use go_waku.Protocol.Broadcast.Delivery.{
  sent_to, IsLive, copies, sent-run, IsAlone, copies-own, copies-other,
}

-- How often a subscription on the pubsub topic `p` is to receive a message: on its own topic and,
-- with the empty topic, on all.
abbrev pub times : Text → Subscription → Envelope → ℕ
times p sub m =
    if wants sub m then ite (text_dec p m.pubsub_topic) 1 0 + ite (text_dec p []) 1 0 else 0

count-le-one : (c : ℕ) (channels : Channels) → open_count c channels ≤ 1
unfolding open_count
count-le-one c channels = elim (Option-cases (lookup ℕ_discrete c channels)) [
  | inl e ↦ ground arith
  | inr (channel, e) ↦ ground arith
]

alone :
    (p : Text) (subs : Dict ℕ Subscription) (id : ℕ) (sub : Subscription) (b : Broadcaster)
    → Inv b
    → lookup text_dec p (or_empty b.subscriptions.topics_to_subs) ≡ some subs
    → lookup ℕ_discrete id subs ≡ some sub
    → IsAlone p sub b
alone p subs id sub b inv there found =
    let topics = or_empty b.subscriptions.topics_to_subs in
    let last = b.subscriptions.last_id in
    let f =
      Every-lookup text_dec (λ p subs. AreFiled p last subs) p subs topics inv.sorted.each there in
    record {
      subs = subs;
      at_topic = there;
      id = id;
      found = found;
      distinct = inv.sorted.distinct;
      single = f.single;
      once = omega (arith, inv.balanced.counts sub.ch, count-le-one sub.ch b.channels);
    }

copies-times :
    (m : Envelope) (p q : Text) (sub : Subscription) (b : Broadcaster)
    → IsAlone p sub b
    → copies sub.ch m (subs_at q b.subscriptions.topics_to_subs)
      ≡ (if wants sub m then ite (text_dec p q) 1 0 else 0)
copies-times m p q sub b a =
    elim (text_dec p q)
      as (λ d.
        copies sub.ch m (subs_at q b.subscriptions.topics_to_subs)
        ≡ (if wants sub m then ite d 1 0 else 0)) [
          | yes e ↦ rw (← e) (copies-own m p sub b a)
          | no ne ↦ elim (Bool-cases (wants sub m)) [
            | inl w ↦ rw w (copies-other m p q sub b a ne)
            | inr w ↦ rw w (copies-other m p q sub b a ne)
          ]
        ]

-- In every state that calls lead to, of which those that register come while the broadcaster runs, the
-- next turn of `run` succeeds, and under a context that is not cancelled it puts the message into the
-- channel of a subscription that wants it once if the subscription is on the message's pubsub topic,
-- once more if it is on the empty topic, which stands for all, and else not at all.
pub sent_to-run :
    (ctx : Context) (m : Envelope) (rest : List Envelope) (p : Text) (subs : Dict ℕ Subscription)
    (id : ℕ) (sub : Subscription) {b : Broadcaster}
    → Reaches b
    → IsLive ctx
    → b.input ≡ m ∷ rest
    → lookup text_dec p (or_empty b.subscriptions.topics_to_subs) ≡ some subs
    → lookup ℕ_discrete id subs ≡ some sub
    → (b' : Broadcaster) × (run ctx b ≡ ok b')
      × (sent_to sub.ch b'.channels ≡ sent_to sub.ch b.channels ++ replicate (times p sub m) m)
sent_to-run ctx m rest p subs id sub {b = b} reached live e there found =
    let inv = Reaches-Inv reached in
    let a = alone p subs id sub b inv there found in
    let (b', went, inv') = run-Inv ctx b inv in
    let topics = b.subscriptions.topics_to_subs in
    let amount : copies sub.ch m (subs_at m.pubsub_topic topics)
          + copies sub.ch m (subs_at [] topics)
        ≡ times p sub m =
      ground (arith, copies-times m p m.pubsub_topic sub b a, copies-times m p [] sub b a) in
    (
      b',
      went,
      sent-run sub.ch ctx m rest b b' live e went
          ∙ ap (λ n. sent_to sub.ch b.channels ++ replicate n m) amount,
    )
