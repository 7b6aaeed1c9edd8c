-- ===== src/Protocol/Broadcast/Delivery.antt =====
-- What a broadcast puts into the channel of a subscription.
use go_waku.Base.{
  ℕ, ◌+◌, ◌≤◌, ◌≡◌, ◌≢◌, sym, ap, ◌∙◌, Bool, false, List, [], ◌∷◌, ◌++◌, none, some, arith,
  Bool-cases, Option-cases, inl, inr, ℕ_discrete, if◌then◌else◌, append_assoc, append-nil,
  replicate, replicate-add,
}
use go_waku.Base.Text.{Text, text_dec}
use go_waku.Base.Dict.{
  or_empty, Dict, lookup, insert, erase, IsDistinct, lookup-insert, lookup-erase,
}
use go_waku.Base.Result.{ok, ok-injective, >>=-eq-ok}
use go_waku.Base.Occurrences.{at_key}
use go_waku.Base.Sums.{total, total-erase}
use go_waku.Protocol.Message.{Envelope}
use go_waku.Protocol.Broadcast.{Channel, Subscription, Broadcaster, BroadcastError}
use go_waku.Protocol.Broadcast.Channels.{
  Channels, Context, on_open, send, wants, submit_to, broadcast_loop, subs_at, broadcast, run,
}
use go_waku.Protocol.Broadcast.Balance.{holds, held, held_all}
use go_waku.Protocol.Broadcast.Sends.{held-le-held_all}

-- What went into a channel.
unfoldable pub sent_to : ℕ → Channels → List Envelope
sent_to ch channels = elim (lookup ℕ_discrete ch channels) [ none ↦ [] | some c ↦ c.sent ]

-- The context is not cancelled.
abbrev pub IsLive : Context → Type 0
IsLive ctx = (c : ℕ) → ((ctx c).0 ≡ false) × ((ctx c).1 ≡ false)

-- The entries with a channel that want the message.
unfoldable pub wanting : ℕ → Envelope → ℕ → Subscription → ℕ
wanting ch m id sub = if wants sub m then holds ch id sub else 0

unfoldable pub copies : ℕ → Envelope → Dict ℕ Subscription → ℕ
copies ch m subs = total ℕ_discrete (wanting ch m) subs

sent-send :
    (ch c : ℕ) (m : Envelope) (channels channels' : Channels)
    → send m c channels ≡ ok channels'
    → sent_to ch channels' ≡ sent_to ch channels ++ replicate (at_key ℕ_discrete c ch 1) m
unfolding send on_open sent_to at_key
sent-send ch c m channels channels' went = elim (Option-cases (lookup ℕ_discrete c channels)) [
  | inl e ↦ absurd (ground arith)
  | inr (channel, e) ↦ elim (Bool-cases channel.closed) [
    | inl closed ↦ absurd (ground arith)
    | inr opened ↦
        let more : Channel = record channel { sent = channel.sent ++ m ∷ [] } in
        let same : insert ℕ_discrete c more channels ≡ channels' = ground arith in
        ground (
          arith,
          same,
          lookup-insert ℕ_discrete c ch more channels,
          append-nil (sent_to ch channels),
        )
  ]
]

sent-submit_to :
    (ch : ℕ) (m : Envelope) (id : ℕ) (sub : Subscription) (channels channels' : Channels)
    → submit_to false m sub channels ≡ ok channels'
    → sent_to ch channels' ≡ sent_to ch channels ++ replicate (wanting ch m id sub) m
unfolding submit_to wanting holds
sent-submit_to ch m id sub channels channels' went = elim (Bool-cases (wants sub m)) [
  | inl e ↦ ground (arith, sent-send ch sub.ch m channels channels')
  | inr e ↦
      let same : channels ≡ channels' = ok-injective {E = BroadcastError} (ground arith) in
      ground (arith, same, append-nil (sent_to ch channels))
]

sent-broadcast_loop :
    (ch : ℕ) (ctx : Context) (m : Envelope) (subs : Dict ℕ Subscription) (channels : Channels)
    (r : Bool × Channels)
    → IsLive ctx
    → broadcast_loop ctx m subs channels ≡ ok r
    → (r.0 ≡ false) × (sent_to ch r.1 ≡ sent_to ch channels ++ replicate (copies ch m subs) m)
unfolding broadcast_loop copies total
sent-broadcast_loop ch ctx m [] channels r live went =
    let same : (false, channels) ≡ r = ok-injective went in
    (ap (λ r. r.0) (sym same), ground (arith, same, append-nil (sent_to ch channels)))
sent-broadcast_loop ch ctx m ((id, sub) ∷ subs) channels r live went =
    let (mid, first, rest) =
      >>=-eq-ok (submit_to false m sub channels) (λ channels. broadcast_loop ctx m subs channels)
        (ground (arith, live sub.ch)) in
    let (on, sent) = sent-broadcast_loop ch ctx m subs mid r live rest in
    let n = wanting ch m id sub in
    let k = total ℕ_discrete (wanting ch m) subs in
    (
      on,
      sent
          ∙ ap (λ l. l ++ replicate k m) (sent-submit_to ch m id sub channels mid first)
          ∙ append_assoc (sent_to ch channels) (replicate n m) (replicate k m)
          ∙ ap (λ l. sent_to ch channels ++ l) (sym (replicate-add n k m)),
    )

-- Both loops of a broadcast.
pub sent-run :
    (ch : ℕ) (ctx : Context) (m : Envelope) (rest : List Envelope) (b b' : Broadcaster)
    → IsLive ctx
    → b.input ≡ m ∷ rest
    → run ctx b ≡ ok b'
    → sent_to ch b'.channels
      ≡ sent_to ch b.channels
        ++ replicate
            (copies ch m (subs_at m.pubsub_topic b.subscriptions.topics_to_subs)
              + copies ch m (subs_at [] b.subscriptions.topics_to_subs))
            m
unfolding run broadcast
sent-run ch ctx m rest b b' live e went =
    let topics = b.subscriptions.topics_to_subs in
    let (r', all, done) =
      >>=-eq-ok (broadcast ctx m topics b.channels)
        (λ r. ok (record b { input = rest; channels = r.1 })) {c = b'} (ground arith) in
    let (r, first, second) =
      >>=-eq-ok (broadcast_loop ctx m (subs_at m.pubsub_topic topics) b.channels)
        (λ r. if r.0 then ok r else broadcast_loop ctx m (subs_at [] topics) r.1) all in
    let (on, sent) =
      sent-broadcast_loop ch ctx m (subs_at m.pubsub_topic topics) b.channels r live first in
    let (on', sent') =
      sent-broadcast_loop ch ctx m (subs_at [] topics) r.1 r' live (ground arith) in
    let n = copies ch m (subs_at m.pubsub_topic topics) in
    let k = copies ch m (subs_at [] topics) in
    let last : r'.1 ≡ b'.channels = ap (λ b. b.channels) (ok-injective done) in
    ap (sent_to ch) (sym last)
    ∙ sent'
    ∙ ap (λ l. l ++ replicate k m) sent
    ∙ append_assoc (sent_to ch b.channels) (replicate n m) (replicate k m)
    ∙ ap (λ l. sent_to ch b.channels ++ l) (sym (replicate-add n k m))

copies-le :
    (ch : ℕ) (m : Envelope) (p : Text) (subs : Dict ℕ Subscription)
    → copies ch m subs ≤ held ch p subs
unfolding copies held total wanting
copies-le ch m p [] = omega arith
copies-le ch m p ((id, sub) ∷ subs) = ground (arith, copies-le ch m p subs)

-- Where a subscription stands, and how often the maps have its channel.
pub record IsAlone (p : Text) (sub : Subscription) (b : Broadcaster) : Type 0 where
  pub subs : Dict ℕ Subscription
  pub at_topic : lookup text_dec p (or_empty b.subscriptions.topics_to_subs) ≡ some subs
  pub id : ℕ
  pub found : lookup ℕ_discrete id subs ≡ some sub
  pub distinct : IsDistinct text_dec (or_empty b.subscriptions.topics_to_subs)
  pub single : IsDistinct ℕ_discrete subs
  pub once : held_all sub.ch (or_empty b.subscriptions.topics_to_subs) ≤ 1

rest_empty :
    (p : Text) (sub : Subscription) (b : Broadcaster) (a : IsAlone p sub b)
    → (held sub.ch p (erase ℕ_discrete a.id a.subs) ≡ 0)
      × (held_all sub.ch (erase text_dec p (or_empty b.subscriptions.topics_to_subs)) ≡ 0)
unfolding held_all held holds at_key
rest_empty p sub b a =
    let topics = or_empty b.subscriptions.topics_to_subs in
    let self : holds sub.ch a.id sub ≡ 1 = ground arith in
    let outer = total-erase text_dec (held sub.ch) p a.subs topics a.distinct a.at_topic in
    let inner = total-erase ℕ_discrete (holds sub.ch) a.id sub a.subs a.single a.found in
    (omega (arith, self, outer, inner, a.once), omega (arith, self, outer, inner, a.once))

pub copies-own :
    (m : Envelope) (p : Text) (sub : Subscription) (b : Broadcaster)
    → IsAlone p sub b
    → copies sub.ch m (subs_at p b.subscriptions.topics_to_subs) ≡ (if wants sub m then 1 else 0)
unfolding subs_at copies wanting holds at_key
copies-own m p sub b a =
    let topics = or_empty b.subscriptions.topics_to_subs in
    let here : or_empty (lookup text_dec p topics) ≡ a.subs = ap or_empty a.at_topic in
    let none_else : copies sub.ch m (erase ℕ_discrete a.id a.subs) ≡ 0 =
      omega
        (arith, copies-le sub.ch m p (erase ℕ_discrete a.id a.subs), (rest_empty p sub b a).0) in
    rw (here) (
      ground (
        arith,
        none_else,
        total-erase ℕ_discrete (wanting sub.ch m) a.id sub a.subs a.single a.found,
      ))

pub copies-other :
    (m : Envelope) (p q : Text) (sub : Subscription) (b : Broadcaster)
    → IsAlone p sub b
    → p ≢ q
    → copies sub.ch m (subs_at q b.subscriptions.topics_to_subs) ≡ 0
unfolding subs_at
copies-other m p q sub b a ne =
    let topics = or_empty b.subscriptions.topics_to_subs in
    let same : lookup text_dec q (erase text_dec p topics) ≡ lookup text_dec q topics =
      ground (arith, lookup-erase text_dec p q topics) in
    let le : held sub.ch q (or_empty (lookup text_dec q topics))
        ≤ held_all sub.ch (erase text_dec p topics) =
      rw (← same) (held-le-held_all sub.ch q (erase text_dec p topics)) in
    omega (
      arith,
      le,
      (rest_empty p sub b a).1,
      copies-le sub.ch m q (or_empty (lookup text_dec q topics)),
    )
