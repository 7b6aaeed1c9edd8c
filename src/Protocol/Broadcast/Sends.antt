-- ===== src/Protocol/Broadcast/Sends.antt =====
-- The loops of a broadcast, over entries whose channels are open.
use go_waku.Base.{
  ℕ, ◌≤◌, ◌<◌, ◌≡◌, refl, Bool, true, false, [], ◌∷◌, Option, arith, Bool-cases, inl, inr,
}
use go_waku.Base.Text.{Text, text_dec}
use go_waku.Base.Dict.{or_empty, Dict, lookup}
use go_waku.Base.Result.{ok}
use go_waku.Base.Occurrences.{at_key}
use go_waku.Base.Sums.{total}
use go_waku.Protocol.Message.{Envelope}
use go_waku.Protocol.Broadcast.{Subscription, Topics}
use go_waku.Protocol.Broadcast.Channels.{
  Channels, Context, wants, submit_to, broadcast_loop, subs_at, broadcast,
}
use go_waku.Protocol.Broadcast.Balance.{holds, held, held_all, Balanced, send-Balanced}

submit_to-Balanced :
    (n : ℕ) (f : ℕ → ℕ) (cancelled : Bool) (m : Envelope) (sub : Subscription) (channels : Channels)
    → 0 < f sub.ch
    → Balanced n f channels
    → (after : Channels) × (submit_to cancelled m sub channels ≡ ok after) × Balanced n f after
unfolding submit_to
submit_to-Balanced n f cancelled m sub channels pos b = elim (Bool-cases (wants sub m)) [
  | inr e ↦ (channels, ground arith, b)
  | inl e ↦ elim (Bool-cases cancelled) [
    | inl e' ↦ (channels, ground arith, b)
    | inr e' ↦
        let (after, went, b') = send-Balanced n f m sub.ch channels pos b in
        (after, ground arith, b')
  ]
]

pub broadcast_loop-Balanced :
    (n : ℕ) (f : ℕ → ℕ) (ctx : Context) (m : Envelope) (p : Text) (subs : Dict ℕ Subscription)
    (channels : Channels)
    → ((c : ℕ) → held c p subs ≤ f c)
    → Balanced n f channels
    → (r : Bool × Channels) × (broadcast_loop ctx m subs channels ≡ ok r) × Balanced n f r.1
unfolding broadcast_loop held total holds at_key
broadcast_loop-Balanced n f ctx m p [] channels le b = ((false, channels), refl, b)
broadcast_loop-Balanced n f ctx m p ((id, sub) ∷ subs) channels le b =
    elim (Bool-cases (ctx sub.ch).0) [
      | inl e ↦ ((true, channels), ground arith, b)
      | inr e ↦
          let (mid, went, b') =
            submit_to-Balanced n f (ctx sub.ch).1 m sub channels (ground (arith, le sub.ch)) b in
          let (r, went', b'') =
            broadcast_loop-Balanced n f ctx m p subs mid (λ c. unfold held in omega (arith, le c))
              b' in
          (r, ground arith, b'')
    ]

pub held-le-held_all :
    (c : ℕ) (p : Text) (topics : Topics)
    → held c p (or_empty (lookup text_dec p topics)) ≤ held_all c topics
unfolding held_all total lookup held
held-le-held_all c p [] = omega arith
held-le-held_all c p ((q, subs) ∷ topics) = ground (arith, held-le-held_all c p topics)

-- A broadcast sends to open channels only.
pub broadcast-Balanced :
    (n : ℕ) (ctx : Context) (m : Envelope) (topics : Option Topics) (channels : Channels)
    → Balanced n (λ c. held_all c (or_empty topics)) channels
    → (r : Bool × Channels) × (broadcast ctx m topics channels ≡ ok r)
      × Balanced n (λ c. held_all c (or_empty topics)) r.1
unfolding broadcast subs_at
broadcast-Balanced n ctx m topics channels b =
    let f : ℕ → ℕ = λ c. held_all c (or_empty topics) in
    let (r, went, b') =
      broadcast_loop-Balanced n f ctx m m.pubsub_topic (subs_at m.pubsub_topic topics) channels
        (λ c. held-le-held_all c m.pubsub_topic (or_empty topics)) b in
    elim (Bool-cases r.0) [
      | inl e ↦ (r, ground arith, b')
      | inr e ↦
          let (r', went', b'') =
            broadcast_loop-Balanced n f ctx m [] (subs_at [] topics) r.1
              (λ c. held-le-held_all c [] (or_empty topics)) b' in
          (r', ground arith, b'')
    ]
