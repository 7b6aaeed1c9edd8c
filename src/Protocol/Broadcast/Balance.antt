-- ===== src/Protocol/Broadcast/Balance.antt =====
-- The open channels, and the entries that hold them.
use go_waku.Base.{
  ℕ, ◌+◌, ◌≤◌, ◌<◌, ◌≡◌, refl, true, false, [], ◌∷◌, ◌++◌, none, some, arith, if◌then◌else◌,
  ℕ_discrete, Option-cases, inl, inr,
}
use go_waku.Base.Text.{Text, text_dec}
use go_waku.Base.Dict.{Dict, lookup, insert, lookup-insert}
use go_waku.Base.Result.{ok}
use go_waku.Base.Occurrences.{at_key}
use go_waku.Base.Sums.{total}
use go_waku.Protocol.Message.{Envelope}
use go_waku.Protocol.Broadcast.{Channel, Subscription, Topics}
use go_waku.Protocol.Broadcast.Channels.{
  Channels, on_open, close_channel, send, close_subs, close_topics,
}

-- One for an open channel.
unfoldable pub open_count : ℕ → Channels → ℕ
open_count c channels = elim (lookup ℕ_discrete c channels) [
  | none ↦ 0
  | some channel ↦ if channel.closed then 0 else 1
]

-- How many entries hold a channel.
unfoldable pub holds : ℕ → ℕ → Subscription → ℕ
holds c id sub = at_key ℕ_discrete sub.ch c 1

unfoldable pub held : ℕ → Text → Dict ℕ Subscription → ℕ
held c pubsub_topic subs = total ℕ_discrete (holds c) subs

unfoldable pub held_all : ℕ → Topics → ℕ
held_all c topics = total text_dec (held c) topics

-- Channels from the number `n` on were not made, and `f` counts the open ones.
pub record Balanced (n : ℕ) (f : ℕ → ℕ) (channels : Channels) : Type 0 where
  pub counts : (c : ℕ) → f c ≡ open_count c channels
  pub fresh : (c : ℕ) → n ≤ c → lookup ℕ_discrete c channels ≡ none

open_channel :
    (c : ℕ) (channels : Channels)
    → 0 < open_count c channels
    → (channel : Channel) × (lookup ℕ_discrete c channels ≡ some channel) × (channel.closed ≡ false)
unfolding open_count
open_channel c channels h = elim (Option-cases (lookup ℕ_discrete c channels)) [
  | inl e ↦ absurd (ground arith)
  | inr (channel, e) ↦ (channel, e, ground arith)
]

pub close_channel-Balanced :
    (n : ℕ) (f : ℕ → ℕ) (ch : ℕ) (channels : Channels)
    → Balanced n (λ c. at_key ℕ_discrete ch c 1 + f c) channels
    → (left : Channels) × (close_channel ch channels ≡ ok left) × Balanced n f left
unfolding close_channel on_open open_count at_key
close_channel-Balanced n f ch channels b =
    let (channel, there, opened) =
      open_channel ch channels (unfold open_count in ground (arith, b.counts ch)) in
    let closed : Channel = record channel { closed = true } in
    (
      insert ℕ_discrete ch closed channels,
      ground arith,
      record {
        counts = λ c. ground (arith, b.counts c, lookup-insert ℕ_discrete ch c closed channels);
        fresh = λ c le. ground (arith, b.fresh c le, lookup-insert ℕ_discrete ch c closed channels);
      },
    )

pub send-Balanced :
    (n : ℕ) (f : ℕ → ℕ) (m : Envelope) (ch : ℕ) (channels : Channels)
    → 0 < f ch
    → Balanced n f channels
    → (after : Channels) × (send m ch channels ≡ ok after) × Balanced n f after
unfolding send on_open open_count
send-Balanced n f m ch channels pos b =
    let (channel, there, opened) =
      open_channel ch channels (unfold open_count in ground (arith, b.counts ch)) in
    let more : Channel = record channel { sent = channel.sent ++ m ∷ [] } in
    (
      insert ℕ_discrete ch more channels,
      ground arith,
      record {
        counts = λ c. ground (arith, b.counts c, lookup-insert ℕ_discrete ch c more channels);
        fresh = λ c le. ground (arith, b.fresh c le, lookup-insert ℕ_discrete ch c more channels);
      },
    )

pub close_subs-Balanced :
    (n : ℕ) (f : ℕ → ℕ) (p : Text) (subs : Dict ℕ Subscription) (channels : Channels)
    → Balanced n (λ c. held c p subs + f c) channels
    → (left : Channels) × (close_subs subs channels ≡ ok left) × Balanced n f left
unfolding close_subs held total holds
close_subs-Balanced n f p [] channels b =
    (channels, refl, record { counts = λ c. omega (arith, b.counts c); fresh = b.fresh })
close_subs-Balanced n f p ((id, sub) ∷ subs) channels b =
    let (mid, went, b') =
      close_channel-Balanced n (λ c. held c p subs + f c) sub.ch channels
        (record { counts = λ c. ground (arith, b.counts c); fresh = b.fresh }) in
    let (left, went', b'') = close_subs-Balanced n f p subs mid b' in (left, ground arith, b'')

pub close_topics-Balanced :
    (n : ℕ) (f : ℕ → ℕ) (topics : Topics) (channels : Channels)
    → Balanced n (λ c. held_all c topics + f c) channels
    → (left : Channels) × (close_topics topics channels ≡ ok left) × Balanced n f left
unfolding close_topics held_all total
close_topics-Balanced n f [] channels b =
    (channels, refl, record { counts = λ c. omega (arith, b.counts c); fresh = b.fresh })
close_topics-Balanced n f ((p, subs) ∷ topics) channels b =
    let (mid, went, b') =
      close_subs-Balanced n (λ c. held_all c topics + f c) p subs channels
        (record { counts = λ c. ground (arith, b.counts c); fresh = b.fresh }) in
    let (left, went', b'') = close_topics-Balanced n f topics mid b' in (left, ground arith, b'')
