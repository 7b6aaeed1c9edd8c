-- ===== src/Protocol/Broadcast/Invariant.antt =====
-- The invariant of the broadcaster: a channel is open exactly as long as one entry holds it.
use go_waku.Base.{
  ℕ, ◌+◌, ◌≤◌, ◌≡◌, ◌↔◌, refl, true, false, none, some, arith, ℕ_discrete, Option-cases, inl, inr,
}
use go_waku.Base.Text.{Text, text_dec}
use go_waku.Base.Dict.{or_empty, Dict, lookup, insert, erase, IsDistinct, Every, Every-lookup}
use go_waku.Base.Occurrences.{at_key}
use go_waku.Base.Sums.{total, total-insert, total-erase, total-erase_absent}
use go_waku.Protocol.Broadcast.{
  Subscription, Topics, Broadcaster, open_input, new_broadcaster, add_subscription,
}
use go_waku.Protocol.Broadcast.Channels.{delete_entry}
use go_waku.Protocol.Broadcast.Balance.{open_count, holds, held, held_all, Balanced}

-- An entry stands under its number, which was given, and its pubsub topic.
abbrev pub IsFiled : Text → ℕ → ℕ → Subscription → Type 0
IsFiled p last i sub = (sub.sub_id ≡ i) × (sub.content_filter.pubsub_topic ≡ p) × (i ≤ last)

pub record AreFiled (p : Text) (last : ℕ) (subs : Dict ℕ Subscription) : Type 0 where
  pub single : IsDistinct ℕ_discrete subs
  pub filed : Every ℕ_discrete (IsFiled p last) subs

-- What the maps of a running broadcaster satisfy.
pub record AreSorted (last : ℕ) (topics : Topics) : Type 0 where
  pub distinct : IsDistinct text_dec topics
  pub each : Every text_dec (λ p subs. AreFiled p last subs) topics

pub record Inv (b : Broadcaster) : Type 0 where
  pub balanced :
      Balanced b.made (λ c. held_all c (or_empty b.subscriptions.topics_to_subs)) b.channels
  pub sorted : AreSorted b.subscriptions.last_id (or_empty b.subscriptions.topics_to_subs)
  pub when_open : (b.running ≡ true) ↔ (b.input_channel ≡ open_input)
  pub when_stopped : b.running ≡ false → b.subscriptions.topics_to_subs ≡ none
  pub when_running : b.running ≡ true → (t : Topics) × (b.subscriptions.topics_to_subs ≡ some t)

pub new_broadcaster-Inv : (buf_len : ℕ) → Inv (new_broadcaster buf_len)
unfolding new_broadcaster held_all total open_count lookup
new_broadcaster-Inv buf_len = record {
  balanced = record { counts = λ c. refl; fresh = λ c le. refl };
  sorted = record { distinct = tt; each = tt };
  when_open = (λ e. absurd (cc), λ e. absurd (cc));
  when_stopped = λ e. refl;
  when_running = λ e. absurd (cc);
}

-- The subscriptions of a topic, none where the map has no entry.
pub AreFiled-at :
    (p : Text) (last : ℕ) (topics : Topics)
    → AreSorted last topics
    → AreFiled p last (or_empty (lookup text_dec p topics))
AreFiled-at p last topics s = elim (Option-cases (lookup text_dec p topics)) [
  | inl e ↦ rw e (record { single = tt; filed = tt })
  | inr (subs, e) ↦
      rw e (Every-lookup text_dec (λ p subs. AreFiled p last subs) p subs topics s.each e)
]

-- Other subscriptions at one topic.
pub held_all-insert :
    (c : ℕ) (p : Text) (subs : Dict ℕ Subscription) (topics : Topics)
    → IsDistinct text_dec topics
    → held_all c (insert text_dec p subs topics) + held c p (or_empty (lookup text_dec p topics))
      ≡ held_all c topics + held c p subs
unfolding held_all
held_all-insert c p subs topics d = elim (Option-cases (lookup text_dec p topics)) [
  | inl e ↦ rw e (
      unfold held total in
      omega (
        arith,
        total-insert text_dec (held c) p subs topics d,
        total-erase_absent text_dec (held c) p topics e,
      ))
  | inr (old, e) ↦ rw e (
      omega (
        arith,
        total-insert text_dec (held c) p subs topics d,
        total-erase text_dec (held c) p old topics d e,
      ))
]

pub held_all-add_subscription :
    (c : ℕ) (sub : Subscription) (topics : Topics) (last : ℕ)
    → AreSorted last topics
    → lookup ℕ_discrete sub.sub_id
        (or_empty (lookup text_dec sub.content_filter.pubsub_topic topics))
      ≡ none
    → held_all c (add_subscription sub topics) ≡ at_key ℕ_discrete sub.ch c 1 + held_all c topics
unfolding add_subscription
held_all-add_subscription c sub topics last s new =
    let p = sub.content_filter.pubsub_topic in
    let subs = or_empty (lookup text_dec p topics) in
    let f = AreFiled-at p last topics s in
    let grown : held c p (insert ℕ_discrete sub.sub_id sub subs)
        ≡ held c p subs + at_key ℕ_discrete sub.ch c 1 =
      unfold held holds in
      omega (
        arith,
        total-insert ℕ_discrete (holds c) sub.sub_id sub subs f.single,
        total-erase_absent ℕ_discrete (holds c) sub.sub_id subs new,
      ) in
    omega
      (arith, grown, held_all-insert c p (insert ℕ_discrete sub.sub_id sub subs) topics s.distinct)

pub held_all-delete_entry :
    (c : ℕ) (sub s : Subscription) (subs : Dict ℕ Subscription) (topics : Topics) (last : ℕ)
    → AreSorted last topics
    → lookup text_dec sub.content_filter.pubsub_topic topics ≡ some subs
    → lookup ℕ_discrete sub.sub_id subs ≡ some s
    → at_key ℕ_discrete s.ch c 1 + held_all c (delete_entry sub subs topics) ≡ held_all c topics
unfolding delete_entry
held_all-delete_entry c sub s subs topics last sorted at_topic at_id =
    let p = sub.content_filter.pubsub_topic in
    let f =
      Every-lookup text_dec (λ p subs. AreFiled p last subs) p subs topics sorted.each at_topic in
    let found : or_empty (lookup text_dec p topics) ≡ subs = ground arith in
    let shrunk : held c p subs
        ≡ held c p (erase ℕ_discrete sub.sub_id subs) + at_key ℕ_discrete s.ch c 1 =
      unfold held holds in
      omega (arith, total-erase ℕ_discrete (holds c) sub.sub_id s subs f.single at_id) in
    let all = held_all-insert c p (erase ℕ_discrete sub.sub_id subs) topics sorted.distinct in
    ground (arith, shrunk, all, found)
