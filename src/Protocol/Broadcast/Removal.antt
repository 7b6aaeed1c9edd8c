-- ===== src/Protocol/Broadcast/Removal.antt =====
-- What `UnRegister` leaves.
use go_waku.Base.{
  ℕ, ◌≡◌, ◌≢◌, refl, sym, ◌∙◌, ap, [], ◌∷◌, some, arith, Option-cases, inl, inr, ℕ_discrete, if_pos,
  subst,
}
use go_waku.Base.Text.{Text, text_dec}
use go_waku.Base.Dict.{
  or_empty, Dict, lookup, erase, IsDistinct, Every, Every-lookup, lookup-insert,
}
use go_waku.Base.Sums.{erase_absent}
use go_waku.Base.Result.{ok, >>=-eq-ok, ok-injective}
use go_waku.Protocol.Broadcast.{Subscription, Topics, Broadcaster, BroadcastError}
use go_waku.Protocol.Broadcast.Channels.{
  close_channel, delete_entry, unsubscribe, unsubscribe_all, un_register, subs_at,
}
use go_waku.Protocol.Broadcast.Invariant.{IsFiled, AreFiled}
use go_waku.Protocol.Broadcast.Operations.{un_register-Inv}
use go_waku.Protocol.Broadcast.Runs.{Reaches, Reaches-Inv}

-- The maps have `subs` at `p`, and at the other topics what `t` has.
record AreLeft (p : Text) (subs : Dict ℕ Subscription) (t : Topics) (b : Broadcaster) : Type 0 where
  topics : Topics
  there : b.subscriptions.topics_to_subs ≡ some topics
  own : lookup text_dec p topics ≡ some subs
  others : (q : Text) → p ≢ q → lookup text_dec q topics ≡ lookup text_dec q t

unsubscribe_first :
    (p : Text) (id : ℕ) (sub : Subscription) (subs : Dict ℕ Subscription) (last : ℕ) (t : Topics)
    (b b' : Broadcaster)
    → IsDistinct ℕ_discrete ((id, sub) ∷ subs)
    → IsFiled p last id sub
    → AreLeft p ((id, sub) ∷ subs) t b
    → unsubscribe sub b ≡ ok b'
    → AreLeft p subs t b'
unfolding unsubscribe delete_entry lookup erase
unsubscribe_first p id sub subs last t b b' d filed l went =
    let (number, topic, le) = filed in
    let at_topic : lookup text_dec sub.content_filter.pubsub_topic l.topics
        ≡ some ((id, sub) ∷ subs) =
      ap (λ k. lookup text_dec k l.topics) topic ∙ l.own in
    let shrunk : erase ℕ_discrete sub.sub_id ((id, sub) ∷ subs) ≡ subs =
      ap (λ k. erase ℕ_discrete k ((id, sub) ∷ subs)) number
      ∙ if_pos (ℕ_discrete id id) refl _ _
      ∙ erase_absent ℕ_discrete id subs d.0 in
    let at_id : lookup ℕ_discrete sub.sub_id ((id, sub) ∷ subs) ≡ some sub =
      ap (λ k. lookup ℕ_discrete k ((id, sub) ∷ subs)) number
      ∙ if_pos (ℕ_discrete id id) refl _ _ in
    let t' = delete_entry sub ((id, sub) ∷ subs) l.topics in
    let (left, closes, e) =
      >>=-eq-ok (close_channel sub.ch b.channels)
        (λ channels. ok (record b {
          subscriptions = record b.subscriptions { topics_to_subs = some t' };
          channels = channels;
        }))
        {c = b'} (ground (arith, l.there)) in
    record {
      topics = t';
      there = ap (λ b. b.subscriptions.topics_to_subs) (sym (ok-injective e));
      own = ground (
        arith,
        shrunk,
        lookup-insert text_dec sub.content_filter.pubsub_topic p
            (erase ℕ_discrete sub.sub_id ((id, sub) ∷ subs)) l.topics,
      );
      others = λ q ne. ground (
        arith,
        l.others q ne,
        lookup-insert text_dec sub.content_filter.pubsub_topic q
            (erase ℕ_discrete sub.sub_id ((id, sub) ∷ subs)) l.topics,
      );
    }

unsubscribe_each :
    (p : Text) (subs : Dict ℕ Subscription) (last : ℕ) (t : Topics) (b b' : Broadcaster)
    → IsDistinct ℕ_discrete subs
    → Every ℕ_discrete (IsFiled p last) subs
    → AreLeft p subs t b
    → unsubscribe_all subs b ≡ ok b'
    → AreLeft p [] t b'
unfolding unsubscribe_all
unsubscribe_each p [] last t b b' d filed l went = subst (AreLeft p [] t) (ok-injective went) l
unsubscribe_each p ((id, sub) ∷ subs) last t b b' d filed l went =
    let (mid, first, rest) = >>=-eq-ok (unsubscribe sub b) (unsubscribe_all subs) went in
    unsubscribe_each p subs last t mid b' d.1 filed.1
      (unsubscribe_first p id sub subs last t b mid d filed.0 l first) rest

-- In every state that calls lead to, UnRegister succeeds, leaves no subscription of the pubsub topic, and keeps those of the others.
pub subs_at-un_register :
    (p : Text) {b : Broadcaster}
    → Reaches b
    → (b' : Broadcaster) × (un_register p b ≡ ok b')
      × (subs_at p b'.subscriptions.topics_to_subs ≡ [])
      × ((q : Text)
          → p ≢ q
          → subs_at q b'.subscriptions.topics_to_subs ≡ subs_at q b.subscriptions.topics_to_subs)
unfolding un_register subs_at unsubscribe_all
subs_at-un_register p {b = b} reached =
    let inv = Reaches-Inv reached in
    let topics = or_empty b.subscriptions.topics_to_subs in
    let last = b.subscriptions.last_id in
    let (b', went, inv') = un_register-Inv p b inv in
    elim (Option-cases (lookup text_dec p topics)) [
      | inl e ↦
          let same : b ≡ b' = ok-injective {E = BroadcastError} (ground arith) in
          (b', went, ground (arith, same), λ q ne. ground (arith, same))
      | inr (subs, e) ↦ elim (Option-cases b.subscriptions.topics_to_subs) [
        | inl missing ↦ absurd (unfold lookup in ground arith)
        | inr (t, there) ↦
            let own : lookup text_dec p t ≡ some subs = ground arith in
            let f =
              Every-lookup text_dec (λ p subs. AreFiled p last subs) p subs topics inv.sorted.each
                e in
            let left =
              unsubscribe_each p subs last t b b' f.single f.filed
                (record { topics = t; there = there; own = own; others = λ q ne. refl })
                (ground arith) in
            (
              b',
              went,
              ground (arith, left.there, left.own),
              λ q ne. ground (arith, left.there, left.others q ne, there),
            )
      ]
    ]
