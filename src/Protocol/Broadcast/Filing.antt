-- ===== src/Protocol/Broadcast/Filing.antt =====
-- The numbers of the subscriptions when one comes or goes.
use go_waku.Base.{ℕ, suc, ◌≡◌, refl, [], ◌∷◌, none, some, arith, ℕ_discrete, Option-cases, inl, inr}
use go_waku.Base.Text.{Text, text_dec}
use go_waku.Base.Dict.{
  or_empty, Dict, lookup, insert, erase, Every, insert-IsDistinct, erase-IsDistinct, Every-insert,
  Every-erase, Every-lookup,
}
use go_waku.Protocol.Broadcast.{Subscription, Topics, add_subscription}
use go_waku.Protocol.Broadcast.Channels.{delete_entry}
use go_waku.Protocol.Broadcast.Invariant.{IsFiled, AreFiled, AreSorted, AreFiled-at}

more_numbers :
    (p : Text) (last : ℕ) (subs : Dict ℕ Subscription)
    → Every ℕ_discrete (IsFiled p last) subs
    → Every ℕ_discrete (IsFiled p (suc last)) subs
more_numbers p last [] h = tt
more_numbers p last ((i, s) ∷ subs) h =
    let (number, topic, le) = h.0 in ((number, topic, omega arith), more_numbers p last subs h.1)

AreFiled-suc :
    (p : Text) (last : ℕ) (subs : Dict ℕ Subscription)
    → AreFiled p last subs
    → AreFiled p (suc last) subs
AreFiled-suc p last subs f = record { single = f.single; filed = more_numbers p last subs f.filed }

each_more :
    (last : ℕ) (topics : Topics)
    → Every text_dec (λ p subs. AreFiled p last subs) topics
    → Every text_dec (λ p subs. AreFiled p (suc last) subs) topics
each_more last [] h = tt
each_more last ((p, subs) ∷ topics) h = (AreFiled-suc p last subs h.0, each_more last topics h.1)

-- The next number is new in every map.
pub next_absent :
    (p : Text) (last : ℕ) (topics : Topics)
    → AreSorted last topics
    → lookup ℕ_discrete (suc last) (or_empty (lookup text_dec p topics)) ≡ none
next_absent p last topics s =
    let subs = or_empty (lookup text_dec p topics) in
    let f = AreFiled-at p last topics s in
    elim (Option-cases (lookup ℕ_discrete (suc last) subs)) [
      | inl e ↦ e
      | inr (sub, e) ↦
          let (number, topic, le) =
            Every-lookup ℕ_discrete (IsFiled p last) (suc last) sub subs f.filed e in
          absurd (omega arith)
    ]

pub add_subscription-AreSorted :
    (sub : Subscription) (last : ℕ) (topics : Topics)
    → sub.sub_id ≡ suc last
    → AreSorted last topics
    → AreSorted (suc last) (add_subscription sub topics)
unfolding add_subscription
add_subscription-AreSorted sub last topics e s =
    let p = sub.content_filter.pubsub_topic in
    let subs = or_empty (lookup text_dec p topics) in
    let f = AreFiled-suc p last subs (AreFiled-at p last topics s) in
    record {
      distinct =
          insert-IsDistinct text_dec p (insert ℕ_discrete sub.sub_id sub subs) topics s.distinct;
      each =
          Every-insert text_dec (λ p subs. AreFiled p (suc last) subs) p
            (insert ℕ_discrete sub.sub_id sub subs) topics
            (record {
              single = insert-IsDistinct ℕ_discrete sub.sub_id sub subs f.single;
              filed =
                  Every-insert ℕ_discrete (IsFiled p (suc last)) sub.sub_id sub subs
                    (refl, refl, omega arith) f.filed;
            })
            (each_more last topics s.each);
    }

pub delete_entry-AreSorted :
    (sub : Subscription) (subs : Dict ℕ Subscription) (last : ℕ) (topics : Topics)
    → lookup text_dec sub.content_filter.pubsub_topic topics ≡ some subs
    → AreSorted last topics
    → AreSorted last (delete_entry sub subs topics)
unfolding delete_entry
delete_entry-AreSorted sub subs last topics e s =
    let p = sub.content_filter.pubsub_topic in
    let left = erase ℕ_discrete sub.sub_id subs in
    let f = Every-lookup text_dec (λ p subs. AreFiled p last subs) p subs topics s.each e in
    record {
      distinct = insert-IsDistinct text_dec p left topics s.distinct;
      each =
          Every-insert text_dec (λ p subs. AreFiled p last subs) p left topics
            (record {
              single = erase-IsDistinct ℕ_discrete sub.sub_id subs f.single;
              filed = Every-erase ℕ_discrete (IsFiled p last) sub.sub_id subs f.filed;
            })
            s.each;
    }
