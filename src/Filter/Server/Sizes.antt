-- ===== src/Filter/Server/Sizes.antt =====
-- The numbers of peers and criteria that the operations of the subscribers map leave.
use go_waku.Base.{ℕ, ◌+◌, ◌≤◌, ◌<◌, ◌≡◌, refl, some, List, [], ◌∷◌, arith, length}
use go_waku.Base.Text.{Text, text_dec}
use go_waku.Base.Dict.{
  or_empty, Dict, Every, lookup, insert, erase, length-insert-le, length-insert_old,
  length-erase-le, Every-insert, Every-erase, Every-lookup,
}
use go_waku.Base.Keys.{add_all, remove_all, length-add_all-le, length-remove_all-le}
use go_waku.Base.Result.{ok}
use go_waku.Filter.Subscribers.{
  SubscribersMap, PubsubTopics, count, set, delete, delete_all, delete_topics, drop_if_empty,
}
use go_waku.Filter.Subscribers.Lookup.{delete_inv, delete_all_inv}
use go_waku.Filter.Server.{WakuFilterFullNode, max_criteria_per_subscription, total}

-- No more peers than the node allows, and no more criteria for a peer than 1000.
abbrev IsSmall : Text → PubsubTopics → Type 0
IsSmall peer m = total m ≤ max_criteria_per_subscription

pub record IsWithin (max : ℕ) (sub : SubscribersMap) : Type 0 where
  pub few : count sub ≤ max
  pub small : Every text_dec (λ peer m. total m ≤ max_criteria_per_subscription) sub.items

-- The node keeps the limit it was built with, and its subscriptions are within it.
abbrev pub HasLimits : ℕ → WakuFilterFullNode → Type 0
HasLimits max wf = (wf.max_subscriptions ≡ max) × IsWithin max wf.subscriptions

pub total-insert :
    (k : Text) (v : List Text) (m : PubsubTopics)
    → total (insert text_dec k v m) + length (or_empty (lookup text_dec k m)) ≡ total m + length v
unfolding total insert lookup
total-insert k v [] = omega arith
total-insert k v ((j, w) ∷ m) = ground (arith, total-insert k v m)

total-erase-le : (k : Text) (m : PubsubTopics) → total (erase text_dec k m) ≤ total m
unfolding total erase
total-erase-le k [] = omega arith
total-erase-le k ((j, w) ∷ m) = ground (arith, total-erase-le k m)

-- What `Set` writes for a peer.
set-small :
    (topic : Text) (cs : List Text) (m : PubsubTopics)
    → total m + length cs ≤ max_criteria_per_subscription
    → total (insert text_dec topic (add_all text_dec cs (or_empty (lookup text_dec topic m))) m)
      ≤ max_criteria_per_subscription
set-small topic cs m h =
    let old = or_empty (lookup text_dec topic m) in
    omega (arith, total-insert topic (add_all text_dec cs old) m, length-add_all-le text_dec cs old)

drop_if_empty-le :
    (topic : Text) (left l : List Text) (m : PubsubTopics)
    → lookup text_dec topic m ≡ some l
    → length left ≤ length l
    → total (drop_if_empty topic left (insert text_dec topic left m)) ≤ total m
unfolding drop_if_empty
drop_if_empty-le topic left l m h shorter =
    let new = insert text_dec topic left m in
    let old : length (or_empty (lookup text_dec topic m)) ≡ length l = rw h refl in
    let less : total new ≤ total m = omega (arith, total-insert topic left m) in
    ground (arith, total-erase-le topic new)

-- What `Delete` writes for a peer.
delete-small :
    (topic : Text) (cs l : List Text) (m : PubsubTopics)
    → lookup text_dec topic m ≡ some l
    → total (
        drop_if_empty topic
          (remove_all text_dec cs l)
          (insert text_dec topic (remove_all text_dec cs l) m))
      ≤ total m
delete-small topic cs l m h =
    drop_if_empty-le topic (remove_all text_dec cs l) l m h (length-remove_all-le text_dec cs l)

pub set-IsWithin :
    (digest : Text → Text) (now : ℕ) (peer topic : Text) (cs : List Text) (sub : SubscribersMap)
    (max : ℕ)
    → count sub < max
    → total (or_empty (lookup text_dec peer sub.items)) + length cs ≤ max_criteria_per_subscription
    → IsWithin max sub
    → IsWithin max (set digest now peer topic cs sub)
unfolding set count
set-IsWithin digest now peer topic cs sub max room fits w = record {
  few = omega (
    arith,
    length-insert-le text_dec peer
        (insert text_dec topic
          (add_all text_dec cs
            (or_empty (lookup text_dec topic (or_empty (lookup text_dec peer sub.items)))))
          (or_empty (lookup text_dec peer sub.items)))
        sub.items,
  );
  small = Every-insert text_dec IsSmall peer _ sub.items (set-small topic cs _ fits) w.small;
}

-- A value with something in it stays.
drop_if_empty-cons :
    (peer : Text) (e : Text × List Text) (left : PubsubTopics) (items : Dict Text PubsubTopics)
    → drop_if_empty peer (e ∷ left) items ≡ items
unfolding drop_if_empty
drop_if_empty-cons peer e left items = ground arith

-- A map without the key's entry when it became empty.
drop_if_empty-Every :
    (peer : Text) (left : PubsubTopics) (items : Dict Text PubsubTopics)
    → total left ≤ max_criteria_per_subscription
    → Every text_dec IsSmall items
    → Every text_dec IsSmall (drop_if_empty peer left (insert text_dec peer left items))
unfolding drop_if_empty
drop_if_empty-Every peer [] items p h =
    Every-erase text_dec IsSmall peer _ (Every-insert text_dec IsSmall peer [] items p h)
drop_if_empty-Every peer (e ∷ left) items p h =
    rw (drop_if_empty-cons peer e left (insert text_dec peer (e ∷ left) items))
      (Every-insert text_dec IsSmall peer (e ∷ left) items p h)

drop_if_empty-length :
    (peer : Text) (left m : PubsubTopics) (items : Dict Text PubsubTopics)
    → lookup text_dec peer items ≡ some m
    → length (drop_if_empty peer left (insert text_dec peer left items)) ≤ length items
unfolding drop_if_empty
drop_if_empty-length peer [] m items h = omega (
  arith,
  length-erase-le text_dec peer (insert text_dec peer [] items),
  length-insert_old text_dec peer [] m items h,
)
drop_if_empty-length peer (e ∷ left) m items h =
    rw (drop_if_empty-cons peer e left (insert text_dec peer (e ∷ left) items))
      (omega (arith, length-insert_old text_dec peer (e ∷ left) m items h))

pub delete-IsWithin :
    (digest : Text → Text) (now : ℕ) (peer topic : Text) (cs : List Text)
    (sub sub' : SubscribersMap) (max : ℕ)
    → delete digest now peer topic cs sub ≡ ok sub'
    → IsWithin max sub
    → IsWithin max sub'
unfolding delete_topics count
delete-IsWithin digest now peer topic cs sub sub' max made w =
    let (m, l, hm, hl, e) = delete_inv digest now peer topic cs sub sub' made in
    let old : IsSmall peer m = Every-lookup text_dec IsSmall peer m sub.items w.small hm in
    rw e (record {
      few = omega (
        arith,
        drop_if_empty-length peer
            (drop_if_empty topic (remove_all text_dec cs l)
              (insert text_dec topic (remove_all text_dec cs l) m))
            m sub.items hm,
      );
      small =
          drop_if_empty-Every peer _ sub.items (omega (arith, delete-small topic cs l m hl))
            w.small;
    })

pub delete_all-IsWithin :
    (digest : Text → Text) (peer : Text) (sub sub' : SubscribersMap) (max : ℕ)
    → delete_all digest peer sub ≡ ok sub'
    → IsWithin max sub
    → IsWithin max sub'
unfolding count
delete_all-IsWithin digest peer sub sub' max made w =
    let (m, hm, e) = delete_all_inv digest peer sub sub' made in
    rw e (record {
      few = omega (arith, length-erase-le text_dec peer sub.items);
      small = Every-erase text_dec IsSmall peer sub.items w.small;
    })
