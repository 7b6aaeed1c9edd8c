-- ===== src/Filter/Subscribers/Lookup.antt =====
-- What `Set`, `Delete` and `deleteAll` change among the subscriptions.
use go_waku.Base.{
  ℕ, ◌≡◌, refl, ap, ◌∙◌, Bool, false, ◌&&◌, ◌||◌, some, List, [], ◌∷◌, arith, ite, if◌then◌else◌,
}
use go_waku.Base.Text.{same, Text, text_dec}
use go_waku.Base.Dict.{or_empty, Dict, lookup, insert, erase, lookup-insert, lookup-erase}
use go_waku.Base.Keys.{contains, add_all, remove_all, contains-add_all, contains-remove_all}
use go_waku.Base.Result.{ok}
use go_waku.Filter.Subscribers.{
  SubscribersMap, PubsubTopics, set, delete, delete_topics, delete_all, remove_all_interests,
  drop_if_empty,
}

-- The peer subscribed to the content topic on the pubsub topic.
unfoldable pub subscribed : SubscribersMap → Text → Text → Text → Bool
subscribed sub q t d =
    contains text_dec d (or_empty (lookup text_dec t (or_empty (lookup text_dec q sub.items))))

abbrev no_topics : PubsubTopics
no_topics = []

-- The given peer and pubsub topic, and one of the given content topics.
abbrev pub covers : Text → Text → List Text → Text → Text → Text → Bool
covers peer topic cs q t d = same peer q && (same topic t && contains text_dec d cs)

module _ {A : Type 0} where
  pub or_empty-insert :
      (k j : Text) (l : List A) (m : Dict Text (List A))
      → or_empty (lookup text_dec j (insert text_dec k l m))
        ≡ ite (text_dec k j) l (or_empty (lookup text_dec j m))
  or_empty-insert k j l m = ground (arith, lookup-insert text_dec k j l m)

  pub or_empty-erase :
      (k j : Text) (m : Dict Text (List A))
      → or_empty (lookup text_dec j (erase text_dec k m))
        ≡ ite (text_dec k j) [] (or_empty (lookup text_dec j m))
  or_empty-erase k j m = ground (arith, lookup-erase text_dec k j m)

  pub or_empty-drop_if_empty :
      (k j : Text) (l : List A) (m : Dict Text (List A))
      → or_empty (lookup text_dec j (drop_if_empty k l (insert text_dec k l m)))
        ≡ ite (text_dec k j) l (or_empty (lookup text_dec j m))
  unfolding drop_if_empty
  or_empty-drop_if_empty k j [] m =
      or_empty-erase k j (insert text_dec k [] m) ∙ ground (arith, or_empty-insert k j [] m)
  or_empty-drop_if_empty k j (a ∷ l) m = ground (arith, or_empty-insert k j (a ∷ l) m)

module _ (digest : Text → Text) where
  nothing : (d t : Text) → contains text_dec d (or_empty (lookup text_dec t (no_topics))) ≡ false
  unfolding contains lookup
  nothing d t = refl

  -- `Set` adds the given content topics on the pubsub topic to the peer's, and changes nothing else.
  pub subscribed-set :
      (now : ℕ) (peer topic : Text) (cs : List Text) (sub : SubscribersMap) (q t d : Text)
      → subscribed (set digest now peer topic cs sub) q t d
        ≡ covers peer topic cs q t d || subscribed sub q t d
  unfolding subscribed set
  subscribed-set now peer topic cs sub q t d =
      let m = or_empty (lookup text_dec peer sub.items) in
      let l = add_all text_dec cs (or_empty (lookup text_dec topic m)) in
      ground (
        arith,
        or_empty-insert peer q (insert text_dec topic l m) sub.items,
        or_empty-insert topic t l m,
        contains-add_all text_dec d cs (or_empty (lookup text_dec topic m)),
      )

  subscribed-delete_topics :
      (now : ℕ) (peer topic : Text) (cs : List Text) (sub : SubscribersMap) (m : PubsubTopics)
      (l : List Text) (q t d : Text)
      → or_empty (lookup text_dec peer sub.items) ≡ m
      → or_empty (lookup text_dec topic m) ≡ l
      → subscribed (delete_topics digest now peer topic cs m l sub) q t d
        ≡ (if covers peer topic cs q t d then false else subscribed sub q t d)
  unfolding subscribed delete_topics
  subscribed-delete_topics now peer topic cs sub m l q t d hm hl =
      let left = remove_all text_dec cs l in
      let topics_left = drop_if_empty topic left (insert text_dec topic left m) in
      ground (
        arith,
        or_empty-drop_if_empty peer q topics_left sub.items,
        or_empty-drop_if_empty topic t left m,
        contains-remove_all text_dec d cs l,
      )

  pub delete_inv :
      (now : ℕ) (peer topic : Text) (cs : List Text) (sub sub' : SubscribersMap)
      → delete digest now peer topic cs sub ≡ ok sub'
      → (m : PubsubTopics) × (l : List Text) × (lookup text_dec peer sub.items ≡ some m)
        × (lookup text_dec topic m ≡ some l)
        × (sub' ≡ delete_topics digest now peer topic cs m l sub)
  unfolding delete
  delete_inv now peer topic cs sub sub' h = ground arith

  -- A `Delete` that succeeds takes the given content topics on the pubsub topic away from the peer's,
  -- and changes nothing else.
  pub subscribed-delete :
      (now : ℕ) (peer topic : Text) (cs : List Text) (sub sub' : SubscribersMap) (q t d : Text)
      → delete digest now peer topic cs sub ≡ ok sub'
      → subscribed sub' q t d ≡ (if covers peer topic cs q t d then false else subscribed sub q t d)
  subscribed-delete now peer topic cs sub sub' q t d h =
      let (m, l, hm, hl, e) = delete_inv now peer topic cs sub sub' h in
      rw e (subscribed-delete_topics now peer topic cs sub m l q t d (rw hm) (rw hl))

  pub delete_all_inv :
      (peer : Text) (sub sub' : SubscribersMap)
      → delete_all digest peer sub ≡ ok sub'
      → (m : PubsubTopics) × (lookup text_dec peer sub.items ≡ some m)
        × (sub' ≡ record sub {
          items = erase text_dec peer sub.items;
          interest_map = remove_all_interests digest peer m sub.interest_map;
          last_seen = erase text_dec peer sub.last_seen;
        })
  unfolding delete_all
  delete_all_inv peer sub sub' h = ground arith

  -- A `deleteAll` that succeeds takes all of the peer's subscriptions away, and changes nothing else.
  pub subscribed-delete_all :
      (peer : Text) (sub sub' : SubscribersMap) (q t d : Text)
      → delete_all digest peer sub ≡ ok sub'
      → subscribed sub' q t d ≡ (if same peer q then false else subscribed sub q t d)
  unfolding subscribed
  subscribed-delete_all peer sub sub' q t d h =
      let (m, hm, e) = delete_all_inv peer sub sub' h in
      ground (
        arith,
        ap (λ (s : SubscribersMap). s.items) e,
        or_empty-erase peer q sub.items,
        nothing d t,
      )
