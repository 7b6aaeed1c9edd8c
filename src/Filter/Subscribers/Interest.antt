-- ===== src/Filter/Subscribers/Interest.antt =====
-- The interest map, which `Items` reads, against the subscriptions.
use go_waku.Base.{
  ℕ, ◌≡◌, ◌≢◌, refl, ap, ◌∙◌, Bool, true, false, ◌&&◌, ◌||◌, none, some, List, [], ◌∷◌, ◌++◌, arith,
  if◌then◌else◌, inl, inr, Option-cases,
}
use go_waku.Base.Text.{same, Text, text_dec}
use go_waku.Base.Dict.{or_empty, Dict, lookup}
use go_waku.Base.Keys.{contains, add, remove, contains-add, contains-remove}
use go_waku.Filter.Subscribers.{
  SubscribersMap, PubsubTopics, get_key, add_to_interest_map, remove_from_interest_map,
  add_interests, remove_interests, remove_all_interests, set, delete_topics, items_for,
}
use go_waku.Filter.Subscribers.Lookup.{subscribed, or_empty-insert, subscribed-set}

module _ (digest : Text → Text) where
  -- `Items` yields the peer for the two topics.
  unfoldable pub interested : SubscribersMap → Text → Text → Text → Bool
  interested sub q t d = contains text_dec q (items_for digest t d sub)

  -- The peers under a key.
  abbrev pub peers_at : Text → Dict Text (List Text) → List Text
  peers_at key m = or_empty (lookup text_dec key m)

  -- The key of one of the content topics.
  unfoldable pub hits : Text → List Text → Text → Bool
  hits t [] key = false
  hits t (c ∷ cs) key = same (get_key digest t c) key || hits t cs key

  unfoldable pub hits_all : PubsubTopics → Text → Bool
  hits_all [] key = false
  hits_all ((t, cs) ∷ m) key = hits t cs key || hits_all m key

  add_interest_lem :
      (q t c : Text) (m : Dict Text (List Text)) (key p : Text)
      → contains text_dec p (peers_at key (add_to_interest_map digest q t c m))
        ≡ (same (get_key digest t c) key && same q p) || contains text_dec p (peers_at key m)
  unfolding add_to_interest_map
  add_interest_lem q t c m key p =
      let k = get_key digest t c in
      ground (
        arith,
        or_empty-insert k key (add text_dec q (peers_at k m)) m,
        contains-add text_dec q p (peers_at k m),
      )

  or_empty-some : (l : List Text) → or_empty (some l) ≡ l
  or_empty-some l = refl

  nobody_absent :
      (k : Text) (m : Dict Text (List Text)) (key p : Text) (b : Bool)
      → lookup text_dec k m ≡ none
      → contains text_dec p (peers_at key m)
        ≡ (if same k key && b then false else contains text_dec p (peers_at key m))
  unfolding contains
  nobody_absent k m key p b h = elim (text_dec k key) [
    | yes e ↦ rw (← e) (rw h (ground arith))
    | no e ↦ ground arith
  ]

  remove_interest_lem :
      (q t c : Text) (m : Dict Text (List Text)) (key p : Text)
      → contains text_dec p (peers_at key (remove_from_interest_map digest q t c m)) ≡ (
          if same (get_key digest t c) key && same q p
          then false
          else contains text_dec p (peers_at key m))
  unfolding remove_from_interest_map
  remove_interest_lem q t c m key p = elim (Option-cases (lookup text_dec k m)) [
    | inl e ↦ rw (e, remove_from_interest_map) (nobody_absent k m key p (same q p) e)
    | inr (peers, e) ↦
        rw (e, remove_from_interest_map)
          (ground (
            arith,
            ap or_empty e,
            or_empty-insert k key (remove text_dec q peers) m,
            contains-remove text_dec q p peers,
            or_empty-some peers,
          ))
  ]
    where
      k : Text
      k = get_key digest t c

  pub add_interests_lem :
      (q t : Text) (cs : List Text) (m : Dict Text (List Text)) (key p : Text)
      → contains text_dec p (peers_at key (add_interests digest q t cs m))
        ≡ (same q p && hits t cs key) || contains text_dec p (peers_at key m)
  unfolding add_interests hits
  add_interests_lem q t [] m key p = ground arith
  add_interests_lem q t (c ∷ cs) m key p =
      add_interests_lem q t cs (add_to_interest_map digest q t c m) key p
      ∙ rw (add_interest_lem q t c m key p) (ground arith)

  pub remove_interests_lem :
      (q t : Text) (cs : List Text) (m : Dict Text (List Text)) (key p : Text)
      → contains text_dec p (peers_at key (remove_interests digest q t cs m))
        ≡ (if same q p && hits t cs key then false else contains text_dec p (peers_at key m))
  unfolding remove_interests hits
  remove_interests_lem q t [] m key p = ground arith
  remove_interests_lem q t (c ∷ cs) m key p =
      remove_interests_lem q t cs (remove_from_interest_map digest q t c m) key p
      ∙ rw (remove_interest_lem q t c m key p) (ground arith)

  pub remove_all_interests_lem :
      (q : Text) (topics : PubsubTopics) (m : Dict Text (List Text)) (key p : Text)
      → contains text_dec p (peers_at key (remove_all_interests digest q topics m))
        ≡ (if same q p && hits_all topics key then false else contains text_dec p (peers_at key m))
  unfolding remove_all_interests hits_all
  remove_all_interests_lem q [] m key p = ground arith
  remove_all_interests_lem q ((t, cs) ∷ topics) m key p =
      remove_all_interests_lem q topics (remove_interests digest q t cs m) key p
      ∙ rw (remove_interests_lem q t cs m key p) (ground arith)

  pub hits-contains :
      (t d : Text) (cs : List Text)
      → contains text_dec d cs ≡ true
      → hits t cs (get_key digest t d) ≡ true
  unfolding hits contains
  hits-contains t d [] h = absurd (cc)
  hits-contains t d (c ∷ cs) h = ground (arith, hits-contains t d cs)

  -- What a peer is subscribed to has its key among the keys that `deleteAll` clears.
  pub hits_all-lookup :
      (t d : Text) (m : PubsubTopics)
      → contains text_dec d (or_empty (lookup text_dec t m)) ≡ true
      → hits_all m (get_key digest t d) ≡ true
  unfolding hits_all lookup
  hits_all-lookup t d [] h = unfold contains in absurd (cc)
  hits_all-lookup t d ((s, cs) ∷ m) h = elim (text_dec s t) [
    | yes e ↦
        let here : contains text_dec d cs ≡ true = ground arith in
        rw e (ground (arith, hits-contains t d cs here))
    | no e ↦ ground (arith, hits_all-lookup t d m)
  ]

  pub interested-set :
      (now : ℕ) (peer s : Text) (cs : List Text) (sub : SubscribersMap) (q t d : Text)
      → interested (set digest now peer s cs sub) q t d
        ≡ (same peer q && hits s cs (get_key digest t d)) || interested sub q t d
  unfolding interested set items_for
  interested-set now peer s cs sub q t d =
      add_interests_lem peer s cs sub.interest_map (get_key digest t d) q

  pub interested-delete_topics :
      (now : ℕ) (peer s : Text) (cs : List Text) (m : PubsubTopics) (l : List Text)
      (sub : SubscribersMap) (q t d : Text)
      → interested (delete_topics digest now peer s cs m l sub) q t d
        ≡ (if same peer q && hits s cs (get_key digest t d) then false else interested sub q t d)
  unfolding interested delete_topics items_for
  interested-delete_topics now peer s cs m l sub q t d =
      remove_interests_lem peer s cs sub.interest_map (get_key digest t d) q

  pub interested-delete_all :
      (peer : Text) (m : PubsubTopics) (sub sub' : SubscribersMap) (q t d : Text)
      → sub'.interest_map ≡ remove_all_interests digest peer m sub.interest_map
      → interested sub' q t d
        ≡ (if same peer q && hits_all m (get_key digest t d) then false else interested sub q t d)
  unfolding interested items_for
  interested-delete_all peer m sub sub' q t d h =
      rw h (remove_all_interests_lem peer m sub.interest_map (get_key digest t d) q)

  hits_joined :
      (t c t' c' : Text) → t ++ c ≡ t' ++ c' → hits t (c ∷ []) (get_key digest t' c') ≡ true
  unfolding hits get_key
  hits_joined t c t' c' joined = ground (arith, ap digest joined)

  -- Two pairs of topics that join to one text share their peers: a peer that subscribes to one pair
  -- is yielded for the other, to which it need not be subscribed.
  pub set-collides :
      (now : ℕ) (peer t c t' c' : Text) (sub : SubscribersMap)
      → t ++ c ≡ t' ++ c'
      → t ≢ t'
      → (interested (set digest now peer t (c ∷ []) sub) peer t' c' ≡ true)
        × (subscribed (set digest now peer t (c ∷ []) sub) peer t' c' ≡ subscribed sub peer t' c')
  set-collides now peer t c t' c' sub joined apart = (
    interested-set now peer t (c ∷ []) sub peer t' c'
        ∙ ground (arith, hits_joined t c t' c' joined),
    subscribed-set digest now peer t (c ∷ []) sub peer t' c' ∙ ground arith,
  )
