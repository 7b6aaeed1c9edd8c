-- ===== src/PeerManager/Selection/Sources.antt =====
-- Where the peers of each step come from.
use go_waku.Base.{
  ℕ, ◌+◌, ◌≡◌, ◌⊎◌, ap, ◌∙◌, Bool, true, false, not, ◌&&◌, some, List, [], ◌∷◌, arith, ◌==◌,
  if◌then◌else◌, Bool-cases, Option-cases, inl, inr, if-true, if-false, if-elim, subst,
}
use go_waku.Base.Text.{Text, text_dec}
use go_waku.Base.Keys.{contains, add, add_all, contains-add_all, contains-add}
use go_waku.Base.Result.{ok, ok-injective, >>=-eq-ok}
use go_waku.PeerManager.Selection.{
  PeerSet, SelectionError, no_peers_available, peer_in_set, select_loop, get_random, Peerstore,
  PeerSelectionCriteria, Selected, selected_or_none, by_topics, select_service_peer, candidates,
  fill_up, fill_with, select_random, no_topic, filter_peers_by_proto, filter_proto,
  peers_by_pubsub_topics, filter_topics, matches, slice, select_random_peers, peer_slice_to_map,
}
use go_waku.PeerManager.Selection

module _ (exclude : PeerSet) (p q : Text) (ps : List Text) (selected : PeerSet) where
  this_one :
      peer_in_set exclude q ≡ false
      → contains text_dec p (add text_dec q selected) ≡ true
      → (contains text_dec p selected ≡ true)
        ⊎ ((contains text_dec p (q ∷ ps) ≡ true) × (peer_in_set exclude p ≡ false))
  unfolding contains
  this_one in_it h = elim (text_dec q p) [
    | yes e ↦ inr (ground arith, subst (λ (x : Text). peer_in_set exclude x ≡ false) e in_it)
    | no ne ↦ inl (ground (arith, contains-add text_dec q p selected))
  ]

later :
    (p q : Text) (ps : List Text)
    → contains text_dec p ps ≡ true
    → contains text_dec p (q ∷ ps) ≡ true
unfolding contains
later p q ps h = ground arith

select_loop_sound :
    (count : ℕ) (exclude : PeerSet) (ps : List Text) (i : ℕ) (selected : PeerSet) (p : Text)
    → contains text_dec p (select_loop count exclude ps i selected) ≡ true
    → (contains text_dec p selected ≡ true)
      ⊎ ((contains text_dec p ps ≡ true) × (peer_in_set exclude p ≡ false))
unfolding select_loop
select_loop_sound count exclude [] i selected p = λ h. inl h
select_loop_sound count exclude (q ∷ ps) i selected p =
    let goal : PeerSet → Type 0 = λ s.
      contains text_dec p s ≡ true
      → (contains text_dec p selected ≡ true)
        ⊎ ((contains text_dec p (q ∷ ps) ≡ true) × (peer_in_set exclude p ≡ false)) in
    if-elim goal (peer_in_set exclude q) _ _
      (λ out h. elim (select_loop_sound count exclude ps i selected p h) [
        | inl old ↦ inl old
        | inr new ↦ inr (later p q ps new.0, new.1)
      ])
      (λ in_it.
        if-elim goal (i + 1 == count) _ _ (λ full h. this_one exclude p q ps selected in_it h)
          (λ room h.
            elim (select_loop_sound count exclude ps (i + 1) (add text_dec q selected) p h) [
              | inl now ↦ this_one exclude p q ps selected in_it now
              | inr new ↦ inr (later p q ps new.0, new.1)
            ]))

pub get_random_sound :
    (filter : PeerSet) (count : ℕ) (exclude ps : PeerSet) (p : Text)
    → get_random filter count exclude ≡ ok ps
    → contains text_dec p ps ≡ true
    → (contains text_dec p filter ≡ true) × (peer_in_set exclude p ≡ false)
unfolding get_random contains
get_random_sound filter count exclude ps p h c =
    let loop = select_loop count exclude filter 0 [] in
    let e : loop ≡ ps = ok-injective {E = SelectionError} (ground arith) in
    elim (select_loop_sound count exclude filter 0 [] p (ground arith)) [
      | inl nothing ↦ absurd (cc)
      | inr both ↦ both
    ]

pub select_random_peers_sound :
    (peers : List Text) (exclude : PeerSet) (count : ℕ) (ps : PeerSet) (p : Text)
    → select_random_peers peers exclude count ≡ ok ps
    → contains text_dec p ps ≡ true
    → (contains text_dec p peers ≡ true) × (peer_in_set exclude p ≡ false)
unfolding select_random_peers peer_slice_to_map
select_random_peers_sound peers exclude count ps p h c =
    let (a, b) = get_random_sound (add_all text_dec peers []) count exclude ps p h c in
    (unfold contains in ground (arith, contains-add_all text_dec p peers [], a), b)

pub filter_topics_sound :
    (store : Peerstore) (topics l : List Text) (p : Text)
    → contains text_dec p (filter_topics store topics l) ≡ true
    → (contains text_dec p l ≡ true) × (matches store topics p ≡ true)
unfolding filter_topics contains
filter_topics_sound store topics [] p h = absurd (cc)
filter_topics_sound store topics (q ∷ l) p h = ground (arith, filter_topics_sound store topics l p)

pub allowed_sound :
    (exclude : PeerSet) (l : List Text) (p : Text)
    → contains text_dec p (Selection.allowed exclude l) ≡ true
    → contains text_dec p l ≡ true
unfolding Selection.allowed contains
allowed_sound exclude [] p h = absurd (cc)
allowed_sound exclude (q ∷ l) p h = ground (arith, allowed_sound exclude l p)

supported_one :
    (store : Peerstore) (exclude : PeerSet) (proto q p : Text) (b : Bool)
    → store.supports q proto ≡ some b
    → q ≡ p
    → (b && not (peer_in_set exclude q)) ≡ true
    → (store.supports p proto ≡ some true) × (peer_in_set exclude p ≡ false)
supported_one store exclude proto q p b e same_peer kept =
    subst (λ (x : Text). (store.supports x proto ≡ some true) × (peer_in_set exclude x ≡ false))
      same_peer (e ∙ ap some (ground arith), ground arith)

pub filter_proto_sound :
    (store : Peerstore) (exclude : PeerSet) (proto : Text) (l found : List Text) (p : Text)
    → filter_proto store exclude proto l ≡ ok found
    → contains text_dec p found ≡ true
    → (store.supports p proto ≡ some true) × (peer_in_set exclude p ≡ false)
unfolding filter_proto contains
filter_proto_sound store exclude proto [] found p h c =
    let e : ◌≡◌ {A = List Text} [] found = ok-injective {E = SelectionError} h in
    absurd (ground arith)
filter_proto_sound store exclude proto (q ∷ l) found p h c =
    elim (Option-cases (store.supports q proto)) [
      | inl failed ↦ absurd (ground arith)
      | inr (b, e) ↦
          let added : List Text → List Text =
            λ f. if b && not (peer_in_set exclude q) then q ∷ f else f in
          let (f, rest, k) =
            >>=-eq-ok (filter_proto store exclude proto l) {B = List Text} (λ f. ok (added f))
              {c = found} (ground arith) in
          let whole : added f ≡ found = ok-injective {E = SelectionError} k in
          elim (Bool-cases (b && not (peer_in_set exclude q))) [
            | inr skipped ↦ filter_proto_sound store exclude proto l f p rest (
                ground
                  (arith, whole, if-false (b && not (peer_in_set exclude q)) (q ∷ f) f skipped))
            | inl kept ↦ elim (text_dec q p) [
              | yes same_peer ↦ supported_one store exclude proto q p b e same_peer kept
              | no other ↦
                  filter_proto_sound store exclude proto l f p rest (
                    ground
                      (arith, whole, if-true (b && not (peer_in_set exclude q)) (q ∷ f) f kept))
            ]
          ]
    ]
