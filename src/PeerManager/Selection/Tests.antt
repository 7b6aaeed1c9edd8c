-- ===== src/PeerManager/Selection/Tests.antt =====
-- Selections of peers, and instances of the theorems.
use go_waku.Base.{ℕ_discrete, ◌&&◌, ℕ, ◌≡◌, refl, true, none, some, List, [], ◌∷◌, arith, length}
use go_waku.PeerManager.Selection.{
  no_topic, peer_in_set, has_topics, matches, peers_by_pubsub_topics, filter_proto,
  filter_peers_by_proto, peer_slice_to_map, select_random_peers, fill_with, candidates, by_topics,
  select_service_peer, select_loop, PeerSet, SelectionError, no_peers_available, Peerstore,
  PeerSelectionCriteria, get_random, select_random, fill_up, filter_topics,
}
use go_waku.Base.Text.{Text, codes, text_dec, same}
use go_waku.Base.Keys.{contains, add, add_all}
use go_waku.Base.Occurrences.{IsNodup}
use go_waku.Base.Result.{ok, err}
use go_waku.PeerManager.Selection.Faults.{select_random_nothing}
use go_waku.PeerManager.Selection

abbrev a : Text
a = codes "a"

abbrev b : Text
b = codes "b"

abbrev c : Text
c = codes "c"

-- Three peers with the topic "t"; none but "b" supports the protocol "s".
abbrev store : Peerstore
store = record {
  peers = a ∷ b ∷ c ∷ [];
  supports = λ p proto. some (same p b && same proto (codes "s"));
  pubsub_topics = λ p. some (codes "t" ∷ []);
}

abbrev criteria : Text → List Text → ℕ → PeerSelectionCriteria
criteria proto topics max_peers = record {
  proto = proto;
  pubsub_topics = topics;
  specific_peers = [];
  max_peers = max_peers;
  exclude_peers = c ∷ [];
}

program : Unit {0}
unfolding get_random select_loop select_random select_service_peer by_topics candidates fill_up
    fill_with select_random_peers peer_slice_to_map filter_peers_by_proto filter_proto
    peers_by_pubsub_topics filter_topics matches has_topics peer_in_set no_topic Selection.allowed
    contains add add_all text_dec ℕ_discrete
program = tt

selection_tests :
    (select_random store store (some (a ∷ b ∷ c ∷ [])) (criteria (codes "s") [] 2)
      ≡ ok (a ∷ b ∷ []))
    × (select_random store store none (criteria (codes "s") (codes "t" ∷ []) 1) ≡ ok (b ∷ []))
    × (select_random store store none (criteria (codes "x") [] 1) ≡ err no_peers_available)
unfolding program
selection_tests = (refl, refl, refl)

three : IsNodup text_dec (a ∷ b ∷ c ∷ [])
unfolding program
three = (refl, (refl, (refl, tt)))

two_allowed : length (Selection.allowed (c ∷ []) (a ∷ b ∷ c ∷ [])) ≡ 2
unfolding program
two_allowed = refl

no_topics : Selection.no_topic [] ≡ true
unfolding program
no_topics = refl

select_random_nothing_example :
    select_random store store (some (a ∷ b ∷ c ∷ [])) (criteria (codes "s") [] 3) ≡ ok []
select_random_nothing_example =
    select_random_nothing store store (a ∷ b ∷ c ∷ []) (criteria (codes "s") [] 3) three no_topics
      (omega (arith, two_allowed)) (omega (arith, two_allowed))

-- No peer supports "x", and the selection with a topic gives two that do not, one of them excluded.
unsupported :
    select_random store store none
      (record (criteria (codes "x") (codes "t" ∷ []) 3) { exclude_peers = c ∷ [] })
    ≡ ok (a ∷ b ∷ c ∷ [])
unfolding program
unsupported = refl
