-- ===== src/PeerManager/Selection/Outcomes.antt =====
-- Which peers a random selection gives.
use go_waku.Base.Dict.{or_empty}
use go_waku.Base.{◌≡◌, ◌⊎◌, true, false, Option, some}
use go_waku.Base.Text.{Text, text_dec}
use go_waku.Base.Keys.{contains}
use go_waku.Base.Result.{Result}
use go_waku.PeerManager.Selection.{
  PeerSet, no_peers_available, peer_in_set, select_loop, Peerstore, PeerSelectionCriteria, Selected,
  no_topic, matches, peer_slice_to_map,
}
use go_waku.PeerManager.Selection

-- A peer that a selection may give: it is not excluded, it is in the slot or supports the protocol, and
-- it has the pubsub topics, if any are asked for.
pub record IsEligible (store found : Peerstore) (slot : Option PeerSet)
    (criteria : PeerSelectionCriteria) (p : Text) : Type 0 where
  pub allowed : peer_in_set criteria.exclude_peers p ≡ false
  pub capable :
      (contains text_dec p (or_empty slot) ≡ true) ⊎ (found.supports p criteria.proto ≡ some true)
  pub subscribed :
      no_topic criteria.pubsub_topics ≡ false
      → (matches store criteria.pubsub_topics p ≡ true)
        ⊎ (matches found criteria.pubsub_topics p ≡ true)

module _ (store found : Peerstore) (slot : Option PeerSet) (criteria : PeerSelectionCriteria)
    (p : Text) where
  abbrev Eligible : Type 0
  Eligible = IsEligible store found slot criteria p
