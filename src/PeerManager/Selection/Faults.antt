-- ===== src/PeerManager/Selection/Faults.antt =====
-- Selections that give less, or more, than they mean to.
use go_waku.Base.{
  ◌<◌, ◌≡◌, ◌∙◌, true, false, some, [], arith, ◌==◌, length, take, if-false, length-take,
}
use go_waku.Base.Text.{text_dec}
use go_waku.Base.Occurrences.{IsNodup}
use go_waku.Base.Result.{ok}
use go_waku.PeerManager.Selection.{
  PeerSet, SelectionError, no_peers_available, peer_in_set, select_loop, get_random, Peerstore,
  PeerSelectionCriteria, Selected, selected_or_none, by_topics, select_service_peer, candidates,
  fill_up, fill_with, select_random, no_topic, filter_peers_by_proto, filter_proto,
  peers_by_pubsub_topics, filter_topics, matches, slice, select_random_peers, peer_slice_to_map,
}
use go_waku.PeerManager.Selection.Choice.{get_random_lem}
use go_waku.PeerManager.Selection

-- With no pubsub topic and a slot that has some allowed peers but fewer than asked for, the selection
-- gives no peer and no error.
pub select_random_nothing :
    (store found : Peerstore) (slot : PeerSet) (criteria : PeerSelectionCriteria)
    → IsNodup text_dec slot
    → no_topic criteria.pubsub_topics ≡ true
    → 0 < length (Selection.allowed criteria.exclude_peers slot)
    → length (Selection.allowed criteria.exclude_peers slot) < criteria.max_peers
    → select_random store found (some slot) criteria ≡ ok []
unfolding select_random select_service_peer
select_random_nothing store found slot criteria n t some_peer few =
    let l = Selection.allowed criteria.exclude_peers slot in
    let got = get_random_lem slot criteria.max_peers criteria.exclude_peers (omega arith) n in
    let size = length-take criteria.max_peers l in
    let chosen : get_random slot criteria.max_peers criteria.exclude_peers
        ≡ ok (take criteria.max_peers l) =
      got ∙ if-false (length l == 0) _ _ (ground arith) in
    let short : (length (take criteria.max_peers l) == criteria.max_peers) ≡ false =
      ground (arith, size) in
    ground (arith, chosen, short)
