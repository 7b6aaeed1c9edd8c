-- ===== src/PeerManager/Selection.antt =====
-- waku/v2/peermanager/peer_selection.go and service_slot.go, with what they read of
-- waku/v2/peerstore/waku_peer_store.go. A set of peers is a list with no peer twice; its order stands
-- for the one in which Go ranges over the map. The peer store of libp2p, and what a discovery of peers
-- adds to it, are parameters. The selection by the lowest round trip time is left out.
pub mod Choice
pub mod Sources
pub mod Outcomes
pub mod Faults
mod Tests
use go_waku.Base.{
  ℕ, suc, ◌+◌, ◌-◌, Bool, true, false, not, ◌&&◌, ◌||◌, Option, none, some, List, [], ◌∷◌, ◌++◌,
  ltb, ◌==◌, if◌then◌else◌, length,
}
use go_waku.Base.Text.{Text, text_dec, same, codes}
use go_waku.Base.Dict.{or_empty, Dict, lookup, insert}
use go_waku.Base.Keys.{contains, add, remove, add_all}
use go_waku.Base.Result.{Result, ok, err, panic}

abbrev pub PeerSet : Type 0
PeerSet = List Text

pub data SelectionError : Type 0 where
  no_peers_available store_failed unknown_selection_type : SelectionError

unfoldable pub peer_in_set : PeerSet → Text → Bool
peer_in_set peers peer = contains text_dec peer peers

-- The loop of `getRandom`; `i` counts the peers that are selected.
unfoldable pub select_loop : ℕ → PeerSet → List Text → ℕ → PeerSet → PeerSet
select_loop count exclude [] i selected = selected
select_loop count exclude (p ∷ ps) i selected =
    let skip = select_loop count exclude ps i selected in
    let selected' = add text_dec p selected in
    let more = select_loop count exclude ps (i + 1) selected' in
    if peer_in_set exclude p then skip else if i + 1 == count then selected' else more

unfoldable pub get_random : PeerSet → ℕ → PeerSet → Result SelectionError PeerSet
get_random filter count exclude =
    let selected = select_loop count exclude filter 0 [] in
    if length selected == 0 then err no_peers_available else ok selected

unfoldable pub peer_slice_to_map : List Text → PeerSet
peer_slice_to_map peers = add_all text_dec peers []

unfoldable pub select_random_peers : List Text → PeerSet → ℕ → Result SelectionError PeerSet
select_random_peers peers exclude count = get_random (peer_slice_to_map peers) count exclude

-- `ServiceSlots`: the peers for each protocol.
abbrev pub ServiceSlots : Type 0
ServiceSlots = Dict Text PeerSet

abbrev pub relay_id : Text
relay_id = codes "/vac/waku/relay/2.0.0"

-- `getPeers`, with the slots that it leaves: no slot for the relay protocol, and a new one where there
-- is none.
unfoldable pub get_peers : Text → ServiceSlots → Option PeerSet × ServiceSlots
get_peers proto slots =
    if same proto relay_id then (none, slots) else elim (lookup text_dec proto slots) [
      | none ↦ (some [], insert text_dec proto [] slots)
      | some peers ↦ (some peers, slots)
    ]

unfoldable pub add_peer : Text → Text → ServiceSlots → ServiceSlots
add_peer proto peer slots =
    insert text_dec proto (add text_dec peer (or_empty (lookup text_dec proto slots))) slots

unfoldable pub remove_peer : Text → ServiceSlots → ServiceSlots
remove_peer peer [] = []
remove_peer peer ((proto, peers) ∷ rest) =
    (proto, remove text_dec peer peers) ∷ remove_peer peer rest

-- What the peer store tells: its peers, whether a peer supports a protocol, and the pubsub topics of a
-- peer; none is an error.
pub record Peerstore : Type 0 where
  pub peers : List Text
  pub supports : Text → Text → Option Bool
  pub pubsub_topics : Text → Option (List Text)

unfoldable pub has_topics : List Text → List Text → Bool
has_topics [] topics = true
has_topics (t ∷ ts) topics =
    let rest = has_topics ts topics in if contains text_dec t topics then rest else false

unfoldable pub matches : Peerstore → List Text → Text → Bool
matches store topics p = elim (store.pubsub_topics p) [
  | none ↦ false
  | some peer_topics ↦ has_topics topics peer_topics
]

-- The loop of `PeersByPubSubTopics`.
unfoldable pub filter_topics : Peerstore → List Text → List Text → List Text
filter_topics store topics [] = []
filter_topics store topics (p ∷ ps) =
    let rest = filter_topics store topics ps in if matches store topics p then p ∷ rest else rest

-- Specific peers that are nil stand for all peers.
unfoldable pub peers_by_pubsub_topics : Peerstore → List Text → Option (List Text) → List Text
peers_by_pubsub_topics store topics none = filter_topics store topics store.peers
peers_by_pubsub_topics store topics (some specific) = filter_topics store topics specific

-- The loop of `FilterPeersByProto`.
unfoldable pub filter_proto :
    Peerstore → PeerSet → Text → List Text → Result SelectionError (List Text)
filter_proto store exclude proto [] = ok []
filter_proto store exclude proto (p ∷ ps) =
    let rest = filter_proto store exclude proto ps in
    elim (store.supports p proto) [
      | none ↦ err store_failed
      | some supported ↦ elim rest [
        | ok found ↦ ok (if supported && not (peer_in_set exclude p) then p ∷ found else found)
        | err e ↦ err e
        | panic ↦ panic
      ]
    ]

unfoldable pub filter_peers_by_proto :
    Peerstore → List Text → PeerSet → Text → Result SelectionError (List Text)
filter_peers_by_proto store specific exclude proto =
    filter_proto store exclude proto (if length specific == 0 then store.peers else specific)

-- A slice that nothing was appended to is nil.
abbrev pub slice : List Text → Option (List Text)
slice [] = none
slice (p ∷ ps) = some (p ∷ ps)

pub record PeerSelectionCriteria : Type 0 where
  pub proto : Text
  pub pubsub_topics : List Text
  pub specific_peers : List Text
  pub max_peers : ℕ
  pub exclude_peers : PeerSet

-- No pubsub topic, or a single one that is empty.
unfoldable pub no_topic : List Text → Bool
no_topic [] = true
no_topic (t ∷ []) = length t == 0
no_topic (t ∷ u ∷ ts) = false

unfoldable pub allowed : PeerSet → List Text → List Text
allowed exclude [] = []
allowed exclude (p ∷ ps) =
    let rest = allowed exclude ps in if peer_in_set exclude p then rest else p ∷ rest

-- What `selectServicePeer` gives: the peers, and whether the error is the one for no peers.
pub record Selected : Type 0 where
  pub chosen : PeerSet
  pub exhausted : Bool

abbrev pub selected_or_none : Result SelectionError PeerSet → Selected
selected_or_none (ok peers) = record { chosen = peers; exhausted = false }
selected_or_none (err e) = record { chosen = []; exhausted = true }
selected_or_none panic = record { chosen = []; exhausted = true }

unfoldable pub by_topics : Peerstore → PeerSelectionCriteria → PeerSet → Selected
by_topics store criteria slot =
    let keys = allowed criteria.exclude_peers slot in
    let found = peers_by_pubsub_topics store criteria.pubsub_topics (some keys) in
    let tmp =
      selected_or_none (select_random_peers found criteria.exclude_peers criteria.max_peers) in
    if not tmp.exhausted && length tmp.chosen == criteria.max_peers
    then tmp
    else record tmp { exhausted = true }

unfoldable pub select_service_peer : Peerstore → Option PeerSet → PeerSelectionCriteria → Selected
select_service_peer store none criteria = record { chosen = []; exhausted = true }
select_service_peer store (some slot) criteria =
    if no_topic criteria.pubsub_topics
    then selected_or_none (get_random slot criteria.max_peers criteria.exclude_peers)
    else by_topics store criteria slot

-- The peers of the peer store that are candidates after the slot.
unfoldable pub candidates : Peerstore → PeerSelectionCriteria → Result SelectionError (List Text)
candidates store criteria =
    elim (filter_peers_by_proto store criteria.specific_peers criteria.exclude_peers
      criteria.proto) [
        | err e ↦ err e
        | panic ↦ panic
        | ok filtered ↦ ok (
            if ltb 0 (length criteria.pubsub_topics)
            then peers_by_pubsub_topics store criteria.pubsub_topics (slice filtered)
            else filtered)
      ]

-- The peers of the slot with random peers of the candidates.
unfoldable pub fill_with : PeerSet → Result SelectionError PeerSet → Result SelectionError PeerSet
fill_with chosen (ok random_peers) = ok (add_all text_dec random_peers chosen)
fill_with chosen (err e) = if length chosen == 0 then err e else ok chosen
fill_with chosen panic = panic

unfoldable pub fill_up : ℕ → PeerSet → List Text → Result SelectionError PeerSet
fill_up max_peers chosen filtered =
    fill_with chosen (select_random_peers filtered [] (max_peers - length chosen))

-- `SelectRandom`; `found` is the peer store after the discovery that the slot may start.
unfoldable pub select_random :
    Peerstore → Peerstore → Option PeerSet → PeerSelectionCriteria → Result SelectionError PeerSet
select_random store found slot criteria =
    let service = select_service_peer store slot criteria in
    if not service.exhausted && length service.chosen == criteria.max_peers
    then ok service.chosen
    else if not service.exhausted
    then ok []
    else elim (candidates found criteria) [
      | ok filtered ↦ fill_up criteria.max_peers service.chosen filtered
      | err e ↦ err e
      | panic ↦ panic
    ]

pub data PeerSelection : Type 0 where
  automatic lowest_rtt unknown_type : PeerSelection

-- `SelectPeers`; `fastest` is the result for the lowest round trip time.
unfoldable pub select_peers :
    Peerstore
    → Peerstore
    → ServiceSlots
    → Result SelectionError PeerSet
    → PeerSelection
    → PeerSelectionCriteria
    → Result SelectionError PeerSet
select_peers store found slots fastest automatic criteria =
    let max_peers = if criteria.max_peers == 0 then 1 else criteria.max_peers in
    select_random store found (get_peers criteria.proto slots).0
      (record criteria { max_peers = max_peers })
select_peers store found slots fastest lowest_rtt criteria = fastest
select_peers store found slots fastest unknown_type criteria = err unknown_selection_type
