-- ===== src/Lib.antt =====
-- Verification of go-waku, a node for the Waku family of peer-to-peer protocols.
--
-- A message has a content topic and travels on a pubsub topic, which is one shard of a cluster.
-- All protocols read and write these names. A node advertises its shards in
-- its Ethereum node record, relays messages that its rate limiting validator accepts and broadcasts
-- them to its own subscribers, serves light nodes by pushing them the messages that they subscribed to,
-- and as a light node keeps its subscriptions with its peers, queries store nodes for past messages,
-- checks there that the messages it sent arrived, and selects the peers for this. It limits the
-- connections from an IP, and caches messages for clients of its REST interface.
--
-- The files, with the code that they model:
-- - Base: what the parts share. Go strings are lists of byte codes (Base/Text), maps are association
--   lists (Base/Dict), sets are lists with no key twice (Base/Keys), slices are lists (Base/Lists,
--   Base/Windows), `strconv` is Base/Decimal and Base/Int, single bits of a byte are Base/Bits, and
--   `(T, error)` with run-time panics is Base/Result.
-- - Protocol/PubsubTopic: waku/v2/protocol/pubsub_topic.go. `StaticShardingPubsubTopic.Parse` is
--   `parse`, `String` is `to_string`, `Equal` is `equal`, `ToWakuPubsubTopic` is
--   `to_waku_pubsub_topic`.
-- - Protocol/ContentTopic: waku/v2/protocol/content_topic.go. `StringToContentTopic` is
--   `string_to_content_topic`; the options of `NewContentTopic` are functions on the parameters.
-- - Protocol/ContentFilter: waku/v2/protocol/content_filter.go.
-- - Protocol/Message: the message of waku/v2/protocol/pb and its `Validate`.
-- - Protocol/Shard: waku/v2/protocol/shard.go. `RelayShards` and its two encodings
--   (`shard_list`/`from_shard_list`, `bit_vector`/`from_bit_vector`), `TopicsToRelayShards`; in
--   Protocol/Shard/Autosharding the functions from content topics to shards.
-- - Enr: waku/v2/protocol/enr/shards.go, the shards in a node record.
-- - Filter/Subscribers: waku/v2/protocol/filter/subscribers_map.go. `Set`, `Delete`, `DeleteAll`,
--   `Items`, `Refresh`, `Clear`, `RemoveAll` and one tick of `cleanUp` are `set`, `delete`,
--   `delete_all`, `items_for`, `refresh`, `clear`, `remove_all_subscribers` and `clean_up`.
-- - Filter/Server: waku/v2/protocol/filter/server.go with filter/pb/validation.go. `onRequest` is
--   `on_request`, its handlers `handle_subscribe`, `ping`, `handle_unsubscribe` and
--   `handle_unsubscribe_all`. They use Filter/Subscribers.
-- - Rln/NullifierLog: waku/v2/protocol/rln/nullifier_log.go. Rln/RootTracker:
--   waku/v2/protocol/rln/group_manager/root_tracker.go. Rln/Relay: `ValidateMessage` and `Validator`
--   of waku/v2/protocol/rln/waku_rln_relay.go, which use the other two.
-- - PeerManager/ConnectionGater: waku/v2/peermanager/connection_gater.go.
-- - PeerManager/Selection: peer_selection.go and service_slot.go of waku/v2/peermanager, with
--   `PeersByPubSubTopics` of waku/v2/peerstore/waku_peer_store.go. `SelectRandom` is `select_random`,
--   `getRandom` is `get_random`; the order in which Go ranges over a set of peers is that of a list.
-- - Protocol/Subscription: subscriptions_map.go and subscription_details.go of
--   waku/v2/protocol/subscription. A `*SubscriptionDetails` is an ID that leads to the details in a
--   store, which the maps and the client share. `Protocol/Subscription/Runs` has the sequences of calls.
-- - Protocol/Store: the validation of waku/v2/protocol/store/pb and the requests and results of
--   waku/v2/protocol/store/client.go (Protocol/Store/Client).
-- - Protocol/Broadcast: broadcast.go and subscription.go of waku/v2/protocol/relay. A channel is a
--   number that leads to its state in a store; Protocol/Broadcast/Channels has the operations that send
--   to channels and close them, `Stop` among them.
-- - Api/History: waku/v2/api/history/history.go. `HistoryRetriever.Query` cuts a time range and a list
--   of content topics into requests and follows their pages.
-- - Api/Publish/SentCheck: waku/v2/api/publish/message_check.go, the check that sent messages are
--   stored.
-- - Api/Missing: waku/v2/api/missing/missing_messages.go, the loop of `fetchMessagesBatch` over the pages
--   of a result, with the retries of `storeQueryWithRetry`. It uses Protocol/Store/Client.
-- - Rest/Message and Rest/FilterCache: message.go and filter_cache.go of cmd/waku/server/rest.
-- - Service/CommonService: waku/v2/service/common_service.go, the start and stop of a protocol.
-- Each part has its theorems in modules below it, and runs of the code in its module Tests.
--
-- State is passed explicitly: an operation takes the record that stands for the receiver and returns
-- the new one, with its result. Errors are the errors of a result type, panics its third case.
-- Concurrent calls are sequences of calls here. Most of them hold a lock in the code; where they do not,
-- a sequence of whole calls is a choice of the model: `getMessages` of the REST cache writes under a
-- read lock, `ValidateMessage` looks for a duplicate and inserts under two locks, and `Submit` of the
-- broadcaster tests and sends under none, which is modelled as two calls too. Iterations over a map
-- follow the order of the association list. Numbers of `uint16` and bytes are natural numbers with the
-- wrap-around written out; a length or a count is a natural number. The absolute value of an epoch's
-- gap goes through a 64-bit float as in the code, with what amd64 does when it does not fit.
--
-- Functions are structurally recursive. Two loops follow the answers of store nodes and have fuel, the
-- work on a time range in Api/History (`process`) and the pages of a result in Api/Missing
-- (`collect_missing`, `retry`): each has a theorem that some fuel is enough when the answers end. The
-- batches of content topics (`produce`) have the number of topics as fuel, and each takes at least one.
-- `float_unit` halves a number of 64 bits at most eleven times, down to the 53 bits of a float.
--
-- Parameters stand for code of other modules: SHA-256 and Keccak-256 as functions from texts, the
-- RLN and protobuf libraries as the record `RlnLibrary`, `manet.ToIP` as a partial function, the
-- answers of store nodes as functions of the request, the peer store of libp2p as a record. Where a
-- theorem needs to know something of a parameter it says so: that the digests of some topics differ,
-- or that the `Equals` of two proofs' metadata compares all their fields.
--
-- Not modelled: input and output (streams, dialling, HTTP, SQL), logging and metrics, goroutines and
-- timers beyond the steps that they run, cryptography, and other parts of the node: the client of the
-- filter protocol, lightpush and the validators of relay, the message database, the store node cycle and the
-- intervals of missing messages,
-- the connections of the peer manager, the queue of the publish interface, discovery and Noise.
pub mod Base
pub mod Api
pub mod Protocol
pub mod Filter
pub mod Rln
pub mod PeerManager
pub mod Rest
pub mod Enr
pub mod Service
