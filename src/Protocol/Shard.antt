-- ===== src/Protocol/Shard.antt =====
-- waku/v2/protocol/shard.go. A `uint16` is a number below 2 ^ 16 and a byte one below 2 ^ 8. Go
-- leaves the order of a map's keys open; the model takes them in the order of insertion, and the
-- theorems speak of what a list of shards contains.
pub mod Sets
pub mod ShardList
pub mod BitVector
pub mod Topics
pub mod Autosharding
mod Tests
use Prim.Native.Nat.{bit_and, bit_or}
use go_waku.Base.{
  ℕ, zero, suc, ◌+◌, ◌-◌, ◌*◌, ◌/◌, ◌%◌, ◌^◌, ◌≡◌, Bool, true, false, not, Option, none, some, List,
  [], ◌∷◌, ◌++◌, map, if◌then◌else◌, ltb, ◌==◌, length, get_or, set, replicate, ite, ℕ_discrete,
}
use go_waku.Base.Text.{Text, text_dec}
use go_waku.Base.Dict.{Dict, lookup, insert}
use go_waku.Base.Keys.{contains, add}
use go_waku.Base.Result.{Result, ok, err, panic, ◌>>=◌}
use go_waku.Protocol.PubsubTopic.{
  StaticShardingPubsubTopic, WakuPubSubTopic, TopicError, default, static_sharding, to_string,
  parse, has_prefix, to_shard_pubsub_topic, to_waku_pubsub_topic,
}

abbrev pub max_shard_index : ℕ
max_shard_index = 1023

abbrev pub cluster_index : ℕ
cluster_index = 1

abbrev pub generation_zero_shards_count : ℕ
generation_zero_shards_count = 8

-- The errors of this file, and those that it passes on.
pub data ShardError : Type 0 where
  invalid_shard invalid_shard_count expected_130_bytes insufficient_data invalid_data : ShardError
  topic_error : TopicError → ShardError

pub record RelayShards : Type 0 where
  pub cluster_id : ℕ
  pub shard_ids : List ℕ

-- The loop of `NewRelayShards` over the given indexes.
unfoldable pub collect : List ℕ → List ℕ → Result ShardError (List ℕ)
collect [] shard_id_set = ok shard_id_set
collect (index ∷ rest) shard_id_set =
    let more = collect rest (add ℕ_discrete index shard_id_set) in
    if ltb max_shard_index index then err invalid_shard else more

unfoldable pub new_relay_shards : ℕ → List ℕ → Result ShardError RelayShards
new_relay_shards cluster_id shard_ids = do
  shard_id_set ← collect shard_ids []
  if length shard_id_set == 0
      then err invalid_shard_count
      else ok (record { cluster_id = cluster_id; shard_ids = shard_id_set })

unfoldable pub topics : RelayShards → List WakuPubSubTopic
topics rs =
    map (λ i. static_sharding (record { cluster_id = rs.cluster_id; shard_id = i })) rs.shard_ids

-- The inner loop of `ContainsAnyShard`.
unfoldable pub any_index : ℕ → List ℕ → Bool
any_index rs_idx [] = false
any_index rs_idx (idx ∷ indexes) = if rs_idx == idx then true else any_index rs_idx indexes

-- Its outer loop.
unfoldable pub any_shard : List ℕ → List ℕ → Bool
any_shard [] indexes = false
any_shard (rs_idx ∷ shard_ids) indexes =
    if any_index rs_idx indexes then true else any_shard shard_ids indexes

unfoldable pub contains_any_shard : RelayShards → ℕ → List ℕ → Bool
contains_any_shard rs cluster indexes =
    if not (rs.cluster_id == cluster) then false else any_shard rs.shard_ids indexes

unfoldable pub contains_shard : RelayShards → ℕ → ℕ → Bool
contains_shard rs cluster index = contains_any_shard rs cluster (index ∷ [])

unfoldable pub contains_shard_pubsub_topic : RelayShards → WakuPubSubTopic → Bool
contains_shard_pubsub_topic rs topic = elim (to_shard_pubsub_topic topic) [
  | ok t ↦ contains_shard rs t.cluster_id t.shard_id
  | _ ↦ false
]

-- An error of `ToWakuPubsubTopic` means false; its panic stays one.
unfoldable pub contains_topic : RelayShards → Text → Result ShardError Bool
contains_topic rs topic = elim (to_waku_pubsub_topic topic) [
  | ok t ↦ ok (contains_shard_pubsub_topic rs t)
  | err _ ↦ ok false
  | panic ↦ panic
]

lift_topic : {A : Type 0} → Result TopicError A → Result ShardError A
lift_topic (ok a) = ok a
lift_topic (err e) = err (topic_error e)
lift_topic panic = panic

-- `dict[ps.clusterID]`, or an empty set.
unfoldable pub shards_of : ℕ → Dict ℕ (List ℕ) → List ℕ
shards_of cluster dict = elim (lookup ℕ_discrete cluster dict) [ none ↦ [] | some ids ↦ ids ]

unfoldable pub note_shard : StaticShardingPubsubTopic → Dict ℕ (List ℕ) → Dict ℕ (List ℕ)
note_shard ps dict =
    insert ℕ_discrete ps.cluster_id (add ℕ_discrete ps.shard_id (shards_of ps.cluster_id dict)) dict

-- The loop of `TopicsToRelayShards` over the topics.
unfoldable pub group_topics : List Text → Dict ℕ (List ℕ) → Result TopicError (Dict ℕ (List ℕ))
group_topics [] dict = ok dict
group_topics (t ∷ rest) dict = elim (has_prefix t) [
  | false ↦ group_topics rest dict
  | true ↦ parse t >>= λ ps. group_topics rest (note_shard ps dict)
]

-- Its loop over the clusters.
unfoldable pub build_shards : Dict ℕ (List ℕ) → Result ShardError (List RelayShards)
build_shards [] = ok []
build_shards ((cluster_id, shard_ids) ∷ dict) = do
  rs ← new_relay_shards cluster_id shard_ids
  rest ← build_shards dict
  ok (rs ∷ rest)

unfoldable pub topics_to_relay_shards : List Text → Result ShardError (List RelayShards)
unfolding lift_topic
topics_to_relay_shards topic = do dict ← lift_topic (group_topics topic []); build_shards dict

-- `binary.BigEndian.AppendUint16` and `binary.BigEndian.Uint16`.
unfoldable pub uint16_bytes : ℕ → List ℕ
uint16_bytes n = (n / 256 % 256) ∷ (n % 256) ∷ []

abbrev pub uint16 : ℕ → ℕ → ℕ
uint16 hi lo = hi * 256 + lo

-- The loop of `ShardList`.
unfoldable pub index_bytes : List ℕ → List ℕ
index_bytes [] = []
index_bytes (index ∷ rest) = uint16_bytes index ++ index_bytes rest

-- The length is written as a `uint8`.
unfoldable pub shard_list : RelayShards → List ℕ
shard_list rs = uint16_bytes rs.cluster_id ++ (length rs.shard_ids % 256) ∷ index_bytes rs.shard_ids

-- The loop of `FromShardList`, over the bytes behind the first three.
unfoldable pub read_indexes : ℕ → List ℕ → List ℕ
read_indexes (suc n) (hi ∷ lo ∷ buf) = uint16 hi lo ∷ read_indexes n buf
read_indexes _ _ = []

unfoldable pub from_shard_list : List ℕ → Result ShardError RelayShards
from_shard_list (c0 ∷ c1 ∷ len ∷ buf) =
    if not (length buf + 3 == 3 + 2 * len)
    then err invalid_data
    else new_relay_shards (uint16 c0 c1) (read_indexes len buf)
from_shard_list _ = err insufficient_data

unfoldable pub set_bit : ℕ → ℕ → ℕ
set_bit n pos = bit_or n (2 ^ pos)

unfoldable pub has_bit : ℕ → ℕ → Bool
has_bit n pos = ltb 0 (bit_and n (2 ^ pos))

-- The loop of `BitVector`; an index above 1023 is out of the vector's range.
unfoldable pub set_shards : List ℕ → List ℕ → Result ShardError (List ℕ)
set_shards [] vec = ok vec
set_shards (index ∷ rest) vec =
    let n = get_or vec (index / 8) 0 in
    let more = set_shards rest (set vec (index / 8) (set_bit n (index % 8))) in
    if ltb (index / 8) (length vec) then more else panic

unfoldable pub bit_vector : RelayShards → Result ShardError (List ℕ)
bit_vector rs = do
  vec ← set_shards rs.shard_ids (replicate 128 0)
  ok (uint16_bytes rs.cluster_id ++ vec)

-- The inner loop of `FromBitVector`, with `left` bits of the byte to go from bit `j` on.
unfoldable pub byte_shards : ℕ → ℕ → ℕ → ℕ → List ℕ
byte_shards zero byte i j = []
byte_shards (suc left) byte i j =
    let rest = byte_shards left byte i (j + 1) in
    if not (has_bit byte j) then rest else (j + 8 * i) ∷ rest

-- Its outer loop over the bytes from index `i` on.
unfoldable pub vector_shards : List ℕ → ℕ → List ℕ
vector_shards [] i = []
vector_shards (byte ∷ buf) i = byte_shards 8 byte i 0 ++ vector_shards buf (i + 1)

unfoldable pub from_bit_vector : List ℕ → Result ShardError RelayShards
from_bit_vector (c0 ∷ c1 ∷ buf) =
    if not (length buf + 2 == 130)
    then err expected_130_bytes
    else ok (record { cluster_id = uint16 c0 c1; shard_ids = vector_shards buf 0 })
from_bit_vector _ = err expected_130_bytes

-- The loop of `ShardsToTopics`, with the conversions to `uint16`.
unfoldable pub shards_to_topics : ℕ → List ℕ → List Text
shards_to_topics cluster_id shards =
    map
      (λ shard. to_string (record { cluster_id = cluster_id % 2 ^ 16; shard_id = shard % 2 ^ 16 }))
      shards
