-- ===== src/Protocol/Shard/ShardList.antt =====
-- `ShardList` and `FromShardList`: two bytes of the cluster, one of the length, two for each index.
use go_waku.Base.{ℕ, ◌+◌, ◌*◌, ◌/◌, ◌%◌, ◌≤◌, ◌<◌, ◌≡◌, refl, ap, List, [], ◌∷◌, arith, length}
use go_waku.Base.Lists.{All}
use go_waku.Base.Result.{err}
use go_waku.Protocol.PubsubTopic.{max_uint16}
use go_waku.Protocol.Shard.{
  RelayShards, invalid_data, new_relay_shards, uint16_bytes, index_bytes, shard_list, read_indexes,
  from_shard_list,
}

abbrev pub AreUint16 : List ℕ → Type 0
AreUint16 = All (λ i. i ≤ max_uint16)

length-index_bytes : (ids : List ℕ) → length (index_bytes ids) ≡ 2 * length ids
unfolding index_bytes uint16_bytes
length-index_bytes [] = refl
length-index_bytes (i ∷ ids) = omega (arith, length-index_bytes ids)

read_indexes-index_bytes :
    (ids : List ℕ) → AreUint16 ids → read_indexes (length ids) (index_bytes ids) ≡ ids
unfolding read_indexes index_bytes uint16_bytes
read_indexes-index_bytes [] h = refl
read_indexes-index_bytes (i ∷ ids) h =
    let e : i / 256 % 256 * 256 + i % 256 ≡ i = omega arith in
    rw (read_indexes-index_bytes ids h.1) (ap (λ n. n ∷ ids) e)

-- A list of at most 255 shards is read back from its bytes, up to what `NewRelayShards` does to it.
pub from_shard_list-shard_list :
    (rs : RelayShards)
    → rs.cluster_id ≤ max_uint16
    → AreUint16 rs.shard_ids
    → length rs.shard_ids ≤ 255
    → from_shard_list (shard_list rs) ≡ new_relay_shards rs.cluster_id rs.shard_ids
unfolding from_shard_list shard_list uint16_bytes
from_shard_list-shard_list rs hc hi hl =
    let c : rs.cluster_id / 256 % 256 * 256 + rs.cluster_id % 256 ≡ rs.cluster_id = omega arith in
    let l : length rs.shard_ids % 256 ≡ length rs.shard_ids = omega arith in
    let bytes = length-index_bytes rs.shard_ids in
    rw (c, l) (ground (arith, bytes, read_indexes-index_bytes rs.shard_ids hi))

-- The length byte wraps around: the bytes of a longer list are refused.
pub from_shard_list_overflow :
    (rs : RelayShards)
    → 255 < length rs.shard_ids
    → from_shard_list (shard_list rs) ≡ err invalid_data
unfolding from_shard_list shard_list uint16_bytes
from_shard_list_overflow rs h = ground (arith, length-index_bytes rs.shard_ids)
