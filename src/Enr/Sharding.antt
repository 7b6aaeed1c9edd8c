-- ===== src/Enr/Sharding.antt =====
-- What is written to a record is read from it.
use go_waku.Base.{
  ℕ, ◌≡◌, ◌≢◌, ◌≤◌, refl, sym, ap, ◌∙◌, false, some, List, [], ◌∷◌, arith, ltb, leb, length,
  Bool-cases, inl, inr,
}
use go_waku.Base.Result.{ok}
use go_waku.Protocol.PubsubTopic.{max_uint16}
use go_waku.Protocol.Shard.{
  RelayShards, max_shard_index, shard_list, from_shard_list, from_bit_vector, contains_shard,
}
use go_waku.Protocol.Shard.Sets.{AreIndexes, SameShards, new_relay_shards_complete}
use go_waku.Protocol.Shard.ShardList.{AreUint16, from_shard_list-shard_list}
use go_waku.Protocol.Shard.BitVector.{from_bit_vector-bit_vector}
use go_waku.Protocol.Shard.Topics.{contains_shard-contains}
use go_waku.Enr.{
  Record, Entry, absent, bytes, delete_sharding_enr_entries, with_waku_relay_shard_list,
  with_waku_relay_sharding_bit_vector, with_waku_relay_sharding, relay_shard_list,
  relay_sharding_bit_vector, relay_sharding, shards_contain, record_contains_shard,
}

AreIndexes-AreUint16 : (ids : List ℕ) → AreIndexes ids → AreUint16 ids
AreIndexes-AreUint16 [] h = tt
AreIndexes-AreUint16 (i ∷ ids) h = (omega (arith, h.0), AreIndexes-AreUint16 ids h.1)

-- The record holds the given shards.
abbrev pub Holds : RelayShards → Record → Type 0
Holds rs node =
    (back : RelayShards) × (relay_sharding node ≡ ok (some back))
    × (back.cluster_id ≡ rs.cluster_id)
    × SameShards back.shard_ids rs.shard_ids

read_list :
    (ids : List ℕ) (back : RelayShards) (other : Entry)
    → from_shard_list ids ≡ ok back
    → relay_sharding (record { indices_list = bytes ids; sharding_bit_vector = other })
      ≡ ok (some back)
unfolding relay_sharding relay_shard_list
read_list ids back other h = ground (arith, h)

read_vector :
    (vec : List ℕ) (back : RelayShards)
    → from_bit_vector vec ≡ ok back
    → relay_sharding (record { indices_list = absent; sharding_bit_vector = bytes vec })
      ≡ ok (some back)
unfolding relay_sharding relay_shard_list relay_sharding_bit_vector
read_vector vec back h = ground (arith, h)

shard_list-Holds :
    (rs : RelayShards) (node : Record)
    → rs.cluster_id ≤ max_uint16
    → AreIndexes rs.shard_ids
    → rs.shard_ids ≢ []
    → length rs.shard_ids ≤ 255
    → (node' : Record) × (with_waku_relay_shard_list rs node ≡ ok node') × Holds rs node'
unfolding with_waku_relay_shard_list delete_sharding_enr_entries
shard_list-Holds rs node hc hi full few =
    let (back, made, cluster, same) =
      new_relay_shards_complete rs.cluster_id rs.shard_ids hi full in
    let read = from_shard_list-shard_list rs hc (AreIndexes-AreUint16 rs.shard_ids hi) few ∙ made in
    (
      record { indices_list = bytes (shard_list rs); sharding_bit_vector = absent },
      refl,
      (back, read_list (shard_list rs) back absent read, cluster, same),
    )

bit_vector-Holds :
    (rs : RelayShards) (node : Record)
    → rs.cluster_id ≤ max_uint16
    → AreIndexes rs.shard_ids
    → (node' : Record) × (with_waku_relay_sharding_bit_vector rs node ≡ ok node') × Holds rs node'
unfolding with_waku_relay_sharding_bit_vector delete_sharding_enr_entries
bit_vector-Holds rs node hc hi =
    let (vec, back, written, _, read, cluster, same) = from_bit_vector-bit_vector rs hc hi in
    (
      record { indices_list = absent; sharding_bit_vector = bytes vec },
      rw written refl,
      (back, read_vector vec back read, cluster, same),
    )

with_waku_relay_sharding-Holds :
    (rs : RelayShards) (node : Record)
    → rs.cluster_id ≤ max_uint16
    → AreIndexes rs.shard_ids
    → rs.shard_ids ≢ []
    → (node' : Record) × (with_waku_relay_sharding rs node ≡ ok node') × Holds rs node'
unfolding with_waku_relay_sharding
with_waku_relay_sharding-Holds rs node hc hi full =
    elim (Bool-cases (leb 64 (length rs.shard_ids))) [
      | inl many ↦
          let (node', made, held) = bit_vector-Holds rs node hc hi in (node', rw many made, held)
      | inr few ↦
          let (node', made, held) = shard_list-Holds rs node hc hi full (ground arith) in
          (node', rw few made, held)
    ]

-- `WithWakuRelaySharding` on shards of 16-bit cluster and valid indexes, one at least, succeeds, and
-- `ContainsShard` then finds in the record exactly the shards that were given, whichever of the two
-- fields they are stored in.
pub contains_shard-with_sharding :
    (rs : RelayShards) (node : Record) (cluster index : ℕ)
    → rs.cluster_id ≤ max_uint16
    → AreIndexes rs.shard_ids
    → rs.shard_ids ≢ []
    → index ≤ max_shard_index
    → (node' : Record) × (with_waku_relay_sharding rs node ≡ ok node')
      × (record_contains_shard node' cluster index ≡ ok (contains_shard rs cluster index))
unfolding record_contains_shard shards_contain
contains_shard-with_sharding rs node cluster index hc hi full le =
    let (node', made, (back, read, same_cluster, same)) =
      with_waku_relay_sharding-Holds rs node hc hi full in
    let inside : ltb max_shard_index index ≡ false = ground arith in
    let equal : contains_shard back cluster index ≡ contains_shard rs cluster index =
      contains_shard-contains back cluster index
      ∙ rw (same_cluster, same index) (sym (contains_shard-contains rs cluster index)) in
    (node', made, rw (inside, read) (ap (λ b. ok b) equal))
