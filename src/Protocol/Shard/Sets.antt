-- ===== src/Protocol/Shard/Sets.antt =====
-- `NewRelayShards` as a constructor of sets of shard indexes.
use go_waku.Base.{
  ℕ, ◌≤◌, ◌<◌, ◌≡◌, ◌≢◌, refl, ap, ◌∙◌, List, [], ◌∷◌, arith, ℕ_discrete, length, if◌then◌else◌,
  ◌==◌,
}
use go_waku.Base.Lists.{All}
use go_waku.Base.Keys.{contains, add, add_all, contains-add_all, length-le-add}
use go_waku.Base.Result.{Result, ok, err, >>=-eq-ok}
use go_waku.Protocol.Shard.{
  RelayShards, ShardError, max_shard_index, collect, invalid_shard_count, new_relay_shards,
}

-- Every index is at most 1023.
abbrev pub AreIndexes : List ℕ → Type 0
AreIndexes = All (λ i. i ≤ max_shard_index)

-- Two lists hold the same shards.
abbrev pub SameShards : List ℕ → List ℕ → Type 0
SameShards xs ys = (i : ℕ) → contains ℕ_discrete i xs ≡ contains ℕ_discrete i ys

collect-add_all : (ids s : List ℕ) → AreIndexes ids → collect ids s ≡ ok (add_all ℕ_discrete ids s)
unfolding collect add_all
collect-add_all [] s h = refl
collect-add_all (i ∷ ids) s h = ground (arith, collect-add_all ids (add ℕ_discrete i s) h.1)

collect_sound :
    (ids s t : List ℕ) → collect ids s ≡ ok t → AreIndexes ids × (t ≡ add_all ℕ_discrete ids s)
unfolding collect add_all
collect_sound [] s t h = (tt, ground arith)
collect_sound (i ∷ ids) s t h = ground (arith, collect_sound ids (add ℕ_discrete i s) t)

length-le-add_all : (ids s : List ℕ) → length s ≤ length (add_all ℕ_discrete ids s)
unfolding add_all
length-le-add_all [] s = omega arith
length-le-add_all (i ∷ ids) s =
    omega (arith, length-le-add_all ids (add ℕ_discrete i s), length-le-add ℕ_discrete i s)

add_all-ne-nil : (ids : List ℕ) → ids ≢ [] → 0 < length (add_all ℕ_discrete ids [])
unfolding add_all add
add_all-ne-nil [] h = absurd (h refl)
add_all-ne-nil (i ∷ ids) h = omega (arith, length-le-add_all ids (i ∷ []))

add_all-SameShards : (ids : List ℕ) → SameShards (add_all ℕ_discrete ids []) ids
unfolding contains
add_all-SameShards ids i = contains-add_all ℕ_discrete i ids [] ∙ ground arith

-- Indexes of at most 1023, one at least, make a value that holds the same shards.
pub new_relay_shards_complete :
    (cluster : ℕ) (ids : List ℕ)
    → AreIndexes ids
    → ids ≢ []
    → (rs : RelayShards) × (new_relay_shards cluster ids ≡ ok rs)
      × (rs.cluster_id ≡ cluster)
      × SameShards rs.shard_ids ids
unfolding new_relay_shards
new_relay_shards_complete cluster ids h full = (
  record { cluster_id = cluster; shard_ids = add_all ℕ_discrete ids [] },
  rw (collect-add_all ids [] h) (ground (arith, add_all-ne-nil ids full)),
  refl,
  add_all-SameShards ids,
)

finish_inv :
    (cluster : ℕ) (s : List ℕ) (rs : RelayShards)
    → ◌≡◌ {A = Result ShardError RelayShards}
        (if length s == 0
          then err invalid_shard_count
          else ok (record { cluster_id = cluster; shard_ids = s }))
        (ok rs)
    → (0 < length s) × (rs ≡ record { cluster_id = cluster; shard_ids = s })
finish_inv cluster s rs h = ground arith

-- No other list of indexes is accepted.
pub new_relay_shards_sound :
    (cluster : ℕ) (ids : List ℕ) (rs : RelayShards)
    → new_relay_shards cluster ids ≡ ok rs
    → AreIndexes ids × (ids ≢ []) × (rs.cluster_id ≡ cluster) × SameShards rs.shard_ids ids
unfolding new_relay_shards
new_relay_shards_sound cluster ids rs h =
    let (s, collected, h') = >>=-eq-ok (collect ids []) _ h in
    let (valid, e) = collect_sound ids [] s collected in
    let (filled, made) = finish_inv cluster s rs h' in
    (
      valid,
      λ none_given.
          unfold add_all in ground (arith, filled, ap (λ l. add_all ℕ_discrete l []) none_given),
      ap (λ (r : RelayShards). r.cluster_id) made,
      λ i. rw (made, e) (add_all-SameShards ids i),
    )
