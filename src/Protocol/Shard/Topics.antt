-- ===== src/Protocol/Shard/Topics.antt =====
-- `TopicsToRelayShards` groups the sharded topics of a list by cluster; `ContainsAnyShard` and its
-- kin look a shard up.
use go_waku.Base.{
  ℕ, ◌≡◌, ◌≢◌, refl, sym, ◌∙◌, Bool, true, false, ◌||◌, ◌&&◌, none, List, [], ◌∷◌, arith,
  Bool-cases, inl, inr, if◌then◌else◌, ◌==◌, ℕ_discrete,
}
use go_waku.Base.Lists.{All}
use go_waku.Base.Text.{Text}
use go_waku.Base.Dict.{Dict, lookup, insert, lookup-insert, IsDistinct, insert-IsDistinct}
use go_waku.Base.Keys.{contains, add, contains-add}
use go_waku.Base.Result.{Result, ok, err, panic, >>=-eq-ok}
use go_waku.Protocol.PubsubTopic.{
  StaticShardingPubsubTopic, TopicError, invalid_sharded_topic_prefix, parse, has_prefix,
}
use go_waku.Protocol.Shard.{
  RelayShards, new_relay_shards, any_index, any_shard, contains_any_shard, contains_shard,
  lift_topic, shards_of, note_shard, group_topics, build_shards, topics_to_relay_shards,
}
use go_waku.Protocol.Shard.Sets.{new_relay_shards_sound}

any_shard_one :
    (ids : List ℕ) (index : ℕ) → any_shard ids (index ∷ []) ≡ contains ℕ_discrete index ids
unfolding any_shard any_index contains
any_shard_one [] index = refl
any_shard_one (i ∷ ids) index = ground (arith, any_shard_one ids index)

-- `Contains` looks the shard up in the value's own cluster.
pub contains_shard-contains :
    (rs : RelayShards) (cluster index : ℕ)
    → contains_shard rs cluster index
      ≡ (rs.cluster_id == cluster) && contains ℕ_discrete index rs.shard_ids
unfolding contains_shard contains_any_shard
contains_shard-contains rs cluster index = ground (arith, any_shard_one rs.shard_ids index)

-- Some topic of the list is read as the shard of the cluster.
unfoldable pub names : List Text → ℕ → ℕ → Bool
names [] cluster shard = false
names (t ∷ ts) cluster shard = elim (parse t) [
  | ok ps ↦ ((ps.cluster_id == cluster) && (ps.shard_id == shard)) || names ts cluster shard
  | _ ↦ names ts cluster shard
]

-- Some value of the list contains the shard of the cluster.
unfoldable pub some_contains : List RelayShards → ℕ → ℕ → Bool
some_contains [] cluster shard = false
some_contains (rs ∷ rest) cluster shard =
    contains_shard rs cluster shard || some_contains rest cluster shard

-- What `dict[ps.clusterID] = shardIDs` changes.
shards_of-insert :
    (k cluster : ℕ) (ids : List ℕ) (dict : Dict ℕ (List ℕ))
    → shards_of cluster (insert ℕ_discrete k ids dict)
      ≡ (if k == cluster then ids else shards_of cluster dict)
unfolding shards_of
shards_of-insert k cluster ids dict = ground (arith, lookup-insert ℕ_discrete k cluster ids dict)

shards_of-note_shard :
    (ps : StaticShardingPubsubTopic) (dict : Dict ℕ (List ℕ)) (cluster shard : ℕ)
    → contains ℕ_discrete shard (shards_of cluster (note_shard ps dict))
      ≡ ((ps.cluster_id == cluster) && (ps.shard_id == shard))
        || contains ℕ_discrete shard (shards_of cluster dict)
unfolding note_shard
shards_of-note_shard ps dict cluster shard =
    let ids = shards_of ps.cluster_id dict in
    ground (
      arith,
      shards_of-insert ps.cluster_id cluster (add ℕ_discrete ps.shard_id ids) dict,
      contains-add ℕ_discrete ps.shard_id shard ids,
    )

no_prefix : (t : Text) → has_prefix t ≡ false → (parse t) ≡ err invalid_sharded_topic_prefix
unfolding has_prefix parse
no_prefix t h = ground arith

group_step_inv :
    (t : Text) (ts : List Text) (dict d : Dict ℕ (List ℕ))
    → has_prefix t ≡ true
    → group_topics (t ∷ ts) dict ≡ ok d
    → (ps : StaticShardingPubsubTopic) × (parse t ≡ ok ps)
      × (group_topics ts (note_shard ps dict) ≡ ok d)
unfolding group_topics
group_step_inv t ts dict d e h = >>=-eq-ok (parse t) _ (rw (e, group_topics) at h)

-- One topic that was read, and the topics after it.
note_more :
    (ps : StaticShardingPubsubTopic) (dict d : Dict ℕ (List ℕ)) (cluster shard : ℕ) (more : Bool)
    → contains ℕ_discrete shard (shards_of cluster d)
      ≡ more || contains ℕ_discrete shard (shards_of cluster (note_shard ps dict))
    → contains ℕ_discrete shard (shards_of cluster d)
      ≡ (((ps.cluster_id == cluster) && (ps.shard_id == shard)) || more)
        || contains ℕ_discrete shard (shards_of cluster dict)
note_more ps dict d cluster shard more h =
    ground (arith, shards_of-note_shard ps dict cluster shard)

group_topics_lem :
    (ts : List Text) (dict d : Dict ℕ (List ℕ)) (cluster shard : ℕ)
    → group_topics ts dict ≡ ok d
    → contains ℕ_discrete shard (shards_of cluster d)
      ≡ names ts cluster shard || contains ℕ_discrete shard (shards_of cluster dict)
unfolding group_topics names
group_topics_lem [] dict d cluster shard h = ground arith
group_topics_lem (t ∷ ts) dict d cluster shard h = elim (Bool-cases (has_prefix t)) [
  | inl e ↦
      let (ps, read, h') = group_step_inv t ts dict d e h in
      rw (read, names)
        (note_more ps dict d cluster shard (names ts cluster shard)
          (group_topics_lem ts (note_shard ps dict) d cluster shard h'))
  | inr e ↦
      rw (no_prefix t e, names)
        (group_topics_lem ts dict d cluster shard (rw (e, group_topics) at h))
]

group_topics-IsDistinct :
    (ts : List Text) (dict d : Dict ℕ (List ℕ))
    → IsDistinct ℕ_discrete dict
    → group_topics ts dict ≡ ok d
    → IsDistinct ℕ_discrete d
unfolding group_topics
group_topics-IsDistinct [] dict d distinct h = let e : dict ≡ d = cc in rw (← e) distinct
group_topics-IsDistinct (t ∷ ts) dict d distinct h = elim (Bool-cases (has_prefix t)) [
  | inl e ↦
      let (ps, read, h') = group_step_inv t ts dict d e h in
      group_topics-IsDistinct ts (note_shard ps dict) d
        (unfold note_shard in insert-IsDistinct ℕ_discrete ps.cluster_id _ dict distinct) h'
  | inr e ↦ group_topics-IsDistinct ts dict d distinct (rw (e, group_topics) at h)
]

lift_topic_inv : {A : Type 0} (r : Result TopicError A) (a : A) → lift_topic r ≡ ok a → r ≡ ok a
unfolding lift_topic
lift_topic_inv (ok b) a h = cc
lift_topic_inv (err e) a h = cc
lift_topic_inv panic a h = cc

lookup-none_cons :
    (j k : ℕ) (ids : List ℕ) (d : Dict ℕ (List ℕ))
    → lookup ℕ_discrete k ((j, ids) ∷ d) ≡ none
    → (j ≢ k) × (lookup ℕ_discrete k d ≡ none)
unfolding lookup
lookup-none_cons j k ids d h = ground arith

-- One value for each cluster.
abbrev pub Separate : List RelayShards → Type 0
Separate [] = Unit
Separate (rs ∷ rest) = All (λ q. q.cluster_id ≢ rs.cluster_id) rest × Separate rest

-- The parts of a successful round.
build_step_inv :
    (k : ℕ) (ids : List ℕ) (d : Dict ℕ (List ℕ)) (rss : List RelayShards)
    → build_shards ((k, ids) ∷ d) ≡ ok rss
    → (rs : RelayShards) × (rest : List RelayShards) × (new_relay_shards k ids ≡ ok rs)
      × (build_shards d ≡ ok rest)
      × (rss ≡ rs ∷ rest)
unfolding build_shards
build_step_inv k ids d rss h =
    let (rs, made, h1) = >>=-eq-ok (new_relay_shards k ids) _ h in
    let (rest, more, h2) = >>=-eq-ok (build_shards d) _ h1 in (rs, rest, made, more, cc)

build_shards_other :
    (d : Dict ℕ (List ℕ)) (rss : List RelayShards) (k : ℕ)
    → lookup ℕ_discrete k d ≡ none
    → build_shards d ≡ ok rss
    → All (λ q. q.cluster_id ≢ k) rss
build_shards_other [] rss k new h = unfold build_shards in let e : rss ≡ [] = cc in rw e tt
build_shards_other ((j, ids) ∷ d) rss k new h =
    let (rs, rest, made, more, e) = build_step_inv j ids d rss h in
    let (_, _, same, _) = new_relay_shards_sound j ids rs made in
    let (other, rest_new) = lookup-none_cons j k ids d new in
    rw e ((λ p. other (sym same ∙ p)), build_shards_other d rest k rest_new more)

build_shards-Separate :
    (d : Dict ℕ (List ℕ)) (rss : List RelayShards)
    → IsDistinct ℕ_discrete d
    → build_shards d ≡ ok rss
    → Separate rss
build_shards-Separate [] rss distinct h = unfold build_shards in let e : rss ≡ [] = cc in rw e tt
build_shards-Separate ((k, ids) ∷ d) rss distinct h =
    let (rs, rest, made, more, e) = build_step_inv k ids d rss h in
    let (_, _, same, _) = new_relay_shards_sound k ids rs made in
    rw (e, same)
      (build_shards_other d rest k distinct.0 more, build_shards-Separate d rest distinct.1 more)

shards_of-cons :
    (k : ℕ) (ids : List ℕ) (d : Dict ℕ (List ℕ)) (cluster shard : ℕ)
    → lookup ℕ_discrete k d ≡ none
    → ((k == cluster) && contains ℕ_discrete shard ids)
        || contains ℕ_discrete shard (shards_of cluster d)
      ≡ contains ℕ_discrete shard (shards_of cluster ((k, ids) ∷ d))
unfolding shards_of lookup contains
shards_of-cons k ids d cluster shard new = elim (ℕ_discrete k cluster) [
  | yes e ↦ rw (← e) (rw (new, shards_of) (ground arith))
  | no e ↦ ground arith
]

build_shards_lem :
    (d : Dict ℕ (List ℕ)) (rss : List RelayShards) (cluster shard : ℕ)
    → IsDistinct ℕ_discrete d
    → build_shards d ≡ ok rss
    → some_contains rss cluster shard ≡ contains ℕ_discrete shard (shards_of cluster d)
unfolding some_contains
build_shards_lem [] rss cluster shard distinct h =
    unfold build_shards shards_of lookup contains in let e : rss ≡ [] = cc in rw e
build_shards_lem ((k, ids) ∷ d) rss cluster shard distinct h =
    let (rs, rest, made, more, e) = build_step_inv k ids d rss h in
    let (_, _, same, shards) = new_relay_shards_sound k ids rs made in
    rw
      (
        e,
        contains_shard-contains rs cluster shard,
        same,
        shards shard,
        build_shards_lem d rest cluster shard distinct.1 more,
      )
      (shards_of-cons k ids d cluster shard distinct.0)

-- The result of `TopicsToRelayShards` has one value for each cluster, and together they contain the
-- shards that the topics of the list name, and no other.
pub topics_to_relay_shards_lem :
    (ts : List Text) (rss : List RelayShards)
    → topics_to_relay_shards ts ≡ ok rss
    → Separate rss
      × ((cluster shard : ℕ) → some_contains rss cluster shard ≡ names ts cluster shard)
unfolding topics_to_relay_shards
topics_to_relay_shards_lem ts rss h =
    let (d, grouped, built) = >>=-eq-ok (lift_topic (group_topics ts [])) _ h in
    let g = lift_topic_inv (group_topics ts []) d grouped in
    let distinct = group_topics-IsDistinct ts [] d tt g in
    (
      build_shards-Separate d rss distinct built,
      λ cluster shard.
          build_shards_lem d rss cluster shard distinct built
          ∙ group_topics_lem ts [] d cluster shard g
          ∙ unfold shards_of lookup contains in ground arith,
    )
