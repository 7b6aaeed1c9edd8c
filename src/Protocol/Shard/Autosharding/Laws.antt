-- ===== src/Protocol/Shard/Autosharding/Laws.antt =====
-- Where a content topic goes, and how a list of them is grouped.
use go_waku.Base.{
  ℕ, zero, suc, ◌%◌, ◌^◌, ◌≡◌, ◌≢◌, ◌⊎◌, inl, inr, ◌<◌, refl, sym, ◌∙◌, List, [], ◌∷◌, ◌++◌, ite,
  if_pos, if_neg, drop, arith, append_assoc, append-nil,
}
use go_waku.Base.Lists.{All}
use go_waku.Base.Text.{Text, text_dec}
use go_waku.Base.Dict.{Dict, lookup, insert, lookup-insert}
use go_waku.Base.Result.{ok, >>=-eq-ok, ok-injective}
use go_waku.Protocol.PubsubTopic.{StaticShardingPubsubTopic, to_string, parse}
use go_waku.Protocol.PubsubTopic.RoundTrip.{parse-to_string}
use go_waku.Protocol.ContentTopic.{ContentTopic, string_to_content_topic}
use go_waku.Protocol.Shard.{cluster_index, generation_zero_shards_count}
use go_waku.Protocol.Shard.Autosharding.{
  list_of, get_shard_from_content_topic, get_pubsub_topic_from_content_topic, group_content_topics,
  generate_pubsub_to_content_topic_map, big_endian,
}

list_of-insert :
    (k j : Text) (l : List Text) (m : Dict Text (List Text))
    → list_of j (insert text_dec k l m) ≡ ite (text_dec k j) l (list_of j m)
unfolding list_of
list_of-insert k j l m = ground (arith, lookup-insert text_dec k j l m)

module _ (sha256 : Text → List ℕ) where
  -- Autosharding puts a topic in cluster 1, on one of the given number of shards. Topics of the same
  -- application name and version are on the same shard.
  pub get_shard_range :
      (topic other : ContentTopic) (count : ℕ)
      → 0 < count
      → other.application_name ≡ topic.application_name
      → other.application_version ≡ topic.application_version
      → (t : StaticShardingPubsubTopic) × (get_shard_from_content_topic sha256 topic count ≡ ok t)
        × (get_shard_from_content_topic sha256 other count ≡ ok t)
        × (t.cluster_id ≡ cluster_index)
        × (t.shard_id < count)
  unfolding get_shard_from_content_topic
  get_shard_range topic other zero h e f = elim h [ ]
  get_shard_range topic other (suc n) h e f =
      let bytes = topic.application_name ++ topic.application_version in
      let value = big_endian (drop 24 (sha256 bytes)) 0 in
      (
        record { cluster_id = cluster_index; shard_id = value % suc n % 2 ^ 16 },
        refl,
        rw (e, f),
        refl,
        omega arith,
      )

  -- The pubsub topic of a content topic reads as a shard of cluster 1 below 8.
  pub get_pubsub_topic-parse :
      (c p : Text)
      → get_pubsub_topic_from_content_topic sha256 c ≡ ok p
      → (t : StaticShardingPubsubTopic) × (parse p ≡ ok t)
        × (t.cluster_id ≡ cluster_index)
        × (t.shard_id < generation_zero_shards_count)
  unfolding get_pubsub_topic_from_content_topic
  get_pubsub_topic-parse c p h =
      let (ct, read, h1) = >>=-eq-ok (string_to_content_topic c) _ h in
      let (t, made, h2) =
        >>=-eq-ok (get_shard_from_content_topic sha256 ct generation_zero_shards_count) _ h1 in
      let (u, made', _, cluster, low) =
        get_shard_range ct ct generation_zero_shards_count (omega arith) refl refl in
      let same : u ≡ t = ok-injective (sym made' ∙ made) in
      let text : to_string t ≡ p = ok-injective h2 in
      (u, rw (← text, ← same) (parse-to_string u (omega arith)), cluster, low)

  -- The content topics of a list that autosharding sends to the pubsub topic `p`, in order.
  unfoldable pub sent_to : Text → List Text → List Text
  sent_to p [] = []
  sent_to p (c ∷ cs) =
      let rest = sent_to p cs in
      elim (get_pubsub_topic_from_content_topic sha256 c) [
        | ok q ↦ ite (text_dec q p) (c ∷ rest) rest
        | _ ↦ rest
      ]

  group_content_topics_lem :
      (cs : List Text) (m m' : Dict Text (List Text)) (p : Text)
      → group_content_topics sha256 cs m ≡ ok m'
      → list_of p m' ≡ list_of p m ++ sent_to p cs
  unfolding group_content_topics sent_to
  group_content_topics_lem [] m m' p h =
      let e : m ≡ m' = ok-injective h in rw (← e) (sym (append-nil (list_of p m)))
  group_content_topics_lem (c ∷ cs) m m' p h =
      let (q, sent, h1) = >>=-eq-ok (get_pubsub_topic_from_content_topic sha256 c) _ h in
      let l = list_of q m ++ c ∷ [] in
      group_content_topics_lem cs (insert text_dec q l m) m' p h1
      ∙ rw (sent, sent_to)
          (ground
            (arith, list_of-insert q p l m, append_assoc (list_of q m) (c ∷ []) (sent_to p cs)))

  group_content_topics_complete :
      (cs : List Text) (m : Dict Text (List Text))
      → All (λ c. (p : Text) × (get_pubsub_topic_from_content_topic sha256 c ≡ ok p)) cs
      → (m' : Dict Text (List Text)) × (group_content_topics sha256 cs m ≡ ok m')
  unfolding group_content_topics
  group_content_topics_complete [] m h = (m, refl)
  group_content_topics_complete (c ∷ cs) m ((p, sent), rest) =
      let l = list_of p m ++ c ∷ [] in
      rw sent (group_content_topics_complete cs (insert text_dec p l m) rest)

  -- With a pubsub topic the map sends every content topic there. With none it sends each where
  -- autosharding does, in the order of the list, and nothing else anywhere.
  pub generate_map_groups :
      (topic : Text) (cs : List Text) (m : Dict Text (List Text)) (p : Text)
      → generate_pubsub_to_content_topic_map sha256 topic cs ≡ ok m
      → list_of p m ≡ ite (text_dec topic []) (sent_to p cs) (ite (text_dec topic p) cs [])
  unfolding generate_pubsub_to_content_topic_map list_of lookup
  generate_map_groups topic cs m p h = elim (text_dec topic []) [
    | yes e ↦
        rw (if_pos (text_dec topic []) e)
          (group_content_topics_lem cs [] m p (rw (if_pos (text_dec topic []) e) at h))
    | no e ↦
        let made : insert text_dec topic cs [] ≡ m =
          ok-injective (rw (if_neg (text_dec topic []) e) at h) in
        rw (if_neg (text_dec topic []) e, ← made) (list_of-insert topic p cs [])
  ]

  -- The map is made whenever there is a pubsub topic, or every content topic has one by autosharding.
  pub generate_map_complete :
      (topic : Text) (cs : List Text)
      → (topic ≢ [])
        ⊎ All (λ c. (p : Text) × (get_pubsub_topic_from_content_topic sha256 c ≡ ok p)) cs
      → (m : Dict Text (List Text)) × (generate_pubsub_to_content_topic_map sha256 topic cs ≡ ok m)
  unfolding generate_pubsub_to_content_topic_map
  generate_map_complete topic cs (inl given) =
      (insert text_dec topic cs [], if_neg (text_dec topic []) given _ _)
  generate_map_complete topic cs (inr all) = elim (text_dec topic []) [
    | yes e ↦
        let (m, made) = group_content_topics_complete cs [] all in
        (m, if_pos (text_dec topic []) e _ _ ∙ made)
    | no given ↦ (insert text_dec topic cs [], if_neg (text_dec topic []) given _ _)
  ]
