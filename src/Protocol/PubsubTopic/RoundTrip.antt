-- ===== src/Protocol/PubsubTopic/RoundTrip.antt =====
-- Printing a sharded topic and reading it back, for every pair of `uint16`s.
use go_waku.Base.{
  ℕ, ◌≤◌, ◌≡◌, ◌≢◌, ◌↔◌, refl, sym, ap, ◌∙◌, true, false, some, [], ◌∷◌, ◌++◌, arith, if_pos,
  if_neg,
}
use go_waku.Base.Lists.{All, get_or}
use go_waku.Base.Text.{Text, Lacks, after_prefix, split, split-append_sep, split-Lacks, text_dec}
use go_waku.Base.Decimal.{
  format, format-IsDigit, format_cons, parse_uint, parse_uint-format, IsDigit,
}
use go_waku.Base.Result.{ok, ok-injective}
use go_waku.Protocol.PubsubTopic.{
  TopicError, StaticShardingPubsubTopic, WakuPubSubTopic, missing_cluster_index,
  missing_shard_number, default, static_sharding, to_string, waku_to_string, equal, read_uint16,
  read_part, parse_parts, parse_rest, parse, to_waku_pubsub_topic, read_sharded, has_prefix, slash,
  max_uint16, default_pubsub_topic,
}

-- Both numbers are `uint16`s.
abbrev pub IsUint16 : StaticShardingPubsubTopic → Type 0
IsUint16 t = (t.cluster_id ≤ max_uint16) × (t.shard_id ≤ max_uint16)

-- The numbers of a sharded topic are `uint16`s.
abbrev pub IsInRange : WakuPubSubTopic → Type 0
IsInRange default = Unit
IsInRange (static_sharding t) = IsUint16 t

IsDigit-Lacks : (s : Text) → All IsDigit s → Lacks slash s
IsDigit-Lacks [] h = tt
IsDigit-Lacks (c ∷ s) h = (omega arith, IsDigit-Lacks s h.1)

format-Lacks : (n : ℕ) → Lacks slash (format n)
format-Lacks n = IsDigit-Lacks (format n) (format-IsDigit n)

read_part-format : (e : TopicError) (n : ℕ) → n ≤ max_uint16 → read_part e (format n) ≡ ok n
unfolding read_part read_uint16
read_part-format e n h =
    let (c, s, first) = format_cons n in
    let read : parse_uint max_uint16 (c ∷ s) ≡ some n =
      rw (← first) (parse_uint-format max_uint16 n h) in
    rw (first, read_part) (rw (read, read_uint16))

split-body :
    (t : StaticShardingPubsubTopic)
    → split slash (format t.cluster_id ++ slash ∷ format t.shard_id)
      ≡ format t.cluster_id ∷ format t.shard_id ∷ []
split-body t =
    split-append_sep slash (format t.cluster_id) (format t.shard_id) (format-Lacks t.cluster_id)
    ∙ ap (◌∷◌ (format t.cluster_id))
        (split-Lacks slash (format t.shard_id) (format-Lacks t.shard_id))

-- A sharded topic whose numbers are `uint16`s is read back from its text.
pub parse-to_string : (t : StaticShardingPubsubTopic) → IsUint16 t → parse (to_string t) ≡ ok t
unfolding parse parse_rest parse_parts to_string after_prefix
parse-to_string t h = rw (split-body t) (
    rw (
      read_part-format missing_cluster_index t.cluster_id h.0,
      read_part-format missing_shard_number t.shard_id h.1,
    ))

to_string-injective :
    (s t : StaticShardingPubsubTopic) → IsUint16 s → IsUint16 t → to_string s ≡ to_string t → s ≡ t
to_string-injective s t hs ht e =
    ok-injective (sym (parse-to_string s hs) ∙ ap parse e ∙ parse-to_string t ht)

-- `Equal` compares the texts, and that decides whether the topics are the same.
pub equal_iff :
    (s t : StaticShardingPubsubTopic) → IsUint16 s → IsUint16 t → (equal s t ≡ true) ↔ (s ≡ t)
unfolding equal
equal_iff s t hs ht = (
  λ e. to_string-injective s t hs ht (ground arith),
  λ e. if_pos (text_dec (to_string s) (to_string t)) (ap to_string e) true false,
)

-- The text of a sharded topic is not the default pubsub topic.
to_string-ne-default : (t : StaticShardingPubsubTopic) → to_string t ≢ default_pubsub_topic
unfolding to_string
to_string-ne-default t e = let h = ap (λ (s : Text). get_or s 8 0) e in omega arith

has_prefix-to_string : (t : StaticShardingPubsubTopic) → has_prefix (to_string t) ≡ true
unfolding has_prefix to_string after_prefix
has_prefix-to_string t = refl

read_sharded-to_string :
    (t : StaticShardingPubsubTopic)
    → IsUint16 t
    → read_sharded (to_string t) ≡ ok (static_sharding t)
unfolding read_sharded
read_sharded-to_string t h = rw (has_prefix-to_string t, read_sharded) (rw (parse-to_string t h))

-- `ToWakuPubsubTopic` gives back every topic, the default one and the sharded ones, from its text.
pub to_waku_pubsub_topic-waku_to_string :
    (t : WakuPubSubTopic) → IsInRange t → to_waku_pubsub_topic (waku_to_string t) ≡ ok t
unfolding waku_to_string
to_waku_pubsub_topic-waku_to_string default h =
    unfold to_waku_pubsub_topic in if_pos (text_dec _ _) refl _ _
to_waku_pubsub_topic-waku_to_string (static_sharding t) h =
    unfold to_waku_pubsub_topic in
    if_neg (text_dec _ _) (to_string-ne-default t) _ _ ∙ read_sharded-to_string t h
