-- ===== src/Protocol/PubsubTopic/Parse.antt =====
-- What `Parse` accepts, and the input at which it panics.
use go_waku.Base.{
  ℕ, ◌≤◌, ◌≡◌, ◌≢◌, ◌↔◌, inl, inr, refl, sym, ap, ◌∙◌, List, [], ◌∷◌, ◌++◌, arith, Option-cases,
}
use go_waku.Base.Lists.{All}
use go_waku.Base.Text.{Text, after_prefix, after_prefix_sound, split, join, join-split}
use go_waku.Base.Decimal.{parse_uint_sound, IsDigit, value}
use go_waku.Base.Result.{ok, panic}
use go_waku.Protocol.PubsubTopic.{
  TopicError, StaticShardingPubsubTopic, read_uint16, read_part, parse_parts, parse_rest, parse,
  slash, max_uint16, static_sharding_prefix, missing_cluster_index, missing_shard_number,
}

-- `s` is a run of digits that spells the `uint16` `n`.
abbrev pub Spells : Text → ℕ → Type 0
Spells s n = (s ≢ []) × All IsDigit s × (n ≡ value 0 s) × (n ≤ max_uint16)

read_uint16_sound : (s : Text) (n : ℕ) → read_uint16 s ≡ ok n → Spells s n
unfolding read_uint16
read_uint16_sound s n h = parse_uint_sound max_uint16 s n (ground arith)

read_part_sound : (e : TopicError) (s : Text) (n : ℕ) → read_part e s ≡ ok n → Spells s n
read_part_sound e [] n h = unfold read_part in absurd (cc)
read_part_sound e (c ∷ s) n h = read_uint16_sound (c ∷ s) n (unfold read_part in h)

read_both :
    (a b : Text) (t : StaticShardingPubsubTopic)
    → parse_parts (a ∷ b ∷ []) ≡ ok t
    → (read_part missing_cluster_index a ≡ ok t.cluster_id)
      × (read_part missing_shard_number b ≡ ok t.shard_id)
unfolding parse_parts
read_both a b t h = ground arith

parse_parts_sound :
    (ps : List Text) (t : StaticShardingPubsubTopic)
    → parse_parts ps ≡ ok t
    → (a b : Text) × (ps ≡ a ∷ b ∷ []) × Spells a t.cluster_id × Spells b t.shard_id
parse_parts_sound (a ∷ b ∷ []) t h =
    let (first, second) = read_both a b t h in
    (a, b, refl, read_part_sound _ a _ first, read_part_sound _ b _ second)
parse_parts_sound _ t h = unfold parse_parts in absurd (cc)

parse_rest_sound :
    (rest : Text) (t : StaticShardingPubsubTopic)
    → parse_rest rest ≡ ok t
    → (x : ℕ) × (a b : Text) × (rest ≡ x ∷ (a ++ slash ∷ b))
      × Spells a t.cluster_id
      × Spells b t.shard_id
unfolding parse_rest
parse_rest_sound [] t h = absurd (cc)
parse_rest_sound (x ∷ body) t h =
    let (a, b, e, first, second) = parse_parts_sound (split slash body) t h in
    (x, a, b, ap (◌∷◌ x) (sym (join-split slash body) ∙ ap (join slash) e), first, second)

-- A text that `Parse` accepts is the prefix, one byte of any value, and two runs of digits that
-- spell the cluster and the shard with a slash between them.
pub parse_sound :
    (s : Text) (t : StaticShardingPubsubTopic)
    → parse s ≡ ok t
    → (x : ℕ) × (a b : Text) × (s ≡ static_sharding_prefix ++ x ∷ (a ++ slash ∷ b))
      × Spells a t.cluster_id
      × Spells b t.shard_id
unfolding parse
parse_sound s t h = elim (Option-cases (after_prefix static_sharding_prefix s)) [
  | inl e ↦ absurd (ground arith)
  | inr (rest, e) ↦
      let (x, a, b, shape, first, second) = parse_rest_sound rest t (ground arith) in
      (
        x,
        a,
        b,
        after_prefix_sound static_sharding_prefix s rest e ∙ ap (◌++◌ static_sharding_prefix) shape,
        first,
        second,
      )
]

read_part-ne-panic : (e : TopicError) (s : Text) → read_part e s ≢ panic
unfolding read_part read_uint16
read_part-ne-panic e [] = λ h. cc
read_part-ne-panic e (c ∷ s) = ground arith

parse_parts-ne-panic : (ps : List Text) → parse_parts ps ≢ panic
unfolding parse_parts
parse_parts-ne-panic (a ∷ b ∷ []) =
    ground
      (arith, read_part-ne-panic missing_cluster_index a, read_part-ne-panic missing_shard_number b)
parse_parts-ne-panic _ = λ h. cc

parse_rest_panics : (rest : Text) → parse_rest rest ≡ panic → rest ≡ []
unfolding parse_rest
parse_rest_panics [] h = refl
parse_rest_panics (x ∷ body) h = absurd (parse_parts-ne-panic (split slash body) h)

-- `Parse` panics at one text, the bare prefix.
pub parse_panics_iff : (s : Text) → (parse s ≡ panic) ↔ (s ≡ static_sharding_prefix)
unfolding parse
parse_panics_iff s = (
  λ h. elim (Option-cases (after_prefix static_sharding_prefix s)) [
    | inl e ↦ absurd (ground arith)
    | inr (rest, e) ↦
        after_prefix_sound static_sharding_prefix s rest e
        ∙ ap (◌++◌ static_sharding_prefix) (parse_rest_panics rest (ground arith))
  ],
  λ e. rw e (unfold after_prefix parse_rest in refl),
)
