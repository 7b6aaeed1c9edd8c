-- ===== src/Protocol/ContentTopic/Laws.antt =====
-- Printing, reading and comparing content topics.
use go_waku.Base.{◌≡◌, ◌≢◌, refl, sym, ap, ◌∙◌, false, List, [], ◌∷◌, ◌++◌, arith, append_assoc}
use go_waku.Base.Lists.{All}
use go_waku.Base.Int.{ℤ, pos, is_positive}
use go_waku.Base.Text.{
  Text, Lacks, split, split-append_sep, split-Lacks, split-All, join, join-split,
}
use go_waku.Base.Result.{ok, >>=-eq-ok}
use go_waku.Protocol.PubsubTopic.{slash}
use go_waku.Protocol.ContentTopic.{
  ContentTopic, to_string, is_empty, build, read_generation, read_parts, string_to_content_topic,
}

-- The four parts are not empty and hold no slash.
abbrev IsPart : Text → Type 0
IsPart s = (s ≢ []) × Lacks slash s

pub record IsWellFormed (ct : ContentTopic) : Type 0 where
  pub name_part : IsPart ct.application_name
  pub version_part : IsPart ct.application_version
  pub topic_part : IsPart ct.content_topic_name
  pub encoding_part : IsPart ct.encoding

not_empty : (s : Text) → s ≢ [] → is_empty s ≡ false
unfolding is_empty
not_empty [] h = absurd (h refl)
not_empty (c ∷ s) h = refl

split-to_string :
    (ct : ContentTopic)
    → IsWellFormed ct
    → split slash (to_string ct)
      ≡ [] ∷ ct.application_name ∷ ct.application_version ∷ ct.content_topic_name ∷ ct.encoding ∷ []
unfolding to_string
split-to_string ct w = rw (
  split-append_sep slash [] _ tt,
  split-append_sep slash ct.application_name _ w.name_part.1,
  split-append_sep slash ct.application_version _ w.version_part.1,
  split-append_sep slash ct.content_topic_name _ w.topic_part.1,
  split-Lacks slash ct.encoding w.encoding_part.1,
)

build_full :
    (n : ℤ) (ct : ContentTopic)
    → IsWellFormed ct
    → build n ct.application_name ct.application_version ct.content_topic_name ct.encoding
      ≡ ok (record ct { params = record { generation = n } })
unfolding build
build_full n ct w = rw (
  not_empty ct.application_name w.name_part.0,
  not_empty ct.application_version w.version_part.0,
  not_empty ct.content_topic_name w.topic_part.0,
  not_empty ct.encoding w.encoding_part.0,
)

-- A content topic of four slash-free parts that are not empty is read back from its text; the
-- generation is not printed, and is read as 0.
pub string_to_content_topic-to_string :
    (ct : ContentTopic)
    → IsWellFormed ct
    → string_to_content_topic (to_string ct)
      ≡ ok (record ct { params = record { generation = pos 0 } })
unfolding string_to_content_topic read_parts
string_to_content_topic-to_string ct w = rw (split-to_string ct w) (build_full (pos 0) ct w)

not-is_empty : (s : Text) → is_empty s ≡ false → s ≢ []
unfolding is_empty
not-is_empty [] h = absurd (cc)
not-is_empty (c ∷ s) h = λ e. cc

build_inv :
    (n : ℤ) (a b c d : Text) (ct : ContentTopic)
    → build n a b c d ≡ ok ct
    → (is_empty a ≡ false)
      × (is_empty b ≡ false)
      × (is_empty c ≡ false)
      × (is_empty d ≡ false)
      × (ct ≡ record {
        params = record { generation = n };
        application_name = a;
        application_version = b;
        content_topic_name = c;
        encoding = d;
      })
unfolding build
build_inv n a b c d ct h = ground arith

module _ (n : ℤ) (a b c d : Text) (ct : ContentTopic) (h : build n a b c d ≡ ok ct) where
  build-to_string : slash ∷ (a ++ slash ∷ (b ++ slash ∷ (c ++ slash ∷ d))) ≡ to_string ct
  unfolding to_string
  build-to_string = rw ((build_inv n a b c d ct h).4)

  build-IsWellFormed :
      Lacks slash a → Lacks slash b → Lacks slash c → Lacks slash d → IsWellFormed ct
  build-IsWellFormed la lb lc ld =
      let (ea, eb, ec, ed, e) = build_inv n a b c d ct h in
      rw e (record {
        name_part = (not-is_empty a ea, la);
        version_part = (not-is_empty b eb, lb);
        topic_part = (not-is_empty c ec, lc);
        encoding_part = (not-is_empty d ed, ld);
      })

  build_generation : ct.generation ≡ n
  build_generation = rw ((build_inv n a b c d ct h).4)

read_generation_sound : (s : Text) (n : ℤ) → read_generation s ≡ ok n → is_positive n ≡ false
unfolding read_generation
read_generation_sound [] n h = absurd (cc)
read_generation_sound (c ∷ s) n h = ground arith

abbrev Reads : Text → ContentTopic → Type 0
Reads s ct =
    (before : Text) × (s ≡ before ++ to_string ct)
    × IsWellFormed ct
    × (is_positive ct.generation ≡ false)

read_parts_sound :
    (ps : List Text) (ct : ContentTopic)
    → All (Lacks slash) ps
    → read_parts ps ≡ ok ct
    → Reads (join slash ps) ct
unfolding read_parts
read_parts_sound (p0 ∷ a ∷ b ∷ c ∷ d ∷ []) ct (_, (la, (lb, (lc, (ld, _))))) h = (
  p0,
  ap (◌++◌ p0) (build-to_string (pos 0) a b c d ct h),
  build-IsWellFormed (pos 0) a b c d ct h la lb lc ld,
  rw (build_generation (pos 0) a b c d ct h),
)
read_parts_sound (p0 ∷ g ∷ a ∷ b ∷ c ∷ d ∷ []) ct (_, (_, (la, (lb, (lc, (ld, _)))))) h =
    let (n, hn, h') = >>=-eq-ok (read_generation g) _ h in
    (
      p0 ++ slash ∷ g,
      ap (λ t. p0 ++ slash ∷ (g ++ t)) (build-to_string n a b c d ct h')
          ∙ sym (append_assoc p0 (slash ∷ g) (to_string ct)),
      build-IsWellFormed n a b c d ct h' la lb lc ld,
      rw (build_generation n a b c d ct h') (read_generation_sound g n hn),
    )
read_parts_sound _ ct l h = absurd (cc)

-- What `StringToContentTopic` accepts ends in the print of the result, which is made of four
-- slash-free parts that are not empty, under a generation that is not positive.
pub string_to_content_topic_sound :
    (s : Text) (ct : ContentTopic)
    → string_to_content_topic s ≡ ok ct
    → (before : Text) × (s ≡ before ++ to_string ct)
      × IsWellFormed ct
      × (is_positive ct.generation ≡ false)
unfolding string_to_content_topic
string_to_content_topic_sound s ct h =
    let (before, shape, w, g) = read_parts_sound (split slash s) ct (split-All slash s) h in
    (before, sym (join-split slash s) ∙ shape, w, g)
