-- ===== src/Protocol/ContentTopic.antt =====
-- waku/v2/protocol/content_topic.go. A Go string is its bytes, and an `int` an integer.
pub mod Laws
pub mod Tests
use go_waku.Base.{
  ℕ, ◌≡◌, Bool, true, false, ◌&&◌, ◌||◌, Option, none, some, List, [], ◌∷◌, ◌++◌, ite,
  if◌then◌else◌,
}
use go_waku.Base.Int.{ℤ, pos, negsuc, is_positive, atoi, ℤ_dec}
use go_waku.Base.Text.{same, Text, split, text_dec}
use go_waku.Base.Result.{Result, ok, err, panic, ◌>>=◌}
use go_waku.Protocol.PubsubTopic.{slash}

pub data ContentTopicError : Type 0 where
  invalid_format missing_generation invalid_generation : ContentTopicError

pub record ContentTopicParams : Type 0 where
  pub generation : ℤ

pub record ContentTopic : Type 0 where
  pub params : ContentTopicParams
  pub open params use *
  pub application_name : Text
  pub application_version : Text
  pub content_topic_name : Text
  pub encoding : Text

abbrev pub ContentTopicOption : Type 0
ContentTopicOption = ContentTopicParams → ContentTopicParams

unfoldable pub with_generation : ℤ → ContentTopicOption
with_generation n params = record params { generation = n }

unfoldable pub default_options : List ContentTopicOption
default_options = with_generation (pos 0) ∷ []

-- The loop `for _, opt := range optList { opt(params) }`.
unfoldable pub apply_options : List ContentTopicOption → ContentTopicParams → ContentTopicParams
apply_options [] params = params
apply_options (opt ∷ opts) params = apply_options opts (opt params)

unfoldable pub new_content_topic :
    Text → Text → Text → Text → List ContentTopicOption → Result ContentTopicError ContentTopic
new_content_topic name version topic encoding opts =
    let params = apply_options (default_options ++ opts) (record { generation = pos 0 }) in
    if is_positive params.generation
    then err invalid_generation
    else ok (record {
      params = params;
      application_name = name;
      application_version = version;
      content_topic_name = topic;
      encoding = encoding;
    })

unfoldable pub to_string : ContentTopic → Text
to_string ct =
    slash
    ∷ (ct.application_name
        ++ slash
          ∷ (ct.application_version ++ slash ∷ (ct.content_topic_name ++ slash ∷ ct.encoding)))

-- The method `Equal` of `ContentTopicParams`.
params_equal : ContentTopicParams → ContentTopicParams → Bool
params_equal p q = ite (ℤ_dec p.generation q.generation) true false

unfoldable pub equal : ContentTopic → ContentTopic → Bool
unfolding params_equal
equal ct ct2 =
    same ct.application_name ct2.application_name
    && same ct.application_version ct2.application_version
    && same ct.content_topic_name ct2.content_topic_name
    && same ct.encoding ct2.encoding
    && params_equal ct.params ct2.params

-- `len(p) == 0`.
unfoldable pub is_empty : Text → Bool
is_empty [] = true
is_empty (c ∷ s) = false

-- The test of the last four parts, and the topic that they make.
unfoldable pub build : ℤ → Text → Text → Text → Text → Result ContentTopicError ContentTopic
build n name version topic encoding =
    if is_empty name || is_empty version || is_empty topic || is_empty encoding
    then err invalid_format
    else ok (record {
      params = record { generation = n };
      application_name = name;
      application_version = version;
      content_topic_name = topic;
      encoding = encoding;
    })

-- `p[1]` where there are six parts.
unfoldable pub read_generation : Text → Result ContentTopicError ℤ
read_generation [] = err missing_generation
read_generation (c ∷ s) = elim (atoi (c ∷ s)) [
  | none ↦ err invalid_generation
  | some n ↦ if is_positive n then err invalid_generation else ok n
]

unfoldable pub read_parts : List Text → Result ContentTopicError ContentTopic
read_parts (p0 ∷ p1 ∷ p2 ∷ p3 ∷ p4 ∷ []) = build (pos 0) p1 p2 p3 p4
read_parts (p0 ∷ p1 ∷ p2 ∷ p3 ∷ p4 ∷ p5 ∷ []) = do n ← read_generation p1; build n p2 p3 p4 p5
read_parts _ = err invalid_format

unfoldable pub string_to_content_topic : Text → Result ContentTopicError ContentTopic
string_to_content_topic s = read_parts (split slash s)
