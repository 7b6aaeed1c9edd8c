-- ===== src/Protocol/Message.antt =====
-- waku/v2/protocol/pb/validation.go. The message is the one of the generated protobuf code; a
-- pointer or a slice that may be nil is an option.
use go_waku.Base.{ℕ, Bool, Option, none, some, ltb, ◌==◌, if◌then◌else◌, length}
use go_waku.Base.Int.{ℤ}
use go_waku.Base.Text.{Text}
use go_waku.Base.Result.{Result, ok, err}

abbrev pub max_meta_attr_length : ℕ
max_meta_attr_length = 64

pub record WakuMessage : Type 0 where
  pub payload : Text
  pub content_topic : Text
  pub version : Option ℕ
  pub timestamp : Option ℤ
  pub meta : Option Text
  pub ephemeral : Option Bool
  pub rate_limit_proof : Option Text

pub data MessageError : Type 0 where
  missing_payload missing_content_topic invalid_meta_length : MessageError

-- `len` of a slice that may be nil.
abbrev pub size : Option Text → ℕ
size none = 0
size (some s) = length s

unfoldable pub validate : WakuMessage → Result MessageError (Unit {0})
validate msg =
    if length msg.payload == 0
    then err missing_payload
    else if length msg.content_topic == 0
    then err missing_content_topic
    else if ltb max_meta_attr_length (size msg.meta)
    then err invalid_meta_length
    else ok tt

-- waku/v2/protocol/envelope.go, with what the components read of an envelope.
pub record Envelope : Type 0 where
  pub pubsub_topic : Text
  pub message : WakuMessage
