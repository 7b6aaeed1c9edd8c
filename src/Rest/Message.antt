-- ===== src/Rest/Message.antt =====
-- The conversions of cmd/waku/server/rest/message.go.
use go_waku.Base.{ℕ, Bool, Option, none, some}
use go_waku.Base.Int.{ℤ}
use go_waku.Base.Text.{Text}
use go_waku.Base.Result.{Result, ok, ◌>>=◌}
use go_waku.Protocol.Message.{WakuMessage, MessageError, validate}

pub record RestWakuMessage : Type 0 where
  pub payload : Text
  pub content_topic : Text
  pub version : Option ℕ
  pub timestamp : Option ℤ
  pub meta : Option Text
  pub ephemeral : Option Bool

-- The fields that `FromProto` copies.
unfoldable pub copy : WakuMessage → RestWakuMessage
copy input = record {
  payload = input.payload;
  content_topic = input.content_topic;
  version = input.version;
  timestamp = input.timestamp;
  meta = input.meta;
  ephemeral = input.ephemeral;
}

unfoldable pub from_proto : WakuMessage → Result MessageError RestWakuMessage
from_proto input = validate input >>= λ _. ok (copy input)

-- Nothing stands for nil, whose conversion is an error.
unfoldable pub to_proto : Option RestWakuMessage → Option WakuMessage
to_proto none = none
to_proto (some r) = some (record {
  payload = r.payload;
  content_topic = r.content_topic;
  version = r.version;
  timestamp = r.timestamp;
  meta = r.meta;
  ephemeral = r.ephemeral;
  rate_limit_proof = none;
})
