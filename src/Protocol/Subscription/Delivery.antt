-- ===== src/Protocol/Subscription/Delivery.antt =====
-- What `Notify` delivers, and to whom.
use go_waku.Base.{Bool, [], ◌∷◌, if◌then◌else◌, not, ◌&&◌, ltb, length, ◌++◌, Option}
use mathlib.Core.Option
use go_waku.Base.Text.{Text, text_dec}
use go_waku.Base.Keys.{contains}
use go_waku.Protocol.Message.{Envelope}
use go_waku.Protocol.Subscription.{SubscriptionDetails, channel_capacity}

-- The subscription takes the message: it has the content topic and is not closed, the select does not
-- give up, and there is room in the channel.
abbrev pub takes : Bool → Envelope → SubscriptionDetails → Bool
takes gives_up envelope d =
    contains text_dec envelope.message.content_topic d.content_filter.content_topics
    && (not d.closed && (not gives_up && ltb (length d.buffer) channel_capacity))

-- A subscription after a message that it may take.
abbrev pub with_message : Bool → Envelope → SubscriptionDetails → SubscriptionDetails
with_message taken envelope d = record d {
  buffer = d.buffer ++ (if taken then envelope ∷ [] else []);
}
