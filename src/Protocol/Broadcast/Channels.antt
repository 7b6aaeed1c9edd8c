-- ===== src/Protocol/Broadcast/Channels.antt =====
-- waku/v2/protocol/relay/broadcast.go and subscription.go: what the broadcaster does with the channels
-- of its subscribers, and its stop.
use go_waku.Base.{
  ℕ, Bool, true, false, not, ◌&&◌, ◌||◌, ◌==◌, [], ◌∷◌, ◌++◌, Option, none, some, length, ltb,
  if◌then◌else◌, ℕ_discrete,
}
use go_waku.Base.Text.{Text, text_dec}
use go_waku.Base.Dict.{or_empty, Dict, lookup, insert, erase}
use go_waku.Base.Keys.{contains}
use go_waku.Base.Result.{Result, ok, panic, ◌>>=◌}
use go_waku.Protocol.Message.{Envelope}
use go_waku.Protocol.Broadcast.{
  Channel, Subscription, Topics, Broadcaster, BroadcastError, no_input, open_input, closed_input,
}

abbrev pub Channels : Type 0
Channels = Dict ℕ Channel

-- What a channel that is open becomes; a closed one panics.
unfoldable pub on_open : (Channel → Channel) → ℕ → Channels → Result BroadcastError Channels
on_open change ch channels = elim (lookup ℕ_discrete ch channels) [
  | none ↦ panic
  | some c ↦ if c.closed then panic else ok (insert ℕ_discrete ch (change c) channels)
]

-- `close(ch)`.
unfoldable pub close_channel : ℕ → Channels → Result BroadcastError Channels
close_channel = on_open (λ c. record c { closed = true })

-- `ch <- msg`, when the receiver takes it.
unfoldable pub send : Envelope → ℕ → Channels → Result BroadcastError Channels
send msg = on_open (λ c. record c { sent = c.sent ++ msg ∷ [] })

unfoldable pub wants : Subscription → Envelope → Bool
wants s msg =
    let topics = s.content_filter.content_topics in
    not s.no_consume
    && (length topics == 0
        || ltb 0 (length topics) && contains text_dec msg.message.content_topic topics)

-- `cancelled` tells whether the select takes the cancelled context.
unfoldable pub submit_to :
    Bool → Envelope → Subscription → Channels → Result BroadcastError Channels
submit_to cancelled msg s channels =
    if wants s msg then if cancelled then ok channels else send msg s.ch channels else ok channels

-- For the number of a channel: whether the context is cancelled before the send to it, and while the
-- send waits.
abbrev pub Context : Type 0
Context = ℕ → Bool × Bool

-- The Boolean tells whether the loop returned early.
unfoldable pub broadcast_loop :
    Context → Envelope → Dict ℕ Subscription → Channels → Result BroadcastError (Bool × Channels)
broadcast_loop ctx m [] channels = ok (false, channels)
broadcast_loop ctx m ((id, sub) ∷ subs) channels =
    if (ctx sub.ch).0
    then ok (true, channels)
    else submit_to (ctx sub.ch).1 m sub channels >>= λ channels. broadcast_loop ctx m subs channels

unfoldable pub subs_at : Text → Option Topics → Dict ℕ Subscription
subs_at pubsub_topic topics = or_empty (lookup text_dec pubsub_topic (or_empty topics))

unfoldable pub broadcast :
    Context → Envelope → Option Topics → Channels → Result BroadcastError (Bool × Channels)
broadcast ctx m topics channels =
    broadcast_loop ctx m (subs_at m.pubsub_topic topics) channels >>= λ r.
    if r.0 then ok r else broadcast_loop ctx m (subs_at [] topics) r.1

-- One turn of the loop of `run` that takes a message.
unfoldable pub run : Context → Broadcaster → Result BroadcastError Broadcaster
run ctx b = elim b.input [
  | [] ↦ ok b
  | m ∷ rest ↦ broadcast ctx m b.subscriptions.topics_to_subs b.channels >>= λ r.
      ok (record b { input = rest; channels = r.1 })
]

-- The send of `Submit`, some time after its test. On a nil channel it waits for ever, and changes
-- nothing.
unfoldable pub send_input : Envelope → Broadcaster → Result BroadcastError Broadcaster
send_input m b = elim b.input_channel [
  | no_input ↦ ok b
  | open_input ↦ ok (record b { input = b.input ++ m ∷ [] })
  | closed_input ↦ panic
]

-- `Submit` with no other call between its test and its send.
unfoldable pub submit : Envelope → Broadcaster → Result BroadcastError Broadcaster
submit m b = if b.running then send_input m b else ok b

-- The maps without the entry.
unfoldable pub delete_entry : Subscription → Dict ℕ Subscription → Topics → Topics
delete_entry sub subs =
    insert text_dec sub.content_filter.pubsub_topic (erase ℕ_discrete sub.sub_id subs)

-- The function `Unsubscribe` of a subscription.
unfoldable pub unsubscribe : Subscription → Broadcaster → Result BroadcastError Broadcaster
unsubscribe sub b = elim b.subscriptions.topics_to_subs [
  | none ↦ ok b
  | some topics ↦ elim (lookup text_dec sub.content_filter.pubsub_topic topics) [
    | none ↦ ok b
    | some subs ↦ elim (lookup ℕ_discrete sub.sub_id subs) [
      | none ↦ ok b
      | some s ↦ close_channel s.ch b.channels >>= λ channels. ok (record b {
        subscriptions = record b.subscriptions {
          topics_to_subs = some (delete_entry sub subs topics);
        };
        channels = channels;
      })
    ]
  ]
]

unfoldable pub unsubscribe_all :
    Dict ℕ Subscription → Broadcaster → Result BroadcastError Broadcaster
unsubscribe_all [] b = ok b
unsubscribe_all ((id, sub) ∷ subs) b = unsubscribe sub b >>= λ b. unsubscribe_all subs b

unfoldable pub un_register : Text → Broadcaster → Result BroadcastError Broadcaster
un_register pubsub_topic b = unsubscribe_all (subs_at pubsub_topic b.subscriptions.topics_to_subs) b

unfoldable pub close_subs : Dict ℕ Subscription → Channels → Result BroadcastError Channels
close_subs [] channels = ok channels
close_subs ((id, sub) ∷ subs) channels =
    close_channel sub.ch channels >>= λ channels. close_subs subs channels

unfoldable pub close_topics : Topics → Channels → Result BroadcastError Channels
close_topics [] channels = ok channels
close_topics ((pubsub_topic, subs) ∷ topics) channels =
    close_subs subs channels >>= λ channels. close_topics topics channels

unfoldable pub stop : Broadcaster → Result BroadcastError Broadcaster
stop b =
    if b.running
    then (close_topics (or_empty b.subscriptions.topics_to_subs) b.channels >>= λ channels.
        ok (record b {
          running = false;
          subscriptions = record b.subscriptions { topics_to_subs = none };
          channels = channels;
          input_channel = closed_input;
          input = [];
        }))
    else ok b
