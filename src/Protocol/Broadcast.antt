-- ===== src/Protocol/Broadcast.antt =====
-- waku/v2/protocol/relay/broadcast.go and subscription.go: the broadcaster, which gives the messages
-- that relay receives to the channels of its subscribers.
-- A channel has a number, under which the broadcaster has its state: whether it is closed, and what
-- went into it. An operation that closes a closed channel, sends to one, or writes to a nil map
-- panics. A `Subscription` is a pointer in the code; it is never written to, so it is a value here.
-- `Submit` is its test and its send, between which other calls may come; a send that waits for room is a
-- later send here.
pub mod Channels
pub mod Balance
pub mod Sends
pub mod Invariant
pub mod Filing
pub mod Operations
pub mod Lifecycle
pub mod Runs
pub mod Delivery
pub mod Receipt
pub mod Removal
mod Tests
use go_waku.Base.{
  ℕ, suc, Bool, true, false, not, ◌&&◌, ◌||◌, ◌==◌, List, [], ◌∷◌, ◌++◌, Option, none, some, length,
  ltb, if◌then◌else◌, ℕ_discrete,
}
use go_waku.Base.Text.{Text, text_dec}
use go_waku.Base.Dict.{or_empty, Dict, lookup, insert, erase}
use go_waku.Base.Keys.{contains}
use go_waku.Base.Result.{Result, ok, err, panic, ◌>>=◌}
use go_waku.Protocol.Message.{Envelope}
use go_waku.Protocol.ContentFilter.{ContentFilter}

pub record Channel : Type 0 where
  pub capacity : ℕ
  pub closed : Bool
  pub sent : List Envelope

-- `sub_id` and `content_filter.pubsub_topic` are also what `Unsubscribe` captures.
pub record Subscription : Type 0 where
  pub sub_id : ℕ
  pub ch : ℕ
  pub content_filter : ContentFilter
  pub no_consume : Bool

abbrev pub Topics : Type 0
Topics = Dict Text (Dict ℕ Subscription)

-- `topics_to_subs` is nil before the start and after the stop.
pub record Subscriptions : Type 0 where
  pub topics_to_subs : Option Topics
  pub last_id : ℕ

-- The input channel: nil before the first start, then open or closed.
pub data Input : Type 0 where
  no_input open_input closed_input : Input

pub record Broadcaster : Type 0 where
  pub buf_len : ℕ
  pub running : Bool
  pub input_channel : Input
  -- What the input channel buffers.
  pub input : List Envelope
  pub subscriptions : Subscriptions
  pub channels : Dict ℕ Channel
  -- How many channels were made.
  pub made : ℕ

pub data BroadcastError : Type 0 where
  already_started : BroadcastError

pub record BroadcasterParameters : Type 0 where
  pub dont_consume : Bool
  pub ch_len : ℕ

abbrev pub BroadcasterOption : Type 0
BroadcasterOption = BroadcasterParameters → BroadcasterParameters

unfoldable pub with_consumer_option : Bool → BroadcasterOption
with_consumer_option dont_consume params = record params { dont_consume = dont_consume }

unfoldable pub with_buffer_size : ℕ → BroadcasterOption
with_buffer_size size params = record params { ch_len = size }

abbrev pub default_broadcaster_options : List BroadcasterOption
default_broadcaster_options = with_buffer_size 0 ∷ []

unfoldable pub apply_options :
    List BroadcasterOption → BroadcasterParameters → BroadcasterParameters
apply_options [] params = params
apply_options (opt ∷ opts) params = apply_options opts (opt params)

unfoldable pub process_opts : List BroadcasterOption → BroadcasterParameters
process_opts opts =
    apply_options (default_broadcaster_options ++ opts)
      (record { dont_consume = false; ch_len = 0 })

unfoldable pub new_sub_store : Subscriptions
new_sub_store = record { topics_to_subs = some []; last_id = 0 }

unfoldable pub new_broadcaster : ℕ → Broadcaster
new_broadcaster buf_len = record {
  buf_len = buf_len;
  running = false;
  input_channel = no_input;
  input = [];
  subscriptions = record { topics_to_subs = none; last_id = 0 };
  channels = [];
  made = 0;
}

unfoldable pub start : Broadcaster → Result BroadcastError Broadcaster
start b =
    if b.running
    then err already_started
    else ok (record b {
      running = true;
      subscriptions = new_sub_store;
      input_channel = open_input;
      input = [];
    })

unfoldable pub new_channel : ℕ → Channel
new_channel ch_len = record { capacity = ch_len; closed = false; sent = [] }

unfoldable pub add_subscription : Subscription → Topics → Topics
add_subscription sub topics =
    let pubsub_topic = sub.content_filter.pubsub_topic in
    let subs = or_empty (lookup text_dec pubsub_topic topics) in
    insert text_dec pubsub_topic (insert ℕ_discrete sub.sub_id sub subs) topics

unfoldable pub create_new_subscription :
    ContentFilter → Bool → ℕ → Broadcaster → Result BroadcastError (Subscription × Broadcaster)
create_new_subscription content_filter dont_consume ch_len b =
    let id = suc b.subscriptions.last_id in
    let sub : Subscription = record {
      sub_id = id;
      ch = b.made;
      content_filter = content_filter;
      no_consume = dont_consume;
    } in
    elim b.subscriptions.topics_to_subs [
      | none ↦ panic
      | some topics ↦ ok (
        sub,
        record b {
          subscriptions = record {
            topics_to_subs = some (add_subscription sub topics);
            last_id = id;
          };
          channels = insert ℕ_discrete b.made (new_channel ch_len) b.channels;
          made = suc b.made;
        },
      )
    ]

unfoldable pub register :
    ContentFilter
    → List BroadcasterOption
    → Broadcaster
    → Result BroadcastError (Subscription × Broadcaster)
register content_filter opts b =
    let params = process_opts opts in
    create_new_subscription content_filter params.dont_consume params.ch_len b

unfoldable pub register_for_all :
    List BroadcasterOption → Broadcaster → Result BroadcastError (Subscription × Broadcaster)
register_for_all opts b =
    let params = process_opts opts in
    create_new_subscription (record { pubsub_topic = []; content_topics = [] }) params.dont_consume
      params.ch_len b
