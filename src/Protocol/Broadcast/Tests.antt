-- ===== src/Protocol/Broadcast/Tests.antt =====
-- Runs of the broadcaster, and instances of the theorems.
use go_waku.Protocol.Broadcast.Runs.{
  call-panic_iff, sends, Call, starts, stops, registers, unsubscribes, submits, call, Reaches,
  at_first, after, IsSendable, IsRegistered, open_iff,
}
use go_waku.Protocol.Broadcast.Channels.{
  send_input, Context, on_open, close_channel, wants, subs_at, run, submit, delete_entry,
  unsubscribe, un_register, close_subs, close_topics, stop,
}
use go_waku.Protocol.Broadcast.{
  open_input, closed_input, Channel, Subscription, Broadcaster, BroadcastError, new_broadcaster,
  start, new_sub_store, new_channel, add_subscription, create_new_subscription, register,
  process_opts, apply_options, with_buffer_size,
}
use go_waku.Base.{
  ℕ, ◌≡◌, ◌≢◌, ◌↔◌, ◌++◌, refl, Bool, true, false, none, some, List, [], ◌∷◌, replicate, ℕ_discrete,
}
use go_waku.Base.Text.{Text, codes, text_dec}
use go_waku.Base.Dict.{lookup, insert, erase}
use go_waku.Base.Result.{Result, ok, panic, ◌>>=◌}
use go_waku.Protocol.Message.{WakuMessage, Envelope}
use go_waku.Protocol.ContentFilter.{ContentFilter}
use go_waku.Protocol.Broadcast.Delivery.{sent_to}
use go_waku.Protocol.Broadcast.Receipt.{times, sent_to-run}
use go_waku.Protocol.Broadcast.Removal.{subs_at-un_register}

abbrev filter : ContentFilter
filter = record { pubsub_topic = codes "p"; content_topics = [] }

abbrev message : WakuMessage
message = record {
  payload = codes "x";
  content_topic = codes "a";
  version = none;
  timestamp = none;
  meta = none;
  ephemeral = none;
  rate_limit_proof = none;
}

abbrev envelope : Envelope
envelope = record { pubsub_topic = codes "p"; message = message }

-- The first subscription on the topic "p", with its channel.
abbrev sub_on : ℕ → Subscription
sub_on ch = record { sub_id = 1; ch = ch; content_filter = filter; no_consume = false }

abbrev started : Broadcaster
started = record (new_broadcaster 1) {
  running = true;
  subscriptions = new_sub_store;
  input_channel = open_input;
}

abbrev opened : Channel
opened = record { capacity = 0; closed = false; sent = [] }

abbrev closed_channel : Channel
closed_channel = record opened { closed = true }

abbrev joined : Broadcaster
joined = record {
  buf_len = 1;
  running = true;
  input_channel = open_input;
  input = [];
  subscriptions = record {
    topics_to_subs = some ((codes "p", (1, sub_on 0) ∷ []) ∷ []);
    last_id = 1;
  };
  channels = (0, opened) ∷ [];
  made = 1;
}

abbrev queued : Broadcaster
queued = record joined { input = envelope ∷ [] }

abbrev stopped : Broadcaster
stopped = record {
  buf_len = 1;
  running = false;
  input_channel = closed_input;
  input = [];
  subscriptions = record { topics_to_subs = none; last_id = 1 };
  channels = (0, closed_channel) ∷ [];
  made = 1;
}

goes_on : call starts (new_broadcaster 1) ≡ ok started
unfolding call start new_broadcaster
goes_on = refl

joins : call (registers filter []) started ≡ ok joined
unfolding call register process_opts apply_options with_buffer_size create_new_subscription
    add_subscription new_channel lookup insert new_broadcaster new_sub_store text_dec ℕ_discrete
joins = refl

queues : call (submits envelope) joined ≡ ok queued
unfolding call submit send_input
queues = refl

ends : call stops queued ≡ ok stopped
unfolding call stop close_topics close_subs close_channel on_open lookup insert text_dec ℕ_discrete
ends = refl

at_queue : Reaches queued
unfolding new_broadcaster
at_queue =
    after (submits envelope) (after (registers filter []) (after starts (at_first 1) goes_on) joins)
      queues

at_end : Reaches stopped
at_end = after stops at_queue ends

abbrev live : Context
live c = (false, false)

call-panic_iff_example : (call (sends envelope) stopped ≡ panic) ↔ (closed_input ≡ closed_input)
call-panic_iff_example = call-panic_iff (sends envelope) at_end

open_iff_example : IsSendable 0 queued ↔ IsRegistered 0 queued
open_iff_example = open_iff 0 at_queue

sent_to-run_example :
    (b' : Broadcaster) × (run live queued ≡ ok b')
    × (sent_to 0 b'.channels
        ≡ sent_to 0 queued.channels ++ replicate (times (codes "p") (sub_on 0) envelope) envelope)
unfolding lookup text_dec ℕ_discrete
sent_to-run_example =
    sent_to-run live envelope [] (codes "p") ((1, sub_on 0) ∷ []) 1 (sub_on 0) at_queue
      (λ c. (refl, refl)) refl refl refl

once : times (codes "p") (sub_on 0) envelope ≡ 1
unfolding wants text_dec ℕ_discrete
once = refl

subs_at-un_register_example :
    (b' : Broadcaster) × (un_register (codes "p") queued ≡ ok b')
    × (subs_at (codes "p") b'.subscriptions.topics_to_subs ≡ [])
    × ((q : Text)
        → codes "p" ≢ q
        → subs_at q b'.subscriptions.topics_to_subs ≡ subs_at q queued.subscriptions.topics_to_subs)
subs_at-un_register_example = subs_at-un_register (codes "p") at_queue

unfoldable all_calls : List Call → Broadcaster → Result BroadcastError Broadcaster
all_calls [] b = ok b
all_calls (c ∷ cs) b = call c b >>= λ b. all_calls cs b

unfoldable is_closed : ℕ → Broadcaster → Bool
is_closed ch b = elim (lookup ℕ_discrete ch b.channels) [ none ↦ false | some c ↦ c.closed ]

-- A subscription from before a restart has the number of one from after it, which its function closes.
stale :
    (all_calls
        (starts
          ∷ registers filter []
          ∷ stops
          ∷ starts
          ∷ registers filter []
          ∷ unsubscribes (sub_on 0)
          ∷ [])
        (new_broadcaster 1)
      >>= λ b. ok (is_closed 1 b))
    ≡ ok true
unfolding all_calls is_closed call start new_broadcaster register process_opts apply_options
    with_buffer_size create_new_subscription add_subscription new_channel lookup insert erase
    new_sub_store text_dec ℕ_discrete stop close_topics close_subs close_channel on_open unsubscribe
    delete_entry
stale = refl
