-- ===== src/Protocol/Broadcast/Operations.antt =====
-- The operations of the broadcaster keep its invariant and do not panic.
use go_waku.Base.{
  ◌∙◌, ◌⊎◌, sym, ◌≢◌, ℕ, suc, ◌+◌, ◌≡◌, refl, Bool, true, [], ◌∷◌, some, arith, ℕ_discrete,
  Option-cases, Bool-cases, List-cases, ◌++◌, inl, inr, subst,
}
use go_waku.Protocol.Broadcast.{
  no_input, closed_input, open_input, Input, Subscription, Broadcaster, BroadcastError, new_channel,
  add_subscription, create_new_subscription,
}
use go_waku.Protocol.Broadcast.Channels.{
  send_input, Context, run, submit, delete_entry, unsubscribe, unsubscribe_all, un_register,
  subs_at,
}
use go_waku.Base.Text.{Text, text_dec}
use go_waku.Base.Dict.{or_empty, Dict, lookup, insert, lookup-insert}
use go_waku.Base.Result.{Result, ok}
use go_waku.Base.Occurrences.{at_key}
use go_waku.Protocol.Message.{Envelope}
use go_waku.Protocol.ContentFilter.{ContentFilter}
use go_waku.Protocol.Broadcast.Balance.{open_count, held_all, Balanced, close_channel-Balanced}
use go_waku.Protocol.Broadcast.Sends.{broadcast-Balanced}
use go_waku.Protocol.Broadcast.Invariant.{
  Inv, AreSorted, held_all-add_subscription, held_all-delete_entry,
}
use go_waku.Protocol.Broadcast.Filing.{
  next_absent, add_subscription-AreSorted, delete_entry-AreSorted,
}

pub Input-cases : (i : Input) → (i ≡ no_input) ⊎ ((i ≡ open_input) ⊎ (i ≡ closed_input))
Input-cases no_input = inl refl
Input-cases open_input = inr (inl refl)
Input-cases closed_input = inr (inr refl)

opened_ne_closed : open_input ≢ closed_input
opened_ne_closed e = cc

-- The operation returns a broadcaster with the invariant.
abbrev pub Succeeds : Result BroadcastError Broadcaster → Type 0
Succeeds r = (b : Broadcaster) × (r ≡ ok b) × Inv b

-- A new subscription holds a new channel.
pub create_new_subscription-Inv :
    (cf : ContentFilter) (dont_consume : Bool) (ch_len : ℕ) (b : Broadcaster)
    → Inv b
    → b.running ≡ true
    → (sub : Subscription) × (b' : Broadcaster) × (create_new_subscription cf dont_consume ch_len b
        ≡ ok (sub, b'))
      × Inv b'
unfolding create_new_subscription
create_new_subscription-Inv cf dont_consume ch_len b inv e =
    let (topics, there) = inv.when_running e in
    let id = suc b.subscriptions.last_id in
    let sub : Subscription = record {
      sub_id = id;
      ch = b.made;
      content_filter = cf;
      no_consume = dont_consume;
    } in
    let sorted : AreSorted b.subscriptions.last_id topics =
      subst (λ o. AreSorted b.subscriptions.last_id (or_empty o)) there inv.sorted in
    let before : Balanced b.made (λ c. held_all c topics) b.channels =
      subst (λ o. Balanced b.made (λ c. held_all c (or_empty o)) b.channels) there inv.balanced in
    let channel = new_channel ch_len in
    (
      sub,
      record b {
        subscriptions = record {
          topics_to_subs = some (add_subscription sub topics);
          last_id = id;
        };
        channels = insert ℕ_discrete b.made channel b.channels;
        made = suc b.made;
      },
      ground arith,
      record {
        balanced = record {
          counts = λ c.
              unfold open_count new_channel at_key in
              ground (
                arith,
                held_all-add_subscription c sub topics b.subscriptions.last_id sorted
                    (next_absent cf.pubsub_topic b.subscriptions.last_id topics sorted),
                before.counts c,
                before.fresh b.made (omega arith),
                lookup-insert ℕ_discrete b.made c channel b.channels,
              );
          fresh = λ c le. ground (
            arith,
            before.fresh c (omega arith),
            lookup-insert ℕ_discrete b.made c channel b.channels,
          );
        };
        sorted = add_subscription-AreSorted sub b.subscriptions.last_id topics refl sorted;
        when_open = (λ e'. inv.when_open.0 e, λ e'. e);
        when_stopped = λ e'. absurd (cc);
        when_running = λ e'. (add_subscription sub topics, refl);
      },
    )

-- Any subscription may be taken out, also one that is gone.
pub unsubscribe-Inv : (sub : Subscription) (b : Broadcaster) → Inv b → Succeeds (unsubscribe sub b)
unfolding unsubscribe
unsubscribe-Inv sub b inv = elim (Option-cases b.subscriptions.topics_to_subs) [
  | inl e ↦ (b, ground arith, inv)
  | inr (topics, e) ↦ elim (Option-cases (lookup text_dec sub.content_filter.pubsub_topic topics)) [
    | inl e' ↦ (b, ground arith, inv)
    | inr (subs, e') ↦ elim (Option-cases (lookup ℕ_discrete sub.sub_id subs)) [
      | inl e'' ↦ (b, ground arith, inv)
      | inr (s, e'') ↦
          let last = b.subscriptions.last_id in
          let sorted : AreSorted last topics =
            subst (λ o. AreSorted last (or_empty o)) e inv.sorted in
          let topics' = delete_entry sub subs topics in
          let before : Balanced b.made (λ c. at_key ℕ_discrete s.ch c 1 + held_all c topics')
              b.channels =
            record {
              counts = λ c. omega (
                arith,
                held_all-delete_entry c sub s subs topics last sorted e' e'',
                subst (λ o. held_all c (or_empty o) ≡ open_count c b.channels) e
                    (inv.balanced.counts c),
              );
              fresh = inv.balanced.fresh;
            } in
          let (left, went, after) =
            close_channel-Balanced b.made (λ c. held_all c topics') s.ch b.channels before in
          (
            record b {
              subscriptions = record b.subscriptions { topics_to_subs = some topics' };
              channels = left;
            },
            ground arith,
            record {
              balanced = record { counts = after.counts; fresh = after.fresh };
              sorted = delete_entry-AreSorted sub subs last topics e' sorted;
              when_open = inv.when_open;
              when_stopped = λ r. absurd (ground (arith, inv.when_stopped r));
              when_running = λ r. (topics', refl);
            },
          )
    ]
  ]
]

unsubscribe_all-Inv :
    (subs : Dict ℕ Subscription) (b : Broadcaster) → Inv b → Succeeds (unsubscribe_all subs b)
unfolding unsubscribe_all
unsubscribe_all-Inv [] b inv = (b, refl, inv)
unsubscribe_all-Inv ((id, sub) ∷ subs) b inv =
    let (mid, went, inv') = unsubscribe-Inv sub b inv in
    let (after, went', inv'') = unsubscribe_all-Inv subs mid inv' in (after, ground arith, inv'')

pub un_register-Inv : (p : Text) (b : Broadcaster) → Inv b → Succeeds (un_register p b)
unfolding un_register
un_register-Inv p b inv = unsubscribe_all-Inv (subs_at p b.subscriptions.topics_to_subs) b inv

-- A send panics exactly when the input channel is closed, and keeps the invariant else.
pub send_input-Inv :
    (m : Envelope) (b : Broadcaster)
    → Inv b
    → b.input_channel ≢ closed_input
    → Succeeds (send_input m b)
unfolding send_input
send_input-Inv m b inv ne = elim (Input-cases b.input_channel) [
  | inl missing ↦ (b, ground arith, inv)
  | inr (inl opened) ↦ (
    record b { input = b.input ++ m ∷ [] },
    ground arith,
    record {
      balanced = inv.balanced;
      sorted = inv.sorted;
      when_open = inv.when_open;
      when_stopped = inv.when_stopped;
      when_running = inv.when_running;
    },
  )
  | inr (inr closed) ↦ absurd (ne closed)
]

pub submit-Inv : (m : Envelope) (b : Broadcaster) → Inv b → Succeeds (submit m b)
unfolding submit
submit-Inv m b inv = elim (Bool-cases b.running) [
  | inr e ↦ (b, ground arith, inv)
  | inl e ↦
      let opened = inv.when_open.0 e in
      let ne : b.input_channel ≢ closed_input = λ c. opened_ne_closed (sym opened ∙ c) in
      let (b', went, inv') = send_input-Inv m b inv ne in (b', ground (arith, went), inv')
]

pub run-Inv : (ctx : Context) (b : Broadcaster) → Inv b → Succeeds (run ctx b)
unfolding run
run-Inv ctx b inv = elim (List-cases b.input) [
  | inl e ↦ (b, ground arith, inv)
  | inr (m, rest, e) ↦
      let (r, went, after) =
        broadcast-Balanced b.made ctx m b.subscriptions.topics_to_subs b.channels inv.balanced in
      (
        record b { input = rest; channels = r.1 },
        ground arith,
        record {
          balanced = after;
          sorted = inv.sorted;
          when_open = inv.when_open;
          when_stopped = inv.when_stopped;
          when_running = inv.when_running;
        },
      )
]
