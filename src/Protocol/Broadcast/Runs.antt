-- ===== src/Protocol/Broadcast/Runs.antt =====
-- The calls of a broadcaster, by the node and by the owners of its subscriptions, and the states that
-- they lead to.
use go_waku.Protocol.Broadcast.Operations.{
  send_input-Inv, Input-cases, Succeeds, create_new_subscription-Inv, unsubscribe-Inv,
  un_register-Inv, submit-Inv, run-Inv,
}
use go_waku.Protocol.Broadcast.Channels.{
  send_input, Context, run, submit, unsubscribe, un_register, stop,
}
use go_waku.Protocol.Broadcast.{
  create_new_subscription, closed_input, Channel, Subscription, Broadcaster, BroadcastError,
  BroadcasterOption, already_started, new_broadcaster, start, register, register_for_all,
  process_opts,
}
use go_waku.Base.{
  Bool, ℕ, ◌<◌, ◌≡◌, ◌↔◌, ◌⊎◌, sym, ◌∙◌, subst, true, false, List, [], some, arith, inl, inr,
  Bool-cases, Option-cases, ℕ_discrete,
}
use go_waku.Base.Text.{Text, text_dec}
use go_waku.Base.Dict.{or_empty, Dict, lookup, Every-lookup}
use go_waku.Base.Result.{Result, ok, err, panic, ◌>>=◌, ok-injective}
use go_waku.Base.Occurrences.{at_key}
use go_waku.Base.Sums.{total-pos, total-erase}
use go_waku.Protocol.Message.{Envelope}
use go_waku.Protocol.ContentFilter.{ContentFilter}
use go_waku.Protocol.Broadcast.Balance.{open_count, holds, held, held_all}
use go_waku.Protocol.Broadcast.Invariant.{Inv, AreFiled, new_broadcaster-Inv}
use go_waku.Protocol.Broadcast.Lifecycle.{start-Inv, stop-Inv}

-- `unsubscribes` calls the function of any subscription, `runs` is a turn of the loop
-- of `run`, `submits` a `Submit` that no other call interrupts, and `sends` the send of one whose test
-- came some calls before.
pub data Call : Type 0 where
  starts : Call
  stops : Call
  registers : ContentFilter → List BroadcasterOption → Call
  registers_for_all : List BroadcasterOption → Call
  unsubscribes : Subscription → Call
  un_registers : Text → Call
  submits : Envelope → Call
  sends : Envelope → Call
  runs : Context → Call

unfoldable pub call : Call → Broadcaster → Result BroadcastError Broadcaster
call starts b = start b
call stops b = stop b
call (registers content_filter opts) b = register content_filter opts b >>= λ r. ok r.1
call (registers_for_all opts) b = register_for_all opts b >>= λ r. ok r.1
call (unsubscribes sub) b = unsubscribe sub b
call (un_registers pubsub_topic) b = un_register pubsub_topic b
call (submits m) b = submit m b
call (sends m) b = send_input m b
call (runs ctx) b = run ctx b

-- What panics: to register where the maps are nil, and to send on a closed channel.
abbrev pub Panics : Call → Broadcaster → Type 0
Panics (registers content_filter opts) b = b.running ≡ false
Panics (registers_for_all opts) b = b.running ≡ false
Panics (sends m) b = b.input_channel ≡ closed_input
Panics starts b = ⊥
Panics stops b = ⊥
Panics (unsubscribes sub) b = ⊥
Panics (un_registers pubsub_topic) b = ⊥
Panics (submits m) b = ⊥
Panics (runs ctx) b = ⊥

pub data Reaches : Broadcaster → Type 0 where
  at_first : (buf_len : ℕ) → Reaches (new_broadcaster buf_len)
  after : {b b' : Broadcaster} (c : Call) → Reaches b → call c b ≡ ok b' → Reaches b'

-- What a call comes to in a state with the invariant.
abbrev Ends : Call → Broadcaster → Type 0
Ends c b =
    (Panics c b × (call c b ≡ panic)) ⊎ ((call c b ≡ err already_started) ⊎ Succeeds (call c b))

register-Ends :
    (cf : ContentFilter) (dont_consume : Bool) (ch_len : ℕ) (b : Broadcaster)
    → Inv b
    → ((b.running ≡ false) × (create_new_subscription cf dont_consume ch_len b ≡ panic))
      ⊎ ((sub : Subscription) × (b' : Broadcaster) × (create_new_subscription cf dont_consume ch_len
              b
            ≡ ok (sub, b'))
          × Inv b')
register-Ends cf dont_consume ch_len b inv = elim (Bool-cases b.running) [
  | inl e ↦ inr (create_new_subscription-Inv cf dont_consume ch_len b inv e)
  | inr e ↦
      let nil_maps = inv.when_stopped e in inl (e, unfold create_new_subscription in ground arith)
]

call-Ends : (c : Call) (b : Broadcaster) → Inv b → Ends c b
unfolding call start register register_for_all
call-Ends starts b inv = elim (Bool-cases b.running) [
  | inl e ↦ inr (inl (ground arith))
  | inr e ↦ inr (inr (start-Inv b inv e))
]
call-Ends stops b inv = inr (inr (stop-Inv b inv))
call-Ends (registers content_filter opts) b inv =
    let params = process_opts opts in
    elim (register-Ends content_filter params.dont_consume params.ch_len b inv) [
      | inl (e, panics) ↦ inl (e, ground arith)
      | inr (sub, b', went, inv') ↦ inr (inr (b', ground arith, inv'))
    ]
call-Ends (registers_for_all opts) b inv =
    let params = process_opts opts in
    let all : ContentFilter = record { pubsub_topic = []; content_topics = [] } in
    elim (register-Ends all params.dont_consume params.ch_len b inv) [
      | inl (e, panics) ↦ inl (e, ground arith)
      | inr (sub, b', went, inv') ↦ inr (inr (b', ground arith, inv'))
    ]
call-Ends (unsubscribes sub) b inv = inr (inr (unsubscribe-Inv sub b inv))
call-Ends (un_registers pubsub_topic) b inv = inr (inr (un_register-Inv pubsub_topic b inv))
call-Ends (submits m) b inv = inr (inr (submit-Inv m b inv))
call-Ends (sends m) b inv = elim (Input-cases b.input_channel) [
  | inr (inr closed) ↦ inl (closed, unfold send_input in ground arith)
  | inr (inl opened) ↦ inr (inr (send_input-Inv m b inv (λ e. absurd (cc))))
  | inl missing ↦ inr (inr (send_input-Inv m b inv (λ e. absurd (cc))))
]
call-Ends (runs ctx) b inv = inr (inr (run-Inv ctx b inv))

pub Reaches-Inv : {b : Broadcaster} → Reaches b → Inv b
Reaches-Inv (at_first buf_len) = new_broadcaster-Inv buf_len
Reaches-Inv (after {b = b} c before e) = elim (call-Ends c b (Reaches-Inv before)) [
  | inl (_, panics) ↦ absurd (cc)
  | inr (inl refused) ↦ absurd (cc)
  | inr (inr (b', went, inv)) ↦ subst Inv (ok-injective (sym went ∙ e)) inv
]

panicking-panic : (c : Call) (b : Broadcaster) → Inv b → Panics c b → call c b ≡ panic
unfolding call register register_for_all create_new_subscription send_input
panicking-panic (registers content_filter opts) b inv e =
    let nil_maps = inv.when_stopped e in ground arith
panicking-panic (registers_for_all opts) b inv e = let nil_maps = inv.when_stopped e in ground arith
panicking-panic (sends m) b inv e = ground arith
panicking-panic starts b inv e = elim e [ ]
panicking-panic stops b inv e = elim e [ ]
panicking-panic (unsubscribes _) b inv e = elim e [ ]
panicking-panic (un_registers _) b inv e = elim e [ ]
panicking-panic (submits _) b inv e = elim e [ ]
panicking-panic (runs _) b inv e = elim e [ ]

-- After any calls of a broadcaster's methods and of its subscriptions' functions, a call panics
-- exactly when it registers while the broadcaster does not run, whose maps are then nil, or is the send
-- of a `Submit` whose test came before a stop that closed the input channel. In particular no call
-- closes a channel of a subscription twice or sends to a closed one, although the function of any
-- subscription is called any number of times, also after a stop.
pub call-panic_iff : {b : Broadcaster} (c : Call) → Reaches b → (call c b ≡ panic) ↔ Panics c b
call-panic_iff {b = b} c reached =
    let inv = Reaches-Inv reached in
    (
      λ e. elim (call-Ends c b inv) [
        | inl (p, _) ↦ p
        | inr (inl refused) ↦ absurd (cc)
        | inr (inr (b', went, inv')) ↦ absurd (cc)
      ],
      panicking-panic c b inv,
    )

abbrev pub IsSendable : ℕ → Broadcaster → Type 0
IsSendable ch b = (c : Channel) × (lookup ℕ_discrete ch b.channels ≡ some c) × (c.closed ≡ false)

-- The maps have a subscription with the channel.
abbrev pub IsRegistered : ℕ → Broadcaster → Type 0
IsRegistered ch b =
    (p : Text) × (subs : Dict ℕ Subscription) × (id : ℕ) × (sub : Subscription) × (lookup text_dec p
        (or_empty b.subscriptions.topics_to_subs)
      ≡ some subs)
    × (lookup ℕ_discrete id subs ≡ some sub)
    × (sub.ch ≡ ch)

open-counted : (ch : ℕ) (b : Broadcaster) → IsSendable ch b → 0 < open_count ch b.channels
unfolding open_count
open-counted ch b (c, there, opened) = ground arith

counted-open : (ch : ℕ) (b : Broadcaster) → 0 < open_count ch b.channels → IsSendable ch b
unfolding open_count
counted-open ch b h = elim (Option-cases (lookup ℕ_discrete ch b.channels)) [
  | inl e ↦ absurd (ground arith)
  | inr (c, e) ↦ (c, e, ground arith)
]

-- In every state that calls lead to, a channel is open exactly as long as the maps have a subscription with it: none is leaked.
pub open_iff : (ch : ℕ) {b : Broadcaster} → Reaches b → IsSendable ch b ↔ IsRegistered ch b
open_iff ch {b = b} reached =
    let inv = Reaches-Inv reached in
    let topics = or_empty b.subscriptions.topics_to_subs in
    let last = b.subscriptions.last_id in
    (
      (λ o.
          let (p, subs, there, pos) =
            total-pos text_dec (held ch) topics inv.sorted.distinct
              (unfold held_all in ground (arith, open-counted ch b o, inv.balanced.counts ch)) in
          let f =
            Every-lookup text_dec (λ p subs. AreFiled p last subs) p subs topics inv.sorted.each
              there in
          let (id, sub, found, holds_it) =
            total-pos ℕ_discrete (holds ch) subs f.single (unfold held in pos) in
          (p, subs, id, sub, there, found, unfold holds at_key in ground arith)),
      (λ r.
          let (p, subs, id, sub, there, found, e) = r in
          let f =
            Every-lookup text_dec (λ p subs. AreFiled p last subs) p subs topics inv.sorted.each
              there in
          counted-open ch b (
            unfold held_all held holds at_key in
            ground (
              arith,
              inv.balanced.counts ch,
              total-erase text_dec (held ch) p subs topics inv.sorted.distinct there,
              total-erase ℕ_discrete (holds ch) id sub subs f.single found,
            ))),
    )

-- In a state that calls lead to, every channel that was ever made is closed as soon as the broadcaster does not run.
pub stopped-closed :
    (ch : ℕ) (c : Channel) {b : Broadcaster}
    → Reaches b
    → b.running ≡ false
    → lookup ℕ_discrete ch b.channels ≡ some c
    → c.closed ≡ true
stopped-closed ch c {b = b} reached e there = elim (Bool-cases c.closed) [
  | inl closed ↦ closed
  | inr opened ↦
      let (p, subs, id, sub, at_topic, found, same) = (open_iff ch reached).0 (c, there, opened) in
      let nothing = (Reaches-Inv reached).when_stopped e in absurd (unfold lookup in ground arith)
]
