-- ===== src/Protocol/Broadcast/Lifecycle.antt =====
-- The start and the stop of the broadcaster keep its invariant and do not panic.
use go_waku.Base.{ℕ, ◌≡◌, refl, true, false, [], none, arith, Bool-cases, inl, inr, sym}
use go_waku.Base.Dict.{or_empty}
use go_waku.Base.Sums.{total}
use go_waku.Protocol.Broadcast.{Broadcaster, open_input, closed_input, new_sub_store, start}
use go_waku.Protocol.Broadcast.Channels.{stop}
use go_waku.Protocol.Broadcast.Balance.{open_count, held_all, close_topics-Balanced}
use go_waku.Protocol.Broadcast.Invariant.{Inv}
use go_waku.Protocol.Broadcast.Operations.{Succeeds}

none_held : (c : ℕ) (b : Broadcaster) → Inv b → b.running ≡ false → open_count c b.channels ≡ 0
none_held c b inv e =
    let none_left : held_all c (or_empty b.subscriptions.topics_to_subs) ≡ 0 =
      rw (inv.when_stopped e) (unfold held_all total in refl) in
    omega (arith, none_left, inv.balanced.counts c)

pub start-Inv : (b : Broadcaster) → Inv b → b.running ≡ false → Succeeds (start b)
unfolding start new_sub_store
start-Inv b inv e = (
  record b {
    running = true;
    subscriptions = new_sub_store;
    input_channel = open_input;
    input = [];
  },
  ground arith,
  record {
    balanced = record {
      counts = λ c. unfold held_all total in sym (none_held c b inv e);
      fresh = inv.balanced.fresh;
    };
    sorted = record { distinct = tt; each = tt };
    when_open = (λ e'. refl, λ e'. refl);
    when_stopped = λ e'. absurd (cc);
    when_running = λ e'. ([], refl);
  },
)

pub stop-Inv : (b : Broadcaster) → Inv b → Succeeds (stop b)
unfolding stop
stop-Inv b inv = elim (Bool-cases b.running) [
  | inr e ↦ (b, ground arith, inv)
  | inl e ↦
      let topics = or_empty b.subscriptions.topics_to_subs in
      let (left, went, after) =
        close_topics-Balanced b.made (λ c. 0) topics b.channels
          (record {
            counts = λ c. omega (arith, inv.balanced.counts c);
            fresh = inv.balanced.fresh;
          }) in
      (
        record b {
          running = false;
          subscriptions = record b.subscriptions { topics_to_subs = none };
          channels = left;
          input_channel = closed_input;
          input = [];
        },
        ground arith,
        record {
          balanced = record {
            counts = λ c. unfold held_all total in after.counts c;
            fresh = after.fresh;
          };
          sorted = record { distinct = tt; each = tt };
          when_open = (λ r. absurd (cc), λ r. absurd (cc));
          when_stopped = λ r. refl;
          when_running = λ r. absurd (cc);
        },
      )
]
