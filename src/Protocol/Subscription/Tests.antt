-- ===== src/Protocol/Subscription/Tests.antt =====
-- Runs of the subscriptions of a light node, and instances of the theorems.
use go_waku.Base.{ℕ_discrete, ◌≡◌, ◌↔◌, refl, Bool, true, false, none, List, [], ◌∷◌}
use go_waku.Protocol.Subscription.Queries.{
  close_peers, close_peer, close_all, is_subscribed_to, change_at, topics_at, found, all_found,
  iterate_subscription_set, has, notify, deliver, clear,
}
use go_waku.Protocol.Subscription.Invariant.{kept, Inv, new_subscription_map-Inv}
use go_waku.Base.Int.{pred, succ}
use go_waku.Protocol.Subscription.Details.{
  set_closing, close_c, close, ignore_error, delete_if_empty, remove_loop, remove_content_topics,
  add_loop, add_content_topics,
}
use go_waku.Base.Keys.{remove, add, contains}
use go_waku.Base.Dict.{erase, insert, lookup}
use go_waku.Protocol.Subscription.{
  put_or_erase, delete_items, delete_no_lock, decrease_sub_for, decrease_all, increase_sub_for,
  increase_all, new_details, new_subscription, SubscriptionsMap, SubscriptionError,
  new_subscription_map, subs_for, is_listening, set_of,
}
use go_waku.Protocol.Subscription.Runs.{
  at_pointer, Call, subscribes, closes, call, Allowed, Reaches, at_first, after, call-Inv, Wanted,
  is_listening_iff, adds,
}
use go_waku.Base.Text.{Text, codes, text_dec}
use go_waku.Base.Result.{Result, ok, ◌>>=◌, panic}
use go_waku.Protocol.Message.{WakuMessage, Envelope}
use go_waku.Protocol.ContentFilter.{ContentFilter}
use go_waku.Protocol.Subscription.Listed.{listed}
use mathlib.Core.Option

abbrev filter : ContentFilter
filter = record { pubsub_topic = codes "p"; content_topics = codes "a" ∷ codes "b" ∷ [] }

abbrev peer : Text
peer = codes "peer"

unfoldable all_calls : List Call → SubscriptionsMap → Result SubscriptionError SubscriptionsMap
all_calls [] sub = ok sub
all_calls (c ∷ cs) sub = call c sub >>= λ s. all_calls cs s

abbrev run : List Call → Result SubscriptionError SubscriptionsMap
run cs = all_calls cs new_subscription_map

-- Where the map listens to the topic "a", and whether it has the filter.
unfoldable seen : SubscriptionsMap → Bool × Bool
seen sub = (is_listening (codes "p") (codes "a") sub, has peer filter sub)

abbrev seen_after : List Call → Result SubscriptionError (Bool × Bool)
seen_after cs = run cs >>= λ sub. ok (seen sub)

abbrev one : List Call
one = subscribes (codes "1") peer false filter ∷ []

abbrev two : List Call
two = subscribes (codes "1") peer false filter ∷ subscribes (codes "2") peer false filter ∷ []

abbrev message : WakuMessage
message = record {
  payload = codes "x";
  content_topic = codes "a";
  version = none;
  timestamp = none;
  meta = none;
  ephemeral = none;
  rate_limit_proof = none;
}

abbrev envelope : Envelope
envelope = record { pubsub_topic = codes "p"; message = message }

abbrev first : SubscriptionsMap
first = new_subscription (codes "1") peer false filter new_subscription_map

program : Unit {0}
unfolding all_calls seen call at_pointer is_listening has all_found found topics_at notify subs_for
    new_subscription new_details new_subscription_map increase_all increase_sub_for decrease_all
    decrease_sub_for delete_no_lock delete_items put_or_erase set_of lookup insert erase contains
    add remove add_content_topics add_loop remove_content_topics remove_loop delete_if_empty
    ignore_error close close_c set_closing change_at deliver iterate_subscription_set succ pred
    listed kept is_subscribed_to close_all close_peer close_peers clear text_dec ℕ_discrete
program = tt

run_tests :
    (seen_after one ≡ ok (true, true))
    × (seen_after (subscribes (codes "1") peer false filter ∷ closes (codes "1") ∷ [])
        ≡ ok (false, false))
unfolding program
run_tests = (refl, refl)

-- A subscription that is closed twice takes away what another one counts for.
closed_twice :
    seen_after (
      subscribes (codes "1") peer false filter
      ∷ subscribes (codes "2") peer false filter
      ∷ closes (codes "1")
      ∷ closes (codes "1")
      ∷ [])
    ≡ ok (false, true)
unfolding program
closed_twice = refl

-- After `Clear` the counts are what they were.
cleared : (run one >>= λ sub. ok (seen (clear sub))) ≡ ok (true, false)
unfolding program
cleared = refl

reached : Reaches first
unfolding program
reached =
    after (subscribes (codes "1") peer false filter) at_first
      (unfold lookup in refl, (refl, (refl, tt))) refl

is_listening_iff_example :
    (is_listening (codes "p") (codes "b") first ≡ true) ↔ Wanted (codes "p") (codes "b") first
is_listening_iff_example = is_listening_iff (codes "p") (codes "b") reached

fresh : Allowed (subscribes (codes "1") peer false filter) new_subscription_map
unfolding program
fresh = (refl, (refl, (refl, tt)))

call-Inv_example :
    (sub' : SubscriptionsMap) × (call
        (subscribes (codes "1") peer false filter)
        new_subscription_map
      ≡ ok sub')
    × Inv sub'
call-Inv_example =
    call-Inv (subscribes (codes "1") peer false filter) new_subscription_map
      new_subscription_map-Inv fresh

abbrev never : Text → Bool
never id = false

-- A subscription made with a nil map of topics.
abbrev nil_filter : ContentFilter
nil_filter = record filter { content_topics = [] }

nil_add :
    run (subscribes (codes "1") peer true nil_filter ∷ adds (codes "1") (codes "a" ∷ []) ∷ [])
    ≡ panic
unfolding program
nil_add = refl
