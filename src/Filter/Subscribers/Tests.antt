-- ===== src/Filter/Subscribers/Tests.antt =====
-- Runs of subscribers_map.go, and instances of the theorems. `plain` stands for the digest.
use go_waku.Base.{ℕ_discrete, ◌≡◌, refl, true, none, List, [], ◌∷◌, arith}
use go_waku.Base.Text.{Text, codes, text_dec}
use go_waku.Base.Dict.{lookup, insert, erase}
use go_waku.Base.Keys.{contains, add, remove, add_all, remove_all}
use go_waku.Base.Result.{ok, err}
use go_waku.Filter.Subscribers.{
  SubscribersMap, new_subscribers_map, get, has, count, refresh, drop_if_empty, get_key,
  add_to_interest_map, remove_from_interest_map, add_interests, remove_interests, set,
  delete_topics, delete, remove_all_interests, delete_all, items_for, forget, clean_up_entries,
  clean_up, remove_all_subscribers, not_found, Call, sets, deletes, step, run, clear,
}
use go_waku.Filter.Subscribers.Lookup.{subscribed}
use go_waku.Filter.Subscribers.Interest.{interested, set-collides}
use go_waku.Filter.Subscribers.Consistency.{run-agree}
use go_waku.Filter.Subscribers.CleanUp.{lookup-clean_up}

program : Unit {0}
unfolding ℕ_discrete text_dec lookup insert erase contains add remove add_all remove_all
    new_subscribers_map get has count refresh drop_if_empty get_key add_to_interest_map
    remove_from_interest_map add_interests remove_interests set delete_topics delete
    remove_all_interests delete_all items_for forget clean_up_entries clean_up
    remove_all_subscribers step run clear subscribed interested
program = tt

abbrev plain : Text → Text
plain s = s

abbrev alice : Text
alice = codes "a"

abbrev topic_a : Text
topic_a = codes "t"

abbrev topic_ab : Text
topic_ab = codes "tx"

abbrev content_bc : Text
content_bc = codes "xy"

abbrev content_c : Text
content_c = codes "y"

abbrev one_peer : SubscribersMap
one_peer = record {
  items = (alice, (topic_a, content_bc ∷ content_c ∷ []) ∷ []) ∷ [];
  interest_map = (codes "txy", alice ∷ []) ∷ (codes "ty", alice ∷ []) ∷ [];
  timeout = 300;
  last_seen = (alice, 5) ∷ [];
}

abbrev no_peer : SubscribersMap
no_peer = record { items = []; interest_map = []; timeout = 300; last_seen = [] }

abbrev less : SubscribersMap
less = record {
  items = (alice, (topic_a, content_c ∷ []) ∷ []) ∷ [];
  interest_map = (codes "txy", []) ∷ (codes "ty", alice ∷ []) ∷ [];
  timeout = 300;
  last_seen = (alice, 9) ∷ [];
}

abbrev gone : SubscribersMap
gone = record {
  items = [];
  interest_map = (codes "txy", []) ∷ (codes "ty", []) ∷ [];
  timeout = 300;
  last_seen = [];
}

map_tests :
    (set plain 5 alice topic_a (content_bc ∷ content_c ∷ []) (new_subscribers_map 300) ≡ one_peer)
    × (delete plain 9 alice topic_a (content_bc ∷ []) one_peer ≡ ok less)
    × (delete plain 9 alice topic_a (content_c ∷ content_bc ∷ []) one_peer ≡ ok gone)
    × (delete plain 9 alice topic_ab (content_bc ∷ []) one_peer ≡ err not_found)
    × (delete_all plain alice one_peer ≡ ok gone)
    × (items_for plain topic_a content_c one_peer ≡ alice ∷ [])
    × (items_for plain topic_ab content_c one_peer ≡ alice ∷ [])
unfolding program
map_tests = (refl, refl, refl, refl, refl, refl, refl)

set-collides_example :
    (interested plain (set plain 5 alice topic_a (content_bc ∷ []) no_peer) alice topic_ab content_c
      ≡ true)
    × (subscribed (set plain 5 alice topic_a (content_bc ∷ []) no_peer) alice topic_ab content_c
        ≡ subscribed no_peer alice topic_ab content_c)
set-collides_example =
    set-collides plain 5 alice topic_a content_bc topic_ab content_c no_peer refl
      (λ e. ground arith)

abbrev InTopic : Text → Text → Type 0
InTopic t c = t ≡ topic_a

InTopic-apart :
    (s c t d : Text)
    → InTopic s c
    → InTopic t d
    → get_key plain s c ≡ get_key plain t d
    → (s ≡ t) × (c ≡ d)
unfolding get_key
InTopic-apart s c t d p q e = ground arith

abbrev calls : List Call
calls =
    sets 1 alice topic_a (content_bc ∷ content_c ∷ [])
    ∷ deletes 2 alice topic_a (content_c ∷ [])
    ∷ []

run-agree_example :
    interested plain (run plain (new_subscribers_map 300) calls) alice topic_a content_bc
    ≡ subscribed (run plain (new_subscribers_map 300) calls) alice topic_a content_bc
run-agree_example =
    run-agree plain InTopic InTopic-apart 300 calls alice topic_a content_bc
      (((refl, (refl, tt)), ((refl, tt), tt))) refl

lookup-clean_up_example : lookup text_dec alice (clean_up plain 6 one_peer).items ≡ none
unfolding program
lookup-clean_up_example = lookup-clean_up plain 6 5 one_peer alice (refl, tt) refl
