-- ===== src/Filter/Subscribers.antt =====
-- waku/v2/protocol/filter/subscribers_map.go. Peers and topics are texts, and times numbers.
-- `digest` stands for `hex.EncodeToString(crypto.Keccak256(...))`.
pub mod Lookup
pub mod Deletion
pub mod Interest
pub mod Consistency
pub mod CleanUp
mod Tests
use go_waku.Base.{
  ℕ, ◌-◌, ◌≡◌, Bool, true, false, Option, none, some, List, [], ◌∷◌, ◌++◌, ltb, ◌==◌, if◌then◌else◌,
  length,
}
use go_waku.Base.Text.{Text, text_dec}
use go_waku.Base.Dict.{or_empty, Dict, lookup, insert, erase}
use go_waku.Base.Keys.{add, remove, add_all, remove_all}
use go_waku.Base.Result.{Result, ok, err, panic}

-- pubsubTopic => contentTopics
abbrev pub PubsubTopics : Type 0
PubsubTopics = Dict Text (List Text)

pub record SubscribersMap : Type 0 where
  pub items : Dict Text PubsubTopics
  pub interest_map : Dict Text (List Text)
  pub timeout : ℕ
  pub last_seen : Dict Text ℕ

unfoldable pub new_subscribers_map : ℕ → SubscribersMap
new_subscribers_map timeout = record {
  items = [];
  interest_map = [];
  timeout = timeout;
  last_seen = [];
}

unfoldable pub clear : SubscribersMap → SubscribersMap
clear sub = record sub { items = []; interest_map = []; last_seen = [] }

unfoldable pub get : SubscribersMap → Text → Option PubsubTopics
get sub peer_id = lookup text_dec peer_id sub.items

unfoldable pub has : SubscribersMap → Text → Bool
has sub peer_id = elim (lookup text_dec peer_id sub.items) [ none ↦ false | some _ ↦ true ]

unfoldable pub count : SubscribersMap → ℕ
count sub = length sub.items

unfoldable pub remove_all_subscribers : SubscribersMap → SubscribersMap
remove_all_subscribers sub = record sub { items = []; last_seen = [] }

unfoldable pub refresh : ℕ → Text → SubscribersMap → SubscribersMap
refresh now peer_id sub = record sub { last_seen = insert text_dec peer_id now sub.last_seen }

-- `if len(m[k]) == 0 { delete(m, k) }`, where `l` is `m[k]`.
unfoldable pub drop_if_empty :
    {A : Type 0} → Text → List A → Dict Text (List A) → Dict Text (List A)
drop_if_empty k l m = if length l == 0 then erase text_dec k m else m

pub data SubscribersError : Type 0 where
  not_found : SubscribersError

module _ (digest : Text → Text) where
  -- The two topics are joined with nothing between them.
  unfoldable pub get_key : Text → Text → Text
  get_key pubsub_topic content_topic = digest (pubsub_topic ++ content_topic)

  unfoldable pub add_to_interest_map :
      Text → Text → Text → Dict Text (List Text) → Dict Text (List Text)
  add_to_interest_map peer_id pubsub_topic content_topic interest_map =
      let key = get_key pubsub_topic content_topic in
      let peer_set = or_empty (lookup text_dec key interest_map) in
      insert text_dec key (add text_dec peer_id peer_set) interest_map

  unfoldable pub remove_from_interest_map :
      Text → Text → Text → Dict Text (List Text) → Dict Text (List Text)
  remove_from_interest_map peer_id pubsub_topic content_topic interest_map =
      let key = get_key pubsub_topic content_topic in
      elim (lookup text_dec key interest_map) [
        | none ↦ interest_map
        | some peer_set ↦ insert text_dec key (remove text_dec peer_id peer_set) interest_map
      ]

  -- The loop of `Set` over the content topics.
  unfoldable pub add_interests :
      Text → Text → List Text → Dict Text (List Text) → Dict Text (List Text)
  add_interests peer_id pubsub_topic [] m = m
  add_interests peer_id pubsub_topic (c ∷ cs) m =
      add_interests peer_id pubsub_topic cs (add_to_interest_map peer_id pubsub_topic c m)

  -- The loops of `Delete` and `deleteAll` over content topics.
  unfoldable pub remove_interests :
      Text → Text → List Text → Dict Text (List Text) → Dict Text (List Text)
  remove_interests peer_id pubsub_topic [] m = m
  remove_interests peer_id pubsub_topic (c ∷ cs) m =
      remove_interests peer_id pubsub_topic cs (remove_from_interest_map peer_id pubsub_topic c m)

  unfoldable pub set : ℕ → Text → Text → List Text → SubscribersMap → SubscribersMap
  set now peer_id pubsub_topic content_topics sub =
      let pubsub_topic_map = or_empty (lookup text_dec peer_id sub.items) in
      let content_topics_map = or_empty (lookup text_dec pubsub_topic pubsub_topic_map) in
      record sub {
        items =
            insert text_dec peer_id
              (insert text_dec pubsub_topic (add_all text_dec content_topics content_topics_map)
                pubsub_topic_map)
              sub.items;
        interest_map = add_interests peer_id pubsub_topic content_topics sub.interest_map;
        last_seen = insert text_dec peer_id now sub.last_seen;
      }

  -- The two lookups, the new activity, the two removals, and what became empty.
  unfoldable pub delete_topics :
      ℕ → Text → Text → List Text → PubsubTopics → List Text → SubscribersMap → SubscribersMap
  delete_topics now peer_id pubsub_topic content_topics pubsub_topic_map content_topics_map sub =
      let left = remove_all text_dec content_topics content_topics_map in
      let topics_left =
        drop_if_empty pubsub_topic left (insert text_dec pubsub_topic left pubsub_topic_map) in
      let seen = insert text_dec peer_id now sub.last_seen in
      record sub {
        items = drop_if_empty peer_id topics_left (insert text_dec peer_id topics_left sub.items);
        interest_map = remove_interests peer_id pubsub_topic content_topics sub.interest_map;
        last_seen = if length topics_left == 0 then erase text_dec peer_id seen else seen;
      }

  unfoldable pub delete :
      ℕ → Text → Text → List Text → SubscribersMap → Result SubscribersError SubscribersMap
  delete now peer_id pubsub_topic content_topics sub = elim (lookup text_dec peer_id sub.items) [
    | none ↦ err not_found
    | some pubsub_topic_map ↦ elim (lookup text_dec pubsub_topic pubsub_topic_map) [
      | none ↦ err not_found
      | some content_topics_map ↦ ok (
          delete_topics now peer_id pubsub_topic content_topics pubsub_topic_map content_topics_map
            sub)
    ]
  ]

  -- The two nested loops of `deleteAll`.
  unfoldable pub remove_all_interests :
      Text → PubsubTopics → Dict Text (List Text) → Dict Text (List Text)
  remove_all_interests peer_id [] m = m
  remove_all_interests peer_id ((pubsub_topic, cs) ∷ rest) m =
      remove_all_interests peer_id rest (remove_interests peer_id pubsub_topic cs m)

  unfoldable pub delete_all : Text → SubscribersMap → Result SubscribersError SubscribersMap
  delete_all peer_id sub = elim (lookup text_dec peer_id sub.items) [
    | none ↦ err not_found
    | some pubsub_topic_map ↦ ok (record sub {
      items = erase text_dec peer_id sub.items;
      interest_map = remove_all_interests peer_id pubsub_topic_map sub.interest_map;
      last_seen = erase text_dec peer_id sub.last_seen;
    })
  ]

  -- The peers that `Items` sends on its channel.
  unfoldable pub items_for : Text → Text → SubscribersMap → List Text
  items_for pubsub_topic content_topic sub =
      or_empty (lookup text_dec (get_key pubsub_topic content_topic) sub.interest_map)

  -- `_ = sub.deleteAll(peerID)`.
  unfoldable pub forget : Text → SubscribersMap → SubscribersMap
  forget peer_id sub = elim (delete_all peer_id sub) [ ok sub' ↦ sub' | _ ↦ sub ]

  -- The loop of `cleanUp` at one tick of its timer, over the entries of `lastSeen`.
  unfoldable pub clean_up_entries : ℕ → Dict Text ℕ → SubscribersMap → SubscribersMap
  clean_up_entries now [] sub = sub
  clean_up_entries now ((peer_id, last_seen) ∷ rest) sub =
      clean_up_entries now rest
        (if ltb (now - last_seen) sub.timeout then forget peer_id sub else sub)

  unfoldable pub clean_up : ℕ → SubscribersMap → SubscribersMap
  clean_up now sub = clean_up_entries now sub.last_seen sub

-- The calls, of the timer too, with their times. A call that fails changes nothing.
pub data Call : Type 0 where
  sets deletes : ℕ → Text → Text → List Text → Call
  deletes_all : Text → Call
  refreshes : ℕ → Text → Call
  cleans : ℕ → Call
  clears : Call
  removes_all : Call

module _ (digest : Text → Text) where
  unfoldable pub step : SubscribersMap → Call → SubscribersMap
  step sub (sets now peer topic cs) = set digest now peer topic cs sub
  step sub (deletes now peer topic cs) = elim (delete digest now peer topic cs sub) [
    | ok sub' ↦ sub'
    | _ ↦ sub
  ]
  step sub (deletes_all peer) = forget digest peer sub
  step sub (refreshes now peer) = refresh now peer sub
  step sub (cleans now) = clean_up digest now sub
  step sub clears = clear sub
  step sub removes_all = remove_all_subscribers sub

  unfoldable pub run : SubscribersMap → List Call → SubscribersMap
  run sub [] = sub
  run sub (call ∷ calls) = run (step sub call) calls
