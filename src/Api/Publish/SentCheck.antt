-- ===== src/Api/Publish/SentCheck.antt =====
-- waku/v2/api/publish/message_check.go. The outgoing messages by pubsub topic and hash, with the time
-- at which each was sent, in seconds of 32 bits. A round first chooses the hashes to ask for, then asks
-- the store node, and then forgets what was found or expired.

pub mod Tracking
pub mod Choices
pub mod Judgements
pub mod Rounds
mod Tests
use go_waku.Base.{
  ℕ, ◌+◌, ◌%◌, ◌^◌, Bool, true, false, not, ◌&&◌, ◌||◌, Option, none, some, List, [], ◌∷◌, ◌++◌,
  map, ltb, leb, ◌==◌, if◌then◌else◌, length,
}
use go_waku.Base.Text.{Text, text_dec, same}
use go_waku.Base.Dict.{or_empty, Dict, lookup, insert, erase}
use go_waku.Base.Keys.{contains}

abbrev pub default_max_hash_query_length : ℕ
default_max_hash_query_length = 50

-- In seconds.
abbrev pub default_message_sent_period : ℕ
default_message_sent_period = 3

abbrev pub default_message_expired_period : ℕ
default_message_expired_period = 10

abbrev pub MessageIds : Type 0
MessageIds = Dict Text (Dict Text ℕ)

pub record MessageSentCheck : Type 0 where
  pub message_ids : MessageIds
  pub max_hash_query_length : ℕ
  pub message_sent_period : ℕ
  pub message_expired_period : ℕ

unfoldable pub new_message_sent_check : MessageSentCheck
new_message_sent_check = record {
  message_ids = [];
  max_hash_query_length = default_max_hash_query_length;
  message_sent_period = default_message_sent_period;
  message_expired_period = default_message_expired_period;
}

unfoldable pub add : Text → Text → ℕ → MessageSentCheck → MessageSentCheck
add topic message_id sent_time m = record m {
  message_ids =
      insert text_dec topic
        (insert text_dec message_id sent_time (or_empty (lookup text_dec topic m.message_ids)))
        m.message_ids;
}

-- The loop over the hashes of one topic; a topic with no message left goes.
unfoldable pub delete_hashes : Text → List Text → Dict Text ℕ → MessageIds → MessageIds
delete_hashes topic [] sub_msgs ids = ids
delete_hashes topic (hash ∷ hashes) sub_msgs ids =
    let left = erase text_dec hash sub_msgs in
    delete_hashes topic hashes left
      (if length left == 0 then erase text_dec topic ids else insert text_dec topic left ids)

-- The loop over the topics that the map had.
unfoldable pub delete_in : List Text → MessageIds → MessageIds → MessageIds
delete_in message_ids [] ids = ids
delete_in message_ids ((topic, sub_msgs) ∷ rest) ids =
    delete_in message_ids rest (delete_hashes topic message_ids sub_msgs ids)

unfoldable pub delete_by_message_ids : List Text → MessageSentCheck → MessageSentCheck
delete_by_message_ids message_ids m = record m {
  message_ids = delete_in message_ids m.message_ids m.message_ids;
}

abbrev pub u32 : ℕ → ℕ
u32 n = n % 2 ^ 32

-- The sum of a time and a period wraps around.
unfoldable pub has_passed : ℕ → ℕ → ℕ → Bool
has_passed now sent_time period = ltb (u32 (sent_time + period)) (u32 now)

-- The hashes to ask for, with the times; `chosen` are those before. At the maximum the loop breaks.
-- `now` is the time at which a message is looked at.
unfoldable pub choose :
    (Text → ℕ) → MessageSentCheck → List (Text × ℕ) → Dict Text ℕ → List (Text × ℕ)
choose now m chosen [] = chosen
choose now m chosen ((message_id, send_time) ∷ rest) =
    let more =
      choose now m
        (if has_passed (now message_id) send_time m.message_sent_period
          then chosen ++ (message_id, send_time) ∷ []
          else chosen)
        rest in
    if leb m.max_hash_query_length (length chosen) then chosen else more

abbrev pub Query : Type 0
Query = Text × List (Text × ℕ)

-- The queries of a round; a topic with nothing to ask for is left out.
unfoldable pub queries : (Text → ℕ) → MessageSentCheck → MessageIds → List Query
queries now m [] = []
queries now m ((topic, sub_msgs) ∷ rest) =
    let others = queries now m rest in
    let chosen = choose now m [] sub_msgs in
    if ltb 0 (length chosen) then (topic, chosen) ∷ others else others

-- What is sent on the channels.
pub data Report : Type 0 where
  stored expired : Text → Report

-- The loop of `messageHashBasedQuery`: what was found, what is missed, and the reports. `clock` is the
-- time at which a hash is looked at.
pub record Verdicts : Type 0 where
  pub acked : List Text
  pub missed : List Text
  pub reports : List Report

unfoldable pub judge_one :
    (Text → ℕ) → MessageSentCheck → List Text → Text → ℕ → Verdicts → Verdicts
judge_one clock m result hash relay_time v =
    if contains text_dec hash result
    then record v { acked = v.acked ++ hash ∷ []; reports = v.reports ++ stored hash ∷ [] }
    else if has_passed (clock hash) relay_time m.message_expired_period
    then record v { missed = v.missed ++ hash ∷ []; reports = v.reports ++ expired hash ∷ [] }
    else v

unfoldable pub judge :
    (Text → ℕ) → MessageSentCheck → List Text → List (Text × ℕ) → Verdicts → Verdicts
judge clock m result [] v = v
judge clock m result ((hash, relay_time) ∷ rest) v =
    judge clock m result rest (judge_one clock m result hash relay_time v)

abbrev pub no_verdicts : Verdicts
no_verdicts = record { acked = []; missed = []; reports = [] }

-- With no store node, or an error of the query, nothing is done; `verify` is then none.
unfoldable pub message_hash_based_query :
    (Text → ℕ) → (List Text → Option (List Text)) → MessageSentCheck → List (Text × ℕ) → Verdicts
message_hash_based_query clock verify m hashes = elim (verify (map (λ e. e.0) hashes)) [
  | none ↦ no_verdicts
  | some result ↦ judge clock m result hashes no_verdicts
]

-- The end of a round: what was processed for each topic is forgotten.
unfoldable pub settle : List (Text × List Text) → MessageIds → MessageIds
settle [] ids = ids
settle ((topic, processed) ∷ rest) ids = settle rest (elim (lookup text_dec topic ids) [
  | none ↦ ids
  | some sub_msgs ↦ delete_hashes topic processed sub_msgs ids
])

module _ (clock : Text → ℕ) (verify : List Text → Option (List Text)) where
  abbrev pub verdicts_of : MessageSentCheck → Query → Verdicts
  verdicts_of m q = message_hash_based_query clock verify m q.1

  unfoldable pub process : MessageSentCheck → List Query → List (Text × List Text)
  process m [] = []
  process m (q ∷ qs) = (q.0, (verdicts_of m q).acked ++ (verdicts_of m q).missed) ∷ process m qs

  -- A round in which nothing is added or deleted from outside.
  unfoldable pub round : (Text → ℕ) → MessageSentCheck → MessageSentCheck
  round now m = record m {
    message_ids = settle (process m (queries now m m.message_ids)) m.message_ids;
  }
