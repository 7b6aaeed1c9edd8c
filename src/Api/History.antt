-- ===== src/Api/History.antt =====
-- waku/v2/api/history/history.go. `Query` cuts the content topics into batches, and each batch's time
-- range into windows of at most a day, each read page by page. A time is a number of nanoseconds from
-- 1970 on. The batches are worked off one after the other, where the code has up to three at a time,
-- and the contexts are not cancelled.

pub mod Windows
pub mod Batches
mod Tests
use go_waku.Base.{
  ℕ, zero, suc, ◌+◌, ◌-◌, ◌*◌, Bool, true, false, not, ◌&&◌, Option, none, some, List, [], ◌∷◌,
  ◌++◌, ltb, ◌==◌, if◌then◌else◌, length, take, drop,
}
use go_waku.Base.Text.{Text}
use go_waku.Base.Result.{Result, ok, err, panic}
use go_waku.Protocol.Message.{Envelope}
use go_waku.Protocol.ContentFilter.{ContentFilter, new_content_filter, to_list}

abbrev pub max_topics_per_request : ℕ
max_topics_per_request = 10

-- `(24*time.Hour).Nanoseconds()`
abbrev pub day : ℕ
day = 86400000000000

pub record FilterCriteria : Type 0 where
  pub content_filter : ContentFilter
  pub time_start : Option ℕ
  pub time_end : Option ℕ

-- `pb.StoreQueryRequest`, as far as it is filled in.
pub record StoreQueryRequest : Type 0 where
  pub pubsub_topic : Text
  pub content_topics : List Text
  pub time_start : Option ℕ
  pub time_end : Option ℕ
  pub pagination_cursor : Option Text
  pub pagination_limit : ℕ

-- What the store node answers: the messages of a page, and the cursor of the next one.
pub record Page : Type 0 where
  pub messages : List Envelope
  pub cursor : Option Text

pub data HistoryError : Type 0 where
  query_failed process_failed : HistoryError

pub record Work : Type 0 where
  pub criteria : FilterCriteria
  pub cursor : Option Text
  pub limit : ℕ

-- A request that was answered, with the cursor of the answer.
pub record Answered : Type 0 where
  pub request : StoreQueryRequest
  pub next : Option Text

-- `running` is what the fuel leaves undone.
pub data Outcome : Type 0 where
  finished : List Answered → Outcome
  failed : HistoryError → Outcome
  running : Outcome

-- `time_end - time_start` is more than a day.
unfoldable pub exceeds : Option ℕ → Option ℕ → Bool
exceeds (some start) (some end) = ltb (start + day) end
exceeds (some start) none = false
exceeds none end = false

abbrev pub day_before : Option ℕ → Option ℕ
day_before none = none
day_before (some end) = some (end - day)

-- The start of the window that is queried.
unfoldable pub window_start : Option ℕ → Option ℕ → Option ℕ
window_start start end = if exceeds start end then day_before end else start

-- `work_ch <- work{...}`: the batches of the producer, with fuel for the topics that are left.
unfoldable pub produce : ℕ → FilterCriteria → ℕ → List Text → List Work
produce zero criteria limit topics = []
produce (suc fuel) criteria limit topics =
    let rest = produce fuel criteria limit (drop max_topics_per_request topics) in
    if length topics == 0
    then []
    else record {
      criteria = record criteria {
        content_filter =
            new_content_filter criteria.content_filter.pubsub_topic
              (take max_topics_per_request topics);
      };
      cursor = none;
      limit = limit;
    }
      ∷ rest

-- The callback, or none.
abbrev pub decide : Option (ℕ → Bool × ℕ) → ℕ → ℕ → Bool × ℕ
decide none page_limit count = (true, page_limit)
decide (some should_process_next_page) page_limit count = should_process_next_page count

unfoldable pub request_of : FilterCriteria → Option Text → ℕ → StoreQueryRequest
request_of criteria cursor limit = record {
  pubsub_topic = criteria.content_filter.pubsub_topic;
  content_topics = to_list criteria.content_filter.content_topics;
  time_start = criteria.time_start;
  time_end = criteria.time_end;
  pagination_cursor = cursor;
  pagination_limit = limit;
}

-- The criteria of a work with the start of its window.
unfoldable pub narrowed : FilterCriteria → FilterCriteria
narrowed criteria = record criteria {
  time_start = window_start criteria.time_start criteria.time_end;
}

-- The end of the window goes back to its start once there are no more records in it.
unfoldable pub next_criteria : Option Text → FilterCriteria → FilterCriteria
next_criteria none criteria = record criteria {
  time_end = window_start criteria.time_start criteria.time_end;
}
next_criteria (some cursor) criteria = criteria

abbrev pub is_none : Option Text → Bool
is_none none = true
is_none (some c) = false

abbrev pub record_answer : Answered → Outcome → Outcome
record_answer a (finished xs) = finished (a ∷ xs)
record_answer a (failed e) = failed e
record_answer a running = running

abbrev pub join : Outcome → Outcome → Outcome
join (finished xs) (finished ys) = finished (xs ++ ys)
join (finished xs) (failed e) = failed e
join (finished xs) running = running
join (failed e) o = failed e
join running o = running

-- The loop that hands the envelopes over; each may be refused.
unfoldable pub all_processed : (Envelope → Bool) → List Envelope → Bool
all_processed on_envelope [] = true
all_processed on_envelope (e ∷ es) =
    let rest = all_processed on_envelope es in if on_envelope e then rest else false

unfoldable pub request_store_messages :
    (StoreQueryRequest → Option Page)
    → (Envelope → Bool)
    → StoreQueryRequest
    → Result HistoryError Page
request_store_messages query on_envelope request = elim (query request) [
  | none ↦ err query_failed
  | some page ↦ if all_processed on_envelope page.messages then ok page else err process_failed
]

-- The new work after an answer, if there is one.
unfoldable pub next_work : ℕ → Option (ℕ → Bool × ℕ) → Work → Page → Option Work
next_work page_limit should_process_next_page w page =
    let d = decide should_process_next_page page_limit (length page.messages) in
    if not d.0
    then none
    else if is_none page.cursor && not (exceeds w.criteria.time_start w.criteria.time_end)
    then none
    else some (record {
      criteria = next_criteria page.cursor w.criteria;
      cursor = page.cursor;
      limit = d.1;
    })

module _ (query : StoreQueryRequest → Option Page) (on_envelope : Envelope → Bool) (page_limit : ℕ)
    (should_process_next_page : Option (ℕ → Bool × ℕ)) where
  -- A work and the works that it makes.
  unfoldable pub process : ℕ → Work → Outcome
  process zero w = running
  process (suc fuel) w =
      let request = request_of (narrowed w.criteria) w.cursor w.limit in
      elim (request_store_messages query on_envelope request) [
        | ok page ↦
            let a : Answered = record { request = request; next = page.cursor } in
            elim (next_work page_limit should_process_next_page w page) [
              | none ↦ finished (a ∷ [])
              | some w' ↦ record_answer a (process fuel w')
            ]
        | err e ↦ failed e
        | panic ↦ running
      ]

  unfoldable pub process_all : ℕ → List Work → Outcome
  process_all fuel [] = finished []
  process_all fuel (w ∷ ws) = join (process fuel w) (process_all fuel ws)

  -- `Query`
  unfoldable pub query_history : ℕ → FilterCriteria → Outcome
  query_history fuel criteria =
      let topics = to_list criteria.content_filter.content_topics in
      process_all fuel (produce (length topics) criteria page_limit topics)
