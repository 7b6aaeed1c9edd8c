-- ===== src/Api/History/Tests.antt =====
-- A run of a query over more than two days, and an instance of the theorem.
use go_waku.Base.{
  ℕ_discrete, ℕ, ◌+◌, ◌*◌, ◌≡◌, refl, Bool, true, Option, none, some, List, [], ◌∷◌, map,
}
use go_waku.Rest.FilterCache.{add_all}
use go_waku.Base.Keys.{add, contains}
use go_waku.Protocol.ContentFilter.{new_content_topic_set, new_content_filter}
use go_waku.Api.History.{
  request_of, exceeds, window_start, narrowed, next_criteria, next_work, process, produce,
  all_processed, process_all, FilterCriteria, StoreQueryRequest, Page, Outcome, finished,
  request_store_messages, query_history, day,
}
use go_waku.Base.Result.{Result}
use go_waku.Base.Text.{Text, codes, text_dec}
use go_waku.Protocol.Message.{Envelope}

-- A store node with two empty pages for each window.
abbrev answer : Option Text → Page
answer none = record { messages = []; cursor = some (codes "c") }
answer (some c) = record { messages = []; cursor = none }

abbrev query : StoreQueryRequest → Option Page
query r = some (answer r.pagination_cursor)

abbrev accept : Envelope → Bool
accept e = true

abbrev criteria : FilterCriteria
criteria = record {
  content_filter = record { pubsub_topic = codes "p"; content_topics = codes "a" ∷ codes "b" ∷ [] };
  time_start = some 7;
  time_end = some (2 * day + 8);
}

program : Unit {0}
unfolding query_history process_all produce process next_work next_criteria narrowed window_start
    exceeds request_of request_store_messages all_processed new_content_filter new_content_topic_set
    contains add add_all text_dec ℕ_discrete
program = tt

abbrev windows : Outcome → List (Option ℕ × Option ℕ)
windows (finished xs) = map (λ a. (a.request.time_start, a.request.time_end)) xs
windows o = []

three_windows :
    windows (query_history query accept 20 none 7 criteria)
    ≡ (some (day + 8), some (2 * day + 8))
      ∷ (some (day + 8), some (2 * day + 8))
      ∷ (some 8, some (day + 8))
      ∷ (some 8, some (day + 8))
      ∷ (some 7, some 8)
      ∷ (some 7, some 8)
      ∷ []
unfolding program
three_windows = refl

abbrev pages_of : Option Text → ℕ
pages_of none = 1
pages_of (some c) = 0

abbrev pages : StoreQueryRequest → ℕ
pages r = pages_of r.pagination_cursor
