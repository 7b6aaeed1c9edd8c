-- ===== src/Api/History/Batches.antt =====
-- The batches of a query: every content topic is in one, and each is read over the whole time range.
use go_waku.Base.{
  ℕ, ◌≤◌, ◌<◌, ◌≡◌, ◌⊎◌, Bool, true, Option, none, some, List, [], ◌∷◌, length, take,
}
use go_waku.Base.Text.{Text, text_dec}
use go_waku.Base.Keys.{contains}
use go_waku.Base.Result.{ok}
use go_waku.Protocol.Message.{Envelope}
use go_waku.Protocol.ContentFilter.{new_content_filter}
use go_waku.Api.History.{
  FilterCriteria, StoreQueryRequest, Page, Work, Answered, Outcome, request_store_messages, decide,
  process_all, max_topics_per_request,
}
use go_waku.Api.History.Windows.{NotBefore, NotAfter}

-- An answer with no next page to a request for at most ten content topics, the given one among them,
-- over a window with the given time in it.
pub record FetchedBy (p ct : Text) (t : ℕ) (a : Answered) : Type 0 where
  pub last : a.next ≡ none
  pub topic : a.request.pubsub_topic ≡ p
  pub inside : contains text_dec ct a.request.content_topics ≡ true
  pub few : length a.request.content_topics ≤ max_topics_per_request
  pub start : NotBefore a.request.time_start t
  pub end : NotAfter a.request.time_end t

abbrev pub Fetched : Text → Text → ℕ → List Answered → Type 0
Fetched p ct t [] = ⊥
Fetched p ct t (a ∷ xs) = FetchedBy p ct t a ⊎ Fetched p ct t xs

-- The first work of the producer.
abbrev first_work : FilterCriteria → ℕ → List Text → Work
first_work c limit topics = record {
  criteria = record c {
    content_filter =
        new_content_filter c.content_filter.pubsub_topic (take max_topics_per_request topics);
  };
  cursor = none;
  limit = limit;
}

module _ (query : StoreQueryRequest → Option Page) (on_envelope : Envelope → Bool) (page_limit : ℕ)
    (should_process_next_page : Option (ℕ → Bool × ℕ))
    (answers : (r : StoreQueryRequest)
      → (page : Page) × (request_store_messages query on_envelope r ≡ ok page)) where
  abbrev all_of : ℕ → List Work → Outcome
  all_of = process_all query on_envelope page_limit should_process_next_page

  module _ (pages : StoreQueryRequest → ℕ)
      (shrinks : (r : StoreQueryRequest) (page : Page) (c : Text) (l : ℕ)
        → query r ≡ some page
        → page.cursor ≡ some c
        → pages (record r { pagination_cursor = some c; pagination_limit = l }) < pages r)
      (goes_on : (n : ℕ) → (decide should_process_next_page page_limit n).0 ≡ true) where
    abbrev pubsub : FilterCriteria → Text
    pubsub c = c.content_filter.pubsub_topic
