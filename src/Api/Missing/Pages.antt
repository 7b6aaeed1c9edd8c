-- ===== src/Api/Missing/Pages.antt =====
-- The pages of a result, and the attempts to get them.
use go_waku.Base.{
  ℕ, zero, suc, ◌+◌, ◌==◌, ◌≡◌, ap, ◌∙◌, Bool, true, Option, none, some, List, [], ◌++◌, arith,
  Option-cases, Bool-cases, inl, inr,
}
use go_waku.Base.Text.{Text}
use go_waku.Base.Result.{Result, ok, err, Result-cases}
use go_waku.Protocol.Store.{StoreError, StoreQueryRequest, StoreQueryResponse, WakuMessageKeyValue}
use go_waku.Protocol.Store.Client.{StoreResult, query_from, next_page, next}
use go_waku.Api.Missing.{MissingError, retry, store_query_with_retry, keep_missing, collect_missing}

module _ (exchange : Text → StoreQueryRequest → Option StoreQueryResponse)
    (exists : Text → Option Bool) (ids : ℕ → Text) (max_attempts : ℕ) where
  -- The request for the page after a result.
  abbrev pub page_request : Text → StoreResult → StoreQueryRequest
  page_request id r = record r.store_request { request_id = id; pagination_cursor = r.cursor }

  abbrev pub turned : StoreResult → StoreQueryResponse → StoreResult
  turned r x = record r { cursor = x.pagination_cursor; messages = x.messages }

  -- From attempt `k` on the queries for the page after `r` fail, until one gives the response.
  pub data Answers (r : StoreResult) (x : StoreQueryResponse) : ℕ → Type 0 where
    at_once :
        {k : ℕ} → query_from exchange r.peer_id (page_request (ids k) r) ≡ ok x → Answers r x k
    later :
        {k : ℕ} (e : StoreError)
        → query_from exchange r.peer_id (page_request (ids k) r) ≡ err e
        → Answers r x (suc k)
        → Answers r x k

  -- The messages from a result on: its own, and those that the store node gives from its cursor on.
  pub data Pages : StoreResult → List WakuMessageKeyValue → Type 0 where
    last : {r : StoreResult} → r.cursor ≡ none → Pages r r.messages
    more :
        {r : StoreResult} {ms all : List WakuMessageKeyValue} (c : Text) (x : StoreQueryResponse)
        → r.cursor ≡ some c
        → ((k : ℕ) → Answers r x k)
        → Pages (turned r x) ms
        → all ≡ r.messages ++ ms
        → Pages r all

  pub next_last :
      (id : Text) (r : StoreResult)
      → r.cursor ≡ none
      → next exchange id r ≡ ok (record r { done = true; messages = [] })
  unfolding next
  next_last id r e = ground arith

  next_more :
      (id c : Text) (r : StoreResult) (x : StoreQueryResponse)
      → r.cursor ≡ some c
      → query_from exchange r.peer_id (page_request id r) ≡ ok x
      → next exchange id r ≡ ok (turned r x)
  unfolding next next_page
  next_more id c r x e went = ground (arith, went)

  next_fails :
      (id c : Text) (r : StoreResult) (f : StoreError)
      → r.cursor ≡ some c
      → query_from exchange r.peer_id (page_request id r) ≡ err f
      → next exchange id r ≡ err f
  unfolding next next_page
  next_fails id c r f e went = ground (arith, went)

  pub retry-Answers :
      (c : Text) (r : StoreResult) (x : StoreQueryResponse) {k : ℕ}
      → r.cursor ≡ some c
      → Answers r x k
      → (fuel : ℕ) × (k' : ℕ) × (retry exchange exists ids max_attempts fuel k r
          ≡ some (ok (k', turned r x)))
  unfolding retry
  retry-Answers c r x {k} e (at_once went) =
      let step = next_more (ids k) c r x e went in (1, suc k, ground (arith, step))
  retry-Answers c r x {k} e (later f fails rest) =
      let (fuel, k', ends) = retry-Answers c r x e rest in
      let step = next_fails (ids k) c r f e fails in (suc fuel, k', ground (arith, step, ends))

  -- Enough fuel stays enough.
  pub retry_more :
      (n fuel k : ℕ) (r : StoreResult) (y : Result MissingError (ℕ × StoreResult))
      → retry exchange exists ids max_attempts fuel k r ≡ some y
      → retry exchange exists ids max_attempts (n + fuel) k r ≡ some y
  unfolding retry
  retry_more n zero k r y h = absurd (cc)
  retry_more n (suc fuel) k r y h =
      let e : n + suc fuel ≡ suc (n + fuel) = omega arith in
      ap (λ f. retry exchange exists ids max_attempts f k r) e
      ∙ elim (Result-cases (next exchange (ids k) r)) [
        | inl (r', s) ↦ ground arith
        | inr (inl (f, s)) ↦ ground (arith, retry_more n fuel (suc k) r y)
        | inr (inr s) ↦ ground arith
      ]

  query_more :
      (n fuel k : ℕ) (r : StoreResult) (y : Result MissingError (ℕ × StoreResult))
      → store_query_with_retry exchange exists ids max_attempts fuel k r ≡ some y
      → store_query_with_retry exchange exists ids max_attempts (n + fuel) k r ≡ some y
  unfolding store_query_with_retry
  query_more n fuel k r y h = elim (Bool-cases (max_attempts == 0)) [
    | inl e ↦ ground arith
    | inr e ↦ ground (arith, retry_more n fuel k r y)
  ]

  pub collect_more :
      (n fuel k : ℕ) (r : StoreResult) (hashes : List Text) (y : Result MissingError (List Text))
      → collect_missing exchange exists ids max_attempts fuel k r hashes ≡ some y
      → collect_missing exchange exists ids max_attempts (n + fuel) k r hashes ≡ some y
  unfolding collect_missing
  collect_more n zero k r hashes y h = absurd (cc)
  collect_more n (suc fuel) k r hashes y h =
      let e : n + suc fuel ≡ suc (n + fuel) = omega arith in
      ap (λ f. collect_missing exchange exists ids max_attempts f k r hashes) e
      ∙ elim (Bool-cases r.done) [
        | inl d ↦ ground arith
        | inr d ↦
            elim (Result-cases (keep_missing exchange exists ids max_attempts r.messages hashes)) [
              | inr (inl (f, s)) ↦ ground arith
              | inr (inr s) ↦ ground arith
              | inl (kept, s) ↦
                  elim (Option-cases
                    (store_query_with_retry exchange exists ids max_attempts fuel k r)) [
                      | inl q ↦ absurd (ground arith)
                      | inr (z, q) ↦
                          let q' = query_more n fuel k r z q in
                          elim (Result-cases z) [
                            | inl ((k', r'), t) ↦ ground (arith, collect_more n fuel k' r' kept y)
                            | inr (inl (f, t)) ↦ ground arith
                            | inr (inr t) ↦ ground arith
                          ]
                    ]
            ]
      ]
