-- ===== src/Api/Missing.antt =====
-- waku/v2/api/missing/missing_messages.go: the loop of `fetchMessagesBatch` over the pages of a result,
-- which collects the hashes of the messages that are missing. The exchange with the store node and
-- `MessageExists` are parameters, and the contexts are not cancelled.
pub mod Pages
pub mod Hashes
pub mod Paging
mod Tests
use go_waku.Base.{ℕ, zero, suc, Bool, Option, none, some, List, [], ◌∷◌, ◌++◌, ◌==◌, if◌then◌else◌}
use go_waku.Base.Text.{Text}
use go_waku.Base.Result.{Result, ok, err, panic}
use go_waku.Protocol.Store.{StoreQueryRequest, StoreQueryResponse, WakuMessageKeyValue}
use go_waku.Protocol.Store.Client.{StoreResult, next}

pub data MissingError : Type 0 where
  not_available exists_failed : MissingError

-- `none` is a loop that needs more fuel.
abbrev pub Looped : Type 0 → Type 0
Looped A = Option (Result MissingError A)

-- `exists` is `MessageExists`, none for its error; `ids` are the IDs of the requests to come, of which
-- the first `k` are used up, and `max_attempts` is `maxAttemptsToRetrieveHistory`.
module _ (exchange : Text → StoreQueryRequest → Option StoreQueryResponse)
    (exists : Text → Option Bool) (ids : ℕ → Text) (max_attempts : ℕ) where
  -- The loop of `storeQueryWithRetry` around `Next`. It does not count the attempts.
  unfoldable pub retry : ℕ → ℕ → StoreResult → Looped (ℕ × StoreResult)
  retry zero k r = none
  retry (suc fuel) k r = elim (next exchange (ids k) r) [
    | ok r' ↦ some (ok (suc k, r'))
    | err e ↦ retry fuel (suc k) r
    | panic ↦ some panic
  ]

  unfoldable pub store_query_with_retry : ℕ → ℕ → StoreResult → Looped (ℕ × StoreResult)
  store_query_with_retry fuel k r =
      if max_attempts == 0 then some (err not_available) else retry fuel k r

  -- The loop over the messages of a page.
  unfoldable pub keep_missing :
      List WakuMessageKeyValue → List Text → Result MissingError (List Text)
  keep_missing [] hashes = ok hashes
  keep_missing (m ∷ ms) hashes = elim (exists m.message_hash) [
    | none ↦ err exists_failed
    | some found ↦ keep_missing ms (if found then hashes else hashes ++ m.message_hash ∷ [])
  ]

  -- The loop over the pages, to the hashes that are missing.
  unfoldable pub collect_missing : ℕ → ℕ → StoreResult → List Text → Looped (List Text)
  collect_missing zero k r hashes = none
  collect_missing (suc fuel) k r hashes =
      let rest : Looped (List Text) = elim (keep_missing r.messages hashes) [
        | ok more ↦ elim (store_query_with_retry fuel k r) [
          | none ↦ none
          | some (ok (k', r')) ↦ collect_missing fuel k' r' more
          | some (err e) ↦ some (err e)
          | some panic ↦ some panic
        ]
        | err e ↦ some (err e)
        | panic ↦ some panic
      ] in
      if r.done then some (ok hashes) else rest
