-- ===== src/Api/Publish/SentCheck/Rounds.antt =====
-- What a round forgets, and why.
use go_waku.Base.{
  ℕ, ◌≡◌, ◌⊎◌, inl, inr, ◌∙◌, true, ◌&&◌, Option, none, some, List, [], ◌∷◌, ◌++◌, map, arith,
  Bool-cases, if-true, if-false, subst,
}
use go_waku.Base.Text.{Text, text_dec, same}
use go_waku.Base.Dict.{IsDistinct, Every, entries-lookup}
use go_waku.Base.Keys.{contains}
use go_waku.Api.Publish.SentCheck.{
  MessageIds, MessageSentCheck, has_passed, Query, queries, process, round, verdicts_of,
}
use go_waku.Api.Publish.SentCheck.Tracking.{tracked, removed, tracked-settle}
use go_waku.Api.Publish.SentCheck.Choices.{Asked, AllAsked, queries-AllAsked}
use go_waku.Api.Publish.SentCheck.Judgements.{IsAnswered, query_verdict, reason}

-- The maps have no topic twice, and no hash twice under a topic.
pub record HasKeys (ids : MessageIds) : Type 0 where
  pub topics : IsDistinct text_dec ids
  pub hashes : Every text_dec (λ topic sub_msgs. IsDistinct text_dec sub_msgs) ids

module _ (clock : Text → ℕ) (verify : List Text → Option (List Text)) where
  removed_reason :
      (now : Text → ℕ) (m : MessageSentCheck) (ids : MessageIds) (p h : Text) (t : ℕ)
      (qs : List Query)
      → AllAsked now m ids qs
      → tracked p h ids ≡ some t
      → removed p h (process clock verify m qs) ≡ true
      → (has_passed (now h) t m.message_sent_period ≡ true) × IsAnswered clock verify m h t
  unfolding removed process
  removed_reason now m ids p h t [] a e r = absurd (cc)
  removed_reason now m ids p h t (q ∷ qs) a e r =
      let v = verdicts_of clock verify m q in
      elim (Bool-cases (same q.0 p && contains text_dec h (v.acked ++ v.missed))) [
        | inr elsewhere ↦ removed_reason now m ids p h t qs a.1 e (ground arith)
        | inl here ↦
            let (result, answer, judged) = query_verdict clock verify m h q (ground arith) in
            let topic : q.0 ≡ p = ground arith in
            reason clock verify now m ids p h t (map (λ e. e.0) q.1) result q.1 answer e
              (subst (λ (x : Text). Asked now m ids x q.1) topic a.0) judged
      ]

  -- A round leaves a message that is waited for, with its time, or it forgets it; it forgets only a
  -- message that was sent longer ago than the sent period, and that the store node said it has or
  -- that was sent longer ago than the expiry period.
  pub tracked-round :
      (now : Text → ℕ) (m : MessageSentCheck) (p h : Text) (t : ℕ)
      → HasKeys m.message_ids
      → tracked p h m.message_ids ≡ some t
      → (tracked p h (round clock verify now m).message_ids ≡ some t)
        ⊎ ((tracked p h (round clock verify now m).message_ids ≡ none)
            × (has_passed (now h) t m.message_sent_period ≡ true)
            × IsAnswered clock verify m h t)
  unfolding round
  tracked-round now m p h t keys e =
      let ids = m.message_ids in
      let qs = queries now m ids in
      let done = process clock verify m qs in
      let settled = tracked-settle p h done ids in
      elim (Bool-cases (removed p h done)) [
        | inr kept ↦ inl (settled ∙ if-false (removed p h done) _ _ kept ∙ e)
        | inl gone ↦
            let asked =
              queries-AllAsked now m ids ids (entries-lookup text_dec ids keys.topics)
                keys.hashes in
            let (passed, answer) = removed_reason now m ids p h t qs asked e gone in
            inr (settled ∙ if-true (removed p h done) _ _ gone, passed, answer)
      ]
