-- ===== src/Api/Publish/SentCheck/Choices.antt =====
-- What a round asks for.
use go_waku.Base.{
  ℕ, ◌≡◌, inl, inr, true, some, List, [], ◌∷◌, ◌++◌, leb, ltb, length, All, All-append, Bool-cases,
}
use go_waku.Base.Text.{Text, text_dec}
use go_waku.Base.Dict.{Dict, lookup, IsDistinct, Every, entries-lookup}
use go_waku.Api.Publish.SentCheck.{MessageIds, MessageSentCheck, has_passed, choose, Query, queries}
use go_waku.Api.Publish.SentCheck.Tracking.{tracked}

-- What is asked for is tracked, and was sent long enough ago.
abbrev pub Asked : (Text → ℕ) → MessageSentCheck → MessageIds → Text → List (Text × ℕ) → Type 0
Asked now m ids topic = All (λ e.
    (tracked topic e.0 ids ≡ some e.1) × (has_passed (now e.0) e.1 m.message_sent_period ≡ true))

choose-Asked :
    (now : Text → ℕ) (m : MessageSentCheck) (ids : MessageIds) (topic : Text)
    (chosen : List (Text × ℕ)) (sub_msgs : Dict Text ℕ)
    → Asked now m ids topic chosen
    → Every text_dec (λ h t. tracked topic h ids ≡ some t) sub_msgs
    → Asked now m ids topic (choose now m chosen sub_msgs)
unfolding choose
choose-Asked now m ids topic chosen [] a every = a
choose-Asked now m ids topic chosen ((h, t) ∷ rest) a every =
    elim (Bool-cases (leb m.max_hash_query_length (length chosen))) [
      | inl full ↦ rw full a
      | inr room ↦ elim (Bool-cases (has_passed (now h) t m.message_sent_period)) [
        | inr early ↦ rw (room, early) (choose-Asked now m ids topic chosen rest a every.1)
        | inl due ↦
            rw (room, due)
              (choose-Asked now m ids topic (chosen ++ (h, t) ∷ []) rest
                (All-append
                  (λ (e : Text × ℕ).
                    (tracked topic e.0 ids ≡ some e.1)
                    × (has_passed (now e.0) e.1 m.message_sent_period ≡ true))
                  chosen ((h, t) ∷ []) a ((every.0, due), tt))
                every.1)
      ]
    ]

abbrev pub AllAsked : (Text → ℕ) → MessageSentCheck → MessageIds → List Query → Type 0
AllAsked now m ids = All (λ q. Asked now m ids q.0 q.1)

-- The messages of one topic, each found by its hash.
tracked_throughout :
    (ids : MessageIds) (topic : Text) (sub_msgs : Dict Text ℕ)
    → lookup text_dec topic ids ≡ some sub_msgs
    → IsDistinct text_dec sub_msgs
    → Every text_dec (λ h t. tracked topic h ids ≡ some t) sub_msgs
unfolding tracked
tracked_throughout ids topic sub_msgs e d = rw e (entries-lookup text_dec sub_msgs d)

pub queries-AllAsked :
    (now : Text → ℕ) (m : MessageSentCheck) (ids rest : MessageIds)
    → Every text_dec (λ topic sub_msgs. lookup text_dec topic ids ≡ some sub_msgs) rest
    → Every text_dec (λ topic sub_msgs. IsDistinct text_dec sub_msgs) rest
    → AllAsked now m ids (queries now m rest)
unfolding queries
queries-AllAsked now m ids [] e d = tt
queries-AllAsked now m ids ((topic, sub_msgs) ∷ rest) e d =
    let later = queries-AllAsked now m ids rest e.1 d.1 in
    elim (Bool-cases (ltb 0 (length (choose now m [] sub_msgs)))) [
      | inr nothing ↦ rw nothing later
      | inl some_hash ↦ rw some_hash (
        choose-Asked now m ids topic [] sub_msgs tt (tracked_throughout ids topic sub_msgs e.0 d.0),
        later,
      )
    ]
