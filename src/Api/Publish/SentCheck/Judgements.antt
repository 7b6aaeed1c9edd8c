-- ===== src/Api/Publish/SentCheck/Judgements.antt =====
-- Why a message was processed.
use go_waku.Base.{
  ℕ, ◌≡◌, ◌⊎◌, inl, inr, sym, ap, ◌∙◌, Bool, true, ◌||◌, Option, some, List, [], ◌∷◌, ◌++◌, map,
  arith, Bool-cases, Option-cases, some-injective, if-elim,
}
use go_waku.Base.Text.{Text, text_dec}
use go_waku.Base.Keys.{contains, contains-append}
use go_waku.Api.Publish.SentCheck.{
  MessageIds, MessageSentCheck, has_passed, Query, Verdicts, judge, judge_one, no_verdicts,
  message_hash_based_query, verdicts_of,
}
use go_waku.Api.Publish.SentCheck.Tracking.{tracked}
use go_waku.Api.Publish.SentCheck.Choices.{Asked}

-- Why a message is forgotten: the store node has it, or it has expired.
unfoldable pub answered : (Text → ℕ) → MessageSentCheck → List Text → Text → ℕ → Bool
answered clock m result h t =
    contains text_dec h result || has_passed (clock h) t m.message_expired_period

-- The hash was processed, or an entry for it is answered.
abbrev Judged : (Text → ℕ) → MessageSentCheck → List Text → Text → List (Text × ℕ) → Type 0
Judged clock m result h [] = ⊥
Judged clock m result h ((j, t) ∷ rest) =
    ((j ≡ h) × (answered clock m result h t ≡ true)) ⊎ Judged clock m result h rest

module _ (h j : Text) (acked missed : List Text) where
  more_acked :
      contains text_dec h ((acked ++ j ∷ []) ++ missed) ≡ true
      → (contains text_dec h (acked ++ missed) ≡ true) ⊎ (j ≡ h)
  unfolding contains
  more_acked c = ground (
    arith,
    contains-append text_dec h (acked ++ j ∷ []) missed,
    contains-append text_dec h acked (j ∷ []),
    contains-append text_dec h acked missed,
  )

  more_missed :
      contains text_dec h (acked ++ (missed ++ j ∷ [])) ≡ true
      → (contains text_dec h (acked ++ missed) ≡ true) ⊎ (j ≡ h)
  unfolding contains
  more_missed c = ground (
    arith,
    contains-append text_dec h acked (missed ++ j ∷ []),
    contains-append text_dec h missed (j ∷ []),
    contains-append text_dec h acked missed,
  )

module _ (clock : Text → ℕ) (m : MessageSentCheck) (result : List Text) (h j : Text) (t : ℕ) where
  answered_found : j ≡ h → contains text_dec j result ≡ true → answered clock m result h t ≡ true
  unfolding answered
  answered_found e found = ground arith

  answered_late :
      j ≡ h
      → has_passed (clock j) t m.message_expired_period ≡ true
      → answered clock m result h t ≡ true
  unfolding answered
  answered_late e late = ground arith

judge_one_lem :
    (clock : Text → ℕ) (m : MessageSentCheck) (result : List Text) (h j : Text) (t : ℕ)
    (v : Verdicts)
    → contains text_dec h
        ((judge_one clock m result j t v).acked ++ (judge_one clock m result j t v).missed)
      ≡ true
    → (contains text_dec h (v.acked ++ v.missed) ≡ true)
      ⊎ ((j ≡ h) × (answered clock m result h t ≡ true))
unfolding judge_one
judge_one_lem clock m result h j t v =
    let goal : Verdicts → Type 0 = λ w.
      contains text_dec h (w.acked ++ w.missed) ≡ true
      → (contains text_dec h (v.acked ++ v.missed) ≡ true)
        ⊎ ((j ≡ h) × (answered clock m result h t ≡ true)) in
    if-elim goal (contains text_dec j result) _ _
      (λ found c. elim (more_acked h j v.acked v.missed c) [
        | inl before ↦ inl before
        | inr e ↦ inr (e, answered_found clock m result h j t e found)
      ])
      (λ absent.
        if-elim goal (has_passed (clock j) t m.message_expired_period) _ _
          (λ late c. elim (more_missed h j v.acked v.missed c) [
            | inl before ↦ inl before
            | inr e ↦ inr (e, answered_late clock m result h j t e late)
          ])
          (λ waiting c. inl c))

judge_lem :
    (clock : Text → ℕ) (m : MessageSentCheck) (result : List Text) (h : Text)
    (asked : List (Text × ℕ)) (v : Verdicts)
    → contains text_dec h
        ((judge clock m result asked v).acked ++ (judge clock m result asked v).missed)
      ≡ true
    → (contains text_dec h (v.acked ++ v.missed) ≡ true) ⊎ Judged clock m result h asked
unfolding judge
judge_lem clock m result h [] v c = inl c
judge_lem clock m result h ((j, t) ∷ rest) v c =
    elim (judge_lem clock m result h rest (judge_one clock m result j t v) c) [
      | inr later ↦ inr (inr later)
      | inl now ↦ elim (judge_one_lem clock m result h j t v now) [
        | inl before ↦ inl before
        | inr this ↦ inr (inl this)
      ]
    ]

module _ (clock : Text → ℕ) (verify : List Text → Option (List Text)) where
  -- The store node has the message, or it has expired.
  abbrev pub IsAnswered : MessageSentCheck → Text → ℕ → Type 0
  IsAnswered m h t =
      (hashes : List Text) × (result : List Text) × (verify hashes ≡ some result)
      × ((contains text_dec h result ≡ true)
          ⊎ (has_passed (clock h) t m.message_expired_period ≡ true))

  -- Why the messages of a query were processed.
  pub query_verdict :
      (m : MessageSentCheck) (h : Text) (q : Query)
      → contains text_dec h
          ((verdicts_of clock verify m q).acked ++ (verdicts_of clock verify m q).missed)
        ≡ true
      → (result : List Text) × (verify (map (λ e. e.0) q.1) ≡ some result)
        × Judged clock m result h q.1
  unfolding message_hash_based_query contains
  query_verdict m h q c = elim (Option-cases (verify (map (λ e. e.0) q.1))) [
    | inl failed ↦ absurd (ground arith)
    | inr (result, e) ↦ (
      result,
      e,
      elim (judge_lem clock m result h q.1 no_verdicts (ground arith)) [
        | inl nothing ↦ absurd (cc)
        | inr judged ↦ judged
      ],
    )
  ]

  either_reason :
      (m : MessageSentCheck) (result : List Text) (h : Text) (t : ℕ)
      → answered clock m result h t ≡ true
      → (contains text_dec h result ≡ true)
        ⊎ (has_passed (clock h) t m.message_expired_period ≡ true)
  unfolding answered
  either_reason m result h t a = elim (Bool-cases (contains text_dec h result)) [
    | inl found ↦ inl found
    | inr absent ↦ inr (ground arith)
  ]

  pub reason :
      (now : Text → ℕ) (m : MessageSentCheck) (ids : MessageIds) (p h : Text) (t : ℕ)
      (hashes : List Text) (result : List Text) (asked : List (Text × ℕ))
      → verify hashes ≡ some result
      → tracked p h ids ≡ some t
      → Asked now m ids p asked
      → Judged clock m result h asked
      → (has_passed (now h) t m.message_sent_period ≡ true) × IsAnswered m h t
  reason now m ids p h t hashes result [] v e a j = absurd j
  reason now m ids p h t hashes result ((i, s) ∷ rest) v e a (inr j) =
      reason now m ids p h t hashes result rest v e a.1 j
  reason now m ids p h t hashes result ((i, s) ∷ rest) v e a (inl j) =
      let k : s ≡ t = some-injective (sym a.0.0 ∙ ap (λ (x : Text). tracked p x ids) j.0 ∙ e) in
      (rw (k, j.0) at (a.0.1), (hashes, result, v, either_reason m result h t (rw k at (j.1))))
