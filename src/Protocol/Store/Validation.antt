-- ===== src/Protocol/Store/Validation.antt =====
-- Which requests are valid, and what a client sends.
use go_waku.Base.{
  ◌≤◌, ◌<◌, ◌≡◌, ◌⊎◌, ◌↔◌, inl, inr, refl, ap, if-false, true, false, List, [], ◌∷◌, arith, ltb,
  ◌==◌, length, All, Bool-cases, ◌&&◌,
}
use go_waku.Base.Int.{is_positive}
use go_waku.Base.Text.{Text}
use go_waku.Base.Result.{Result, ok, err, panic}
use go_waku.Protocol.Store.{
  ◌and_then◌, StoreError, StoreQueryRequest, max_content_topics, text_or_empty, int_or_zero,
  exceeds, check_hashes, check_topics, check_times, validate_by_hash, validate_by_filter, validate,
}

abbrev pub IsFilled : Text → Type 0
IsFilled s = 0 < length s

abbrev IsHash : Text → Type 0
IsHash h = length h ≡ 32

-- The start is after the end, where both are positive.
abbrev pub Reversed : StoreQueryRequest → Type 0
Reversed x =
    (is_positive (int_or_zero x.time_start) ≡ true)
    × (is_positive (int_or_zero x.time_end) ≡ true)
    × (exceeds (int_or_zero x.time_start) (int_or_zero x.time_end) ≡ true)

-- A request by hashes has no topic, and its hashes have 32 bytes.
abbrev pub ByHash : StoreQueryRequest → Type 0
ByHash x =
    (0 < length x.message_hashes)
    × (x.content_topics ≡ [])
    × (text_or_empty x.pubsub_topic ≡ [])
    × All IsHash x.message_hashes

-- A request by topics has a pubsub topic, at most ten content topics, none of them empty, and a time
-- range that is not reversed.
abbrev pub ByFilter : StoreQueryRequest → Type 0
ByFilter x =
    (x.message_hashes ≡ [])
    × IsFilled (text_or_empty x.pubsub_topic)
    × (length x.content_topics ≤ max_content_topics)
    × All IsFilled x.content_topics
    × ¬ Reversed x

abbrev pub IsValid : StoreQueryRequest → Type 0
IsValid x = IsFilled x.request_id × (ByHash x ⊎ ByFilter x)

empty_of_length : {A : Type 0} (l : List A) → (length l == 0) ≡ true → l ≡ []
empty_of_length [] h = refl
empty_of_length (x ∷ l) h = absurd (ground arith)

check_hashes_iff : (hs : List Text) → (check_hashes hs ≡ ok tt) ↔ All IsHash hs
unfolding check_hashes
check_hashes_iff [] = (λ h. tt, λ h. refl)
check_hashes_iff (h ∷ hs) =
    let (to, from) = check_hashes_iff hs in
    elim (Bool-cases (length h == 32)) [
      | inl e ↦ (λ k. (ground arith, to (ground arith)), λ k. ground (arith, from k.1))
      | inr e ↦ (λ k. absurd (ground arith), λ k. absurd (ground (arith, k.0)))
    ]

check_topics_iff : (ts : List Text) → (check_topics ts ≡ ok tt) ↔ All IsFilled ts
unfolding check_topics
check_topics_iff [] = (λ h. tt, λ h. refl)
check_topics_iff (t ∷ ts) =
    let (to, from) = check_topics_iff ts in
    elim (Bool-cases (length t == 0)) [
      | inr e ↦ (λ k. (ground arith, to (ground arith)), λ k. ground (arith, from k.1))
      | inl e ↦ (λ k. absurd (ground arith), λ k. absurd (ground (arith, k.0)))
    ]

check_times_iff : (x : StoreQueryRequest) → (check_times x ≡ ok tt) ↔ (¬ Reversed x)
unfolding check_times
check_times_iff x = (
  λ h r. ground arith,
  λ h.
      let start = int_or_zero x.time_start in
      let end = int_or_zero x.time_end in
      elim (Bool-cases (is_positive start && (is_positive end && exceeds start end))) [
        | inl t ↦ absurd (h (ground arith, ground arith, ground arith))
        | inr f ↦ if-false _ _ _ f
      ],
)

hashes_sound :
    (x : StoreQueryRequest)
    → (length x.message_hashes == 0) ≡ false
    → validate_by_hash x ≡ ok tt
    → ByHash x
unfolding validate_by_hash
hashes_sound x n h = elim (Bool-cases (length x.content_topics == 0)) [
  | inr some_topic ↦ absurd (ground arith)
  | inl no_topic ↦ elim (Bool-cases (length (text_or_empty x.pubsub_topic) == 0)) [
    | inr a_topic ↦ absurd (ground arith)
    | inl no_pubsub ↦ (
      ground arith,
      empty_of_length x.content_topics no_topic,
      empty_of_length (text_or_empty x.pubsub_topic) no_pubsub,
      (check_hashes_iff x.message_hashes).0 (ground arith),
    )
  ]
]

hashes_complete : (x : StoreQueryRequest) → ByHash x → validate_by_hash x ≡ ok tt
unfolding validate_by_hash
hashes_complete x h =
    let a : length x.content_topics ≡ 0 = ap length h.1 in
    let b : length (text_or_empty x.pubsub_topic) ≡ 0 = ap length h.2 in
    ground (arith, a, b, (check_hashes_iff x.message_hashes).1 h.3)

and_then_ok :
    (c : Result StoreError (Unit {0})) {next : Result StoreError (Unit {0})}
    → (c and_then next) ≡ ok tt
    → (c ≡ ok tt) × (next ≡ ok tt)
and_then_ok (ok u) h = (refl, h)
and_then_ok (err e) h = absurd (cc)
and_then_ok panic h = absurd (cc)

topics_sound :
    (x : StoreQueryRequest)
    → (length x.message_hashes == 0) ≡ true
    → validate_by_filter x ≡ ok tt
    → ByFilter x
unfolding validate_by_filter
topics_sound x n h = elim (Bool-cases (length (text_or_empty x.pubsub_topic) == 0)) [
  | inl empty ↦ absurd (ground arith)
  | inr filled ↦ elim (Bool-cases (ltb max_content_topics (length x.content_topics))) [
    | inl many ↦ absurd (ground arith)
    | inr few ↦
        let (topics, times) =
          and_then_ok (check_topics x.content_topics) {next = check_times x} (ground arith) in
        (
          empty_of_length x.message_hashes n,
          ground arith,
          ground arith,
          (check_topics_iff x.content_topics).0 topics,
          (check_times_iff x).0 times,
        )
  ]
]

topics_complete : (x : StoreQueryRequest) → ByFilter x → validate_by_filter x ≡ ok tt
unfolding validate_by_filter
topics_complete x h =
    ground (arith, (check_topics_iff x.content_topics).1 h.3, (check_times_iff x).1 h.4)

-- A request validates exactly when it has an ID and is either by hashes or by topics: by hashes, with
-- no topic and hashes of 32 bytes; by topics, with a pubsub topic, at most ten content topics that
-- are not empty, and no start after the end where both are positive.
pub validate_iff : (x : StoreQueryRequest) → (validate x ≡ ok tt) ↔ IsValid x
unfolding validate
validate_iff x = (
  λ h. elim (Bool-cases (length x.request_id == 0)) [
    | inl no_id ↦ absurd (ground arith)
    | inr id ↦ elim (Bool-cases (length x.message_hashes == 0)) [
      | inl none_there ↦ (ground arith, inr (topics_sound x none_there (ground arith)))
      | inr hashes ↦ (ground arith, inl (hashes_sound x hashes (ground arith)))
    ]
  ],
  λ v. elim v.1 [
    | inl h ↦ ground (arith, hashes_complete x h, h.0, v.0)
    | inr h ↦
        let a : length x.message_hashes ≡ 0 = ap length h.0 in
        ground (arith, topics_complete x h, v.0, a)
  ],
)
