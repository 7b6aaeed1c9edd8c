-- ===== src/Rest/FilterCache/Kept.antt =====
-- The messages that the cache keeps for a topic.
use go_waku.Base.{
  ℕ, ◌-◌, ◌<◌, ◌≡◌, refl, sym, ap, ap₂, ◌∙◌, Bool, true, false, none, some, List, [], ◌∷◌, ◌++◌,
  arith, leb, if◌then◌else◌, length, drop, ite, append_assoc, append-nil, Option-cases, Bool-cases,
  inl, inr, dec_le,
}
use go_waku.Base.Windows.{tail, tail-append, last-push, drop-nil}
use go_waku.Base.Lists.{All, length-append}
use go_waku.Base.Text.{same, Text, text_dec}
use go_waku.Base.Dict.{lookup, insert, lookup-insert}
use go_waku.Base.Result.{ok}
use go_waku.Protocol.Message.{Envelope, validate}
use go_waku.Rest.Message.{RestWakuMessage, copy, from_proto}
use go_waku.Rest.FilterCache.{
  FilterCache, messages_of, store, append_message, add_message, get_messages, add_all,
}

abbrev pub IsValid : Envelope → Type 0
IsValid e = validate e.message ≡ ok tt

abbrev pub is_for : Text → Text → Envelope → Bool
is_for p t e =
    ite (text_dec e.pubsub_topic p) (ite (text_dec e.message.content_topic t) true false) false

-- The messages of the envelopes for a topic.
unfoldable pub sent : Text → Text → List Envelope → List RestWakuMessage
sent p t [] = []
sent p t (e ∷ es) = let more = sent p t es in if is_for p t e then copy e.message ∷ more else more

-- Another list for a topic that has one.
messages_of-store :
    (p t q s : Text) (l x : List RestWakuMessage) (c : FilterCache)
    → messages_of p t c ≡ some x
    → messages_of q s (store p t l c)
      ≡ ite (text_dec p q) (ite (text_dec t s) (some l) (messages_of q s c)) (messages_of q s c)
unfolding messages_of store
messages_of-store p t q s l x c h = elim (Option-cases (lookup text_dec p c.entries)) [
  | inl e ↦ absurd (ground arith)
  | inr (m, e) ↦ elim (text_dec p q) [
    | yes f ↦ ground (
      arith,
      lookup-insert text_dec p q (insert text_dec t l m) c.entries,
      lookup-insert text_dec t s l m,
      ap (λ i. lookup text_dec i c.entries) f,
    )
    | no f ↦ ground (arith, lookup-insert text_dec p q (insert text_dec t l m) c.entries)
  ]
]

store-capacity :
    (p t : Text) (l : List RestWakuMessage) (c : FilterCache)
    → (store p t l c).capacity ≡ c.capacity
unfolding store
store-capacity p t l c = ground arith

append_message-valid :
    (p t : Text) (e : Envelope) (kept : List RestWakuMessage) (c : FilterCache)
    → IsValid e
    → append_message p t e.message kept c ≡ store p t (kept ++ copy e.message ∷ []) c
unfolding append_message from_proto
append_message-valid p t e kept c h = ground arith

-- What a message does to the list of its topic.
abbrev pushed : ℕ → List RestWakuMessage → RestWakuMessage → List RestWakuMessage
pushed cap l x = (if leb cap (length l) then tail l else l) ++ x ∷ []

add_message-stored :
    (e : Envelope) (l : List RestWakuMessage) (c : FilterCache)
    → IsValid e
    → 0 < c.capacity
    → messages_of e.pubsub_topic e.message.content_topic c ≡ some l
    → add_message e c
      ≡ ok (store e.pubsub_topic e.message.content_topic (pushed c.capacity l (copy e.message)) c)
unfolding add_message
add_message-stored e l c v pos h = ground (
  arith,
  append_message-valid e.pubsub_topic e.message.content_topic e (tail l) c v,
  append_message-valid e.pubsub_topic e.message.content_topic e l c v,
)

add_message-ignored :
    (e : Envelope) (c : FilterCache)
    → messages_of e.pubsub_topic e.message.content_topic c ≡ none
    → add_message e c ≡ ok c
unfolding add_message
add_message-ignored e c h = ground arith

-- An envelope leaves the topics that it is not for as they are.
add_message-other :
    (p t : Text) (e : Envelope) (c : FilterCache)
    → IsValid e
    → 0 < c.capacity
    → is_for p t e ≡ false
    → (c' : FilterCache) × (add_message e c ≡ ok c')
      × (c'.capacity ≡ c.capacity)
      × (messages_of p t c' ≡ messages_of p t c)
add_message-other p t e c v pos other =
    elim (Option-cases (messages_of e.pubsub_topic e.message.content_topic c)) [
      | inl none_there ↦ (c, add_message-ignored e c none_there, refl, refl)
      | inr (l, there) ↦
          let new = pushed c.capacity l (copy e.message) in
          (
            store e.pubsub_topic e.message.content_topic new c,
            add_message-stored e l c v pos there,
            store-capacity _ _ new c,
            ground
                (arith, messages_of-store e.pubsub_topic e.message.content_topic p t new l c there),
          )
    ]

add_message-same :
    (p t : Text) (e : Envelope) (l : List RestWakuMessage) (c : FilterCache)
    → IsValid e
    → 0 < c.capacity
    → is_for p t e ≡ true
    → messages_of p t c ≡ some l
    → (c' : FilterCache) × (add_message e c ≡ ok c')
      × (c'.capacity ≡ c.capacity)
      × (messages_of p t c' ≡ some (pushed c.capacity l (copy e.message)))
add_message-same p t e l c v pos same there =
    let new = pushed c.capacity l (copy e.message) in
    let f : e.pubsub_topic ≡ p = ground arith in
    let g : e.message.content_topic ≡ t = ground arith in
    let there' = ap₂ (λ a b. messages_of a b c) f g ∙ there in
    (
      store e.pubsub_topic e.message.content_topic new c,
      add_message-stored e l c v pos there',
      store-capacity _ _ new c,
      ground (
        arith,
        messages_of-store e.pubsub_topic e.message.content_topic p t new l c there',
        f,
        g,
      ),
    )

-- The latest of a history, after one more message.
pushed-latest :
    (cap : ℕ) (h : List RestWakuMessage) (x : RestWakuMessage)
    → 0 < cap
    → pushed cap (drop (length h - cap) h) x ≡ drop (length (h ++ x ∷ []) - cap) (h ++ x ∷ [])
pushed-latest cap h x pos =
    let l = drop (length h - cap) h in
    elim (dec_le cap (length l)) [
      | yes full ↦ ground (
        arith,
        last-push cap h x,
        tail-append l (x ∷ []) (omega (arith, full, pos)),
        length-append l (x ∷ []),
      )
      | no room ↦ ground (arith, last-push cap h x, length-append l (x ∷ []))
    ]

add_all-cons :
    (e : Envelope) (es : List Envelope) (c c' c'' : FilterCache)
    → add_message e c ≡ ok c'
    → add_all es c' ≡ ok c''
    → add_all (e ∷ es) c ≡ ok c''
unfolding add_all
add_all-cons e es c c' c'' f g = ground arith

get_messages-some :
    (p t : Text) (l : List RestWakuMessage) (c : FilterCache)
    → messages_of p t c ≡ some l
    → get_messages p t c ≡ ok (store p t [] c, l)
unfolding get_messages
get_messages-some p t l c h = ground arith

add_all_lem :
    (p t : Text) (es : List Envelope) (h : List RestWakuMessage) (c : FilterCache)
    → 0 < c.capacity
    → All IsValid es
    → messages_of p t c ≡ some (drop (length h - c.capacity) h)
    → (c' : FilterCache) × (add_all es c ≡ ok c')
      × (messages_of p t c'
          ≡ some (drop (length (h ++ sent p t es) - c.capacity) (h ++ sent p t es)))
unfolding sent
add_all_lem p t [] h c pos v there = (c, unfold add_all in refl, rw (append-nil h) there)
add_all_lem p t (e ∷ es) h c pos v there = elim (Bool-cases (is_for p t e)) [
  | inl same ↦
      let x = copy e.message in
      let (c', made, cap, l') =
        add_message-same p t e (drop (length h - c.capacity) h) c v.0 pos same there in
      let now : messages_of p t c'
          ≡ some (drop (length (h ++ x ∷ []) - c'.capacity) (h ++ x ∷ [])) =
        rw cap (l' ∙ ap some (pushed-latest c.capacity h x pos)) in
      let (c'', made', last) = add_all_lem p t es (h ++ x ∷ []) c' (rw cap pos) v.1 now in
      let last' = rw (cap, append_assoc h (x ∷ []) (sent p t es)) at last in
      (c'', add_all-cons e es c c' c'' made made', rw same last')
  | inr other ↦
      let (c', made, cap, kept) = add_message-other p t e c v.0 pos other in
      let (c'', made', last) = add_all_lem p t es h c' (rw cap pos) v.1 (rw cap (kept ∙ there)) in
      let last' = rw cap at last in (c'', add_all-cons e es c c' c'' made made', rw other last')
]

-- With a capacity that is not 0, a topic that is subscribed and has no messages yet, and envelopes
-- whose messages are valid: nothing panics, and `getMessages` then returns the latest messages of
-- the topic, as many as the capacity allows and in their order, and leaves none.
pub get_messages-add_all :
    (p t : Text) (es : List Envelope) (c : FilterCache)
    → 0 < c.capacity
    → All IsValid es
    → messages_of p t c ≡ some []
    → (c' c'' : FilterCache) × (add_all es c ≡ ok c')
      × (get_messages p t c' ≡ ok (c'', drop (length (sent p t es) - c.capacity) (sent p t es)))
      × (messages_of p t c'' ≡ some [])
get_messages-add_all p t es c pos v empty =
    let (c', made, kept) =
      add_all_lem p t es [] c pos v (empty ∙ ap some (sym (drop-nil (0 - c.capacity)))) in
    (
      c',
      store p t [] c',
      made,
      get_messages-some p t _ c' kept,
      ground (arith, messages_of-store p t p t [] _ c' kept),
    )
