-- ===== src/Protocol/ContentFilter/Equality.antt =====
-- `Equals` compares sets.
use go_waku.Base.{
  suc, ◌≤◌, ◌≡◌, ◌↔◌, refl, sym, ap, ◌∙◌, true, false, ◌==◌, List, [], ◌∷◌, arith, length, if_pos,
  if_neg, Bool-cases, inl, inr,
}
use go_waku.Base.Text.{Text, text_dec}
use go_waku.Base.Keys.{
  contains, add, remove, add_all, contains-add, contains-remove, contains-add_all,
}
use go_waku.Protocol.ContentFilter.{new_content_topic_set, new_content_filter, all_in, equals}

-- No topic stands twice.
abbrev NoTwice : List Text → Type 0
NoTwice [] = Unit
NoTwice (t ∷ ts) = (contains text_dec t ts ≡ false) × NoTwice ts

add-NoTwice : (t : Text) (s : List Text) → NoTwice s → NoTwice (add text_dec t s)
unfolding add contains
add-NoTwice t [] h = (refl, tt)
add-NoTwice t (u ∷ s) h = elim (text_dec u t) [
  | yes e ↦ rw (if_pos (text_dec u t) e) h
  | no e ↦
      rw (if_neg (text_dec u t) e)
        (ground (arith, contains-add text_dec t u s), add-NoTwice t s h.1)
]

add_all-NoTwice : (ts s : List Text) → NoTwice s → NoTwice (add_all text_dec ts s)
unfolding add_all
add_all-NoTwice [] s h = h
add_all-NoTwice (t ∷ ts) s h = add_all-NoTwice ts (add text_dec t s) (add-NoTwice t s h)

remove_absent : (t : Text) (s : List Text) → contains text_dec t s ≡ false → remove text_dec t s ≡ s
unfolding contains remove
remove_absent t [] h = refl
remove_absent t (u ∷ s) h = ground (arith, remove_absent t s)

length-remove :
    (t : Text) (s : List Text)
    → NoTwice s
    → contains text_dec t s ≡ true
    → suc (length (remove text_dec t s)) ≡ length s
unfolding contains remove
length-remove t [] h there = cc
length-remove t (u ∷ s) h there = elim (text_dec u t) [
  | yes e ↦
      rw (if_pos (text_dec u t) e)
        (ap (λ (l : List Text). suc (length l)) (remove_absent t s (rw e at h.0)))
  | no e ↦
      rw (if_neg (text_dec u t) e)
        (ap suc (length-remove t s h.1 (rw (if_neg (text_dec u t) e) at there)))
]

remove-NoTwice : (t : Text) (s : List Text) → NoTwice s → NoTwice (remove text_dec t s)
unfolding remove
remove-NoTwice t [] h = tt
remove-NoTwice t (u ∷ s) h = elim (text_dec u t) [
  | yes e ↦ rw (if_pos (text_dec u t) e) (remove-NoTwice t s h.1)
  | no e ↦
      rw (if_neg (text_dec u t) e)
        (ground (arith, contains-remove text_dec t u s), remove-NoTwice t s h.1)
]

all_in-contains :
    (ts s : List Text) (t : Text)
    → all_in ts s ≡ true
    → contains text_dec t ts ≡ true
    → contains text_dec t s ≡ true
unfolding all_in contains
all_in-contains [] s t h there = cc
all_in-contains (u ∷ ts) s t h there = elim (text_dec u t) [
  | yes e ↦ rw (← e) (ground arith)
  | no e ↦ all_in-contains ts s t (ground arith) (ground arith)
]

contains-all_in :
    (ts s : List Text)
    → ((t : Text) → contains text_dec t ts ≡ true → contains text_dec t s ≡ true)
    → all_in ts s ≡ true
unfolding all_in contains
contains-all_in [] s h = refl
contains-all_in (u ∷ ts) s h =
    rw (h u (if_pos (text_dec u u) refl true _))
      (contains-all_in ts s (λ t there. h t (ground (arith, there))))

-- A set within another one that is no longer has all of its topics.
within-all :
    (a b : List Text)
    → NoTwice a
    → NoTwice b
    → ((t : Text) → contains text_dec t a ≡ true → contains text_dec t b ≡ true)
    → length b ≤ length a
    → (t : Text) → contains text_dec t b ≡ true
    → contains text_dec t a ≡ true
unfolding contains
within-all [] [] ha hb sub le t there = cc
within-all [] (u ∷ b) ha hb sub le t there = absurd (omega arith)
within-all (u ∷ a) b ha hb sub le t there = elim (text_dec u t) [
  | yes e ↦ if_pos (text_dec u t) e true _
  | no e ↦
      let in_b = sub u (if_pos (text_dec u u) refl true _) in
      let size = length-remove u b hb in_b in
      rw (if_neg (text_dec u t) e) (
        within-all a (remove text_dec u b) ha.1 (remove-NoTwice u b hb)
          (λ s s_in. elim (text_dec u s) [
            | yes f ↦
                absurd (ground (arith, ha.0, s_in, ap (λ (x : Text). contains text_dec x a) f))
            | no f ↦ ground (
              arith,
              contains-remove text_dec u s b,
              sub s (if_neg (text_dec u s) f true _ ∙ s_in),
            )
          ])
          (omega (arith, size)) t (ground (arith, contains-remove text_dec u t b)))
]

same_topics :
    (a b : List Text)
    → NoTwice a
    → NoTwice b
    → (length a == length b) ≡ true
    → all_in a b ≡ true
    → (t : Text) → contains text_dec t a ≡ contains text_dec t b
same_topics a b ha hb len sub t =
    let forth = all_in-contains a b t sub in
    let back = within-all a b ha hb (λ s. all_in-contains a b s sub) (ground arith) t in
    elim (Bool-cases (contains text_dec t a)) [
      | inl yes_a ↦ yes_a ∙ sym (forth yes_a)
      | inr no_a ↦ elim (Bool-cases (contains text_dec t b)) [
        | inl yes_b ↦ absurd (ground (arith, back yes_b, no_a))
        | inr no_b ↦ no_a ∙ sym no_b
      ]
    ]

same_length :
    (a b : List Text)
    → NoTwice a
    → NoTwice b
    → ((t : Text) → contains text_dec t a ≡ contains text_dec t b)
    → length a ≤ length b
unfolding contains
same_length [] b ha hb h = omega arith
same_length (u ∷ a) b ha hb h =
    let in_b : contains text_dec u b ≡ true = sym (h u) ∙ if_pos (text_dec u u) refl true _ in
    let size = length-remove u b hb in_b in
    let less = same_length a (remove text_dec u b) ha.1 (remove-NoTwice u b hb) (λ s.
      elim (text_dec u s) [
        | yes f ↦ ground (
          arith,
          contains-remove text_dec u s b,
          ha.0,
          ap (λ (x : Text). contains text_dec x a) f,
        )
        | no f ↦ ground (arith, contains-remove text_dec u s b, h s)
      ]) in
    omega (arith, size, less)

new_set_lem :
    (ts : List Text)
    → NoTwice (new_content_topic_set ts)
      × ((t : Text) → contains text_dec t (new_content_topic_set ts) ≡ contains text_dec t ts)
unfolding new_content_topic_set contains
new_set_lem ts = (add_all-NoTwice ts [] tt, λ t. contains-add_all text_dec t ts [] ∙ ground arith)

-- `Equals` on two filters that `NewContentFilter` makes decides whether they have the same pubsub
-- topic and were given the same content topics, in whatever order and however often.
pub equals_iff :
    (p q : Text) (ts us : List Text)
    → (equals (new_content_filter p ts) (new_content_filter q us) ≡ true)
      ↔ ((p ≡ q) × ((t : Text) → contains text_dec t ts ≡ contains text_dec t us))
unfolding equals new_content_filter
equals_iff p q ts us =
    let a = new_content_topic_set ts in
    let b = new_content_topic_set us in
    let (ha, in_a) = new_set_lem ts in
    let (hb, in_b) = new_set_lem us in
    (
      λ e.
          let same = same_topics a b ha hb (ground (arith, e)) (ground (arith, e)) in
          (ground (arith, e), λ t. sym (in_a t) ∙ same t ∙ in_b t),
      λ h.
          let same : (t : Text) → contains text_dec t a ≡ contains text_dec t b =
            λ t. in_a t ∙ h.1 t ∙ sym (in_b t) in
          let one = same_length a b ha hb same in
          let two = same_length b a hb ha (λ t. sym (same t)) in
          let sub = contains-all_in a b (λ t there. sym (same t) ∙ there) in
          ground (arith, one, two, sub, h.0),
    )
