-- ===== src/Api/History/Windows.antt =====
-- The windows of one work: they end, and together they are the whole time range.
use go_waku.Base.{
  ℕ, zero, suc, ◌+◌, ◌-◌, ◌≤◌, ◌<◌, ◌≡◌, ◌⊎◌, inl, inr, refl, sym, ap, subst, ◌∙◌, ◌&&◌, not, Bool,
  true, false, Option, none, some, List, [], ◌∷◌, arith, Option-cases, Bool-cases, length, dec_le,
}
use native.Mathlib.Nat.{zero-add, suc-add}
use go_waku.Base.Text.{Text}
use go_waku.Base.Result.{ok}
use go_waku.Protocol.Message.{Envelope}
use go_waku.Protocol.ContentFilter.{ContentFilter, to_list}
use go_waku.Api.History.{
  FilterCriteria, StoreQueryRequest, Page, Work, Answered, Outcome, finished, failed, running, day,
  exceeds, window_start, request_of, narrowed, next_criteria, request_store_messages, next_work,
  decide, process, record_answer, is_none,
}

abbrev pub NotBefore : Option ℕ → ℕ → Type 0
NotBefore none t = Unit
NotBefore (some start) t = start ≤ t

abbrev pub NotAfter : Option ℕ → ℕ → Type 0
NotAfter none t = Unit
NotAfter (some end) t = t ≤ end

-- The time lies within the criteria.
abbrev pub InRange : FilterCriteria → ℕ → Type 0
InRange c t = NotBefore c.time_start t × NotAfter c.time_end t

-- An answer with no next page to a request for the filter over a window with the time in it.
pub record EndsAt (cf : ContentFilter) (t : ℕ) (a : Answered) : Type 0 where
  pub last : a.next ≡ none
  pub topic : a.request.pubsub_topic ≡ cf.pubsub_topic
  pub topics : a.request.content_topics ≡ to_list cf.content_topics
  pub start : NotBefore a.request.time_start t
  pub end : NotAfter a.request.time_end t

abbrev pub Reads : ContentFilter → ℕ → List Answered → Type 0
Reads cf t [] = ⊥
Reads cf t (a ∷ xs) = EndsAt cf t a ⊎ Reads cf t xs

abbrev width : Option ℕ → Option ℕ → ℕ
width (some start) (some end) = end - start
width (some start) none = 0
width none end = 0

-- How far a range is from being a single point.
abbrev pub span : FilterCriteria → ℕ
span c = width c.time_start c.time_end

-- A range of at most a day is one window.
one_window :
    (start end : Option ℕ) (t : ℕ)
    → exceeds start end ≡ false
    → NotBefore start t
    → NotBefore (window_start start end) t
unfolding exceeds window_start
one_window none none t e h = tt
one_window none (some end) t e h = tt
one_window (some start) none t e h = h
one_window (some start) (some end) t e h = ground arith

-- A longer range is a window and the range that is left.
two_parts :
    (start end : Option ℕ) (t : ℕ)
    → exceeds start end ≡ true
    → NotBefore (window_start start end) t ⊎ NotAfter (window_start start end) t
unfolding exceeds window_start
two_parts none none t e = cc
two_parts none (some end) t e = cc
two_parts (some start) none t e = cc
two_parts (some start) (some end) t e = elim (dec_le (end - day) t) [
  | yes later ↦ inl (ground arith)
  | no earlier ↦ inr (ground arith)
]

width-window_start :
    (start end : Option ℕ)
    → exceeds start end ≡ true
    → width start (window_start start end) < width start end
unfolding exceeds window_start
width-window_start none none e = cc
width-window_start none (some end) e = cc
width-window_start (some start) none e = cc
width-window_start (some start) (some end) e = ground arith

record_answer_inv :
    (a : Answered) (o : Outcome) (xs : List Answered)
    → record_answer a o ≡ finished xs
    → (ys : List Answered) × (o ≡ finished ys) × (xs ≡ a ∷ ys)
record_answer_inv a (finished ys) xs h = (ys, refl, cc)
record_answer_inv a (failed e) xs h = absurd (cc)
record_answer_inv a running xs h = absurd (cc)

request_inv :
    (query : StoreQueryRequest → Option Page) (on_envelope : Envelope → Bool)
    (r : StoreQueryRequest) (page : Page)
    → request_store_messages query on_envelope r ≡ ok page
    → query r ≡ some page
unfolding request_store_messages
request_inv query on_envelope r page h = ground arith

module _ (query : StoreQueryRequest → Option Page) (on_envelope : Envelope → Bool) (page_limit : ℕ)
    (should_process_next_page : Option (ℕ → Bool × ℕ))
    (answers : (r : StoreQueryRequest)
      → (page : Page) × (request_store_messages query on_envelope r ≡ ok page)) where
  abbrev pub work_on : ℕ → Work → Outcome
  work_on = process query on_envelope page_limit should_process_next_page

  abbrev pub request_at : Work → StoreQueryRequest
  request_at w = request_of (narrowed w.criteria) w.cursor w.limit

  abbrev pub page_at : Work → Page
  page_at w = (answers (request_at w)).0

  abbrev pub answer_at : Work → Answered
  answer_at w = record { request = request_at w; next = (page_at w).cursor }

  abbrev pub next_at : Work → Option Work
  next_at w = next_work page_limit should_process_next_page w (page_at w)

  process_last :
      (fuel : ℕ) (w : Work) → next_at w ≡ none → work_on (suc fuel) w ≡ finished (answer_at w ∷ [])
  unfolding process
  process_last fuel w e = ground (arith, (answers (request_at w)).1)

  process_more :
      (fuel : ℕ) (w w' : Work)
      → next_at w ≡ some w'
      → work_on (suc fuel) w ≡ record_answer (answer_at w) (work_on fuel w')
  unfolding process
  process_more fuel w w' e = ground (arith, (answers (request_at w)).1)

  -- A work that is done stays done with one step of fuel more.
  process-suc :
      (fuel : ℕ) (w : Work) (xs : List Answered)
      → work_on fuel w ≡ finished xs
      → work_on (suc fuel) w ≡ finished xs
  process-suc zero w xs h = absurd (unfold process in cc)
  process-suc (suc fuel) w xs h = elim (Option-cases (next_at w)) [
    | inl last ↦ process_last (suc fuel) w last ∙ sym (process_last fuel w last) ∙ h
    | inr (w', more) ↦
        let (ys, done, e) =
          record_answer_inv (answer_at w) (work_on fuel w') xs
            (sym (process_more fuel w w' more) ∙ h) in
        process_more (suc fuel) w w' more
        ∙ ap (record_answer (answer_at w)) (process-suc fuel w' ys done)
        ∙ ap finished (sym e)
  ]

  pub process-add :
      (more fuel : ℕ) (w : Work) (xs : List Answered)
      → work_on fuel w ≡ finished xs
      → work_on (more + fuel) w ≡ finished xs
  process-add zero fuel w xs h = rw (zero-add fuel) h
  process-add (suc more) fuel w xs h =
      rw (suc-add more fuel) (process-suc (more + fuel) w xs (process-add more fuel w xs h))

  module _ (pages : StoreQueryRequest → ℕ)
      (shrinks : (r : StoreQueryRequest) (page : Page) (c : Text) (l : ℕ)
        → query r ≡ some page
        → page.cursor ≡ some c
        → pages (record r { pagination_cursor = some c; pagination_limit = l }) < pages r)
      (goes_on : (n : ℕ) → (decide should_process_next_page page_limit n).0 ≡ true) where
    -- A work ends, and its answers read the whole range of its criteria.
    abbrev pub Ends : Work → Type 0
    Ends w =
        (fuel : ℕ) × (xs : List Answered) × (work_on fuel w ≡ finished xs)
        × ((t : ℕ) → InRange w.criteria t → Reads w.criteria.content_filter t xs)

    abbrev after_page : Work → Work
    after_page w = record {
      criteria = next_criteria (page_at w).cursor w.criteria;
      cursor = (page_at w).cursor;
      limit = (decide should_process_next_page page_limit (length (page_at w).messages)).1;
    }

    next_none :
        (w : Work)
        → (page_at w).cursor ≡ none
        → exceeds w.criteria.time_start w.criteria.time_end ≡ false
        → next_at w ≡ none
    unfolding next_work
    next_none w e f = ground (arith, goes_on (length (page_at w).messages))

    next_some :
        (w : Work)
        → (is_none (page_at w).cursor && not (exceeds w.criteria.time_start w.criteria.time_end))
          ≡ false
        → next_at w ≡ some (after_page w)
    unfolding next_work
    next_some w e = ground (arith, goes_on (length (page_at w).messages))

    -- The answer of a last page reads the window.
    ends_at :
        (w : Work) (t : ℕ)
        → (page_at w).cursor ≡ none
        → NotBefore (window_start w.criteria.time_start w.criteria.time_end) t
        → NotAfter w.criteria.time_end t
        → EndsAt w.criteria.content_filter t (answer_at w)
    unfolding request_of narrowed
    ends_at w t e a b = record { last = e; topic = refl; topics = refl; start = a; end = b }

    -- A work that makes another one, which is done, is done.
    add_answer :
        (w : Work)
        → next_at w ≡ some (after_page w)
        → (d : Ends (after_page w))
        → ((t : ℕ) → InRange w.criteria t → Reads w.criteria.content_filter t (answer_at w ∷ d.1))
        → Ends w
    add_answer w e (fuel, xs, ended, covers) reads = (
      suc fuel,
      answer_at w ∷ xs,
      process_more fuel w (after_page w) e ∙ ap (record_answer (answer_at w)) ended,
      reads,
    )

    pages_after :
        (w : Work) (c : Text)
        → (page_at w).cursor ≡ some c
        → pages (request_at (after_page w)) < pages (request_at w)
    unfolding request_of next_criteria
    pages_after w c e =
        let went =
          request_inv query on_envelope (request_at w) (page_at w) (answers (request_at w)).1 in
        let l = (after_page w).limit in rw e (shrinks (request_at w) (page_at w) c l went e)

    criteria_some :
        (w : Work) (c : Text) → (page_at w).cursor ≡ some c → (after_page w).criteria ≡ w.criteria
    unfolding next_criteria
    criteria_some w c e = rw e refl

    criteria_none :
        (w : Work)
        → (page_at w).cursor ≡ none
        → (after_page w).criteria
          ≡ record w.criteria { time_end = window_start w.criteria.time_start w.criteria.time_end }
    unfolding next_criteria
    criteria_none w e = rw e refl

    turn_page : (w : Work) (c : Text) → (page_at w).cursor ≡ some c → Ends (after_page w) → Ends w
    turn_page w c e d =
        let same_criteria = criteria_some w c e in
        add_answer w (next_some w (ground arith)) d (λ t r. inr (
          subst (λ (k : FilterCriteria). Reads k.content_filter t d.1) same_criteria
            (d.3 t (subst (λ (k : FilterCriteria). InRange k t) (sym same_criteria) r))))

    leave_window :
        (w : Work)
        → (page_at w).cursor ≡ none
        → exceeds w.criteria.time_start w.criteria.time_end ≡ true
        → Ends (after_page w)
        → Ends w
    leave_window w e long d =
        let cut = criteria_none w e in
        add_answer w (next_some w (ground arith)) d (λ t r.
          elim (two_parts w.criteria.time_start w.criteria.time_end t long) [
            | inl later ↦ inl (ends_at w t e later r.1)
            | inr earlier ↦ inr (
                subst (λ (k : FilterCriteria). Reads k.content_filter t d.1) cut
                  (d.3 t (subst (λ (k : FilterCriteria). InRange k t) (sym cut) (r.0, earlier))))
          ])

    by_pages :
        (days left : ℕ) (w : Work) → span w.criteria < days → pages (request_at w) < left → Ends w
    by_pages zero left w h k = absurd (omega arith)
    by_pages (suc days) zero w h k = absurd (omega arith)
    by_pages (suc days) (suc left) w h k = elim (Option-cases (page_at w).cursor) [
      | inr (c, e) ↦ turn_page w c e (
          by_pages (suc days) left (after_page w)
            (subst (λ (k : FilterCriteria). span k < suc days) (sym (criteria_some w c e)) h)
            (omega (arith, pages_after w c e)))
      | inl e ↦ elim (Bool-cases (exceeds w.criteria.time_start w.criteria.time_end)) [
        | inr short ↦ (
          1,
          answer_at w ∷ [],
          process_last 0 w (next_none w e short),
          λ t r. inl (
              ends_at w t e (one_window w.criteria.time_start w.criteria.time_end t short r.0) r.1),
        )
        | inl long ↦ leave_window w e long (
            by_pages days (suc (pages (request_at (after_page w)))) (after_page w)
              (subst (λ (k : FilterCriteria). span k < days) (sym (criteria_none w e))
                (omega (arith, width-window_start w.criteria.time_start w.criteria.time_end long)))
              (omega arith))
      ]
    ]

    pub process-Ends : (w : Work) → Ends w
    process-Ends w =
        by_pages (suc (span w.criteria)) (suc (pages (request_at w))) w (omega arith) (omega arith)
