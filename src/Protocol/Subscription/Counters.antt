-- ===== src/Protocol/Subscription/Counters.antt =====
-- The counts of `noOfSubs` under the loops that change them.
use go_waku.Base.{
  ℕ, ◌+◌, ◌≡◌, refl, sym, ap, true, false, none, List, [], ◌∷◌, arith, ite, Bool-cases,
  Option-cases, inl, inr,
}
use go_waku.Base.Int.{ℤ, pos, succ, pred}
use go_waku.Base.Text.{Text, text_dec}
use go_waku.Base.Dict.{or_empty, Dict, lookup, insert, lookup-insert}
use go_waku.Base.Keys.{contains, add, remove}
use go_waku.Base.Result.{ok}
use go_waku.Base.Occurrences.{
  at_key, occurrences, IsNodup, occurrences-add, occurrences-remove, add-IsNodup, remove-IsNodup,
}
use go_waku.Protocol.Subscription.{
  Counts, subs_for, increase_sub_for, decrease_sub_for, increase_all, decrease_all,
}
use go_waku.Protocol.Subscription.Details.{add_loop, remove_loop}

-- What a list of content topics on a pubsub topic counts for.
unfoldable pub weight_of : Text → List Text → Text → Text → ℕ
weight_of p ts q u = at_key text_dec p q (occurrences text_dec u ts)

-- Every count is the one that `f` gives.
abbrev pub Agrees : (Text → Text → ℕ) → Counts → Type 0
Agrees f counts = (q u : Text) → subs_for q u counts ≡ pos (f q u)

pub Agrees-ext :
    (f g : Text → Text → ℕ) (counts : Counts)
    → ((q u : Text) → f q u ≡ g q u)
    → Agrees f counts
    → Agrees g counts
Agrees-ext f g counts e a q u = ground (arith, e q u, a q u)

subs_for-insert :
    (p t q u : Text) (n : ℤ) (inner : Dict Text ℤ) (counts : Counts)
    → or_empty (lookup text_dec p counts) ≡ inner
    → subs_for q u (insert text_dec p (insert text_dec t n inner) counts)
      ≡ ite (text_dec p q) (ite (text_dec t u) n (subs_for q u counts)) (subs_for q u counts)
unfolding subs_for
subs_for-insert p t q u n inner counts h = ground (
  arith,
  lookup-insert text_dec p q (insert text_dec t n inner) counts,
  lookup-insert text_dec t u n inner,
)

subs_for-increase :
    (p t q u : Text) (counts : Counts)
    → subs_for q u (increase_sub_for p t counts)
      ≡ ite
          (text_dec p q)
          (ite (text_dec t u) (succ (subs_for p t counts)) (subs_for q u counts))
          (subs_for q u counts)
unfolding increase_sub_for
subs_for-increase p t q u counts =
    subs_for-insert p t q u (succ (subs_for p t counts)) (or_empty (lookup text_dec p counts))
      counts refl

pub increase-Agrees :
    (f : Text → Text → ℕ) (p t : Text) (counts : Counts)
    → Agrees f counts
    → Agrees (λ q u. f q u + weight_of p (t ∷ []) q u) (increase_sub_for p t counts)
unfolding weight_of at_key occurrences succ
increase-Agrees f p t counts a q u = ground (arith, subs_for-increase p t q u counts, a q u, a p t)

positive-ne-missing :
    (f : Text → Text → ℕ) (p t : Text) (counts : Counts)
    → lookup text_dec p counts ≡ none
    → subs_for p t counts ≡ pos (f p t + weight_of p (t ∷ []) p t)
    → ⊥
unfolding subs_for weight_of at_key occurrences lookup
positive-ne-missing f p t counts missing a = ground arith

decrease_step :
    (f : Text → Text → ℕ) (p t q u : Text) (counts : Counts) {n : ℤ}
    → n
      ≡ ite
          (text_dec p q)
          (ite (text_dec t u) (pred (subs_for p t counts)) (subs_for q u counts))
          (subs_for q u counts)
    → subs_for q u counts ≡ pos (f q u + weight_of p (t ∷ []) q u)
    → subs_for p t counts ≡ pos (f p t + weight_of p (t ∷ []) p t)
    → n ≡ pos (f q u)
unfolding weight_of at_key occurrences pred
decrease_step f p t q u counts e a b = ground arith

decrease-Agrees :
    (f : Text → Text → ℕ) (p t : Text) (counts : Counts)
    → Agrees (λ q u. f q u + weight_of p (t ∷ []) q u) counts
    → (left : Counts) × (decrease_sub_for p t counts ≡ ok left) × Agrees f left
unfolding decrease_sub_for
decrease-Agrees f p t counts a = elim (Option-cases (lookup text_dec p counts)) [
  | inl missing ↦ absurd (positive-ne-missing f p t counts missing (a p t))
  | inr (inner, there) ↦ (
    insert text_dec p (insert text_dec t (pred (subs_for p t counts)) inner) counts,
    ground arith,
    λ q u.
        decrease_step f p t q u counts
          (subs_for-insert p t q u (pred (subs_for p t counts)) inner counts (ap or_empty there))
          (a q u) (a p t),
  )
]

pub weight_of-nil : (f : Text → Text → ℕ) (p q u : Text) → f q u ≡ f q u + weight_of p [] q u
unfolding weight_of at_key occurrences
weight_of-nil f p q u = ground arith

-- The weights of a list are those of its first topic and of the others.
weight_of-cons :
    (p t : Text) (ts : List Text) (q u : Text)
    → weight_of p (t ∷ ts) q u ≡ weight_of p (t ∷ []) q u + weight_of p ts q u
unfolding weight_of at_key occurrences
weight_of-cons p t ts q u = ground arith

weight_of-add :
    (p t : Text) (ts : List Text) (q u : Text)
    → contains text_dec t ts ≡ false
    → weight_of p (add text_dec t ts) q u ≡ weight_of p ts q u + weight_of p (t ∷ []) q u
unfolding weight_of occurrences
weight_of-add p t ts q u h = unfold at_key in ground (arith, occurrences-add text_dec t u ts h)

weight_of-remove :
    (p t : Text) (ts : List Text) (q u : Text)
    → IsNodup text_dec ts
    → contains text_dec t ts ≡ true
    → weight_of p ts q u ≡ weight_of p (remove text_dec t ts) q u + weight_of p (t ∷ []) q u
unfolding weight_of occurrences
weight_of-remove p t ts q u n h =
    unfold at_key in ground (arith, occurrences-remove text_dec t u ts n h)

pub increase_all-Agrees :
    (f : Text → Text → ℕ) (p : Text) (ts : List Text) (counts : Counts)
    → Agrees f counts
    → Agrees (λ q u. f q u + weight_of p ts q u) (increase_all p ts counts)
unfolding increase_all
increase_all-Agrees f p [] counts a =
    Agrees-ext f (λ q u. f q u + weight_of p [] q u) counts (λ q u. weight_of-nil f p q u) a
increase_all-Agrees f p (t ∷ ts) counts a =
    let f' : Text → Text → ℕ = λ q u. f q u + weight_of p (t ∷ []) q u in
    Agrees-ext (λ q u. f' q u + weight_of p ts q u) (λ q u. f q u + weight_of p (t ∷ ts) q u)
      (increase_all p ts (increase_sub_for p t counts))
      (λ q u. omega (arith, weight_of-cons p t ts q u))
      (increase_all-Agrees f' p ts (increase_sub_for p t counts) (increase-Agrees f p t counts a))

pub decrease_all-Agrees :
    (f : Text → Text → ℕ) (p : Text) (ts : List Text) (counts : Counts)
    → Agrees (λ q u. f q u + weight_of p ts q u) counts
    → (left : Counts) × (decrease_all p ts counts ≡ ok left) × Agrees f left
unfolding decrease_all
decrease_all-Agrees f p [] counts a = (
  counts,
  refl,
  Agrees-ext (λ q u. f q u + weight_of p [] q u) f counts (λ q u. sym (weight_of-nil f p q u)) a,
)
decrease_all-Agrees f p (t ∷ ts) counts a =
    let f' : Text → Text → ℕ = λ q u. f q u + weight_of p ts q u in
    let a' =
      Agrees-ext (λ q u. f q u + weight_of p (t ∷ ts) q u)
        (λ q u. f' q u + weight_of p (t ∷ []) q u) counts
        (λ q u. omega (arith, weight_of-cons p t ts q u)) a in
    let (counts', went, b) = decrease-Agrees f' p t counts a' in
    let (left, went', b') = decrease_all-Agrees f p ts counts' b in
    (left, ground (arith, went, went'), b')

-- The loop of `Add` keeps the counts equal to what the topics of the subscription add to `f`.
pub add_loop_lem :
    (f : Text → Text → ℕ) (p : Text) (cts topics : List Text) (counts : Counts)
    → IsNodup text_dec topics
    → Agrees (λ q u. f q u + weight_of p topics q u) counts
    → IsNodup text_dec (add_loop p cts topics counts).0
      × Agrees
          (λ q u. f q u + weight_of p (add_loop p cts topics counts).0 q u)
          (add_loop p cts topics counts).1
unfolding add_loop
add_loop_lem f p [] topics counts n a = (n, a)
add_loop_lem f p (ct ∷ cts) topics counts n a = elim (Bool-cases (contains text_dec ct topics)) [
  | inl old ↦ rw old (add_loop_lem f p cts topics counts n a)
  | inr new ↦
      let f' : Text → Text → ℕ = λ q u. f q u + weight_of p topics q u in
      rw new (
        add_loop_lem f p cts (add text_dec ct topics) (increase_sub_for p ct counts)
          (add-IsNodup text_dec ct topics n)
          (Agrees-ext (λ q u. f' q u + weight_of p (ct ∷ []) q u)
            (λ q u. f q u + weight_of p (add text_dec ct topics) q u) (increase_sub_for p ct counts)
            (λ q u. omega (arith, weight_of-add p ct topics q u new))
            (increase-Agrees f' p ct counts a)))
]

-- So does the loop of `Remove`, which does not panic.
pub remove_loop_lem :
    (f : Text → Text → ℕ) (p : Text) (cts topics : List Text) (counts : Counts)
    → IsNodup text_dec topics
    → Agrees (λ q u. f q u + weight_of p topics q u) counts
    → (left : List Text) × (counts' : Counts) × (remove_loop p cts topics counts
        ≡ ok (left, counts'))
      × IsNodup text_dec left
      × Agrees (λ q u. f q u + weight_of p left q u) counts'
unfolding remove_loop
remove_loop_lem f p [] topics counts n a = (topics, counts, refl, n, a)
remove_loop_lem f p (ct ∷ cts) topics counts n a = elim (Bool-cases (contains text_dec ct topics)) [
  | inr absent ↦
      let (left, counts', went, n', a') = remove_loop_lem f p cts topics counts n a in
      (left, counts', ground (arith, went), n', a')
  | inl there ↦
      let topics' = remove text_dec ct topics in
      let f' : Text → Text → ℕ = λ q u. f q u + weight_of p topics' q u in
      let (less, took, b) = decrease-Agrees f' p ct counts (
        Agrees-ext (λ q u. f q u + weight_of p topics q u)
          (λ q u. f' q u + weight_of p (ct ∷ []) q u) counts
          (λ q u. omega (arith, weight_of-remove p ct topics q u n there)) a) in
      let (left, counts', went, n', a') =
        remove_loop_lem f p cts topics' less (remove-IsNodup text_dec ct topics n) b in
      (left, counts', ground (arith, took, went), n', a')
]
