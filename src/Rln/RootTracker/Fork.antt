-- ===== src/Rln/RootTracker/Fork.antt =====
-- What `Backfill` leaves when the chain forks.
use go_waku.Base.{
  some-injective, ℕ, zero, suc, ◌+◌, ◌-◌, ◌≤◌, ◌<◌, ◌==◌, ◌≡◌, refl, sym, ap, ◌∙◌, Option, none,
  some, List, [], ◌∷◌, ◌++◌, arith, leb, length, take, Bool-cases, inl, inr, append_assoc,
}
use go_waku.Base.Lists.{All, length-append}
use go_waku.Rln.RootTracker.{
  RootsPerBlock, MerkleRootTracker, count_from, min, pop, restore, backfill,
}
use go_waku.Rln.RootTracker.Window.{joined}

module _ {A : Type 0} where
  take-append : (k : ℕ) (xs ys : List A) → take (length xs + k) (xs ++ ys) ≡ xs ++ take k ys
  take-append k [] ys = let e : 0 + k ≡ k = omega arith in rw e refl
  take-append k (x ∷ xs) ys =
      let e : suc (length xs) + k ≡ suc (length xs + k) = omega arith in
      rw e (ap (◌∷◌ x) (take-append k xs ys))

  pub take-all : (xs : List A) → take (length xs) xs ≡ xs
  take-all [] = refl
  take-all (x ∷ xs) = ap (◌∷◌ x) (take-all xs)

pub pop_sound :
    (l before : List RootsPerBlock) (x : RootsPerBlock)
    → pop l ≡ some (before, x)
    → l ≡ before ++ x ∷ []
unfolding pop
pop_sound [] before x h = cc
pop_sound (r ∷ []) before x h =
    rw
      (
        ← ap (λ (p : List RootsPerBlock × RootsPerBlock). p.0) (some-injective h),
        ← ap (λ (p : List RootsPerBlock × RootsPerBlock). p.1) (some-injective h),
      )
      refl
pop_sound (r ∷ s ∷ rest) before x h = go (pop (s ∷ rest)) (λ b last. pop_sound (s ∷ rest) b last) h
  where
    go :
        (o : Option (List RootsPerBlock × RootsPerBlock))
        → ((b : List RootsPerBlock) (last : RootsPerBlock)
            → o ≡ some (b, last)
            → s ∷ rest ≡ b ++ last ∷ [])
        → ◌≡◌ {A = Option (List RootsPerBlock × RootsPerBlock)}
            (elim o [ none ↦ none | some (b, last) ↦ some (r ∷ b, last) ])
            (some (before, x))
        → r ∷ s ∷ rest ≡ before ++ x ∷ []
    go none ih h' = cc
    go (some (b, last)) ih h' =
        let p = some-injective h' in
        rw
          (
            ← ap (λ (q : List RootsPerBlock × RootsPerBlock). q.0) p,
            ← ap (λ (q : List RootsPerBlock × RootsPerBlock). q.1) p,
          )
          (ap (◌∷◌ r) (ih b last refl))

-- Moving roots from the buffer to the valid ones keeps their order.
restore-joined : (n : ℕ) (m : MerkleRootTracker) → joined (restore n m) ≡ joined m
unfolding restore
restore-joined zero m = refl
restore-joined (suc n) m = go (pop m.merkle_root_buffer) refl (restore-joined n)
  where
    go :
        (o : Option (List RootsPerBlock × RootsPerBlock))
        → pop m.merkle_root_buffer ≡ o
        → ((k : MerkleRootTracker) → joined (restore n k) ≡ joined k)
        → joined (elim o [
          | none ↦ m
          | some (before, x) ↦ restore n (record m {
            valid_merkle_roots = x ∷ m.valid_merkle_roots;
            merkle_root_buffer = before;
          })
        ])
          ≡ joined m
    go none e ih = refl
    go (some (before, x)) e ih =
        ih _
        ∙ sym (append_assoc before (x ∷ []) m.valid_merkle_roots)
        ∙ ap (λ l. l ++ m.valid_merkle_roots) (sym (pop_sound m.merkle_root_buffer before x e))

pub count_from-le : (from : ℕ) (l : List RootsPerBlock) → count_from from l ≤ length l
unfolding count_from
count_from-le from [] = omega arith
count_from-le from (r ∷ rest) = ground (arith, count_from-le from rest)

-- `Backfill` drops the latest roots, one for each valid root of the given block or a later one, and
-- keeps the others, valid and buffered, in their order.
pub backfill-joined :
    (from : ℕ) (m : MerkleRootTracker)
    → joined (backfill from m)
      ≡ take (length (joined m) - count_from from m.valid_merkle_roots) (joined m)
unfolding backfill
backfill-joined from m =
    let n = count_from from m.valid_merkle_roots in
    let size = length m.valid_merkle_roots in
    let few = count_from-le from m.valid_merkle_roots in
    let sizes = length-append m.merkle_root_buffer m.valid_merkle_roots in
    elim (Bool-cases (n == 0)) [
      | inl none_from ↦
          let e : length (joined m) - n ≡ length (joined m) = ground arith in
          rw (none_from, e) (sym (take-all (joined m)))
      | inr some_from ↦
          let popped : size - min n size ≡ size - n = ground arith in
          let e : length (joined m) - n ≡ length m.merkle_root_buffer + (size - n) =
            ground (arith, sizes, few) in
          rw (some_from, e, popped)
            (restore-joined _ _
              ∙ sym (take-append (size - n) m.merkle_root_buffer m.valid_merkle_roots))
    ]

-- The blocks of the roots do not decrease.
abbrev pub AreSorted : List RootsPerBlock → Type 0
AreSorted [] = Unit
AreSorted (r ∷ rest) =
    All (λ (s : RootsPerBlock). r.block_number ≤ s.block_number) rest × AreSorted rest

abbrev pub AreBefore : ℕ → List RootsPerBlock → Type 0
AreBefore from = All (λ (s : RootsPerBlock). s.block_number < from)

count_from-append :
    (from : ℕ) (xs ys : List RootsPerBlock)
    → count_from from (xs ++ ys) ≡ count_from from xs + count_from from ys
unfolding count_from
count_from-append from [] ys = omega arith
count_from-append from (x ∷ xs) ys = ground (arith, count_from-append from xs ys)

late_count :
    (from n : ℕ) (l : List RootsPerBlock)
    → from ≤ n
    → All (λ (s : RootsPerBlock). n ≤ s.block_number) l
    → count_from from l ≡ length l
unfolding count_from
late_count from n [] le h = refl
late_count from n (r ∷ rest) le h = ground (arith, late_count from n rest le h.1)

none_from : (from : ℕ) (l : List RootsPerBlock) → AreBefore from l → count_from from l ≡ 0
unfolding count_from
none_from from [] h = refl
none_from from (r ∷ rest) h = ground (arith, none_from from rest h.1)

sorted-before :
    (from : ℕ) (l : List RootsPerBlock)
    → AreSorted l
    → AreBefore from (take (length l - count_from from l) l)
unfolding count_from
sorted-before from [] h = let e : 0 - 0 ≡ 0 = refl in tt
sorted-before from (r ∷ rest) h = elim (Bool-cases (leb from r.block_number)) [
  | inl late ↦
      let all = late_count from r.block_number rest (ground arith) h.0 in
      let e : suc (length rest) - suc (count_from from rest) ≡ 0 = omega (arith, all) in
      rw (late, e) tt
  | inr early ↦
      let few = count_from-le from rest in
      let e : suc (length rest) - count_from from rest ≡ suc (length rest - count_from from rest) =
        omega (arith, few) in
      rw (early, e) (ground arith, sorted-before from rest h.1)
]

-- With roots whose blocks do not decrease, and unless the fork is so deep that it reaches all the
-- valid roots and the buffer, every root that `Backfill` leaves, valid or buffered, is of a block
-- before the given one.
pub backfill-AreBefore :
    (from : ℕ) (m : MerkleRootTracker)
    → AreSorted (joined m)
    → AreBefore from m.merkle_root_buffer
    → AreBefore from (joined (backfill from m))
backfill-AreBefore from m sorted older =
    let split = count_from-append from m.merkle_root_buffer m.valid_merkle_roots in
    let e : count_from from (joined m) ≡ count_from from m.valid_merkle_roots =
      omega (arith, split, none_from from m.merkle_root_buffer older) in
    let before = sorted-before from (joined m) sorted in
    rw (backfill-joined from m) (rw e at before)
