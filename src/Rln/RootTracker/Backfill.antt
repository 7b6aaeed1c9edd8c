-- ===== src/Rln/RootTracker/Backfill.antt =====
-- Which roots `Backfill` restores.
use go_waku.Base.{
  ℕ, zero, suc, ◌+◌, ◌-◌, ◌≤◌, ◌==◌, ◌≡◌, refl, sym, ap, ◌∙◌, some, List, [], ◌∷◌, ◌++◌, arith,
  length, take, drop, Bool-cases, List-cases, inl, inr, append_assoc,
}
use go_waku.Base.Lists.{length-append}
use go_waku.Rln.RootTracker.{
  RootsPerBlock, MerkleRootTracker, count_from, min, pop, restore, backfill,
}
use go_waku.Rln.RootTracker.Fork.{pop_sound, count_from-le, take-all}

module _ {A : Type 0} where
  take-append_le : (n : ℕ) (xs ys : List A) → n ≤ length xs → take n (xs ++ ys) ≡ take n xs
  take-append_le zero xs ys h = refl
  take-append_le (suc n) [] ys h = absurd (omega arith)
  take-append_le (suc n) (x ∷ xs) ys h = ap (◌∷◌ x) (take-append_le n xs ys (omega arith))

  drop-append_le : (n : ℕ) (xs ys : List A) → n ≤ length xs → drop n (xs ++ ys) ≡ drop n xs ++ ys
  drop-append_le zero xs ys h = refl
  drop-append_le (suc n) [] ys h = absurd (omega arith)
  drop-append_le (suc n) (x ∷ xs) ys h = drop-append_le n xs ys (omega arith)

  drop-all : (xs : List A) → drop (length xs) xs ≡ []
  drop-all [] = refl
  drop-all (x ∷ xs) = drop-all xs

pop_any :
    (r : RootsPerBlock) (l : List RootsPerBlock)
    → (before : List RootsPerBlock) × (x : RootsPerBlock) × (pop (r ∷ l) ≡ some (before, x))
unfolding pop
pop_any r [] = ([], r, refl)
pop_any r (s ∷ l) = let (before, x, e) = pop_any s l in (r ∷ before, x, ground arith)

-- The last `n` roots of the buffer go before the valid ones.
record IsRestored (n : ℕ) (m m' : MerkleRootTracker) : Type 0 where
  valid :
      m'.valid_merkle_roots
      ≡ drop (length m.merkle_root_buffer - n) m.merkle_root_buffer ++ m.valid_merkle_roots
  buffered : m'.merkle_root_buffer ≡ take (length m.merkle_root_buffer - n) m.merkle_root_buffer

restore-IsRestored :
    (n : ℕ) (m : MerkleRootTracker) → n ≤ length m.merkle_root_buffer → IsRestored n m (restore n m)
unfolding restore
restore-IsRestored zero m h =
    let size = length m.merkle_root_buffer in
    let e : size - 0 ≡ size = omega arith in
    record {
      valid = rw e (rw (drop-all m.merkle_root_buffer) refl);
      buffered = rw e (sym (take-all m.merkle_root_buffer));
    }
restore-IsRestored (suc n) m h = elim (List-cases m.merkle_root_buffer) [
  | inl e ↦ absurd (ground arith)
  | inr (r, l, e) ↦
      let (before, x, popped) = pop_any r l in
      let popped' : pop m.merkle_root_buffer ≡ some (before, x) = rw e popped in
      let split = pop_sound m.merkle_root_buffer before x popped' in
      let size : length m.merkle_root_buffer ≡ length before + 1 =
        rw split (length-append before (x ∷ [])) in
      let m1 = record m {
        valid_merkle_roots = x ∷ m.valid_merkle_roots;
        merkle_root_buffer = before;
      } in
      let later = restore-IsRestored n m1 (omega arith) in
      let k : length m.merkle_root_buffer - suc n ≡ length before - n = omega arith in
      let step : restore (suc n) m ≡ restore n m1 = ground arith in
      let t : take (length before - n) m.merkle_root_buffer ≡ take (length before - n) before =
        ap (take (length before - n)) split
        ∙ take-append_le (length before - n) before (x ∷ []) (omega arith) in
      let d : drop (length before - n) m.merkle_root_buffer
          ≡ drop (length before - n) before ++ x ∷ [] =
        ap (drop (length before - n)) split
        ∙ drop-append_le (length before - n) before (x ∷ []) (omega arith) in
      record {
        valid =
            ap (λ (y : MerkleRootTracker). y.valid_merkle_roots) step
            ∙ later.valid
            ∙ sym (append_assoc (drop (length before - n) before) (x ∷ []) m.valid_merkle_roots)
            ∙ ap (λ l. l ++ m.valid_merkle_roots)
                (sym (ap (λ j. drop j m.merkle_root_buffer) k ∙ d));
        buffered =
            ap (λ (y : MerkleRootTracker). y.merkle_root_buffer) step
            ∙ later.buffered
            ∙ sym (ap (λ j. take j m.merkle_root_buffer) k ∙ t);
      }
]

-- `Backfill` drops the latest valid roots, one for each of the given block or a later one, and puts as
-- many roots before the others, or all if there are fewer: the last of the buffer, which keeps the rest.
pub backfill_lem :
    (from : ℕ) (m : MerkleRootTracker)
    → ((backfill from m).valid_merkle_roots
        ≡ drop
            (length m.merkle_root_buffer - count_from from m.valid_merkle_roots)
            m.merkle_root_buffer
          ++ take
              (length m.valid_merkle_roots - count_from from m.valid_merkle_roots)
              m.valid_merkle_roots)
      × ((backfill from m).merkle_root_buffer
          ≡ take
              (length m.merkle_root_buffer - count_from from m.valid_merkle_roots)
              m.merkle_root_buffer)
unfolding backfill
backfill_lem from m =
    let n = count_from from m.valid_merkle_roots in
    let size = length m.valid_merkle_roots in
    let stock = length m.merkle_root_buffer in
    let few = count_from-le from m.valid_merkle_roots in
    elim (Bool-cases (n == 0)) [
      | inl none_from ↦
          let e : stock - n ≡ stock = ground arith in
          let f : size - n ≡ size = ground arith in
          rw (none_from, e, f)
            (
              sym (
                  ap (λ l. l ++ take size m.valid_merkle_roots) (drop-all m.merkle_root_buffer)
                  ∙ take-all m.valid_merkle_roots),
              sym (take-all m.merkle_root_buffer),
            )
      | inr some_from ↦
          let popped : size - min n size ≡ size - n = ground arith in
          let e : stock - min n stock ≡ stock - n = ground arith in
          let m1 = record m { valid_merkle_roots = take (size - n) m.valid_merkle_roots } in
          let r = restore-IsRestored (min n stock) m1 (ground arith) in
          rw (some_from, popped)
            (
              r.valid
                  ∙ ap (λ k. drop k m.merkle_root_buffer ++ take (size - n) m.valid_merkle_roots) e,
              r.buffered ∙ ap (λ k. take k m.merkle_root_buffer) e,
            )
    ]
