-- ===== src/Base/Windows.antt =====
-- The latest elements of a list.
use Prim.Native.Nat.{ℕ, zero, suc, ◌-◌, ◌≤◌, ◌<◌}
use mathlib.Core.Path.{◌≡◌, refl, sym, ap, ◌∙◌}
use mathlib.Core.List.{List, [], ◌∷◌, ◌++◌}
use native.Mathlib.Omega.{arith}
use native.Mathlib.Decide.{dec_le}
use go_waku.Base.Tests.{ltb, lt→ltb, if◌then◌else◌, if-true, if-false}
use go_waku.Base.Lists.{length, take, drop, length-append, length-drop}

-- `s[1:]` of a list that is not empty.
abbrev pub tail : {A : Type 0} → List A → List A
tail [] = []
tail (x ∷ xs) = xs

abbrev pub no_elements : {A : Type 0} → List A
no_elements = []

module _ {A : Type 0} where
  drop-append : (k : ℕ) (xs ys : List A) → k ≤ length xs → drop k (xs ++ ys) ≡ drop k xs ++ ys
  drop-append zero xs ys h = refl
  drop-append (suc k) [] ys h = absurd (omega arith)
  drop-append (suc k) (x ∷ xs) ys h = drop-append k xs ys (omega arith)

  pub drop-nil : (k : ℕ) → drop k (no_elements {A = A}) ≡ []
  drop-nil zero = refl
  drop-nil (suc k) = refl

  drop-suc : (k : ℕ) (xs : List A) → drop (suc k) xs ≡ tail (drop k xs)
  drop-suc zero [] = refl
  drop-suc zero (x ∷ xs) = refl
  drop-suc (suc k) [] = refl
  drop-suc (suc k) (x ∷ xs) = drop-suc k xs

  pub tail-append : (xs ys : List A) → 0 < length xs → tail (xs ++ ys) ≡ tail xs ++ ys
  tail-append [] ys h = elim h [ ]
  tail-append (x ∷ xs) ys h = refl

  pub take-tail : (xs : List A) → take 1 xs ++ tail xs ≡ xs
  take-tail [] = refl
  take-tail (x ∷ xs) = refl

  -- The last `w` elements, one element later.
  pub last-push :
      (w : ℕ) (h : List A) (x : A)
      → drop (length (h ++ x ∷ []) - w) (h ++ x ∷ []) ≡ (
          if ltb w (length (drop (length h - w) h ++ x ∷ []))
          then tail (drop (length h - w) h ++ x ∷ [])
          else drop (length h - w) h ++ x ∷ [])
  last-push w h x =
      let size = length-append h (x ∷ []) in
      let k = length h - w in
      let rest = drop k h ++ x ∷ [] in
      let size' = length-append (drop k h) (x ∷ []) in
      let kept = length-drop k h in
      elim (dec_le w (length h)) [
        | yes le ↦
            let e : length (h ++ x ∷ []) - w ≡ suc k = omega (arith, size) in
            rw e (
              drop-suc k (h ++ x ∷ [])
              ∙ ap tail (drop-append k h (x ∷ []) (omega arith))
              ∙ sym (
                  if-true (ltb w (length rest)) (tail rest) rest
                    (lt→ltb _ _ (omega (arith, size', kept)))))
        | no gt ↦
            let e : length (h ++ x ∷ []) - w ≡ 0 = omega (arith, size) in
            let z : k ≡ 0 = omega arith in
            rw (e, z)
              (sym (if-false (ltb w (length (h ++ x ∷ []))) _ (h ++ x ∷ []) (ground (arith, size))))
      ]
