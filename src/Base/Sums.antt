-- ===== src/Base/Sums.antt =====
-- The sum of the weights of the entries of a map.
use Prim.Native.Nat.{ℕ, ◌+◌, ◌<◌}
use mathlib.Core.Path.{◌≡◌, refl}
use mathlib.Core.Logic.{◌≢◌, if_pos, if_neg}
use mathlib.Core.Option.{none, some}
use mathlib.Core.List.{[], ◌∷◌}
use native.Mathlib.Omega.{arith}
use native.Mathlib.Decide.{dec_lt}
use go_waku.Base.Dict.{Dict, lookup, insert, erase, IsDistinct}

module _ {K V : Type 0} (dec : Discrete K) where
  unfoldable pub total : (K → V → ℕ) → Dict K V → ℕ
  total w [] = 0
  total w ((k, v) ∷ m) = w k v + total w m

  pub erase_absent : (k : K) (m : Dict K V) → lookup dec k m ≡ none → erase dec k m ≡ m
  unfolding lookup erase
  erase_absent k [] h = refl
  erase_absent k ((j, v) ∷ m) h = ground (arith, erase_absent k m)

  pub total-erase_absent :
      (w : K → V → ℕ) (k : K) (m : Dict K V)
      → lookup dec k m ≡ none
      → total w m ≡ total w (erase dec k m)
  total-erase_absent w k m h = rw (erase_absent k m h) refl

  -- An entry apart from the others.
  pub total-erase :
      (w : K → V → ℕ) (k : K) (v : V) (m : Dict K V)
      → IsDistinct dec m
      → lookup dec k m ≡ some v
      → total w m ≡ total w (erase dec k m) + w k v
  unfolding total lookup erase
  total-erase w k v [] d h = absurd (cc)
  total-erase w k v ((j, u) ∷ m) d h =
      ground (arith, total-erase w k v m d.1, total-erase_absent w k m)

  pub total-insert :
      (w : K → V → ℕ) (k : K) (v : V) (m : Dict K V)
      → IsDistinct dec m
      → total w (insert dec k v m) ≡ total w (erase dec k m) + w k v
  unfolding total insert erase
  total-insert w k v [] d = omega arith
  total-insert w k v ((j, u) ∷ m) d =
      ground (arith, total-insert w k v m d.1, total-erase_absent w k m)

  pub total-erase_ext :
      (w w' : K → V → ℕ) (k : K) (m : Dict K V)
      → ((j : K) (v : V) → j ≢ k → w j v ≡ w' j v)
      → total w (erase dec k m) ≡ total w' (erase dec k m)
  unfolding total erase
  total-erase_ext w w' k [] h = refl
  total-erase_ext w w' k ((j, v) ∷ m) h = elim (dec j k) [
    | yes p ↦ rw (if_pos _ p) (total-erase_ext w w' k m h)
    | no p ↦ rw (if_neg _ p) (omega (arith, h j v p, total-erase_ext w w' k m h))
  ]

  -- A sum is positive exactly when an entry has a positive weight.
  pub total-pos :
      (w : K → V → ℕ) (m : Dict K V)
      → IsDistinct dec m
      → 0 < total w m
      → (k : K) × (v : V) × (lookup dec k m ≡ some v) × (0 < w k v)
  unfolding total lookup
  total-pos w [] d h = elim h [ ]
  total-pos w ((j, u) ∷ m) d h = elim (dec_lt 0 (w j u)) [
    | yes here ↦ (j, u, ground arith, here)
    | no empty ↦
        let (k, v, e, later) = total-pos w m d.1 (omega arith) in (k, v, ground (arith, d.0), later)
  ]
