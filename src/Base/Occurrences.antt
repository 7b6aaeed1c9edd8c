-- ===== src/Base/Occurrences.antt =====
-- How often a key stands in a list, and lists in which no key stands twice.
use Prim.Native.Nat.{ℕ, ◌+◌, ◌<◌}
use mathlib.Core.Path.{◌≡◌, refl}
use mathlib.Core.Logic.{ite, if_pos, if_neg}
use mathlib.Core.Bool.{true, false}
use mathlib.Core.List.{List, [], ◌∷◌}
use native.Mathlib.Omega.{arith}
use go_waku.Base.Keys.{contains, add, remove, contains-add, contains-remove}

module _ {K : Type 0} (dec : Discrete K) where
  -- `n` at one key, and nothing at the others.
  unfoldable pub at_key : K → K → ℕ → ℕ
  at_key k j n = ite (dec k j) n 0

  unfoldable pub occurrences : K → List K → ℕ
  occurrences k [] = 0
  occurrences k (j ∷ s) = at_key j k 1 + occurrences k s

  abbrev pub IsNodup : List K → Type 0
  IsNodup [] = Unit
  IsNodup (k ∷ s) = (contains dec k s ≡ false) × IsNodup s

  pub occurrences-add :
      (k j : K) (s : List K)
      → contains dec k s ≡ false
      → occurrences j (add dec k s) ≡ occurrences j s + at_key k j 1
  unfolding contains add occurrences
  occurrences-add k j [] h = omega arith
  occurrences-add k j (i ∷ s) h = ground (arith, occurrences-add k j s)

  pub occurrences-pos : (k : K) (s : List K) → contains dec k s ≡ true → 0 < occurrences k s
  unfolding contains occurrences at_key
  occurrences-pos k [] h = absurd (cc)
  occurrences-pos k (i ∷ s) h = ground (arith, occurrences-pos k s)

  pub pos-occurrences : (k : K) (s : List K) → 0 < occurrences k s → contains dec k s ≡ true
  unfolding contains occurrences at_key
  pos-occurrences k [] h = elim h [ ]
  pos-occurrences k (i ∷ s) h = ground (arith, pos-occurrences k s)

  occurrences-remove_none :
      (k j : K) (s : List K)
      → contains dec k s ≡ false
      → occurrences j (remove dec k s) ≡ occurrences j s
  unfolding contains remove occurrences
  occurrences-remove_none k j [] h = refl
  occurrences-remove_none k j (i ∷ s) h = ground (arith, occurrences-remove_none k j s)

  pub occurrences-remove :
      (k j : K) (s : List K)
      → IsNodup s
      → contains dec k s ≡ true
      → occurrences j s ≡ occurrences j (remove dec k s) + at_key k j 1
  unfolding contains remove occurrences
  occurrences-remove k j [] n h = absurd (cc)
  occurrences-remove k j (i ∷ s) n h =
      ground (arith, occurrences-remove k j s n.1, occurrences-remove_none k j s)

  pub add-IsNodup : (k : K) (s : List K) → IsNodup s → IsNodup (add dec k s)
  unfolding add
  add-IsNodup k [] n = (unfold contains in refl, tt)
  add-IsNodup k (i ∷ s) n = elim (dec i k) [
    | yes p ↦ rw (if_pos _ p) n
    | no p ↦ rw (if_neg _ p) (ground (arith, contains-add dec k i s, n.0), add-IsNodup k s n.1)
  ]

  pub remove-IsNodup : (k : K) (s : List K) → IsNodup s → IsNodup (remove dec k s)
  unfolding remove
  remove-IsNodup k [] n = n
  remove-IsNodup k (i ∷ s) n = elim (dec i k) [
    | yes p ↦ rw (if_pos _ p) (remove-IsNodup k s n.1)
    | no p ↦
        rw (if_neg _ p) (ground (arith, contains-remove dec k i s, n.0), remove-IsNodup k s n.1)
  ]
