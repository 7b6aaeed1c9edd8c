-- ===== src/Base/Dict.antt =====
-- Go maps as association lists over keys with a decidable equality. `insert` is `m[k] = v`,
-- `erase` is `delete(m, k)`, and `length` is `len(m)` as long as no key stands twice.
use Prim.Native.Nat.{suc, ◌≤◌}
use mathlib.Core.Path.{◌≡◌, refl}
use mathlib.Core.Logic.{ite, if_pos, if_neg}
use mathlib.Core.Option.{Option, none, some}
use mathlib.Core.List.{List, [], ◌∷◌, map}
use native.Mathlib.Omega.{arith}
use go_waku.Base.Lists.{length, All}

abbrev pub Dict {ℓ} : Type ℓ → Type ℓ → Type ℓ
Dict K V = List (K × V)

abbrev pub keys {ℓ} : {K V : Type ℓ} → Dict K V → List K
keys = map (λ e. e.0)

-- A map or a list that may be missing, as one with no entries.
abbrev pub or_empty {ℓ} : {A : Type ℓ} → Option (List A) → List A
or_empty none = []
or_empty (some l) = l

module _ {ℓ} {K V : Type ℓ} (dec : Discrete K) where
  unfoldable pub lookup : K → Dict K V → Option V
  lookup k [] = none
  lookup k ((j, v) ∷ m) = ite (dec j k) (some v) (lookup k m)

  unfoldable pub insert : K → V → Dict K V → Dict K V
  insert k v [] = (k, v) ∷ []
  insert k v ((j, w) ∷ m) = let rest = insert k v m in ite (dec j k) ((k, v) ∷ m) ((j, w) ∷ rest)

  unfoldable pub erase : K → Dict K V → Dict K V
  erase k [] = []
  erase k ((j, w) ∷ m) = let rest = erase k m in ite (dec j k) rest ((j, w) ∷ rest)

  -- Every entry satisfies `P`.
  abbrev pub Every {μ} : (K → V → Type μ) → Dict K V → Type μ
  Every P = All (λ e. P e.0 e.1)

  pub lookup-insert :
      (k j : K) (v : V) (m : Dict K V)
      → lookup j (insert k v m) ≡ ite (dec k j) (some v) (lookup j m)
  unfolding lookup insert
  lookup-insert k j v [] = refl
  lookup-insert k j v ((i, w) ∷ m) = ground (arith, lookup-insert k j v m)

  pub lookup-erase :
      (k j : K) (m : Dict K V) → lookup j (erase k m) ≡ ite (dec k j) none (lookup j m)
  unfolding lookup erase
  lookup-erase k j [] = ground arith
  lookup-erase k j ((i, w) ∷ m) = ground (arith, lookup-erase k j m)

  -- `m[k] = v` makes a map longer by one exactly when the key is new.
  pub length-insert_new :
      (k : K) (v : V) (m : Dict K V) → lookup k m ≡ none → length (insert k v m) ≡ suc (length m)
  unfolding lookup insert
  length-insert_new k v [] h = refl
  length-insert_new k v ((j, w) ∷ m) h = ground (arith, length-insert_new k v m)

  pub length-insert_old :
      (k : K) (v w : V) (m : Dict K V) → lookup k m ≡ some w → length (insert k v m) ≡ length m
  unfolding lookup insert
  length-insert_old k v w [] h = cc
  length-insert_old k v w ((j, u) ∷ m) h = ground (arith, length-insert_old k v w m)

  pub length-insert-le : (k : K) (v : V) (m : Dict K V) → length (insert k v m) ≤ suc (length m)
  unfolding insert
  length-insert-le k v [] = omega arith
  length-insert-le k v ((j, w) ∷ m) = ground (arith, length-insert-le k v m)

  pub length-erase-le : (k : K) (m : Dict K V) → length (erase k m) ≤ length m
  unfolding erase
  length-erase-le k [] = omega arith
  length-erase-le k ((j, w) ∷ m) = ground (arith, length-erase-le k m)

  module _ {μ} (P : K → V → Type μ) where
    pub Every-lookup : (k : K) (v : V) (m : Dict K V) → Every P m → lookup k m ≡ some v → P k v
    unfolding lookup
    Every-lookup k v [] h e = absurd (cc)
    Every-lookup k v ((j, w) ∷ m) h e = elim (dec j k) [
      | yes p ↦ let q : w ≡ v = ground arith in rw (← p, ← q) h.0
      | no p ↦ Every-lookup k v m h.1 (ground arith)
    ]

    pub Every-insert : (k : K) (v : V) (m : Dict K V) → P k v → Every P m → Every P (insert k v m)
    unfolding insert
    Every-insert k v [] p h = (p, h)
    Every-insert k v ((j, w) ∷ m) p h = elim (dec j k) [
      | yes e ↦ rw (if_pos _ e) (p, h.1)
      | no e ↦ rw (if_neg _ e) (h.0, Every-insert k v m p h.1)
    ]

    pub Every-erase : (k : K) (m : Dict K V) → Every P m → Every P (erase k m)
    unfolding erase
    Every-erase k [] h = h
    Every-erase k ((j, w) ∷ m) h = elim (dec j k) [
      | yes e ↦ rw (if_pos _ e) (Every-erase k m h.1)
      | no e ↦ rw (if_neg _ e) (h.0, Every-erase k m h.1)
    ]

  -- No key stands twice.
  abbrev pub IsDistinct : Dict K V → Type ℓ
  IsDistinct [] = Unit
  IsDistinct ((k, v) ∷ m) = (lookup k m ≡ none) × IsDistinct m

  pub insert-IsDistinct : (k : K) (v : V) (m : Dict K V) → IsDistinct m → IsDistinct (insert k v m)
  unfolding insert
  insert-IsDistinct k v [] d = (unfold lookup in refl, tt)
  insert-IsDistinct k v ((j, w) ∷ m) d = elim (dec j k) [
    | yes e ↦ rw (if_pos _ e) (ground arith, d.1)
    | no e ↦ rw (if_neg _ e) (ground (arith, lookup-insert k j v m), insert-IsDistinct k v m d.1)
  ]

  pub erase-IsDistinct : (k : K) (m : Dict K V) → IsDistinct m → IsDistinct (erase k m)
  unfolding erase
  erase-IsDistinct k [] d = tt
  erase-IsDistinct k ((j, w) ∷ m) d = elim (dec j k) [
    | yes e ↦ rw (if_pos _ e) (erase-IsDistinct k m d.1)
    | no e ↦ rw (if_neg _ e) (ground (arith, lookup-erase k j m), erase-IsDistinct k m d.1)
  ]

  -- Every entry of a map is the one that its key finds.
  pub entries-lookup : (m : Dict K V) → IsDistinct m → Every (λ k v. lookup k m ≡ some v) m
  entries-lookup [] d = tt
  entries-lookup ((k, v) ∷ m) d = (unfold lookup in ground arith, weaken m (entries-lookup m d.1))
    where
      weaken :
          (l : Dict K V)
          → Every (λ j w. lookup j m ≡ some w) l
          → Every (λ j w. lookup j ((k, v) ∷ m) ≡ some w) l
      weaken [] h = tt
      weaken ((j, w) ∷ l) h = (unfold lookup in ground (arith, d.0, h.0), weaken l h.1)
