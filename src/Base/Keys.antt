-- ===== src/Base/Keys.antt =====
-- Go sets (`map[K]struct{}`) as lists of keys, each at most once.
use Prim.Native.Nat.{suc, ◌+◌, ◌≤◌}
use mathlib.Core.Path.{◌≡◌, refl}
use mathlib.Core.Logic.{ite}
use mathlib.Core.Bool.{Bool, true, false, ◌||◌}
use mathlib.Core.List.{List, [], ◌∷◌, ◌++◌}
use native.Mathlib.Omega.{arith}
use go_waku.Base.Tests.{if◌then◌else◌}
use go_waku.Base.Lists.{length}

module _ {K : Type 0} (dec : Discrete K) where
  -- `_, ok := s[k]`
  unfoldable pub contains : K → List K → Bool
  contains k [] = false
  contains k (j ∷ s) = ite (dec j k) true (contains k s)

  -- `s[k] = struct{}{}`
  unfoldable pub add : K → List K → List K
  add k [] = k ∷ []
  add k (j ∷ s) = let rest = add k s in ite (dec j k) (j ∷ s) (j ∷ rest)

  -- `delete(s, k)`
  unfoldable pub remove : K → List K → List K
  remove k [] = []
  remove k (j ∷ s) = let rest = remove k s in ite (dec j k) rest (j ∷ rest)

  -- The loop that puts every element of a list in.
  unfoldable pub add_all : List K → List K → List K
  add_all [] s = s
  add_all (k ∷ ks) s = add_all ks (add k s)

  pub contains-add :
      (k j : K) (s : List K) → contains j (add k s) ≡ ite (dec k j) true (contains j s)
  unfolding contains add
  contains-add k j [] = refl
  contains-add k j (i ∷ s) = ground (arith, contains-add k j s)

  pub contains-remove :
      (k j : K) (s : List K) → contains j (remove k s) ≡ ite (dec k j) false (contains j s)
  unfolding contains remove
  contains-remove k j [] = ground arith
  contains-remove k j (i ∷ s) = ground (arith, contains-remove k j s)

  pub contains-add_all :
      (j : K) (ks s : List K) → contains j (add_all ks s) ≡ contains j ks || contains j s
  unfolding contains add_all
  contains-add_all j [] s = refl
  contains-add_all j (k ∷ ks) s =
      ground (arith, contains-add_all j ks (add k s), contains-add k j s)

  pub length-add-le : (k : K) (s : List K) → length (add k s) ≤ suc (length s)
  unfolding add
  length-add-le k [] = omega arith
  length-add-le k (j ∷ s) = ground (arith, length-add-le k s)

  pub length-le-add : (k : K) (s : List K) → length s ≤ length (add k s)
  unfolding add
  length-le-add k [] = omega arith
  length-le-add k (j ∷ s) = ground (arith, length-le-add k s)

  pub length-add_all-le : (ks s : List K) → length (add_all ks s) ≤ length ks + length s
  unfolding add_all
  length-add_all-le [] s = omega arith
  length-add_all-le (k ∷ ks) s = omega (arith, length-add_all-le ks (add k s), length-add-le k s)

  pub length-remove-le : (k : K) (s : List K) → length (remove k s) ≤ length s
  unfolding remove
  length-remove-le k [] = omega arith
  length-remove-le k (j ∷ s) = ground (arith, length-remove-le k s)

  -- A set is empty when it contains nothing.
  pub contains-nil : (s : List K) → ((k : K) → contains k s ≡ false) → s ≡ []
  unfolding contains
  contains-nil [] h = refl
  contains-nil (j ∷ s) h = absurd (ground (arith, h j))

  pub contains-append : (k : K) (s t : List K) → contains k (s ++ t) ≡ contains k s || contains k t
  unfolding contains
  contains-append k [] t = refl
  contains-append k (j ∷ s) t = ground (arith, contains-append k s t)

  -- The loop that deletes every element of a list.
  unfoldable pub remove_all : List K → List K → List K
  remove_all [] s = s
  remove_all (k ∷ ks) s = remove_all ks (remove k s)

  pub contains-remove_all :
      (j : K) (ks s : List K)
      → contains j (remove_all ks s) ≡ (if contains j ks then false else contains j s)
  unfolding contains remove_all
  contains-remove_all j [] s = refl
  contains-remove_all j (k ∷ ks) s =
      ground (arith, contains-remove_all j ks (remove k s), contains-remove k j s)

  pub length-remove_all-le : (ks s : List K) → length (remove_all ks s) ≤ length s
  unfolding remove_all
  length-remove_all-le [] s = omega arith
  length-remove_all-le (k ∷ ks) s =
      omega (arith, length-remove_all-le ks (remove k s), length-remove-le k s)
