-- ===== src/Base/Bits.antt =====
-- Bits of a byte, checked over all bytes.
use Prim.Native.Nat.{ℕ, zero, suc, ◌^◌, ◌<◌, bit_and, bit_or}
use mathlib.Core.Path.{◌≡◌, refl}
use mathlib.Core.Bool.{Bool, true, false}
use native.Mathlib.Omega.{arith}
use go_waku.Base.Tests.{ltb, ltb→lt, ◌==◌, if◌then◌else◌}

-- The test of every number below a bound.
tests : (ℕ → Bool) → ℕ → Bool
tests good zero = true
tests good (suc k) = let smaller = tests good k in if good k then smaller else false

tests_sound : (good : ℕ → Bool) (k : ℕ) {i : ℕ} → i < k → tests good k ≡ true → good i ≡ true
unfolding tests
tests_sound good zero below passed = absurd (omega arith)
tests_sound good (suc k) {i = i} below passed = ground (arith, tests_sound good k {i = i})

abbrev same : Bool → Bool → Bool
same true b = b
same false true = false
same false false = true

same_sound : (a b : Bool) → same a b ≡ true → a ≡ b
same_sound true b h = ground arith
same_sound false true h = ground arith
same_sound false false h = refl

abbrev bit : ℕ → ℕ → Bool
bit n pos = ltb 0 (bit_and n (2 ^ pos))

set_table :
    tests
      (λ n.
        tests
          (λ p. tests (λ q. same (bit (bit_or n (2 ^ p)) q) (if p == q then true else bit n q)) 8)
          8)
      256
    ≡ true
unfolding tests
set_table = refl

byte_table : tests (λ n. tests (λ p. ltb (bit_or n (2 ^ p)) 256) 8) 256 ≡ true
unfolding tests
byte_table = refl

-- Setting a bit of a byte sets that bit and no other.
pub bit-bit_or :
    (n p q : ℕ)
    → n < 256
    → p < 8
    → q < 8
    → ltb 0 (bit_and (bit_or n (2 ^ p)) (2 ^ q))
      ≡ (if p == q then true else ltb 0 (bit_and n (2 ^ q)))
bit-bit_or n p q hn hp hq =
    same_sound _ _ (tests_sound _ 8 hq (tests_sound _ 8 hp (tests_sound _ 256 hn set_table)))

pub bit_or-lt : (n p : ℕ) → n < 256 → p < 8 → bit_or n (2 ^ p) < 256
bit_or-lt n p hn hp = ltb→lt _ _ (tests_sound _ 8 hp (tests_sound _ 256 hn byte_table))

zero_table : tests (λ q. same (bit 0 q) false) 8 ≡ true
unfolding tests
zero_table = refl

pub bit-zero : (q : ℕ) → q < 8 → ltb 0 (bit_and 0 (2 ^ q)) ≡ false
bit-zero q h = same_sound _ _ (tests_sound _ 8 h zero_table)
