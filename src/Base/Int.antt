-- ===== src/Base/Int.antt =====
-- Go's `int` as an integer, and `strconv.Atoi`.
use go_waku.Base.Tests.{ltb, if◌then◌else◌}
use go_waku.Base.Text.{Text}
use go_waku.Base.Decimal.{parse_uint}
use Prim.Native.Nat.{ℕ, zero, suc, ◌^◌, ◌-◌}
use mathlib.Core.Bool.{Bool, false}
use mathlib.Core.Option
use mathlib.Core.Option.{Option, none, some}
use mathlib.Core.List.{[], ◌∷◌}
use go_waku.Base.Tests.{◌==◌}
unfoldable use native.Mathlib.Decide.{ℕ_discrete}

-- `negsuc n` is -(n + 1).
pub data ℤ : Type 0 where
  pos : ℕ → ℤ
  negsuc : ℕ → ℤ

-- `n > 0`.
abbrev pub is_positive : ℤ → Bool
is_positive (pos n) = ltb 0 n
is_positive (negsuc n) = false

-- `n + 1` and `n - 1`, of integers far from the ends of an `int`.
unfoldable pub succ : ℤ → ℤ
succ (pos n) = pos (suc n)
succ (negsuc zero) = pos 0
succ (negsuc (suc n)) = negsuc n

unfoldable pub pred : ℤ → ℤ
pred (pos zero) = negsuc 0
pred (pos (suc n)) = pos n
pred (negsuc n) = negsuc (suc n)

abbrev neg : ℕ → ℤ
neg zero = pos 0
neg (suc n) = negsuc n

-- An optional sign and decimal digits, within an `int64`.
unfoldable pub atoi : Text → Option ℤ
atoi [] = none
atoi (c ∷ s) =
    if c == b'-'
    then Option.map neg (parse_uint (2 ^ 63) s)
    else if c == b'+'
    then Option.map pos (parse_uint (2 ^ 63 - 1) s)
    else Option.map pos (parse_uint (2 ^ 63 - 1) (c ∷ s))

unfoldable pub ℤ_dec : Discrete ℤ
ℤ_dec (pos m) (pos n) = elim (ℕ_discrete m n) [ yes p ↦ yes (cc) | no h ↦ no (λ e. h (cc)) ]
ℤ_dec (pos m) (negsuc n) = no (λ e. cc)
ℤ_dec (negsuc m) (pos n) = no (λ e. cc)
ℤ_dec (negsuc m) (negsuc n) = elim (ℕ_discrete m n) [ yes p ↦ yes (cc) | no h ↦ no (λ e. h (cc)) ]
