-- ===== src/Base/Result.antt =====
-- What a Go function of type `(T, error)` gives: a value, an error, or a run-time panic.
use mathlib.Core.Path.{◌≡◌, refl}
use mathlib.Core.Logic.{◌⊎◌, inl, inr}

pub data Result (E A : Type 0) : Type 0 where
  ok : A → Result E A
  err : E → Result E A
  panic : Result E A

infixl 5 ◌>>=◌
abbrev pub ◌>>=◌ : {E A B : Type 0} → Result E A → (A → Result E B) → Result E B
ok a >>= f = f a
err e >>= f = err e
panic >>= f = panic

-- A chain that ends in a value went through one.
pub >>=-eq-ok :
    {E A : Type 0} (m : Result E A) {B : Type 0} (next : A → Result E B) {c : B}
    → (m >>= next) ≡ ok c
    → (x : A) × (m ≡ ok x) × (next x ≡ ok c)
>>=-eq-ok (ok x) next went = (x, refl, went)
>>=-eq-ok (err e) next went = cc
>>=-eq-ok panic next went = cc

pub ok-injective : {E A : Type 0} {a b : A} → ◌≡◌ {A = Result E A} (ok a) (ok b) → a ≡ b
ok-injective e = cc

pub Result-cases :
    {E A : Type 0} (r : Result E A)
    → ((a : A) × (r ≡ ok a)) ⊎ (((e : E) × (r ≡ err e)) ⊎ (r ≡ panic))
Result-cases (ok a) = inl (a, refl)
Result-cases (err e) = inr (inl (e, refl))
Result-cases panic = inr (inr refl)
