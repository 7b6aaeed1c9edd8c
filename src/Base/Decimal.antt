-- ===== src/Base/Decimal.antt =====
-- `%d` of `fmt` and `strconv.ParseUint(s, 10, bits)` on decimal text.
use Prim.Native.Nat.{ℕ, zero, suc, ◌+◌, ◌-◌, ◌*◌, ◌/◌, ◌%◌, ◌≤◌, ◌<◌}
use mathlib.Core.Path.{◌≡◌, refl, sym, ap, ◌∙◌}
use mathlib.Core.Logic.{◌≢◌, inl, inr}
use mathlib.Core.Bool.{◌||◌}
use mathlib.Core.Option.{Option, none, some}
use mathlib.Core.List.{[], ◌∷◌, ◌++◌, foldl, append_assoc, append-nil}
use native.Mathlib.Omega.{arith}
use go_waku.Base.Tests.{ltb, if◌then◌else◌, Bool-cases}
use go_waku.Base.Lists.{All, All-append}
use go_waku.Base.Text.{Text}

-- The digits of `n`; each round divides by ten, so fuel above `n` is enough.
digits : ℕ → ℕ → Text
digits zero n = []
digits (suc f) n =
    let rest = digits f (n / 10) in
    if ltb n 10 then (b'0' + n) ∷ [] else rest ++ (b'0' + n % 10) ∷ []

unfoldable pub format : ℕ → Text
unfolding digits
format n = digits (suc n) n

-- The loop of `ParseUint`: a byte that is no digit, or a value above `bound`, is an error.
unfoldable pub scan : ℕ → Text → ℕ → Option ℕ
scan bound [] n = some n
scan bound (c ∷ s) n =
    let m = n * 10 + (c - b'0') in
    let rest = scan bound s m in
    if ltb c b'0' || ltb b'9' c then none else if ltb bound m then none else rest

-- `bound` is `2 ^ bits - 1`; an empty text is an error.
unfoldable pub parse_uint : ℕ → Text → Option ℕ
unfolding scan
parse_uint bound [] = none
parse_uint bound (c ∷ s) = scan bound (c ∷ s) 0

abbrev pub IsDigit : ℕ → Type 0
IsDigit c = (b'0' ≤ c) × (c ≤ b'9')

-- The number that digits spell behind `n`, with no bound.
abbrev pub value : ℕ → Text → ℕ
value = foldl (λ n c. n * 10 + (c - b'0'))

scan-digits :
    (bound f n : ℕ) (rest : Text)
    → n < f
    → n ≤ bound
    → scan bound (digits f n ++ rest) 0 ≡ scan bound rest n
unfolding digits scan
scan-digits bound zero n rest h fits = absurd (omega arith)
scan-digits bound (suc f) n rest h fits = elim (Bool-cases (ltb n 10)) [
  | inl small ↦ rw small (ground arith)
  | inr large ↦
      rw (large, append_assoc)
        (scan-digits bound f (n / 10) ((b'0' + n % 10) ∷ rest) (ground arith) (ground arith)
          ∙ ground arith)
]

digits-IsDigit : (f n : ℕ) → All IsDigit (digits f n)
unfolding digits
digits-IsDigit zero n = tt
digits-IsDigit (suc f) n = ground (
  arith,
  All-append IsDigit (digits f (n / 10)) ((b'0' + n % 10) ∷ []) (digits-IsDigit f (n / 10)),
)

pub format-IsDigit : (n : ℕ) → All IsDigit (format n)
unfolding format
format-IsDigit n = digits-IsDigit (suc n) n

append_cons : (s : Text) (c : ℕ) → (d : ℕ) × (t : Text) × (s ++ c ∷ [] ≡ d ∷ t)
append_cons [] c = (c, [], refl)
append_cons (x ∷ s) c = (x, s ++ c ∷ [], refl)

-- A print has a first digit.
pub format_cons : (n : ℕ) → (c : ℕ) × (s : Text) × (format n ≡ c ∷ s)
unfolding format
format_cons n = elim (Bool-cases (ltb n 10)) [
  | inl small ↦ (b'0' + n, [], rw small)
  | inr large ↦
      let (d, t, e) = append_cons (digits n (n / 10)) (b'0' + n % 10) in (d, t, rw large e)
]

pub format-ne-nil : (n : ℕ) → format n ≢ []
format-ne-nil n = let (c, s, e) = format_cons n in λ none. cc

parse_uint-scan : (bound : ℕ) (s : Text) → s ≢ [] → parse_uint bound s ≡ scan bound s 0
unfolding parse_uint
parse_uint-scan bound [] h = absurd (h refl)
parse_uint-scan bound (c ∷ s) h = refl

scan-format : (bound n : ℕ) → n ≤ bound → scan bound (format n) 0 ≡ some n
unfolding format scan
scan-format bound n h =
    ap (λ s. scan bound s 0) (sym (append-nil (digits (suc n) n)))
    ∙ scan-digits bound (suc n) n [] (omega arith) h

-- A number within the bound is read back from its print.
pub parse_uint-format : (bound n : ℕ) → n ≤ bound → parse_uint bound (format n) ≡ some n
parse_uint-format bound n h =
    parse_uint-scan bound (format n) (format-ne-nil n) ∙ scan-format bound n h

scan_sound :
    (bound : ℕ) (s : Text) (n r : ℕ)
    → n ≤ bound
    → scan bound s n ≡ some r
    → All IsDigit s × (r ≡ value n s) × (r ≤ bound)
unfolding scan
scan_sound bound [] n r fits h = ground arith
scan_sound bound (c ∷ s) n r fits h = ground (arith, scan_sound bound s (n * 10 + (c - b'0')) r)

-- What is read is a non-empty run of digits, by its true value.
pub parse_uint_sound :
    (bound : ℕ) (s : Text) (r : ℕ)
    → parse_uint bound s ≡ some r
    → (s ≢ []) × All IsDigit s × (r ≡ value 0 s) × (r ≤ bound)
unfolding parse_uint
parse_uint_sound bound [] r h = cc
parse_uint_sound bound (c ∷ s) r h =
    let (digits, exact, fits) = scan_sound bound (c ∷ s) 0 r (omega arith) h in
    (λ e. cc, digits, exact, fits)
