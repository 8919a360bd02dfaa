-- ===== src/Base/Decimal.antt =====
-- Numbers of `uint64_t` as `operator<<` writes them, and reading them back.
use Prim.Native.Nat.{ℕ, zero, suc, ◌+◌, ◌-◌, ◌*◌, ◌/◌, ◌%◌, ◌<◌}
use mathlib.Core.Path.{◌≡◌, refl, ap, ◌∙◌}
use mathlib.Core.Bool.{Bool, true, ◌&&◌}
use mathlib.Core.List.{[], ◌∷◌, ◌++◌}
use mathlib.Core.Logic.{inl, inr}
use native.Mathlib.Omega.{arith}
use mind_trace.Base.Tests.{◌==◌, leb, if◌then◌else◌, Bool-cases}
use mind_trace.Base.Lists.{all, all-append}
use mind_trace.Base.Text.{Text}

-- The digits of a number below 10 to the first argument.
digits : ℕ → ℕ → Text
digits zero n = []
digits (suc rounds) n =
    let rest = digits rounds (n / 10) in (if n / 10 == 0 then [] else rest) ++ (48 + n % 10) ∷ []

-- Twenty digits are enough below 2^64.
unfoldable pub decimal : ℕ → Text
unfolding digits
decimal n = digits 20 n

-- The number that a text of digits stands for, after the number `n` so far.
abbrev pub number_of : Text → ℕ → ℕ
number_of [] n = n
number_of (c ∷ s) n = number_of s (n * 10 + (c - 48))

abbrev pub is_digit : ℕ → Bool
is_digit c = leb 48 c && leb c 57

abbrev limit : ℕ → ℕ
limit zero = 1
limit (suc k) = 10 * limit k

number_of-append : (s t : Text) (n : ℕ) → number_of (s ++ t) n ≡ number_of t (number_of s n)
number_of-append [] t n = refl
number_of-append (c ∷ s) t n = number_of-append s t (n * 10 + (c - 48))

number_of-digits : (k n : ℕ) → n < limit k → number_of (digits k n) 0 ≡ n
unfolding digits
number_of-digits zero n h = omega arith
number_of-digits (suc k) n h = elim (Bool-cases (n / 10 == 0)) [
  | inl e ↦ rw e (ground arith)
  | inr e ↦ rw e (
      number_of-append (digits k (n / 10)) ((48 + n % 10) ∷ []) 0
      ∙ ap (λ m. m * 10 + (48 + n % 10 - 48)) (number_of-digits k (n / 10) (omega (arith, h)))
      ∙ omega arith)
]

-- A number below 2^64 is read back from its digits.
pub number_of-decimal : (n : ℕ) → n < 18446744073709551616 → number_of (decimal n) 0 ≡ n
unfolding decimal
number_of-decimal n h = number_of-digits 20 n (omega (arith, h))

all-digits : (k n : ℕ) → all is_digit (digits k n) ≡ true
unfolding digits
all-digits zero n = refl
all-digits (suc k) n = elim (Bool-cases (n / 10 == 0)) [
  | inl e ↦ rw e (ground arith)
  | inr e ↦
      rw (e, all-append is_digit (digits k (n / 10)) ((48 + n % 10) ∷ []), all-digits k (n / 10))
        (ground arith)
]

pub all-decimal : (n : ℕ) → all is_digit (decimal n) ≡ true
unfolding decimal
all-decimal n = all-digits 20 n
