-- ===== src/Common/Clean.antt =====
-- No line break is in what the formats of include/common/utils.hpp write.
use mind_trace.Base.{
  ℕ, suc, zero, ◌≡◌, refl, ◌∙◌, Bool, true, not, [], ◌∷◌, ◌++◌, arith, inl, inr, Bool-cases, leb,
  ◌==◌, all, all-append, and_join, take, length,
}
use mind_trace.Base.Text.{Text, codes}
use mind_trace.Base.Decimal.{decimal, is_digit, all-decimal}
use mind_trace.Base.Words.{sub64}
use mind_trace.Common.{Tm, truncate, two_digits, format_time_only}

abbrev pub is_clean : Text → Bool
is_clean s = all (λ c. not (c == 10)) s

pub is_clean-append :
    (s t : Text) → is_clean s ≡ true → is_clean t ≡ true → is_clean (s ++ t) ≡ true
is_clean-append s t h k = all-append (λ c. not (c == 10)) s t ∙ and_join _ _ h k

is_clean-take : (n : ℕ) (s : Text) → is_clean s ≡ true → is_clean (take n s) ≡ true
is_clean-take zero s h = refl
is_clean-take (suc n) [] h = refl
is_clean-take (suc n) (c ∷ s) h = ground (arith, is_clean-take n s)

pub is_clean-truncate : (s : Text) (n : ℕ) → is_clean s ≡ true → is_clean (truncate s n) ≡ true
unfolding truncate
is_clean-truncate s n h = elim (Bool-cases (leb (length s) n)) [
  | inl e ↦ rw e h
  | inr e ↦
      rw e (is_clean-append (take (sub64 n 3) s) (codes "...") (is_clean-take (sub64 n 3) s h) refl)
]

is_clean_digits : (s : Text) → all is_digit s ≡ true → is_clean s ≡ true
is_clean_digits [] h = refl
is_clean_digits (c ∷ s) h = ground (arith, is_clean_digits s)

pub is_clean-decimal : (n : ℕ) → is_clean (decimal n) ≡ true
is_clean-decimal n = is_clean_digits (decimal n) (all-decimal n)

is_clean-two_digits : (n : ℕ) → is_clean (two_digits n) ≡ true
unfolding two_digits
is_clean-two_digits n = ground (arith, is_clean-decimal n)

pub is_clean-format_time_only :
    (localtime : ℕ → Tm) (t : ℕ) → is_clean (format_time_only localtime t) ≡ true
unfolding format_time_only
is_clean-format_time_only localtime t =
    let tm = localtime t in
    is_clean-append (two_digits tm.tm_hour ++ codes ":") (two_digits tm.tm_min)
      (is_clean-append (two_digits tm.tm_hour) (codes ":") (is_clean-two_digits tm.tm_hour) refl)
      (is_clean-two_digits tm.tm_min)
