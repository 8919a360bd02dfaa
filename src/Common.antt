-- ===== src/Common.antt =====
-- include/common/utils.hpp: the formats of times and texts for printing. `localtime_r`, the calendar of
-- the platform, is an argument; `std::put_time` writes out what it gives, in the "C" locale.
pub mod Config
pub mod Clean
use mind_trace.Base.{
  ℕ, ◌+◌, ◌∷◌, ltb, ◌≤◌, ◌<◌, ◌≡◌, ◌++◌, arith, inl, inr, Bool-cases, if◌then◌else◌, leb, length,
  length-append, length-take-le, take, ◌-◌, true,
}
use mind_trace.Base.Text.{Text, codes}
use mind_trace.Base.Decimal.{decimal}
use mind_trace.Base.Words.{u64_mod, sub64, sub64_small}

unfoldable pub truncate : Text → ℕ → Text
truncate str max_len =
    if leb (length str) max_len then str else take (sub64 max_len 3) str ++ codes "..."

-- `std::tm`, with the year since 1900 and the month from 0 on.
pub record Tm : Type 0 where
  pub tm_year : ℕ
  pub tm_mon : ℕ
  pub tm_mday : ℕ
  pub tm_hour : ℕ
  pub tm_min : ℕ
  pub tm_sec : ℕ

-- `%m`, `%d`, `%H`, `%M` and `%S` write two digits.
two_digits : ℕ → Text
two_digits n = if ltb n 10 then 48 ∷ decimal n else decimal n

unfoldable pub format_timestamp : (ℕ → Tm) → ℕ → Text
unfolding two_digits
format_timestamp localtime timestamp =
    let tm = localtime timestamp in
    decimal (1900 + tm.tm_year)
    ++ codes "-"
    ++ two_digits (tm.tm_mon + 1)
    ++ codes "-"
    ++ two_digits tm.tm_mday
    ++ codes " "
    ++ two_digits tm.tm_hour
    ++ codes ":"
    ++ two_digits tm.tm_min
    ++ codes ":"
    ++ two_digits tm.tm_sec

unfoldable pub format_time_only : (ℕ → Tm) → ℕ → Text
unfolding two_digits
format_time_only localtime timestamp =
    let tm = localtime timestamp in two_digits tm.tm_hour ++ codes ":" ++ two_digits tm.tm_min

-- A truncated text is at most as long as it may be, from three bytes on.
pub length-truncate :
    (str : Text) (max_len : ℕ)
    → 3 ≤ max_len
    → max_len < u64_mod
    → length (truncate str max_len) ≤ max_len
unfolding truncate
length-truncate str max_len h k = elim (Bool-cases (leb (length str) max_len)) [
  | inl e ↦ rw e (omega (arith, leb_le (length str) max_len e))
  | inr e ↦
      rw (e, sub64_small max_len 3 k h, length-append (take (max_len - 3) str) (codes "..."))
        (omega (arith, h, length-take-le (max_len - 3) str))
]
  where
    leb_le : (a b : ℕ) → leb a b ≡ true → a ≤ b
    leb_le a b l = ground arith
