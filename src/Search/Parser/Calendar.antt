-- ===== src/Search/Parser/Calendar.antt =====
-- The calendar of src/search/query_parser.cpp: the Monday of a week, and the last day of a given name.
use mind_trace.Base.{ℕ, ◌+◌, ◌*◌, ◌%◌, ◌<◌, ◌≤◌, ◌≡◌, arith}
use mind_trace.Base.Words.{sub64, u64_mod}
use mind_trace.Search.Parser.{today_start, tm_wday, week_start, days_back, last_day_start}

-- The start of the week is midnight of a Monday, at most six days before `today_start`.
pub week_start_lem :
    (n : ℕ)
    → 7 * 86400 ≤ n
    → n < u64_mod
    → let monday = week_start (today_start n) in
      (monday % 86400 ≡ 0)
      × (tm_wday monday ≡ 1)
      × (monday ≤ today_start n)
      × (today_start n ≤ monday + 6 * 86400)
unfolding week_start today_start tm_wday sub64
week_start_lem n h k = ground arith

-- "last <day>" is midnight of the day of that name, one to seven days before today.
pub last_day_start_lem :
    (n wday : ℕ)
    → 7 * 86400 ≤ n
    → n < u64_mod
    → wday < 7
    → let target = last_day_start (today_start n) wday in
      (target % 86400 ≡ 0)
      × (tm_wday target ≡ wday)
      × (target + 86400 ≤ today_start n)
      × (today_start n ≤ target + 7 * 86400)
unfolding last_day_start today_start tm_wday days_back sub64
last_day_start_lem n wday h k w = ground arith
