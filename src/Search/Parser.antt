-- ===== src/Search/Parser.antt =====
-- include/search/query_parser.hpp and src/search/query_parser.cpp: from a query in words to a
-- `QuerySpec`. The clock is read once by `today_start` and, for "this week", once more: the readings
-- are the arguments `first` and `second`. `gmtime` is the C library's: its `tm_wday` counts from
-- Sunday, and 1970-01-01 was a Thursday.
pub mod Calendar
pub mod Ranges
pub mod Ends
pub mod Keywords
use Prim.Native.String.{String}
use mind_trace.Base.{
  ℕ, ◌+◌, ◌-◌, ◌*◌, ◌/◌, ◌%◌, Bool, true, false, not, ◌||◌, ◌&&◌, List, [], ◌∷◌, ◌++◌, map, Option,
  none, some, if◌then◌else◌, leb, ◌==◌,
}
use mind_trace.Base.Eq.{string_eq}
use mind_trace.Base.Text.{Text, codes, lower, contains, is_alnum, words}
use mind_trace.Base.Dictionary.{count}
use mind_trace.Base.Words.{add64, sub64}
use mind_trace.Event.{
  EventType, file_opened, file_modified, browser_visit, window_focus, clipboard_copy,
  screenshot_captured, is_long_enough,
}

pub record QuerySpec : Type 0 where
  pub keywords : List Text
  pub time_start : Option ℕ
  pub time_end : Option ℕ
  pub event_type : Option EventType
  pub application : Option Text
  pub raw_query : Text

-- `today_start`, at a reading of the clock.
unfoldable pub today_start : ℕ → ℕ
today_start n = n / 86400 * 86400

-- `gmtime_r(&t, &tm_val)`, then `tm_val.tm_wday`.
unfoldable pub tm_wday : ℕ → ℕ
tm_wday t = (t / 86400 + 4) % 7

-- The Monday of the week of `ts`; Sunday counts as day 7.
unfoldable pub week_start : ℕ → ℕ
unfolding tm_wday
week_start ts =
    let day_of_week = if tm_wday ts == 0 then 7 else tm_wday ts in
    sub64 ts ((day_of_week - 1) * 86400)

-- `diff = current_wday - wday; if (diff <= 0) diff += 7;`
unfoldable pub days_back : ℕ → ℕ → ℕ
days_back current_wday wday =
    if leb current_wday wday then current_wday + 7 - wday else current_wday - wday

unfoldable pub last_day_start : ℕ → ℕ → ℕ
last_day_start ts wday = sub64 ts (days_back (tm_wday ts) wday * 86400)

unfoldable pub days : List (Text × ℕ)
days =
    (codes "monday", 1)
    ∷ (codes "tuesday", 2)
    ∷ (codes "wednesday", 3)
    ∷ (codes "thursday", 4)
    ∷ (codes "friday", 5)
    ∷ (codes "saturday", 6)
    ∷ (codes "sunday", 0)
    ∷ []

abbrev pub set_range : QuerySpec → ℕ → ℕ → QuerySpec
set_range spec start end = record spec { time_start = some start; time_end = some end }

-- The loop over the names of days, which stops at the first that follows "last ".
unfoldable pub resolve_day : ℕ → Text → List (Text × ℕ) → QuerySpec → QuerySpec
resolve_day ts query [] spec = spec
resolve_day ts query ((day_name, wday) ∷ rest) spec =
    if contains query (codes "last " ++ day_name)
    then (let target_day_start = last_day_start ts wday in
        set_range spec target_day_start (sub64 (add64 target_day_start 86400) 1))
    else resolve_day ts query rest spec

unfoldable pub resolve_date : ℕ → ℕ → Text → QuerySpec → QuerySpec
resolve_date ts second query spec =
    if contains query (codes "today")
    then set_range spec ts (sub64 (add64 ts 86400) 1)
    else if contains query (codes "yesterday")
    then set_range spec (sub64 ts 86400) (sub64 ts 1)
    else if contains query (codes "this week")
    then set_range spec (week_start ts) second
    else if contains query (codes "last week")
    then set_range spec (sub64 (week_start ts) (7 * 86400)) (sub64 (week_start ts) 1)
    else resolve_day ts query days spec

unfoldable pub mentions_work : Text → Bool
mentions_work query = contains query (codes "work hours") || contains query (codes "during work")

-- 9 AM to 5 PM, where a start is set.
work_range : Option ℕ → QuerySpec → QuerySpec
work_range none spec = spec
work_range (some start) spec =
    let nine = add64 start (9 * 3600) in set_range spec nine (sub64 (add64 nine (8 * 3600)) 1)

unfoldable pub resolve_work_hours : Text → QuerySpec → QuerySpec
unfolding work_range
resolve_work_hours query spec =
    if mentions_work query then work_range spec.time_start spec else spec

unfoldable pub resolve_time_expression : ℕ → ℕ → Text → QuerySpec → QuerySpec
resolve_time_expression first second query spec =
    resolve_work_hours query (resolve_date (today_start first) second query spec)

unfoldable pub resolve_event_type : Text → QuerySpec → QuerySpec
resolve_event_type query spec =
    if contains query (codes "file")
    then if contains query (codes "edit") || contains query (codes "modif")
      then record spec { event_type = some file_modified }
      else if contains query (codes "open")
      then record spec { event_type = some file_opened }
      else spec
    else if contains query (codes "website")
        || contains query (codes "browser")
        || contains query (codes "visit")
    then record spec { event_type = some browser_visit }
    else if contains query (codes "clipboard")
        || contains query (codes "copied")
        || contains query (codes "copy")
    then record spec { event_type = some clipboard_copy }
    else if contains query (codes "window") || contains query (codes "focus")
    then record spec { event_type = some window_focus }
    else if contains query (codes "screenshot")
    then record spec { event_type = some screenshot_captured }
    else spec

unfoldable pub stop_words : List Text
stop_words = map codes (
    "what" ∷ "was" ∷ "i" ∷ "doing" ∷ "the" ∷ "a" ∷ "an" ∷ "in" ∷ "on" ∷ "at" ∷ "to" ∷ "for" ∷ "of"
    ∷ "is" ∷ "are" ∷ "were" ∷ "has" ∷ "have" ∷ "had" ∷ "do" ∷ "does" ∷ "did" ∷ "will" ∷ "would"
    ∷ "could" ∷ "should" ∷ "can" ∷ "my" ∷ "me" ∷ "this" ∷ "that" ∷ "these" ∷ "those" ∷ "it" ∷ "its"
    ∷ "today" ∷ "yesterday" ∷ "last" ∷ "week" ∷ "during" ∷ "work" ∷ "hours" ∷ "files" ∷ "file"
    ∷ "edited" ∷ "opened" ∷ "websites" ∷ "visited" ∷ "browser" ∷ "window" ∷ "clipboard"
    ∷ "screenshot" ∷ "monday" ∷ "tuesday" ∷ "wednesday" ∷ "thursday" ∷ "friday" ∷ "saturday"
    ∷ "sunday" ∷ [])

unfoldable pub is_stop_word : Text → Bool
unfolding stop_words
is_stop_word clean = count clean stop_words

-- The loop over the bytes of a word: letters and digits.
unfoldable pub clean_query_word : Text → Text
clean_query_word [] = []
clean_query_word (c ∷ w) = let rest = clean_query_word w in if is_alnum c then c ∷ rest else rest

-- The loop over the words of the query.
query_keywords : List Text → List Text
query_keywords [] = []
query_keywords (w ∷ ws) =
    let clean = clean_query_word w in
    let rest = query_keywords ws in
    if is_long_enough clean && not (is_stop_word clean) then clean ∷ rest else rest

unfoldable pub extract_query_keywords : Text → QuerySpec → QuerySpec
unfolding query_keywords
extract_query_keywords query spec = record spec {
  keywords = spec.keywords ++ query_keywords (words query);
}

abbrev new_spec : Text → QuerySpec
new_spec query = record {
  keywords = [];
  time_start = none;
  time_end = none;
  event_type = none;
  application = none;
  raw_query = query;
}

unfoldable pub parse : ℕ → ℕ → Text → QuerySpec
parse first second query =
    let lower_query = lower query in
    extract_query_keywords lower_query (
      resolve_event_type lower_query
        (resolve_time_expression first second lower_query (new_spec query)))
