-- ===== src/Tests/ParserTests.antt =====
-- Runs and theorems of Search.Parser at concrete inputs.
use mind_trace.Base.{◌+◌, ◌<◌, ◌≡◌, refl, not, false, some, keep, is_empty, arith}
use mind_trace.Base.Text.{codes, lower, contains, to_lower}
use mind_trace.Base.Words.{sub64}
use mind_trace.Event.{file_modified, tokenize}
use mind_trace.Search.Parser.{
  parse, today_start, week_start, mentions_work, is_stop_word, resolve_event_type,
  resolve_time_expression, resolve_date, resolve_work_hours, extract_query_keywords,
}
use mind_trace.Search.Parser.Ranges.{
  parse_range, Ranges, IsQueryRange, parse_has_range, is_some, names_time,
}
use mind_trace.Search.Planner.{plan}
use mind_trace.Search.Planner.Uses.{plan-parse}
use mind_trace.Tests.{noon}

-- `noon` is a Tuesday; its week began on 2023-11-13.
week_start-noon : week_start (today_start noon) ≡ 1_699_833_600
unfolding week_start today_start sub64
week_start-noon = refl

edited_today : (parse noon noon (codes "files Edited today")).event_type ≡ some file_modified
unfolding parse resolve_event_type resolve_time_expression resolve_date resolve_work_hours contains
    extract_query_keywords to_lower mentions_work
edited_today = refl

same_day : noon < today_start noon + 86400
unfolding today_start
same_day = omega arith

parse_range_example :
    Ranges
      (IsQueryRange (mentions_work (lower (codes "websites this week"))) (today_start noon))
      (parse noon noon (codes "websites this week"))
parse_range_example =
    parse_range noon noon (codes "websites this week") (omega arith) (omega arith) (omega arith)
      same_day

-- The README's "websites visited during work hours" gets no time range.
parse_has_range_example :
    is_some (parse noon noon (codes "websites visited during work hours")).time_start
    ≡ names_time (lower (codes "websites visited during work hours"))
parse_has_range_example = parse_has_range noon noon (codes "websites visited during work hours")

plan-parse_example :
    let p = plan (parse noon noon (codes "What is main.cpp?")) in
    let kws = keep (λ k. not (is_stop_word k)) (tokenize (codes "What is main.cpp?")) in
    (p.use_keyword_index ≡ not (is_empty kws))
    × (p.use_time_index ≡ names_time (lower (codes "What is main.cpp?")))
    × (p.use_app_index ≡ false)
    × (p.keywords ≡ kws)
plan-parse_example = plan-parse noon noon (codes "What is main.cpp?")
