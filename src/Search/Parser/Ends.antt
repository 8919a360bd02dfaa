-- ===== src/Search/Parser/Ends.antt =====
-- The ends of time ranges and the application in what src/search/query_parser.cpp makes of a query.
use mind_trace.Base.{
  ℕ, ◌≡◌, refl, sym, ap, ◌∙◌, ◌||◌, List, [], ◌∷◌, ◌++◌, Option, none, some, arith, any,
}
use mind_trace.Base.Text.{Text, codes, lower, contains}
use mind_trace.Search.Parser.{
  QuerySpec, today_start, days, resolve_day, resolve_date, work_range, resolve_work_hours,
  resolve_time_expression, resolve_event_type, extract_query_keywords, parse, new_spec,
}
use mind_trace.Search.Parser.Ranges.{is_some, names_time, parse_times, date_times}

day_ends :
    (ts : ℕ) (query : Text) (ds : List (Text × ℕ)) (spec : QuerySpec)
    → is_some (resolve_day ts query ds spec).time_end
      ≡ (any (λ d. contains query (codes "last " ++ d.0)) ds || is_some spec.time_end)
unfolding resolve_day
day_ends ts query [] spec = refl
day_ends ts query ((name, wday) ∷ ds) spec = ground (arith, day_ends ts query ds spec)

date_ends :
    (ts second : ℕ) (query : Text) (spec : QuerySpec)
    → spec.time_end ≡ none
    → is_some (resolve_date ts second query spec).time_end ≡ names_time query
unfolding resolve_date
date_ends ts second query spec h = ground (arith, day_ends ts query days spec)

work_ends :
    (o : Option ℕ) (spec : QuerySpec)
    → is_some spec.time_end ≡ is_some o
    → is_some (work_range o spec).time_end ≡ is_some spec.time_end
unfolding work_range
work_ends none spec h = refl
work_ends (some s) spec h = sym h

work_hours_ends :
    (query : Text) (spec : QuerySpec)
    → is_some spec.time_end ≡ is_some spec.time_start
    → is_some (resolve_work_hours query spec).time_end ≡ is_some spec.time_end
unfolding resolve_work_hours
work_hours_ends query spec h = ground (arith, work_ends spec.time_start spec h)

-- A query gets an end of a time range exactly when it gets a start.
pub parse_has_end :
    (first second : ℕ) (query : Text)
    → is_some (parse first second query).time_end ≡ names_time (lower query)
unfolding resolve_time_expression
parse_has_end first second query =
    let ends = date_ends (today_start first) second (lower query) (new_spec query) refl in
    ap is_some (parse_times first second query).1
    ∙ work_hours_ends (lower query) _
        (ends ∙ sym (date_times (today_start first) second (lower query) (new_spec query) refl))
    ∙ ends

day_keeps_application :
    (ts : ℕ) (query : Text) (ds : List (Text × ℕ)) (spec : QuerySpec)
    → (resolve_day ts query ds spec).application ≡ spec.application
unfolding resolve_day
day_keeps_application ts query [] spec = refl
day_keeps_application ts query ((name, wday) ∷ ds) spec =
    ground (arith, day_keeps_application ts query ds spec)

date_keeps_application :
    (ts second : ℕ) (query : Text) (spec : QuerySpec)
    → (resolve_date ts second query spec).application ≡ spec.application
unfolding resolve_date
date_keeps_application ts second query spec =
    ground (arith, day_keeps_application ts query days spec)

work_keeps_application :
    (o : Option ℕ) (spec : QuerySpec) → (work_range o spec).application ≡ spec.application
unfolding work_range
work_keeps_application none spec = refl
work_keeps_application (some s) spec = refl

time_keeps_application :
    (first second : ℕ) (query : Text) (spec : QuerySpec)
    → (resolve_time_expression first second query spec).application ≡ spec.application
unfolding resolve_time_expression resolve_work_hours
time_keeps_application first second query spec =
    let dated = resolve_date (today_start first) second query spec in
    ground (
      arith,
      date_keeps_application (today_start first) second query spec,
      work_keeps_application dated.time_start dated,
    )

event_type_keeps_application :
    (query : Text) (spec : QuerySpec)
    → (resolve_event_type query spec).application ≡ spec.application
unfolding resolve_event_type
event_type_keeps_application query spec = ground arith

-- No query asks for an application.
pub application-parse :
    (first second : ℕ) (query : Text) → (parse first second query).application ≡ none
unfolding parse extract_query_keywords
application-parse first second query =
    event_type_keeps_application (lower query) _
    ∙ time_keeps_application first second (lower query) (new_spec query)
