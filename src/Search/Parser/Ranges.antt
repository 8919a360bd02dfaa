-- ===== src/Search/Parser/Ranges.antt =====
-- The time ranges that src/search/query_parser.cpp gives to a query.
use mind_trace.Base.{
  ℕ, ◌+◌, ◌*◌, ◌%◌, ◌<◌, ◌≤◌, ◌≡◌, refl, ap, ◌∙◌, Bool, true, false, ◌||◌, List, [], ◌∷◌, ◌++◌,
  Option, none, some, arith, if◌then◌else◌, ◌⊎◌, inl, inr, Bool-cases, any, All,
}
use mind_trace.Base.Text.{Text, codes, lower, contains}
use mind_trace.Base.Words.{sub64, add64, u64_mod}
use mind_trace.Search.Parser.{
  QuerySpec, today_start, week_start, last_day_start, days, set_range, resolve_day, resolve_date,
  mentions_work, work_range, resolve_work_hours, resolve_time_expression, resolve_event_type,
  extract_query_keywords, parse, new_spec,
}
use mind_trace.Search.Parser.Calendar.{week_start_lem, last_day_start_lem}

abbrev pub is_some {ℓ} : {A : Type ℓ} → Option A → Bool
is_some none = false
is_some (some a) = true

-- The query holds one of the phrases that name a time.
abbrev pub names_time : Text → Bool
names_time query =
    contains query (codes "today")
    || contains query (codes "yesterday")
    || contains query (codes "this week")
    || contains query (codes "last week")
    || any (λ d. contains query (codes "last " ++ d.0)) days

event_type_keeps_times :
    (query : Text) (spec : QuerySpec)
    → ((resolve_event_type query spec).time_start ≡ spec.time_start)
      × ((resolve_event_type query spec).time_end ≡ spec.time_end)
unfolding resolve_event_type
event_type_keeps_times query spec = (ground arith, ground arith)

-- The times of a parsed query are those of `resolve_time_expression`.
pub parse_times :
    (first second : ℕ) (query : Text)
    → let timed = resolve_time_expression first second (lower query) (new_spec query) in
      ((parse first second query).time_start ≡ timed.time_start)
      × ((parse first second query).time_end ≡ timed.time_end)
unfolding parse extract_query_keywords
parse_times first second query = event_type_keeps_times (lower query) _

-- A range that both ends of `spec` are set to, or neither.
abbrev pub Ranges : (ℕ → ℕ → Type 0) → QuerySpec → Type 0
Ranges P spec =
    ((spec.time_start ≡ none) × (spec.time_end ≡ none))
    ⊎ ((s : ℕ) × (e : ℕ) × (spec.time_start ≡ some s) × (spec.time_end ≡ some e) × P s e)

Ranges-same :
    (P : ℕ → ℕ → Type 0) (x y : QuerySpec)
    → (y.time_start ≡ x.time_start) × (y.time_end ≡ x.time_end)
    → Ranges P x
    → Ranges P y
Ranges-same P x y (hs, he) (inl (a, b)) = inl (hs ∙ a, he ∙ b)
Ranges-same P x y (hs, he) (inr (s, e, a, b, h)) = inr (s, e, hs ∙ a, he ∙ b, h)

today_small : (n : ℕ) → n + 86400 < u64_mod → today_start n + 86400 < u64_mod
unfolding today_start
today_small n h = omega arith

set_range-Ranges :
    (P : ℕ → ℕ → Type 0) (spec : QuerySpec) (s e : ℕ) → P s e → Ranges P (set_range spec s e)
set_range-Ranges P spec s e h = inr (s, e, refl, refl, h)

if_cases :
    (P : QuerySpec → Type 0) (b : Bool) (x y : QuerySpec) → P x → P y → P (if b then x else y)
if_cases P true x y hx hy = hx
if_cases P false x y hx hy = hy

-- What a date phrase may give: midnight up to `today` or before, and a later time of the seven days
-- that begin there.
abbrev pub IsDateRange : ℕ → ℕ → ℕ → Type 0
IsDateRange today s e =
    (s % 86400 ≡ 0) × (s ≤ today) × (today ≤ s + 14 * 86400) × (s ≤ e) × (e < s + 7 * 86400)

module _ (first second : ℕ) (late : 14 * 86400 ≤ first) (small : first + 86400 < u64_mod)
    (after : first ≤ second) (same_day : second < today_start first + 86400) where
  today_range :
      IsDateRange
        (today_start first)
        (today_start first)
        (sub64 (add64 (today_start first) 86400) 1)
  unfolding today_start sub64 add64
  today_range = omega arith

  yesterday_range :
      IsDateRange
        (today_start first)
        (sub64 (today_start first) 86400)
        (sub64 (today_start first) 1)
  unfolding today_start sub64
  yesterday_range = omega arith

  this_week_range : IsDateRange (today_start first) (week_start (today_start first)) second
  unfolding today_start
  this_week_range = omega (arith, week_start_lem first (omega arith) (omega arith))

  last_week_range :
      IsDateRange
        (today_start first)
        (sub64 (week_start (today_start first)) (7 * 86400))
        (sub64 (week_start (today_start first)) 1)
  unfolding today_start sub64
  last_week_range = omega (arith, week_start_lem first (omega arith) (omega arith))

  last_day_range :
      (wday : ℕ)
      → wday < 7
      → IsDateRange
          (today_start first)
          (last_day_start (today_start first) wday)
          (sub64 (add64 (last_day_start (today_start first) wday) 86400) 1)
  unfolding today_start sub64 add64
  last_day_range wday h = omega (arith, last_day_start_lem first wday (omega arith) (omega arith) h)

  resolve_day-Ranges :
      (query : Text) (ds : List (Text × ℕ)) (spec : QuerySpec)
      → All (λ d. d.1 < 7) ds
      → Ranges (IsDateRange (today_start first)) spec
      → Ranges (IsDateRange (today_start first)) (resolve_day (today_start first) query ds spec)
  unfolding resolve_day
  resolve_day-Ranges query [] spec h r = r
  resolve_day-Ranges query ((name, wday) ∷ ds) spec (h, hs) r =
      if_cases (Ranges (IsDateRange (today_start first))) (contains query (codes "last " ++ name)) _
        _ (set_range-Ranges _ spec _ _ (last_day_range wday h))
        (resolve_day-Ranges query ds spec hs r)

  resolve_date-Ranges :
      (query : Text) (spec : QuerySpec)
      → Ranges (IsDateRange (today_start first)) spec
      → Ranges
          (IsDateRange (today_start first))
          (resolve_date (today_start first) second query spec)
  unfolding resolve_date days
  resolve_date-Ranges query spec r =
      if_cases D (contains query (codes "today")) _ _ (set_range-Ranges _ spec _ _ today_range) (
        if_cases D (contains query (codes "yesterday")) _ _
          (set_range-Ranges _ spec _ _ yesterday_range)
          (if_cases D (contains query (codes "this week")) _ _
            (set_range-Ranges _ spec _ _ this_week_range)
            (if_cases D (contains query (codes "last week")) _ _
              (set_range-Ranges _ spec _ _ last_week_range)
              (resolve_day-Ranges query days spec (omega arith) r))))
    where
      D : QuerySpec → Type 0
      D = Ranges (IsDateRange (today_start first))

-- With working hours: from 9:00 of one day to a second before 17:00 of the same day.
abbrev pub IsQueryRange : Bool → ℕ → ℕ → ℕ → Type 0
IsQueryRange true today s e =
    (s % 86400 ≡ 9 * 3600)
    × (e + 1 ≡ s + 8 * 3600)
    × (s ≤ today + 9 * 3600)
    × (today ≤ s + 14 * 86400)
IsQueryRange false today s e = IsDateRange today s e

work_range_narrows :
    (today s e : ℕ)
    → today + 86400 < u64_mod
    → IsDateRange today s e
    → IsQueryRange true today (add64 s (9 * 3600)) (sub64 (add64 (add64 s (9 * 3600)) (8 * 3600)) 1)
unfolding add64 sub64
work_range_narrows today s e small h = omega arith

work_range-Ranges :
    (today : ℕ) (o : Option ℕ) (spec : QuerySpec)
    → today + 86400 < u64_mod
    → spec.time_start ≡ o
    → Ranges (IsDateRange today) spec
    → Ranges (IsQueryRange true today) (work_range o spec)
unfolding work_range
work_range-Ranges today none spec small h (inl r) = inl r
work_range-Ranges today none spec small h (inr (s, e, hs, he, r)) = cc
work_range-Ranges today (some t) spec small h (inl (hs, he)) = cc
work_range-Ranges today (some t) spec small h (inr (s, e, hs, he, r)) =
    let t_eq_s : t ≡ s = ground arith in
    set_range-Ranges (IsQueryRange true today) spec _ _
      (work_range_narrows today t e small (rw t_eq_s r))

resolve_work_hours-Ranges :
    (today : ℕ) (query : Text) (spec : QuerySpec)
    → today + 86400 < u64_mod
    → Ranges (IsDateRange today) spec
    → Ranges (IsQueryRange (mentions_work query) today) (resolve_work_hours query spec)
unfolding resolve_work_hours
resolve_work_hours-Ranges today query spec small r = elim (Bool-cases (mentions_work query)) [
  | inl e ↦ rw e (work_range-Ranges today spec.time_start spec small refl r)
  | inr e ↦ rw e r
]

-- Every query gets no time range at all, or both ends of one. The range then begins at midnight, at
-- most fourteen days before today's, ends no earlier than it begins and within seven days of that;
-- where the query mentions working hours, it is from 9:00 to 16:59:59 of one such day. Conditions: the
-- clock is two weeks past 1970 and a day below 2^64 seconds, and the second reading of the clock
-- follows the first on the same day.
pub parse_range :
    (first second : ℕ) (query : Text)
    → 14 * 86400 ≤ first
    → first + 86400 < u64_mod
    → first ≤ second
    → second < today_start first + 86400
    → Ranges
        (IsQueryRange (mentions_work (lower query)) (today_start first))
        (parse first second query)
unfolding resolve_time_expression
parse_range first second query late small after same_day =
    let timed = resolve_time_expression first second (lower query) (new_spec query) in
    let r : Ranges (IsQueryRange (mentions_work (lower query)) (today_start first)) timed =
      resolve_work_hours-Ranges (today_start first) (lower query) _ (today_small first small) (
        resolve_date-Ranges first second late small after same_day (lower query) (new_spec query)
          (inl (refl, refl))) in
    Ranges-same _ timed (parse first second query) (parse_times first second query) r

day_times :
    (ts : ℕ) (query : Text) (ds : List (Text × ℕ)) (spec : QuerySpec)
    → is_some (resolve_day ts query ds spec).time_start
      ≡ (any (λ d. contains query (codes "last " ++ d.0)) ds || is_some spec.time_start)
unfolding resolve_day
day_times ts query [] spec = refl
day_times ts query ((name, wday) ∷ ds) spec = ground (arith, day_times ts query ds spec)

pub date_times :
    (ts second : ℕ) (query : Text) (spec : QuerySpec)
    → spec.time_start ≡ none
    → is_some (resolve_date ts second query spec).time_start ≡ names_time query
unfolding resolve_date
date_times ts second query spec h = ground (arith, day_times ts query days spec)

work_times :
    (o : Option ℕ) (spec : QuerySpec)
    → spec.time_start ≡ o
    → is_some (work_range o spec).time_start ≡ is_some o
unfolding work_range
work_times none spec h = rw h
work_times (some s) spec h = refl

work_hours_times :
    (query : Text) (spec : QuerySpec)
    → is_some (resolve_work_hours query spec).time_start ≡ is_some spec.time_start
unfolding resolve_work_hours
work_hours_times query spec = ground (arith, work_times spec.time_start spec refl)

-- A query gets a time range exactly when it holds "today", "yesterday", "this week", "last week" or
-- "last " with the name of a day, in any case: words on working hours alone set none.
pub parse_has_range :
    (first second : ℕ) (query : Text)
    → is_some (parse first second query).time_start ≡ names_time (lower query)
unfolding resolve_time_expression
parse_has_range first second query =
    ap is_some (parse_times first second query).0
    ∙ (work_hours_times (lower query) _
        ∙ date_times (today_start first) second (lower query) (new_spec query) refl)
