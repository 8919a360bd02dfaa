-- ===== src/Search/Planner/Uses.antt =====
-- Which indexes a query in words makes use of: src/search/query_planner.cpp after
-- src/search/query_parser.cpp.
use mind_trace.Base.{
  ℕ, ◌≡◌, refl, ap, ◌∙◌, Bool, false, not, ◌&&◌, List, [], ◌∷◌, Option, none, some, arith, is_empty,
  keep,
}
use mind_trace.Base.Text.{Text, lower}
use mind_trace.Event.{EventType, tokenize}
use mind_trace.Search.Parser.{QuerySpec, is_stop_word, parse}
use mind_trace.Search.Parser.Keywords.{keywords-parse}
use mind_trace.Search.Parser.Ranges.{is_some, names_time, parse_has_range}
use mind_trace.Search.Parser.Ends.{parse_has_end, application-parse}
use mind_trace.Search.Planner.{
  QueryPlan, new_plan, plan_keywords, plan_time, plan_type, plan_application, plan,
}

abbrev Uses : Bool → Bool → Bool → List Text → QueryPlan → Type 0
Uses keyword time app kws p =
    (p.use_keyword_index ≡ keyword)
    × (p.use_time_index ≡ time)
    × (p.use_app_index ≡ app)
    × (p.keywords ≡ kws)

plan_keywords-Uses :
    (kws : List Text) → Uses (not (is_empty kws)) false false kws (plan_keywords kws new_plan)
unfolding plan_keywords
plan_keywords-Uses [] = (refl, refl, refl, refl)
plan_keywords-Uses (k ∷ kws) = (refl, refl, refl, refl)

plan_time-Uses :
    (start end : Option ℕ) (b : Bool) (kws : List Text) (p : QueryPlan)
    → Uses b false false kws p
    → Uses b (is_some start && is_some end) false kws (plan_time start end p)
unfolding plan_time
plan_time-Uses (some s) (some e) b kws p (h, i, j, k) = (h, refl, j, k)
plan_time-Uses (some s) none b kws p h = h
plan_time-Uses none end b kws p h = h

plan_type-Uses :
    (o : Option EventType) (a b c : Bool) (kws : List Text) (p : QueryPlan)
    → Uses a b c kws p
    → Uses a b c kws (plan_type o p)
unfolding plan_type
plan_type-Uses none a b c kws p h = h
plan_type-Uses (some t) a b c kws p h = h

plan-Uses :
    (spec : QuerySpec)
    → spec.application ≡ none
    → Uses
        (not (is_empty spec.keywords))
        (is_some spec.time_start && is_some spec.time_end)
        false
        spec.keywords
        (plan spec)
unfolding plan plan_application
plan-Uses spec h = rw h (
    plan_type-Uses spec.event_type _ _ _ _ _
      (plan_time-Uses spec.time_start spec.time_end _ _ _ (plan_keywords-Uses spec.keywords)))

both_same : (a b c : Bool) → a ≡ c → b ≡ c → (a && b) ≡ c
both_same a b c h k = ground arith

-- A query in words is looked up by keyword exactly when it has a token that is no stop word, and then
-- by all such tokens; by time exactly when it holds one of the date phrases; and never by application.
pub plan-parse :
    (first second : ℕ) (query : Text)
    → let p = plan (parse first second query) in
      let kws = keep (λ k. not (is_stop_word k)) (tokenize query) in
      (p.use_keyword_index ≡ not (is_empty kws))
      × (p.use_time_index ≡ names_time (lower query))
      × (p.use_app_index ≡ false)
      × (p.keywords ≡ kws)
plan-parse first second query =
    let spec = parse first second query in
    let (keyword, time, app, kws) = plan-Uses spec (application-parse first second query) in
    (
      keyword ∙ ap (λ l. not (is_empty l)) (keywords-parse first second query),
      time
          ∙ both_same _ _ (names_time (lower query)) (parse_has_range first second query)
              (parse_has_end first second query),
      app,
      kws ∙ keywords-parse first second query,
    )
