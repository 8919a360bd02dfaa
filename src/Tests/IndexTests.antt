-- ===== src/Tests/IndexTests.antt =====
-- Runs and theorems of Index at concrete inputs.
use mind_trace.Base.{◌+◌, ◌/◌, ◌≡◌, refl, true, not, ◌&&◌, [], ◌∷◌, any, arith, leb, ◌==◌, is_empty}
use mind_trace.Base.Eq.{nat_eq}
use mind_trace.Base.Text.{codes, lower, contains}
use mind_trace.Base.Dictionary.{count}
use mind_trace.Event.{extract_keywords}
use mind_trace.Index.{
  add_all, empty, search_keyword, search_time_range, search_application, app_key,
}
use mind_trace.Index.Search.{search_keyword-add_all, search_application-add_all}
use mind_trace.Index.Hours.{search_time_range-add_all, search_time_range_late}
use mind_trace.Index.Invariant.{IsValid, empty-IsValid, add_all-IsValid}
use mind_trace.Tests.{edit, visit, history, noon}

search_keyword-add_all_example :
    count 1 (search_keyword (add_all empty history) (codes "MAIN"))
    ≡ any
        (λ e. any (λ k. contains k (lower (codes "MAIN"))) (extract_keywords e) && e.id == 1)
        history
search_keyword-add_all_example = search_keyword-add_all history (codes "MAIN") 1

search_application-add_all_example :
    count 2 (search_application (add_all empty history) (codes "Chrome"))
    ≡ any
        (λ e.
          not (is_empty e.source)
          && contains (app_key e.source) (lower (codes "Chrome"))
          && e.id == 2)
        history
search_application-add_all_example = search_application-add_all history (codes "Chrome") 2

search_time_range-add_all_example :
    count 1 (search_time_range (add_all empty history) noon (noon + 60))
    ≡ any
        (λ e.
          (leb (noon / 3600) (e.timestamp / 3600) && leb (e.timestamp / 3600) ((noon + 60) / 3600))
          && e.id == 1)
        history
search_time_range-add_all_example = search_time_range-add_all history noon (noon + 60) 1

-- The visit at 22:23:20 is returned for the range from 22:13:20 to 22:14:20.
search_time_range_late_example :
    count 2 (search_time_range (add_all empty (visit ∷ edit ∷ [])) noon (noon + 60)) ≡ true
search_time_range_late_example =
    search_time_range_late (edit ∷ []) visit noon (noon + 60) (omega arith) (omega arith) refl

add_all-IsValid_example : IsValid (add_all empty history)
add_all-IsValid_example = add_all-IsValid history empty empty-IsValid
