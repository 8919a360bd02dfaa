-- ===== src/Tests/TimelineTests.antt =====
-- Runs and theorems of Timeline at concrete inputs.
use mathlib.Core.List.Perm
use mind_trace.Base.{ℕ, ◌≤◌, ◌≡◌, refl, List, [], ◌∷◌, length, map}
use mind_trace.Base.Sort.{insertion_sort, insertion_sorter}
use mind_trace.Base.Text.{Text, codes, last_component}
use mind_trace.Base.Words.{sub64}
use mind_trace.Event.{ActivityEvent}
use mind_trace.Timeline.{
  Session, build, build_sorted, group, close, total_events, earlier, determine_primary_app,
  count_apps, increment, most_frequent, app_of,
}
use mind_trace.Timeline.Runs.{events_of, Grouped}
use mind_trace.Timeline.Groups.{events_of-build, build-Grouped}
use mind_trace.Timeline.Primary.{app_count, determine_primary_app_most}
use mind_trace.Tests.{edit, visit, focus, history}

abbrev as_given : List (Text × ℕ) → List (Text × ℕ)
as_given m = m

unsorted : List ActivityEvent
unsorted = focus ∷ edit ∷ visit ∷ []

two_sessions :
    map (λ (s : Session). s.primary_app) (build 1800 as_given insertion_sorter unsorted).sessions
    ≡ codes "main.cpp" ∷ codes "chrome.exe" ∷ []
unfolding unsorted build build_sorted group close determine_primary_app count_apps increment
    most_frequent app_of last_component insertion_sort sub64
two_sessions = refl

events_of-build_example :
    (events_of (build 1800 as_given insertion_sorter history).sessions
      ≡ insertion_sorter.sort earlier history)
    × (total_events (build 1800 as_given insertion_sorter history) ≡ length history)
events_of-build_example = events_of-build 1800 as_given insertion_sorter history

build-Grouped_example :
    Grouped 1800 as_given (build 1800 as_given insertion_sorter history).sessions
build-Grouped_example = build-Grouped 1800 as_given insertion_sorter history refl

determine_primary_app_most_example :
    app_count (codes "main.cpp") history
    ≤ app_count (determine_primary_app as_given history) history
determine_primary_app_most_example =
    determine_primary_app_most as_given (λ m. Perm.refl m) history (codes "main.cpp")
