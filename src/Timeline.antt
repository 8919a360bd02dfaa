-- ===== src/Timeline.antt =====
-- include/timeline/timeline_builder.hpp and src/timeline/timeline_builder.cpp: events grouped into
-- sessions by the gaps between them. `std::sort` is an argument, and so is `walk`, the order in which
-- the hash map of applications is walked: neither is fixed by the standard.
pub mod Runs
pub mod Grouping
pub mod Groups
pub mod Primary
pub mod Period
use mind_trace.Base.{
  ℕ, ◌+◌, Bool, true, false, ◌&&◌, List, [], ◌∷◌, ◌++◌, if◌then◌else◌, ltb, leb, length, keep,
  is_empty,
}
use mind_trace.Base.Eq.{text_eq}
use mind_trace.Base.Text.{Text, last_component}
use mind_trace.Base.Sort.{Sorter}
use mind_trace.Base.Words.{add64, sub64}
use mind_trace.Event.{ActivityEvent}

pub record Session : Type 0 where
  pub start_time : ℕ
  pub end_time : ℕ
  pub primary_app : Text
  pub events : List ActivityEvent

abbrev pub new_session : Session
new_session = record { start_time = 0; end_time = 0; primary_app = []; events = [] }

-- A new session with its first event.
abbrev pub start_session : ActivityEvent → Session
start_session e = record new_session { start_time = e.timestamp; events = e ∷ [] }

unfoldable pub duration : Session → ℕ
duration s = sub64 s.end_time s.start_time

pub record Timeline : Type 0 where
  pub period_start : ℕ
  pub period_end : ℕ
  pub sessions : List Session

abbrev pub new_timeline : Timeline
new_timeline = record { period_start = 0; period_end = 0; sessions = [] }

-- `for (const auto& s : sessions) count += s.events.size();`
count_events : List Session → ℕ → ℕ
count_events [] n = n
count_events (s ∷ ss) n = count_events ss (n + length s.events)

unfoldable pub total_events : Timeline → ℕ
unfolding count_events
total_events t = count_events t.sessions 0

-- The application of an event: its source, or the last component of it if it is a path.
unfoldable pub app_of : ActivityEvent → Text
app_of event = last_component event.source

-- `app_counts[app]++`
unfoldable pub increment : Text → List (Text × ℕ) → List (Text × ℕ)
increment app [] = (app, 1) ∷ []
increment app ((a, n) ∷ m) = if text_eq a app then (a, n + 1) ∷ m else (a, n) ∷ increment app m

unfoldable pub count_apps : List ActivityEvent → List (Text × ℕ) → List (Text × ℕ)
count_apps [] counts = counts
count_apps (event ∷ events) counts = count_apps events (increment (app_of event) counts)

-- The loop that looks for the largest count.
unfoldable pub most_frequent : List (Text × ℕ) → Text → ℕ → Text
most_frequent [] primary max_count = primary
most_frequent ((app, n) ∷ m) primary max_count =
    most_frequent m (if ltb max_count n then app else primary)
      (if ltb max_count n then n else max_count)

abbrev pub earlier : ActivityEvent → ActivityEvent → Bool
earlier a b = ltb a.timestamp b.timestamp

abbrev pub last_of : ActivityEvent → List ActivityEvent → ActivityEvent
last_of x [] = x
last_of x (y ∷ ys) = last_of y ys

unfoldable pub determine_primary_app :
    (List (Text × ℕ) → List (Text × ℕ)) → List ActivityEvent → Text
determine_primary_app walk events = most_frequent (walk (count_apps events [])) [] 0

pub record TimelineBuilder : Type 0 where
  pub gap_threshold : ℕ

-- With the default argument: 30 minutes.
abbrev pub new_timeline_builder : TimelineBuilder
new_timeline_builder = record { gap_threshold = 1800 }

abbrev pub set_gap_threshold : TimelineBuilder → ℕ → TimelineBuilder
set_gap_threshold builder seconds = record builder { gap_threshold = seconds }

-- `gap_threshold_` of the builder.
module _ (gap_threshold : ℕ) (walk : List (Text × ℕ) → List (Text × ℕ)) where
  -- `end_time` and `primary_app` are set when a session is closed.
  unfoldable pub close : Session → ActivityEvent → Session
  close current last = record current {
    end_time = last.timestamp;
    primary_app = determine_primary_app walk current.events;
  }

  -- The loop over `sorted[1..]`; `prev` is `sorted[i - 1]`.
  unfoldable pub group : ActivityEvent → Session → List ActivityEvent → List Session → List Session
  group prev current [] sessions = sessions ++ close current prev ∷ []
  group prev current (e ∷ rest) sessions =
      elim (ltb gap_threshold (sub64 e.timestamp prev.timestamp)) [
        | true ↦ group e (start_session e) rest (sessions ++ close current prev ∷ [])
        | false ↦ group e (record current { events = current.events ++ e ∷ [] }) rest sessions
      ]

  unfoldable pub build_sorted : List ActivityEvent → Timeline
  build_sorted [] = new_timeline
  build_sorted (e ∷ rest) = record {
    period_start = e.timestamp;
    period_end = (last_of e rest).timestamp;
    sessions = group e (start_session e) rest [];
  }

  unfoldable pub build : Sorter ActivityEvent → List ActivityEvent → Timeline
  build sorter events =
      if is_empty events then new_timeline else build_sorted (sorter.sort earlier events)

  -- The second `build`, for the events of a period.
  unfoldable pub build_period : Sorter ActivityEvent → List ActivityEvent → ℕ → ℕ → Timeline
  build_period sorter events period_start period_end =
      record (build sorter
        (keep (λ e. leb period_start e.timestamp && leb e.timestamp period_end) events)) {
          period_start = period_start;
          period_end = period_end;
        }
