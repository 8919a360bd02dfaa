-- ===== src/Cli.antt =====
-- apps/cli/main.cpp: the command line, and what its commands compute before they print.
-- The storage is an argument, and so are the readings of the clock.
pub mod Periods
pub mod Daemon
pub mod Queries
pub mod Searching
pub mod Unindexed
pub mod Demo
pub mod Output
use mind_trace.Base.{
  ℕ, ◌+◌, ◌*◌, ◌/◌, not, ◌&&◌, List, [], ◌∷◌, ◌++◌, Option, none, some, if◌then◌else◌, is_empty,
}
use mind_trace.Base.Eq.{text_eq}
use mind_trace.Base.Text.{Text, codes}
use mind_trace.Base.Sort.{Sorter}
use mind_trace.Base.Words.{sub64}
use mind_trace.Event.{ActivityEvent}
use mind_trace.Index.{InvertedIndex, empty, add_all, event_count, keyword_count}
use mind_trace.Storage.{EventRepository}
use mind_trace.Search.Executor.{search}
use mind_trace.Timeline.{Timeline, build_period}

-- The loop that joins the arguments, from the second on.
join_rest : Text → List Text → Text
join_rest query [] = query
join_rest query (arg ∷ args) = join_rest (query ++ codes " " ++ arg) args

unfoldable pub join_query : List Text → Text
unfolding join_rest
join_query [] = []
join_query (arg ∷ args) = join_rest arg args

-- What `main` does by its arguments.
pub data Command : Type 0 where
  no_command stats daemon demo help : Command
  search_for : Text → Command
  timeline_of : Text → Command
  unknown_command : Text → Command

-- `(argc >= 3) ? argv[2] : "today"`
day_of : List Text → Text
day_of [] = codes "today"
day_of (day ∷ rest) = day

-- The arguments after the program's name.
unfoldable pub command_of : List Text → Command
unfolding day_of
command_of [] = no_command
command_of (command ∷ rest) =
    if text_eq command (codes "search") && not (is_empty rest)
    then search_for (join_query rest)
    else if text_eq command (codes "timeline")
    then timeline_of (day_of rest)
    else if text_eq command (codes "stats")
    then stats
    else if text_eq command (codes "daemon")
    then daemon
    else if text_eq command (codes "demo")
    then demo
    else if text_eq command (codes "help")
    then help
    else unknown_command command

-- The period of `cmd_timeline`.
unfoldable pub timeline_period : Text → ℕ → ℕ × ℕ
timeline_period day now =
    let today_start = now / 86400 * 86400 in
    if text_eq day (codes "yesterday")
    then (sub64 today_start 86400, sub64 today_start 1)
    else (today_start, now)

module _ {S : Type 0} (repository : EventRepository S) where
  -- The timeline that `cmd_timeline` prints; `gap_threshold` is the builder's.
  unfoldable pub cmd_timeline :
      ℕ → (List (Text × ℕ) → List (Text × ℕ)) → Sorter ActivityEvent → Text → ℕ → S → Timeline
  cmd_timeline gap_threshold walk sorter day now s =
      let (period_start, period_end) = timeline_period day now in
      build_period gap_threshold walk sorter
        (repository.find_by_time_range s period_start period_end) period_start period_end

  -- The loop of `main` that fills a new index from the store.
  unfoldable pub rebuild_index : S → ℕ → InvertedIndex
  rebuild_index s now = add_all empty (repository.find_by_time_range s 0 now)

  -- The results that `cmd_search` prints; `first`, `second` and `n` are readings of the clock, in this
  -- order. `none` is a call through a null pointer.
  unfoldable pub cmd_search :
      Sorter ActivityEvent
      → Sorter (List ℕ)
      → ℕ
      → ℕ
      → ℕ
      → Text
      → S
      → InvertedIndex
      → Option (List ActivityEvent)
  cmd_search sorter set_sorter first second n query s index =
      search repository sorter set_sorter (some s) (some index) first second n query

  -- The three numbers of `cmd_stats`: stored events, indexed events, keywords.
  unfoldable pub cmd_stats : S → InvertedIndex → ℕ × ℕ × ℕ
  cmd_stats s index = (repository.count s, event_count index, keyword_count index)
