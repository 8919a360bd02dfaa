-- ===== src/Cli/Output/Program.antt =====
-- `main` of apps/cli/main.cpp: what the program prints, the status it returns, and the store and the
-- index it leaves. `clock` is what the clock shows at each place of the code that reads it, in their order.
pub mod Reading
pub mod Demonstration
use mind_trace.Base.{ℕ, ◌+◌, List, [], ◌∷◌, ◌++◌, Option, none, some, length, ◌>>=◌}
use mind_trace.Base.Text.{Text, codes}
use mind_trace.Base.Decimal.{decimal}
use mind_trace.Base.Sort.{Sorter}
use mind_trace.Common.{Tm}
use mind_trace.Event.{ActivityEvent}
use mind_trace.Index.{InvertedIndex, empty}
use mind_trace.Storage.{EventRepository}
use mind_trace.Timeline.{new_timeline_builder}
use mind_trace.Cli.{
  no_command, stats, daemon, demo, help, search_for, timeline_of, unknown_command, Command,
  command_of, cmd_timeline, cmd_search, cmd_stats, rebuild_index,
}
use mind_trace.Cli.Demo.{demo_events, load}
use mind_trace.Cli.Output.{print_header, print_usage, print_search, print_timeline, print_stats}

-- How `main` goes on: it ends with an exception or a call through a null pointer; it returns 0 after
-- some output before it opens the store; it returns what it has written to the two streams with a
-- status; or `cmd_daemon` goes on with the store and the index.
pub data Outcome (S : Type 0) : Type 0 where
  fails : Outcome S
  shows : Text → Outcome S
  returns : Text → Text → ℕ → S → InvertedIndex → Outcome S
  collects : Text → S → InvertedIndex → Outcome S

-- The line between the parts of a demo.
abbrev separator : Text
separator = codes "------------------------------------------------\n"

-- The outputs of the two queries, the timeline and the statistics of a demo.
abbrev pub demo_parts : Text → Text → Text → Text → Text
demo_parts edited visited timeline statistics =
    separator
    ++ (edited
        ++ (separator ++ (visited ++ (separator ++ (timeline ++ (separator ++ statistics))))))

-- The output of a demo that has loaded a number of events.
abbrev pub demo_text : ℕ → Text → Text
demo_text loaded parts =
    10 ∷ 240 ∷ 159 ∷ 142 ∷ 174 ∷ codes " Loading demo data...\n\n   Loaded "
    ++ (decimal loaded ++ (codes " demo events.\n\n" ++ parts))

module _ {S : Type 0} (repository : EventRepository S) (localtime : ℕ → Tm)
    (walk : List (Text × ℕ) → List (Text × ℕ)) (sorter : Sorter ActivityEvent)
    (set_sorter : Sorter (List ℕ)) (clock : ℕ → ℕ) where
  -- What `cmd_search` prints, its readings of the clock from a place on.
  unfoldable pub search_output : ℕ → Text → S → InvertedIndex → Option Text
  search_output place query s index = do
    results ←
        cmd_search repository sorter set_sorter (clock place) (clock (place + 1))
          (clock (place + 2)) query s index
    some (print_search localtime query results)

  -- What `cmd_timeline` prints, its reading of the clock at a place.
  pub timeline_output : ℕ → Text → S → Text
  timeline_output place day s =
      print_timeline localtime day
        (cmd_timeline repository new_timeline_builder.gap_threshold walk sorter day (clock place) s)

  pub stats_output : S → InvertedIndex → Text
  stats_output s index = print_stats (cmd_stats repository s index)

  -- The queries of `cmd_demo` over what it has loaded, and its timeline and statistics.
  demo_queries : S → InvertedIndex → Option Text
  unfolding search_output timeline_output stats_output
  demo_queries s index = do
    edited ← search_output 2 (codes "files edited today") s index
    visited ← search_output 5 (codes "websites visited today") s index
    some (demo_parts edited visited (timeline_output 8 (codes "today") s) (stats_output s index))

  -- All that `cmd_demo` prints, with the store and the index it leaves.
  demo_output : S → InvertedIndex → Option (Text × S × InvertedIndex)
  unfolding demo_queries
  demo_output s index = do
    (s, index) ← load repository (demo_events (clock 1)) s index
    queries ← demo_queries s index
    some (demo_text (length (demo_events (clock 1))) queries, s, index)

  -- `return 0` after what a command prints.
  succeeds : S → InvertedIndex → Option Text → Outcome S
  succeeds s index none = fails
  succeeds s index (some output) = returns (print_header ++ output) [] 0 s index

  demo_done : Option (Text × S × InvertedIndex) → Outcome S
  demo_done none = fails
  demo_done (some (output, s, index)) = returns (print_header ++ output) [] 0 s index

  -- The commands of `main` over the store and the index it has rebuilt.
  unfoldable pub obey : Command → S → InvertedIndex → Outcome S
  unfolding search_output timeline_output stats_output demo_output succeeds demo_done
  obey no_command s index = succeeds s empty (some print_usage)
  obey (search_for query) s index = succeeds s index (search_output 1 query s index)
  obey (timeline_of day) s index = succeeds s index (some (timeline_output 1 day s))
  obey stats s index = succeeds s index (some (stats_output s index))
  obey daemon s index = collects print_header s index
  obey demo s index = demo_done (demo_output s index)
  obey help s index = succeeds s index (some print_usage)
  obey (unknown_command command) s index =
      returns (print_header ++ print_usage) (codes "Unknown command: " ++ (command ++ codes "\n")) 1
        s index

  -- `main` with a store that is opened.
  unfoldable pub main : List Text → S → Outcome S
  unfolding obey
  main args s = obey (command_of args) s (rebuild_index repository s (clock 0))

  -- The program; the store is opened once there are arguments, and `none` is the exception of its
  -- constructor.
  unfoldable pub program : Option S → List Text → Outcome S
  program opened [] = shows (print_header ++ print_usage)
  program none (command ∷ rest) = fails
  program (some s) (command ∷ rest) = main (command ∷ rest) s
