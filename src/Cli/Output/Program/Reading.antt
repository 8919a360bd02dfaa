-- ===== src/Cli/Output/Program/Reading.antt =====
-- The commands of `main` that only read, apps/cli/main.cpp: over any storage, and the search over the
-- event store.
use mind_trace.Base.{ℕ, ◌+◌, ◌≡◌, refl, Bool, false, List, [], ◌∷◌, ◌++◌, some, if◌then◌else◌}
use mind_trace.Base.Text.{Text, codes}
use mind_trace.Base.Sort.{Sorter}
use mind_trace.Common.{Tm}
use mind_trace.Event.{ActivityEvent}
use mind_trace.Json.{Json}
use mind_trace.Storage.{EventRepository}
use mind_trace.Storage.Sqlite.{Sqlite}
use mind_trace.Search.Executor.Total.{search-some}
use mind_trace.Index.{InvertedIndex, empty}
use mind_trace.Base.Eq.{text_eq}
use mind_trace.Cli.Queries.{is_refused, IsReading, command_of-IsReading}
use mind_trace.Cli.{
  search_for, timeline_of, stats, daemon, demo, help, no_command, unknown_command, Command,
  command_of, rebuild_index, cmd_search,
}
use mind_trace.Cli.Daemon.{Daemon}
use mind_trace.Cli.Output.{print_header, print_usage, print_search}
use mind_trace.Cli.Output.Program.{
  Outcome, returns, succeeds, search_output, timeline_output, stats_output, obey, main, program,
}

-- What is returned, by whether the command is refused.
abbrev pub answered : {S : Type 0} → Bool → Text → Text → S → InvertedIndex → Outcome S
answered refused command output s index =
    if refused
    then returns output (codes "Unknown command: " ++ (command ++ codes "\n")) 1 s index
    else returns output [] 0 s index

module _ {S : Type 0} (repository : EventRepository S) (localtime : ℕ → Tm)
    (walk : List (Text × ℕ) → List (Text × ℕ)) (sorter : Sorter ActivityEvent)
    (set_sorter : Sorter (List ℕ)) (clock : ℕ → ℕ) where
  pub search_output-some :
      (place : ℕ) (query : Text) (s : S) (index : InvertedIndex)
      → (output : Text) × (search_output repository localtime walk sorter set_sorter clock place
            query s index
          ≡ some output)
  unfolding search_output cmd_search
  search_output-some place query s index =
      let (found, searched) =
        search-some repository sorter set_sorter s index (clock place) (clock (place + 1))
          (clock (place + 2)) query in
      (print_search localtime query found, rw searched refl)

  obey-answered :
      (word : Text) (refused : Bool) (command : Command) (s : S) (index : InvertedIndex)
      → IsReading word refused command
      → (output : Text) × (left_index : InvertedIndex) × (obey repository localtime walk sorter
            set_sorter clock command s index
          ≡ answered refused word output s left_index)
  unfolding obey succeeds
  obey-answered word refused no_command s index h = (print_header ++ print_usage, empty, rw h refl)
  obey-answered word refused (search_for query) s index h =
      let (output, searched) = search_output-some 1 query s index in
      (print_header ++ output, index, rw (h, searched) refl)
  obey-answered word refused (timeline_of day) s index h = (
    print_header ++ timeline_output repository localtime walk sorter set_sorter clock 1 day s,
    index,
    rw h refl,
  )
  obey-answered word refused stats s index h = (
    print_header ++ stats_output repository localtime walk sorter set_sorter clock s index,
    index,
    rw h refl,
  )
  obey-answered word refused daemon s index h = absurd h
  obey-answered word refused demo s index h = absurd h
  obey-answered word refused help s index h = (print_header ++ print_usage, index, rw h refl)
  obey-answered word refused (unknown_command command) s index (same, h) =
      (print_header ++ print_usage, index, rw (h, same) refl)

  -- With an opened store and any arguments but those that ask for a demo or for the daemon, the
  -- program always returns and leaves the store as it was. Exactly when the first argument is none of
  -- the six commands, or is "search" with nothing after it, it returns 1 and names the argument on the
  -- error stream; else it returns 0 and writes nothing there.
  pub program-answered :
      (command : Text) (rest : List Text) (s : S)
      → text_eq command (codes "demo") ≡ false
      → text_eq command (codes "daemon") ≡ false
      → (output : Text) × (index : InvertedIndex) × (program repository localtime walk sorter
            set_sorter clock
            (some s)
            (command ∷ rest)
          ≡ answered (is_refused command rest) command output s index)
  unfolding program main
  program-answered command rest s not_demo not_daemon =
      obey-answered command (is_refused command rest) (command_of (command ∷ rest)) s
        (rebuild_index repository s (clock 0))
        (command_of-IsReading command rest not_demo not_daemon)
