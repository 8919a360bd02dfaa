-- ===== src/Cli/Output.antt =====
-- What apps/cli/main.cpp prints: the texts of its commands. `std::cout` with the "C" locale writes a
-- number by its digits, and `std::endl` ends a line; the flushing of the stream is not told.
pub mod Lines
pub mod Program
use mind_trace.Base.{
  Option, none, some, Bool, false, ◌==◌, ℕ, suc, ◌+◌, List, [], ◌∷◌, ◌++◌, length, if◌then◌else◌,
  is_empty,
}
use mind_trace.Base.Eq.{text_eq}
use mind_trace.Base.Text.{Text, codes}
use mind_trace.Base.Decimal.{decimal}
use mind_trace.Common.{Tm, truncate, format_timestamp, format_time_only}
use mind_trace.Event.{ActivityEvent, event_type_to_string}
use mind_trace.Timeline.{Session, Timeline, total_events}

-- Each text with the end of its line.
abbrev pub unlines : List Text → Text
unlines [] = []
unlines (s ∷ ss) = s ++ 10 ∷ unlines ss

unfoldable pub print_header : Text
print_header = unlines (
    codes ""
    ∷ codes "  __  __ _           _ _____"
    ∷ codes " |  \\/  (_)         | |_   _|"
    ∷ codes " | \\  / |_ _ __   __| | | |  _ __ __ _  ___ ___"
    ∷ codes " | |\\/| | | '_ \\ / _` | | | | '__/ _` |/ __/ _ \\"
    ∷ codes " | |  | | | | | | (_| | | | | | | (_| | (_|  __/"
    ∷ codes " |_|  |_|_|_| |_|\\__,_| |_| |_|  \\__,_|\\___\\___|"
    ∷ codes ""
    ∷ codes "  Digital Memory Search Engine v1.0.0"
    ∷ codes ""
    ∷ [])

unfoldable pub print_usage : Text
print_usage = unlines (
    codes "Usage:"
    ∷ codes "  mindtrace search <query>     Search your activity history"
    ∷ codes "  mindtrace timeline [day]     Show activity timeline"
    ∷ codes "  mindtrace stats              Show database statistics"
    ∷ codes "  mindtrace daemon             Run in background and collect events"
    ∷ codes "  mindtrace demo               Load demo data and run sample queries"
    ∷ codes "  mindtrace help               Show this help message"
    ∷ codes ""
    ∷ [])

module _ (localtime : ℕ → Tm) where
  -- The line of an event, before its end.
  unfoldable pub event_line : ActivityEvent → Text
  event_line event =
      codes "  "
      ++ (format_time_only localtime event.timestamp
          ++ (codes "  ["
              ++ (event_type_to_string event.type
                  ++ (codes "]  "
                      ++ (truncate event.source 40
                          ++ (codes "  -  " ++ truncate event.content 50))))))

  print_event : ActivityEvent → Text
  print_event event = event_line event ++ codes "\n"

  -- What the callback of `cmd_daemon` prints of an event.
  unfoldable pub print_captured : ActivityEvent → Text
  print_captured event =
      codes "  "
      ++ (format_time_only localtime event.timestamp
          ++ (codes "  ["
              ++ (event_type_to_string event.type
                  ++ (codes "]  " ++ (truncate event.content 60 ++ codes "\n")))))

  -- The loop over events.
  print_events : List ActivityEvent → Text
  unfolding print_event
  print_events [] = []
  print_events (event ∷ events) = print_event event ++ print_events events

  found_lines : List ActivityEvent → Text
  unfolding print_events
  found_lines results =
      if is_empty results
      then codes "   No results found.\n"
      else print_events results ++ codes "\n"

  -- The output of `cmd_search` for a query with its results.
  unfoldable pub print_search : Text → List ActivityEvent → Text
  unfolding found_lines
  print_search query results =
      10 ∷ 240 ∷ 159 ∷ 148 ∷ 141 ∷ codes " Search: \""
      ++ (query
          ++ (codes "\"\n   Found "
              ++ (decimal (length results) ++ (codes " result(s)\n\n" ++ found_lines results))))

  print_session : ℕ → Session → Text
  unfolding print_events
  print_session number session =
      codes "  --- Session "
      ++ decimal number
      ++ codes " ("
      ++ format_time_only localtime session.start_time
      ++ codes " - "
      ++ format_time_only localtime session.end_time
      ++ codes ") ["
      ++ session.primary_app
      ++ codes "] ---\n"
      ++ print_events session.events
      ++ codes "\n"

  -- The loop over the sessions, from a number on.
  print_sessions : ℕ → List Session → Text
  unfolding print_session
  print_sessions number [] = []
  print_sessions number (session ∷ sessions) =
      print_session number session ++ print_sessions (suc number) sessions

  -- The output of `cmd_timeline`.
  unfoldable pub print_timeline : Text → Timeline → Text
  unfolding print_sessions
  print_timeline day timeline =
      10 ∷ 240 ∷ 159 ∷ 147 ∷ 133 ∷ codes " Timeline: "
      ++ (if text_eq day (codes "yesterday") then codes "Yesterday" else codes "Today")
      ++ codes "\n   "
      ++ format_timestamp localtime timeline.period_start
      ++ codes " - "
      ++ format_timestamp localtime timeline.period_end
      ++ codes "\n   "
      ++ decimal (total_events timeline)
      ++ codes " event(s) in "
      ++ decimal (length timeline.sessions)
      ++ codes " session(s)\n\n"
      ++ print_sessions 1 timeline.sessions

-- The output of `cmd_stats` for its three numbers.
unfoldable pub print_stats : ℕ × ℕ × ℕ → Text
print_stats (stored, indexed, keywords) =
    10 ∷ 240 ∷ 159 ∷ 147 ∷ 138 ∷ codes " MindTrace Statistics\n   Total events:     "
    ++ decimal stored
    ++ codes "\n   Indexed events:   "
    ++ decimal indexed
    ++ codes "\n   Unique keywords:  "
    ++ decimal keywords
    ++ codes "\n\n"

-- `docs_path` where the platform is not Windows. `none` is a null pointer made a path.
unfoldable pub docs_path : (Text → Text → Text) → Option Text → Option Text
docs_path join none = none
docs_path join (some home) = some (join home (codes "Documents"))

-- What `cmd_daemon` prints before its collectors start.
unfoldable pub daemon_opening : Text → Text
daemon_opening path =
    10
      ∷ 240
      ∷ 159
      ∷ 154
      ∷ 128
      ∷ codes " Starting MindTrace Background Daemon...\n   Watching directory: "
    ++ path
    ++ codes "\n\n"

-- What it prints when they have started, before they are stopped, and after that.
unfoldable pub daemon_ready : Text
daemon_ready = codes "   (Daemon running. Press Ctrl+C to stop tracking)\n\n"

unfoldable pub daemon_leaving : Text
daemon_leaving = codes "\n   Shutting down collectors gracefully...\n"

unfoldable pub daemon_left : Text
daemon_left = codes "   Daemon stopped.\n\n"

-- By the number of a signal and the flag: what is printed, and the flag. SIGINT is 2.
unfoldable pub signal_handler : ℕ → Bool → Text × Bool
signal_handler signal running =
    if signal == 2
    then (codes "\n[!] Caught interrupt signal, stopping mindtrace daemon...\n", false)
    else ([], running)
