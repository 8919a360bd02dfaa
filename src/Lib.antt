-- ===== src/Lib.antt =====
-- MindTrace records what a user does on a computer and makes it searchable. The development models its
-- C++ code; paths are from the repository's root.
--
-- The parts and how they interact. Collectors watch files, the browser and the focused window and send
-- events to a callback (src/collectors). The callback of the daemon, or the event pipeline, saves events
-- in a storage behind the interface `EventRepository`; the command line adds the stored events to an
-- inverted index in memory. A search parses a query in words, plans it, intersects the sets of ids that
-- the index finds, fetches the events from the storage, and sorts them. A timeline groups events into
-- sessions.
--
-- Files and code.
--   Base: shared names, lists over the native numbers, texts, sorting, hash maps and sets, uint64_t.
--   Common: include/common/utils.hpp (truncate and the formats of times); Common.Config:
--     include/common/config.hpp.
--   Event: include/core/event/activity_event.hpp, src/core/event/activity_event.cpp (EventType,
--     ActivityEvent, event_type_to_string, string_to_event_type, extract_keywords); Event.Serial: to_json
--     and from_json of the same files.
--   Index: src/core/indexing/inverted_index.cpp (add, search_keyword, search_time_range,
--     search_application, counts, clear); `add_all` is the rebuild in apps/cli/main.cpp.
--   Storage: include/core/storage/event_repository.hpp. Storage.EventStore: its implementation,
--     include/core/storage/event_store.hpp and src/core/storage/event_store.cpp; Contract is what a
--     collection of events promises to a caller, and Calls are calls of its methods with their answers.
--   Json, Storage.Sqlite: what the code uses of nlohmann::json and of SQLite, as parameters.
--   Search.Parser, Search.Planner, Search.Executor: src/search/query_parser.cpp, query_planner.cpp and
--     query_executor.cpp.
--   Timeline: src/timeline/timeline_builder.cpp.
--   Queue: include/core/pipeline/concurrent_queue.hpp.
--   Pipeline: src/core/pipeline/event_pipeline.cpp, over any storage; Persistence: over the event store.
--   Collectors: include/collectors/collector_base.hpp and, in its child modules,
--     src/collectors/browser_collector.cpp, filesystem_collector.cpp, window_focus_collector.cpp and
--     clipboard_collector.cpp; WindowFocus.Thread: start, stop and the message loop of the window focus
--     collector on Windows, WindowFocus.Stub: start and stop elsewhere.
--   Cli: apps/cli/main.cpp (the arguments, cmd_search, cmd_timeline, cmd_stats and the rebuild of the
--     index); Cli.Daemon: the callback of cmd_daemon; Cli.Daemon.Session: cmd_daemon with its threads and
--     the signal; Cli.Demo: the events that cmd_demo loads; Cli.Output: what is printed; and
--     Cli.Output.Program: main, its output, its status, and the store and the index it leaves.
-- The definitions of a part stand in the file with its name, its theorems in the files of its folder,
-- and Tests applies theorems at concrete inputs. Functions keep the names of the code; a member function
-- takes the state of its object and returns the new one.
--
-- Choices. A `std::string` is the list of its bytes; `tolower`, `isalnum` and `isspace` are those of the
-- C locale. Hash sets and maps are lists without repetition, and no theorem depends on their order;
-- where the code's result depends on it, the order is an argument (`walk` of Timeline). `std::sort` is a
-- `Sorter`: any function that permutes and sorts. Readings of clocks are arguments. A method under a
-- mutex is one step; threads are sequences of such steps. Sums and differences of `uint64_t` wrap at
-- 2^64 (`add64`, `sub64`, `mul64`). A null pointer and an absent value are `none`; so is an exception
-- where it leaves the function, while a caught one leaves the state as it was; `save_batch`, which
-- changes the state before it throws, returns the state with whether it returned. A `sqlite3_int64` i
-- stands as the natural number i + 2^63, so that comparisons are those of signed numbers, and `cast64`
-- is the conversion from and to `uint64_t`.
-- A callback of the daemon takes two steps, one under the mutex of the store and one under that of the
-- index, and those of several collectors interleave in any order. In Cli.Daemon.Session and in
-- Collectors.WindowFocus.Thread the threads are a step relation: a thread that waits has no step, and a
-- collector of the session has stopped when its thread has ended.
-- The loop over hours, `scan_buckets`, has a bound on its rounds, `suc end_bucket - start_bucket`, which
-- is the number of hours from the first to the last; after them the loop's test is false. All other
-- loops are structural recursion; a loop that a flag ends has one element of a list for each round.
--
-- Parameters. The clients of the storage take an `EventRepository`. The event store takes a `Json`, with
-- the laws `IsJson`, and a `Sqlite`, one operation for each statement that the code runs, with the laws
-- `IsTable`: they state what the two libraries document of these operations (a map is read back in some
-- order; an insertion adds a row with the id that is reported; a query keeps the rows that meet its
-- condition, in the order that it asks for; outside a transaction a change is durable at once, inside
-- it when it is committed). A statement that is refused leaves the connection as it was. Tests holds a model of each with these laws. SQLite's answer to the query
-- for visits, what the directory iterator yields, and what Win32 answers are arguments, and so are
-- `localtime_r`, the path operator of std::filesystem, and the variables of the environment.
--
-- Not modelled: what LIKE matches, so that of find_by_keyword only the pattern is told; the moves and the
-- destructor of the event store, which handle its pointer; errors of SQLite that roll a transaction back
-- by themselves; the text of its schema, which SQLite reads; the making of directories and of the
-- console, the flushing of streams and the logger, which only call libraries; the place that the output
-- of the callbacks of several threads has in that of the daemon; and where the browser keeps its history.
pub mod Base
pub mod Common
pub mod Event
pub mod Index
pub mod Json
pub mod Storage
pub mod Search
pub mod Timeline
pub mod Queue
pub mod Pipeline
pub mod Collectors
pub mod Cli
mod Tests
