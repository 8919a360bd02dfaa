-- ===== src/Tests/CliTests.antt =====
-- Theorems of Cli at concrete inputs.
use mind_trace.Base.{
  ℕ, ◌+◌, ◌≡◌, ◌≢◌, ◌≤◌, refl, true, false, ◌++◌, keep, Perm, ◌&&◌, ◌==◌, List, [], ◌∷◌, some, all,
  any, all-keep, length, ltb, leb, arith,
}
use mind_trace.Base.Eq.{nat_eq, string_eq}
use mind_trace.Base.Int64.{cast64}
use mind_trace.Base.Text.{Text, codes, contains, to_lower, words, is_alnum}
use mind_trace.Base.Sort.{insertion_sorter}
use mind_trace.Base.Words.{u64_mod}
use mind_trace.Event.{ActivityEvent, is_long_enough}
use mind_trace.Timeline.Runs.{events_of, Grouped}
use mind_trace.Storage.EventStore.{event_store, row_to_event, bind_event}
use mind_trace.Storage.EventStore.Rows.{events}
use mind_trace.Search.Parser.{
  parse, resolve_event_type, resolve_time_expression, resolve_date, resolve_work_hours,
  extract_query_keywords, mentions_work, is_stop_word, stop_words, clean_query_word, resolve_day,
  days,
}
use mind_trace.Search.Planner.{plan}
use mind_trace.Search.Executor.{more_recent}
use mind_trace.Search.Executor.Results.{has_id}
use mind_trace.Search.Executor.Relevance.{relevant}
use mind_trace.Base.Sort.{Sorted}
use mind_trace.Cli.{cmd_timeline, rebuild_index, cmd_search}
use mind_trace.Cli.Daemon.{Daemon, Step, saves, adds, run}
use mind_trace.Cli.Daemon.Sync.{InSync, run-InSync}
use mind_trace.Cli.Unindexed.{cmd_search_most_recent}
use mind_trace.Index.{empty}
use mind_trace.Cli.Searching.{is_past, uses_index, rebuild_index-InSync, cmd_search-InSync}
use mind_trace.Tests.SampleJson.{sample_json, sample_json-IsJson}
use mind_trace.Tests.SampleStore.{Connection, sample_sqlite, sample_table}
use mind_trace.Tests.StoreTests.{with_visit, visit-IsPlain, edit-IsPlain, visit_is_dated}
use mind_trace.Cli.Periods.{is_of_day, cmd_timeline_lem}
use mind_trace.Tests.{noon, edit, visit, history, in_memory}

history_bounded :
    (start end : ℕ)
    → all (λ e. ltb e.timestamp u64_mod) (in_memory.find_by_time_range history start end) ≡ true
history_bounded start end =
    all-keep (λ (e : ActivityEvent). leb start e.timestamp && leb e.timestamp end)
      (λ e. ltb e.timestamp u64_mod) history refl

-- Walks the hash map in the order of the list.
abbrev pub in_order : List (Text × ℕ) → List (Text × ℕ)
in_order m = m

cmd_timeline_lem_example :
    let timeline =
      cmd_timeline in_memory 1800 in_order insertion_sorter (codes "today") noon history in
    (all (λ e. is_of_day (codes "today") noon e.timestamp) (events_of timeline.sessions) ≡ true)
    × Grouped 1800 in_order timeline.sessions
cmd_timeline_lem_example =
    cmd_timeline_lem in_memory history history_bounded 1800 in_order insertion_sorter
      (codes "today") noon (omega arith) (omega arith)

-- An hour after noon.
abbrev pub later : ℕ
later = noon + 3600

abbrev rebuilt : Daemon Connection
rebuilt = record {
  store = with_visit;
  index = rebuild_index (event_store sample_json sample_sqlite) with_visit later;
  pending = [];
}

pub with_visit-is_past : is_past sample_json sample_table later with_visit ≡ true
unfolding row_to_event bind_event cast64
with_visit-is_past = refl

rebuilt-InSync : InSync sample_json sample_table rebuilt
rebuilt-InSync =
    rebuild_index-InSync sample_json sample_table with_visit later (omega arith) with_visit-is_past

-- Two collectors: the second event is saved before the first is indexed.
abbrev interleaved : List Step
interleaved = saves edit ∷ saves visit ∷ adds 1 ∷ adds 0 ∷ []

run-InSync_example :
    InSync sample_json sample_table
      (run (event_store sample_json sample_sqlite) rebuilt interleaved)
run-InSync_example =
    run-InSync sample_json sample_json-IsJson sample_table interleaved rebuilt
      (edit-IsPlain, (visit-IsPlain, (tt, (tt, tt)))) rebuilt-InSync

pub templates_uses_index : uses_index (plan (parse later later (codes "templates"))) ≡ true
unfolding plan parse resolve_event_type resolve_time_expression resolve_date resolve_work_hours
    contains extract_query_keywords to_lower mentions_work is_stop_word stop_words clean_query_word
    words is_alnum resolve_day days is_long_enough
templates_uses_index = refl

cmd_search-InSync_example :
    (found : List ActivityEvent) × (cmd_search
        (event_store sample_json sample_sqlite)
        insertion_sorter
        insertion_sorter
        later
        later
        later
        (codes "templates")
        with_visit
        rebuilt.index
      ≡ some found)
    × Sorted more_recent found
    × ((j : ℕ)
        → has_id j found
          ≡ any
              (λ e. relevant (plan (parse later later (codes "templates"))) e && e.id == j)
              (events sample_json sample_table with_visit))
cmd_search-InSync_example =
    cmd_search-InSync sample_json sample_table rebuilt insertion_sorter insertion_sorter later later
      later (codes "templates") rebuilt-InSync refl templates_uses_index

stop_word_plan :
    let p = plan (parse later later (codes "the")) in
    (uses_index p ≡ false) × (p.use_type_filter ≡ false)
unfolding plan parse resolve_event_type resolve_time_expression resolve_date resolve_work_hours
    contains extract_query_keywords to_lower mentions_work is_stop_word stop_words clean_query_word
    words is_alnum resolve_day days is_long_enough
stop_word_plan = (refl, refl)

cmd_search_most_recent_example :
    (found : List ActivityEvent) × (older : List ActivityEvent) × (cmd_search
        (event_store sample_json sample_sqlite)
        insertion_sorter
        insertion_sorter
        later
        later
        later
        (codes "the")
        with_visit
        empty
      ≡ some found)
    × Perm
        (found ++ older)
        (keep (λ e. leb e.timestamp later) (events sample_json sample_table with_visit))
    × Sorted more_recent (found ++ older)
    × (length found ≤ 100)
    × (older ≢ [] → length found ≡ 100)
cmd_search_most_recent_example =
    cmd_search_most_recent sample_json sample_table with_visit empty insertion_sorter
      insertion_sorter later later later (codes "the") stop_word_plan.0 stop_word_plan.1
      (omega arith) visit_is_dated
