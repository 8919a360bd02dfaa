-- ===== src/Tests/PipelineTests.antt =====
-- Runs and theorems of Queue and Pipeline at concrete inputs.
use mind_trace.Base.{
  ℕ, ◌+◌, ◌*◌, ◌≤◌, ◌≡◌, ◌⊎◌, refl, false, List, [], ◌∷◌, ◌++◌, some, length, arith, ap,
  length-perm,
}
use mind_trace.Base.Text.{codes}
use mind_trace.Base.Words.{add64}
use mind_trace.Event.{ActivityEvent}
use mind_trace.Queue.{ConcurrentQueue, new_queue, pop, push, pop_for}
use mind_trace.Queue.History.{Call, pushes, tries, pops, waits, stops, put_in, run_fifo, pop_waits}
use mind_trace.Queue.History
use mind_trace.Index.{empty}
use mind_trace.Pipeline.{
  EventPipeline, PipelineStage, idle, waiting, busy, Action, submits, starts, stops_queue, joins,
  works, test_flag, stop_queue, add_stage, set_storage, set_index, new_pipeline, step, submit,
  start, request_stop, join, take, finish, worker_step, new_workers, worker_at, set_worker,
}
use mind_trace.Pipeline.Conservation.{tally, flow, run, submitted}
use mind_trace.Pipeline.{saved}
use mind_trace.Pipeline.Ledger.{run_counts, run_index}
use mind_trace.Pipeline.Saves.{run_saves, stored, staged}
use mind_trace.Pipeline.Persistence.{run_persists, contents, kept_of, IsMeasure}
use mind_trace.Storage.EventStore.{event_store}
use mind_trace.Tests.SampleJson.{sample_json, sample_json-IsJson}
use mind_trace.Tests.SampleStore.{Connection, sample_sqlite, sample_table}
use mind_trace.Tests.StoreTests.{with_visit}
use mind_trace.Pipeline.Stopping.{AllTaken, IsPopped, Unfinished, stop_terminates}
use mind_trace.Queue
use mind_trace.Tests.{edit, visit, in_memory}

abbrev calls : List (Call ℕ)
calls = pushes 1 ∷ pushes 2 ∷ waits ∷ stops ∷ pops ∷ tries ∷ []

run_fifo_example :
    (History.run new_queue calls).0 ++ (History.run new_queue calls).1.queue
    ≡ new_queue.queue ++ put_in calls
run_fifo_example = run_fifo new_queue calls

normalize : PipelineStage
normalize event = (record event { content = codes "[NORMALIZED]" ++ event.content }, false)

-- Two workers, one stage, an empty storage and an empty index.
abbrev pool : EventPipeline (List ActivityEvent)
pool = set_index (set_storage (add_stage (new_pipeline 2) normalize) (some [])) (some empty)

-- Two events; the second worker overtakes the first, and the pool stops.
abbrev busy_day : List (Action in_memory)
busy_day =
    starts
    ∷ submits edit
    ∷ submits visit
    ∷ works 0
    ∷ works 1
    ∷ works 0
    ∷ works 1
    ∷ works 1
    ∷ Action.stops
    ∷ stops_queue
    ∷ works 0
    ∷ works 0
    ∷ works 1
    ∷ joins
    ∷ []

both_processed : (run in_memory pool busy_day).processed_count ≡ 2
unfolding run step submit start request_stop stop_queue join test_flag take worker_step finish
    new_workers worker_at set_worker push pop_for Queue.stop add64 new_pipeline set_index
    set_storage add_stage new_queue
both_processed = refl

run_counts_example :
    (run in_memory pool busy_day).processed_count + flow (λ e. 1) (run in_memory pool busy_day)
    ≡ pool.processed_count + flow (λ e. 1) pool + length (submitted in_memory busy_day)
unfolding new_pipeline set_index set_storage add_stage new_queue
run_counts_example = run_counts in_memory pool busy_day (omega arith)

run_index_example : (run in_memory pool busy_day).index ≡ pool.index
unfolding new_pipeline set_index set_storage add_stage
run_index_example = run_index in_memory pool busy_day (omega arith)

appends :
    (s : List ActivityEvent) (e : ActivityEvent)
    → saved in_memory (in_memory.save s e) s ≡ s ++ e ∷ []
unfolding saved
appends s e = refl

run_saves_example :
    tally (λ e. e.id) (stored (λ s. s) (run in_memory pool busy_day).storage)
      + flow (staged (λ e. e ∷ []) (λ e. e.id) pool.stages) (run in_memory pool busy_day)
    ≡ tally (λ e. e.id) (stored (λ s. s) pool.storage)
      + flow (staged (λ e. e ∷ []) (λ e. e.id) pool.stages) pool
      + tally (staged (λ e. e ∷ []) (λ e. e.id) pool.stages) (submitted in_memory busy_day)
unfolding new_pipeline set_index set_storage add_stage
run_saves_example =
    run_saves in_memory (λ s. s) (λ e. e ∷ []) appends (λ e. e.id) pool busy_day (omega arith) tt

-- The same over the store with one visit.
abbrev store_pool : EventPipeline Connection
store_pool = add_stage (set_storage (new_pipeline 2) (some with_visit)) normalize

abbrev store_day : List (Action (event_store sample_json sample_sqlite))
store_day = starts ∷ submits edit ∷ submits visit ∷ works 0 ∷ works 1 ∷ works 1 ∷ works 1 ∷ []

abbrev stored_rows : Connection → List ActivityEvent
stored_rows = contents sample_json sample_json-IsJson sample_table (λ d. refl) (λ d v. (_, refl))

-- The length of the content, and a hundred for each entry of the metadata.
abbrev weight : ActivityEvent → ℕ
weight e = length e.content + 100 * length e.metadata

weight-IsMeasure : IsMeasure weight
weight-IsMeasure a b (_, _, _, _, x, same) = omega (arith, ap length x, length-perm same)

run_persists_example :
    let after = run (event_store sample_json sample_sqlite) store_pool store_day in
    let on_the_way = flow (staged (kept_of sample_json) weight store_pool.stages) in
    tally weight (stored stored_rows after.storage) + on_the_way after
    ≡ tally weight (stored stored_rows store_pool.storage)
      + on_the_way store_pool
      + tally
          (staged (kept_of sample_json) weight store_pool.stages)
          (submitted (event_store sample_json sample_sqlite) store_day)
unfolding new_pipeline set_storage add_stage
run_persists_example =
    run_persists sample_json sample_json-IsJson sample_table (λ d. refl) (λ d v. (_, refl)) weight
      weight-IsMeasure store_pool store_day (omega arith) tt

-- A pool whose flag is down while one worker has an event and the other is in `pop_for`; of two events
-- in the queue and one that is still submitted, one is popped.
abbrev winding_down : EventPipeline (List ActivityEvent)
winding_down = record pool {
  workers = busy visit ∷ waiting ∷ [];
  queue = record { queue = edit ∷ visit ∷ []; stopped = false };
  stopping = 1;
}

abbrev wind_up : List (Action in_memory)
wind_up = works 1 ∷ stops_queue ∷ works 0 ∷ submits edit ∷ works 1 ∷ works 0 ∷ works 1 ∷ joins ∷ []

wind_up-AllTaken : AllTaken in_memory winding_down wind_up
unfolding step submit stop_queue push take test_flag finish join worker_step new_pipeline set_index
    set_storage add_stage worker_at set_worker pop_for Queue.stop add64
wind_up-AllTaken = (
  (waiting, refl, refl),
  (
    tt,
    (
      (busy visit, refl, refl),
      (tt, ((busy edit, refl, refl), ((idle, refl, refl), ((idle, refl, refl), (tt, tt))))),
    ),
  ),
)

stop_terminates_example :
    let q = run in_memory winding_down wind_up in
    (5 ≤ 3 * 2)
    × IsPopped (edit ∷ visit ∷ []) (edit ∷ []) q.queue.queue 1
    × ((join q ≡ some (record q { workers = [] })) ⊎ ((i : ℕ) × Unfinished i q.workers))
unfolding new_pipeline set_index set_storage add_stage
stop_terminates_example = stop_terminates in_memory wind_up winding_down refl wind_up-AllTaken
