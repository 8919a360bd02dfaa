-- ===== src/Pipeline.antt =====
-- include/core/pipeline/event_pipeline.hpp and src/core/pipeline/event_pipeline.cpp: workers that take
-- events from the queue, run the stages, and save. Threads are interleavings of steps: a worker reads
-- the flag in one step, pops in another (the queue's mutex), and finishes an event in a third (the
-- storage's mutex, the atomic counter); `stop` lowers the flag in one step, stops the queue in another,
-- and has joined the workers in a third.
pub mod Conservation
pub mod Ledger
pub mod Saves
pub mod Persistence
pub mod Stopping
use mind_trace.Base.{
  ℕ, zero, suc, ◌+◌, Bool, true, false, not, ◌&&◌, List, [], ◌∷◌, ◌++◌, Option, none, some,
  if◌then◌else◌, all, length,
}
use mind_trace.Base.Text.{Text}
use mind_trace.Base.Words.{add64}
use mind_trace.Event.{ActivityEvent, extract_keywords}
use mind_trace.Index.{InvertedIndex}
use mind_trace.Storage.{EventRepository}
use mind_trace.Queue.{ConcurrentQueue, new_queue, push, pop_for}
use mind_trace.Queue

-- A stage writes to the event. The flag tells that it ends by an exception, with the event as it is by
-- then.
abbrev pub PipelineStage : Type 0
PipelineStage = ActivityEvent → ActivityEvent × Bool

-- A thread of the pool: before the test of its loop, in `pop_for`, with an event, or at its end.
pub data Worker : Type 0 where
  idle : Worker
  waiting : Worker
  busy : ActivityEvent → Worker
  done : Worker

-- `stopping` counts the calls of `stop` that have lowered the flag and not yet stopped the queue.
pub record EventPipeline (S : Type 0) : Type 0 where
  pub queue : ConcurrentQueue ActivityEvent
  pub stages : List PipelineStage
  pub workers : List Worker
  pub storage : Option S
  pub index : Option InvertedIndex
  pub processed_count : ℕ
  pub running : Bool
  pub stopping : ℕ
  pub num_workers : ℕ

unfoldable pub new_workers : ℕ → List Worker
new_workers zero = []
new_workers (suc n) = idle ∷ new_workers n

-- The loop over the stages. An exception is caught and logged, and the next stage runs.
unfoldable pub run_stages : List PipelineStage → ActivityEvent → ActivityEvent
run_stages [] event = event
run_stages (stage ∷ stages) event = run_stages stages (stage event).0

abbrev pub is_done : Worker → Bool
is_done done = true
is_done idle = false
is_done waiting = false
is_done (busy event) = false

-- The event of a worker that is given, and the workers with this one replaced.
unfoldable pub worker_at : ℕ → List Worker → Option Worker
worker_at i [] = none
worker_at zero (w ∷ ws) = some w
worker_at (suc i) (w ∷ ws) = worker_at i ws

unfoldable pub set_worker : ℕ → Worker → List Worker → List Worker
set_worker i v [] = []
set_worker zero v (w ∷ ws) = v ∷ ws
set_worker (suc i) v (w ∷ ws) = w ∷ set_worker i v ws

module _ {S : Type 0} where
  -- The constructor.
  unfoldable pub new_pipeline : ℕ → EventPipeline S
  new_pipeline n = record {
    queue = new_queue;
    stages = [];
    workers = [];
    storage = none;
    index = none;
    processed_count = 0;
    running = false;
    stopping = 0;
    num_workers = n;
  }

  unfoldable pub add_stage : EventPipeline S → PipelineStage → EventPipeline S
  add_stage p stage = record p { stages = p.stages ++ stage ∷ [] }

  unfoldable pub set_storage : EventPipeline S → Option S → EventPipeline S
  set_storage p storage = record p { storage = storage }

  unfoldable pub set_index : EventPipeline S → Option InvertedIndex → EventPipeline S
  set_index p index = record p { index = index }

  unfoldable pub submit : EventPipeline S → ActivityEvent → EventPipeline S
  submit p event = record p { queue = push p.queue event }

  unfoldable pub start : EventPipeline S → EventPipeline S
  start p =
      if p.running
      then p
      else record p { running = true; workers = p.workers ++ new_workers p.num_workers }

  -- `stop` up to the exchange of the flag.
  unfoldable pub request_stop : EventPipeline S → EventPipeline S
  request_stop p = if p.running then record p { running = false; stopping = suc p.stopping } else p

  stop_one : EventPipeline S → ℕ → EventPipeline S
  stop_one p zero = p
  stop_one p (suc n) = record p { stopping = n; queue = Queue.stop p.queue }

  -- `queue_.stop()` in a call of `stop` that has lowered the flag.
  unfoldable pub stop_queue : EventPipeline S → EventPipeline S
  unfolding stop_one
  stop_queue p = stop_one p p.stopping

  -- The rest of `stop`, once every worker has ended.
  unfoldable pub join : EventPipeline S → Option (EventPipeline S)
  join p = if all is_done p.workers then some (record p { workers = [] }) else none

  -- `while (running_.load())` in a worker.
  unfoldable pub test_flag : EventPipeline S → ℕ → EventPipeline S
  test_flag p i = record p {
    workers = set_worker i (if p.running then waiting else done) p.workers;
  }

  -- What `pop_for` gives; without an event the loop goes on.
  taken :
      EventPipeline S → ℕ → Option ActivityEvent × ConcurrentQueue ActivityEvent → EventPipeline S
  taken p i (none, q) = record p { queue = q; workers = set_worker i idle p.workers }
  taken p i (some event, q) = record p { queue = q; workers = set_worker i (busy event) p.workers }

  unfoldable pub take : EventPipeline S → ℕ → EventPipeline S
  unfolding taken
  take p i = taken p i (pop_for p.queue)

  module _ (repository : EventRepository S) where
    -- `storage_->save(event)`; an exception is caught and logged.
    unfoldable pub saved : Option (ℕ × S) → S → S
    saved none s = s
    saved (some (id, s')) s = s'

    pub save_event : Option S → ActivityEvent → Option S
    unfolding saved
    save_event none event = none
    save_event (some s) event = some (saved (repository.save s event) s)

    -- The body of the loop for one event. With an index, the keywords are computed and dropped: the
    -- index is not written.
    unfoldable pub finish : EventPipeline S → ℕ → ActivityEvent → EventPipeline S
    unfolding save_event
    finish p i event = record p {
      storage = save_event p.storage (run_stages p.stages event);
      processed_count = add64 p.processed_count 1;
      workers = set_worker i idle p.workers;
    }

    -- One step of a worker, by what it is at.
    work : EventPipeline S → ℕ → Option Worker → EventPipeline S
    work p i none = p
    work p i (some idle) = test_flag p i
    work p i (some waiting) = take p i
    work p i (some (busy event)) = finish p i event
    work p i (some done) = p

    unfoldable pub worker_step : EventPipeline S → ℕ → EventPipeline S
    unfolding work
    worker_step p i = work p i (worker_at i p.workers)

    pub data Action : Type 0 where
      submits : ActivityEvent → Action
      starts stops stops_queue joins : Action
      works : ℕ → Action

    -- A `join` that waits leaves the pipeline as it is.
    after_join : EventPipeline S → Option (EventPipeline S) → EventPipeline S
    after_join p none = p
    after_join p (some q) = q

    unfoldable pub step : EventPipeline S → Action → EventPipeline S
    unfolding after_join
    step p (submits event) = submit p event
    step p starts = start p
    step p stops = request_stop p
    step p stops_queue = stop_queue p
    step p joins = after_join p (join p)
    step p (works i) = worker_step p i
