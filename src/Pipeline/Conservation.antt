-- ===== src/Pipeline/Conservation.antt =====
-- What becomes of the events that are submitted to the pipeline of
-- src/core/pipeline/event_pipeline.cpp, over any interleaving of its threads.
use mind_trace.Base.{
  ℕ, zero, suc, ◌+◌, ◌≡◌, refl, ap, Bool, true, false, List, [], ◌∷◌, ◌++◌, Option, none, some,
  arith, inl, inr, Bool-cases, if◌then◌else◌, all,
}
use mind_trace.Event.{ActivityEvent}
use mind_trace.Storage.{EventRepository}
use mind_trace.Queue.{ConcurrentQueue, push, pop_for}
use mind_trace.Queue
use mind_trace.Queue.History.{Waited, pop_for-Waited}
use mind_trace.Pipeline.{
  EventPipeline, Worker, idle, waiting, busy, done, Action, submits, starts, stops, stops_queue,
  joins, works, new_workers, is_done, worker_at, set_worker, submit, start, request_stop, stop_one,
  stop_queue, join, test_flag, taken, take, finish, work, worker_step, after_join, step,
}

-- The sum of a measure over a list of events.
abbrev pub tally : (ActivityEvent → ℕ) → List ActivityEvent → ℕ
tally f [] = 0
tally f (e ∷ es) = f e + tally f es

pub tally-append :
    (f : ActivityEvent → ℕ) (xs ys : List ActivityEvent)
    → tally f (xs ++ ys) ≡ tally f xs + tally f ys
tally-append f [] ys = omega arith
tally-append f (x ∷ xs) ys = omega (arith, tally-append f xs ys)

abbrev at_work : (ActivityEvent → ℕ) → Worker → ℕ
at_work f idle = 0
at_work f waiting = 0
at_work f (busy event) = f event
at_work f done = 0

-- The same over the events that workers have in hand.
abbrev pub in_hand : (ActivityEvent → ℕ) → List Worker → ℕ
in_hand f [] = 0
in_hand f (w ∷ ws) = at_work f w + in_hand f ws

in_hand-append :
    (f : ActivityEvent → ℕ) (vs ws : List Worker)
    → in_hand f (vs ++ ws) ≡ in_hand f vs + in_hand f ws
in_hand-append f [] ws = omega arith
in_hand-append f (v ∷ vs) ws = omega (arith, in_hand-append f vs ws)

in_hand-new_workers : (f : ActivityEvent → ℕ) (n : ℕ) → in_hand f (new_workers n) ≡ 0
unfolding new_workers
in_hand-new_workers f zero = refl
in_hand-new_workers f (suc n) = omega (arith, in_hand-new_workers f n)

in_hand_done : (f : ActivityEvent → ℕ) (ws : List Worker) → all is_done ws ≡ true → in_hand f ws ≡ 0
in_hand_done f [] h = refl
in_hand_done f (idle ∷ ws) h = cc
in_hand_done f (waiting ∷ ws) h = cc
in_hand_done f (busy e ∷ ws) h = cc
in_hand_done f (done ∷ ws) h = omega (arith, in_hand_done f ws h)

in_hand-set_worker :
    (f : ActivityEvent → ℕ) (i : ℕ) (v w : Worker) (ws : List Worker)
    → worker_at i ws ≡ some w
    → in_hand f (set_worker i v ws) + at_work f w ≡ in_hand f ws + at_work f v
unfolding worker_at set_worker
in_hand-set_worker f i v w [] h = cc
in_hand-set_worker f zero v w (x ∷ ws) h = let e : x ≡ w = cc in rw e (omega arith)
in_hand-set_worker f (suc i) v w (x ∷ ws) h = omega (arith, in_hand-set_worker f i v w ws h)

-- What the queue and the workers hold, by a measure of events.
abbrev pub flow : {S : Type 0} → (ActivityEvent → ℕ) → EventPipeline S → ℕ
flow g p = in_hand g p.workers + tally g p.queue.queue

module _ {S : Type 0} (repository : EventRepository S) where
  -- One step after the other.
  unfoldable pub run : EventPipeline S → List (Action repository) → EventPipeline S
  run p [] = p
  run p (a ∷ as_later) = run (step repository p a) as_later

  -- The events that a history submits.
  abbrev pub submitted : List (Action repository) → List ActivityEvent
  submitted [] = []
  submitted (submits e ∷ later) = e ∷ submitted later
  submitted (starts ∷ later) = submitted later
  submitted (stops ∷ later) = submitted later
  submitted (stops_queue ∷ later) = submitted later
  submitted (joins ∷ later) = submitted later
  submitted (works i ∷ later) = submitted later

  -- The event that a step takes in, and the one that it finishes.
  abbrev pub entered : Action repository → List ActivityEvent
  entered (submits e) = e ∷ []
  entered _ = []

  abbrev pub event_of : Option Worker → List ActivityEvent
  event_of none = []
  event_of (some idle) = []
  event_of (some waiting) = []
  event_of (some (busy e)) = e ∷ []
  event_of (some done) = []

  abbrev pub finished : EventPipeline S → Action repository → List ActivityEvent
  finished p (works i) = event_of (worker_at i p.workers)
  finished p _ = []

  module _ (g : ActivityEvent → ℕ) where
    flow-taken :
        (p : EventPipeline S) (i : ℕ) (r : Option ActivityEvent × ConcurrentQueue ActivityEvent)
        → worker_at i p.workers ≡ some waiting
        → Waited p.queue.queue r
        → flow g (taken p i r) ≡ flow g p
    unfolding taken
    flow-taken p i (none, q) h (inl (_, e)) =
        omega (arith, in_hand-set_worker g i idle waiting p.workers h, ap (tally g) e)
    flow-taken p i (none, q) h (inr (x, e, _)) = cc
    flow-taken p i (some x, q) h (inl (e, _)) = cc
    flow-taken p i (some x, q) h (inr (y, e, k)) =
        let same : x ≡ y = cc in
        omega
          (arith, in_hand-set_worker g i (busy x) waiting p.workers h, ap (tally g) k, ap g same)

    at_work_if : (b : Bool) → at_work g (if b then waiting else done) ≡ 0
    at_work_if true = refl
    at_work_if false = refl

    flow-test_flag :
        (p : EventPipeline S) (i : ℕ)
        → worker_at i p.workers ≡ some idle
        → flow g (test_flag p i) ≡ flow g p
    unfolding test_flag
    flow-test_flag p i h = omega (
      arith,
      in_hand-set_worker g i (if p.running then waiting else done) idle p.workers h,
      at_work_if p.running,
    )

    flow-take :
        (p : EventPipeline S) (i : ℕ)
        → worker_at i p.workers ≡ some waiting
        → flow g (take p i) ≡ flow g p
    unfolding take
    flow-take p i h = flow-taken p i (pop_for p.queue) h (pop_for-Waited p.queue)

    flow-stop_one : (p : EventPipeline S) (n : ℕ) → flow g (stop_one p n) ≡ flow g p
    unfolding stop_one Queue.stop
    flow-stop_one p zero = refl
    flow-stop_one p (suc n) = refl

    flow-work :
        (p : EventPipeline S) (i : ℕ) (w : Option Worker)
        → worker_at i p.workers ≡ w
        → flow g (work repository p i w) + tally g (event_of w) ≡ flow g p
    unfolding work finish
    flow-work p i none h = omega arith
    flow-work p i (some idle) h = omega (arith, flow-test_flag p i h)
    flow-work p i (some waiting) h = omega (arith, flow-take p i h)
    flow-work p i (some (busy e)) h =
        omega (arith, in_hand-set_worker g i idle (busy e) p.workers h)
    flow-work p i (some done) h = omega arith

    flow-after_join :
        (p : EventPipeline S) (b : Bool)
        → all is_done p.workers ≡ b
        → flow g (after_join repository p (if b then some (record p { workers = [] }) else none))
          ≡ flow g p
    unfolding after_join
    flow-after_join p true h = omega (arith, in_hand_done g p.workers h)
    flow-after_join p false h = refl

    pub flow-step :
        (p : EventPipeline S) (a : Action repository)
        → flow g (step repository p a) + tally g (finished p a) ≡ flow g p + tally g (entered a)
    unfolding step submit start request_stop stop_queue join worker_step push
    flow-step p (submits e) = omega (arith, tally-append g p.queue.queue (e ∷ []))
    flow-step p starts = elim (Bool-cases p.running) [
      | inl e ↦ rw e
      | inr e ↦ rw e (
          omega (
            arith,
            in_hand-append g p.workers (new_workers p.num_workers),
            in_hand-new_workers g p.num_workers,
          ))
    ]
    flow-step p stops = elim (Bool-cases p.running) [ inl e ↦ rw e | inr e ↦ rw e ]
    flow-step p stops_queue = omega (arith, flow-stop_one p p.stopping)
    flow-step p joins = omega (arith, flow-after_join p (all is_done p.workers) refl)
    flow-step p (works i) = omega (arith, flow-work p i (worker_at i p.workers) refl)

  record_parts :
      (p : EventPipeline S) (i : ℕ) (r : Option ActivityEvent × ConcurrentQueue ActivityEvent)
      → let q = taken p i r in
        (q.stages ≡ p.stages)
        × (q.index ≡ p.index)
        × (q.storage ≡ p.storage)
        × (q.processed_count ≡ p.processed_count)
  unfolding taken
  record_parts p i (none, q) = (refl, refl, refl, refl)
  record_parts p i (some e, q) = (refl, refl, refl, refl)

  -- What only the end of an event changes.
  abbrev pub Fixed : EventPipeline S → EventPipeline S → Type 0
  Fixed p q =
      (q.stages ≡ p.stages)
      × (q.index ≡ p.index)
      × (q.storage ≡ p.storage)
      × (q.processed_count ≡ p.processed_count)

  pub Fixed-if :
      (p : EventPipeline S) (b : Bool) (x y : EventPipeline S)
      → Fixed p x
      → Fixed p y
      → Fixed p (if b then x else y)
  Fixed-if p true x y h k = h
  Fixed-if p false x y h k = k

  pub take-Fixed : (p : EventPipeline S) (i : ℕ) → Fixed p (take p i)
  unfolding take
  take-Fixed p i = record_parts p i (pop_for p.queue)

  pub test_flag-Fixed : (p : EventPipeline S) (i : ℕ) → Fixed p (test_flag p i)
  unfolding test_flag
  test_flag-Fixed p i = (refl, refl, refl, refl)

  after_join-Fixed :
      (p : EventPipeline S) (b : Bool)
      → Fixed p (after_join repository p (if b then some (record p { workers = [] }) else none))
  unfolding after_join
  after_join-Fixed p true = (refl, refl, refl, refl)
  after_join-Fixed p false = (refl, refl, refl, refl)

  join-Fixed : (p : EventPipeline S) → Fixed p (after_join repository p (join p))
  unfolding join
  join-Fixed p = after_join-Fixed p (all is_done p.workers)

  -- The steps that finish no event.
  pub start-Fixed : (p : EventPipeline S) → Fixed p (step repository p starts)
  unfolding step start
  start-Fixed p = Fixed-if p p.running _ _ (refl, refl, refl, refl) (refl, refl, refl, refl)

  pub stop-Fixed : (p : EventPipeline S) → Fixed p (step repository p stops)
  unfolding step request_stop
  stop-Fixed p = Fixed-if p p.running _ _ (refl, refl, refl, refl) (refl, refl, refl, refl)

  stop_one-Fixed : (p : EventPipeline S) (n : ℕ) → Fixed p (stop_one p n)
  unfolding stop_one
  stop_one-Fixed p zero = (refl, refl, refl, refl)
  stop_one-Fixed p (suc n) = (refl, refl, refl, refl)

  pub stop_queue-Fixed : (p : EventPipeline S) → Fixed p (step repository p stops_queue)
  unfolding step stop_queue
  stop_queue-Fixed p = stop_one-Fixed p p.stopping

  pub step-join-Fixed : (p : EventPipeline S) → Fixed p (step repository p joins)
  unfolding step
  step-join-Fixed p = join-Fixed p
