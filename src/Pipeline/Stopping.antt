-- ===== src/Pipeline/Stopping.antt =====
-- `stop` of src/core/pipeline/event_pipeline.cpp: what the workers still do once the flag is down.
use mathlib.Core.List.{append-nil, append_assoc}
use mind_trace.Base.{
  ℕ, zero, suc, ◌+◌, ◌*◌, ◌≤◌, ◌≡◌, ◌⊎◌, inl, inr, refl, sym, ap, ◌∙◌, Bool, true, false, List, [],
  ◌∷◌, ◌++◌, Option, none, some, arith, if◌then◌else◌, all, length, length-append,
}
use mind_trace.Event.{ActivityEvent}
use mind_trace.Storage.{EventRepository}
use mind_trace.Queue.{ConcurrentQueue, push, pop_for}
use mind_trace.Queue
use mind_trace.Queue.History.{Waited, pop_for-Waited}
use mind_trace.Pipeline.{
  EventPipeline, Worker, idle, waiting, busy, done, Action, submits, starts, stops, stops_queue,
  joins, works, is_done, worker_at, set_worker, submit, request_stop, stop_one, stop_queue, join,
  test_flag, taken, take, finish, work, worker_step, after_join, step,
}
use mind_trace.Pipeline.Conservation.{run, submitted, entered}
use mind_trace.Pipeline.Ledger.{submitted-cons}

-- The steps that a worker still takes once the flag is down, and the events that it still pops.
abbrev steps_left : Worker → ℕ
steps_left idle = 1
steps_left waiting = 3
steps_left (busy e) = 2
steps_left done = 0

abbrev pops_left : Worker → ℕ
pops_left idle = 0
pops_left waiting = 1
pops_left (busy e) = 0
pops_left done = 0

abbrev sum_of : (Worker → ℕ) → List Worker → ℕ
sum_of m [] = 0
sum_of m (w ∷ ws) = m w + sum_of m ws

-- The workers that are past the test of the flag and have not popped.
abbrev pub count_waiting : List Worker → ℕ
count_waiting = sum_of pops_left

sum_of-steps_left : (ws : List Worker) → sum_of steps_left ws ≤ 3 * length ws
sum_of-steps_left [] = omega arith
sum_of-steps_left (idle ∷ ws) = omega (arith, sum_of-steps_left ws)
sum_of-steps_left (waiting ∷ ws) = omega (arith, sum_of-steps_left ws)
sum_of-steps_left (busy e ∷ ws) = omega (arith, sum_of-steps_left ws)
sum_of-steps_left (done ∷ ws) = omega (arith, sum_of-steps_left ws)

sum_of-set_worker :
    (m : Worker → ℕ) (i : ℕ) (v w : Worker) (ws : List Worker)
    → worker_at i ws ≡ some w
    → sum_of m (set_worker i v ws) + m w ≡ sum_of m ws + m v
unfolding worker_at set_worker
sum_of-set_worker m i v w [] h = cc
sum_of-set_worker m zero v w (x ∷ ws) h = let e : x ≡ w = cc in rw e (omega arith)
sum_of-set_worker m (suc i) v w (x ∷ ws) h = omega (arith, sum_of-set_worker m i v w ws h)

-- A worker that has not ended, or all have.
abbrev pub Unfinished : ℕ → List Worker → Type 0
Unfinished i ws = (w : Worker) × (worker_at i ws ≡ some w) × (is_done w ≡ false)

some-Unfinished : (ws : List Worker) → (all is_done ws ≡ true) ⊎ ((i : ℕ) × Unfinished i ws)
unfolding worker_at
some-Unfinished [] = inl refl
some-Unfinished (idle ∷ ws) = inr (0, (idle, refl, refl))
some-Unfinished (waiting ∷ ws) = inr (0, (waiting, refl, refl))
some-Unfinished (busy e ∷ ws) = inr (0, (busy e, refl, refl))
some-Unfinished (done ∷ ws) = elim (some-Unfinished ws) [
  | inl h ↦ inl h
  | inr (i, (w, h, k)) ↦ inr (suc i, (w, h, k))
]

-- From `xs` at one end and `new` at the other, at most `n` events are popped.
abbrev pub IsPopped : List ActivityEvent → List ActivityEvent → List ActivityEvent → ℕ → Type 0
IsPopped xs new ys n =
    (popped : List ActivityEvent) × (xs ++ new ≡ popped ++ ys) × (length popped ≤ n)

module _ {S : Type 0} (repository : EventRepository S) where
  abbrev pub worked : Action repository → ℕ
  worked (works i) = 1
  worked _ = 0

  -- The steps of workers in a history.
  abbrev pub all_worked : List (Action repository) → ℕ
  all_worked [] = 0
  all_worked (a ∷ later) = worked a + all_worked later

  -- The pipeline is not started, and a step of a worker is one of a worker that has not ended.
  abbrev IsTaken : EventPipeline S → Action repository → Type 0
  IsTaken p (works i) = Unfinished i p.workers
  IsTaken p starts = ⊥
  IsTaken p _ = Unit

  abbrev pub AllTaken : EventPipeline S → List (Action repository) → Type 0
  AllTaken p [] = Unit
  AllTaken p (a ∷ later) = IsTaken p a × AllTaken (step repository p a) later

  -- A step with the flag down.
  abbrev Winds : EventPipeline S → ℕ → List ActivityEvent → EventPipeline S → Type 0
  Winds p n new q =
      (sum_of steps_left q.workers + n ≤ sum_of steps_left p.workers)
      × ((popped : List ActivityEvent) × (p.queue.queue ++ new ≡ popped ++ q.queue.queue)
          × (length popped + count_waiting q.workers ≤ count_waiting p.workers))
      × (q.running ≡ false)

  taken-Winds :
      (p : EventPipeline S) (i : ℕ) (r : Option ActivityEvent × ConcurrentQueue ActivityEvent)
      → p.running ≡ false
      → worker_at i p.workers ≡ some waiting
      → Waited p.queue.queue r
      → Winds p 1 [] (taken p i r)
  unfolding taken
  taken-Winds p i (none, q) down at (inl (_, e)) = (
    omega (arith, sum_of-set_worker steps_left i idle waiting p.workers at),
    (
      [],
      append-nil p.queue.queue ∙ sym e,
      omega (arith, sum_of-set_worker pops_left i idle waiting p.workers at),
    ),
    down,
  )
  taken-Winds p i (none, q) down at (inr (x, e, _)) = cc
  taken-Winds p i (some x, q) down at (inl (e, _)) = cc
  taken-Winds p i (some x, q) down at (inr (y, e, k)) = (
    omega (arith, sum_of-set_worker steps_left i (busy x) waiting p.workers at),
    (
      y ∷ [],
      append-nil p.queue.queue ∙ k,
      omega (arith, sum_of-set_worker pops_left i (busy x) waiting p.workers at),
    ),
    down,
  )

  -- A worker that gets on with the queue as it is.
  moved-Winds :
      (p q : EventPipeline S) (i : ℕ) (v w : Worker)
      → worker_at i p.workers ≡ some w
      → q.workers ≡ set_worker i v p.workers
      → q.queue ≡ p.queue
      → q.running ≡ false
      → steps_left v + 1 ≤ steps_left w
      → pops_left v ≤ pops_left w
      → Winds p 1 [] q
  moved-Winds p q i v w at moved same down fewer less = (
    omega (
      arith,
      sum_of-set_worker steps_left i v w p.workers at,
      ap (sum_of steps_left) moved,
      fewer,
    ),
    (
      [],
      append-nil p.queue.queue ∙ ap (λ (c : ConcurrentQueue ActivityEvent). c.queue) (sym same),
      omega (
        arith,
        sum_of-set_worker pops_left i v w p.workers at,
        ap (sum_of pops_left) moved,
        less,
      ),
    ),
    down,
  )

  work-Winds :
      (p : EventPipeline S) (i : ℕ) (w : Worker)
      → p.running ≡ false
      → worker_at i p.workers ≡ some w
      → is_done w ≡ false
      → Winds p 1 [] (work repository p i (some w))
  unfolding work test_flag take finish
  work-Winds p i idle down at h =
      moved-Winds p (test_flag p i) i done idle at (rw down refl) refl down (omega arith)
        (omega arith)
  work-Winds p i waiting down at h =
      taken-Winds p i (pop_for p.queue) down at (pop_for-Waited p.queue)
  work-Winds p i (busy e) down at h =
      moved-Winds p (finish repository p i e) i idle (busy e) at refl refl down (omega arith)
        (omega arith)
  work-Winds p i done down at h = cc

  worker_step-Winds :
      (p : EventPipeline S) (i : ℕ)
      → p.running ≡ false
      → Unfinished i p.workers
      → Winds p 1 [] (worker_step repository p i)
  unfolding worker_step
  worker_step-Winds p i down (w, at, h) = rw at (work-Winds p i w down at h)

  same-Winds : (p : EventPipeline S) → p.running ≡ false → Winds p 0 [] p
  same-Winds p down = (omega arith, ([], append-nil p.queue.queue, omega arith), down)

  unless_running :
      (b : Bool) (p x : EventPipeline S)
      → p.running ≡ false
      → b ≡ false
      → Winds p 0 [] (if b then x else p)
  unless_running true p x down h = cc
  unless_running false p x down h = same-Winds p down

  request_stop-Winds : (p : EventPipeline S) → p.running ≡ false → Winds p 0 [] (request_stop p)
  unfolding request_stop
  request_stop-Winds p down =
      unless_running p.running p (record p { running = false; stopping = suc p.stopping }) down down

  stop_one-Winds : (p : EventPipeline S) (n : ℕ) → p.running ≡ false → Winds p 0 [] (stop_one p n)
  unfolding stop_one Queue.stop
  stop_one-Winds p zero down = same-Winds p down
  stop_one-Winds p (suc n) down = same-Winds p down

  join-Winds :
      (p : EventPipeline S) (b : Bool)
      → p.running ≡ false
      → Winds p 0 []
          (after_join repository p (if b then some (record p { workers = [] }) else none))
  unfolding after_join
  join-Winds p true down = (omega arith, ([], append-nil p.queue.queue, omega arith), down)
  join-Winds p false down = same-Winds p down

  step-Winds :
      (p : EventPipeline S) (a : Action repository)
      → p.running ≡ false
      → IsTaken p a
      → Winds p (worked a) (entered repository a) (step repository p a)
  unfolding step submit push stop_queue join
  step-Winds p (submits e) down h = (omega arith, ([], refl, omega arith), down)
  step-Winds p starts down h = absurd h
  step-Winds p stops down h = request_stop-Winds p down
  step-Winds p stops_queue down h = stop_one-Winds p p.stopping down
  step-Winds p joins down h = join-Winds p (all is_done p.workers) down
  step-Winds p (works i) down h = worker_step-Winds p i down h

  run-Winds :
      (history : List (Action repository)) (p : EventPipeline S)
      → p.running ≡ false
      → AllTaken p history
      → Winds p (all_worked history) (submitted repository history) (run repository p history)
  unfolding run
  run-Winds [] p down h = same-Winds p down
  run-Winds (a ∷ later) p down (h, hs) =
      let q = step repository p a in
      let (fewer, (first, split, less), still_down) = step-Winds p a down h in
      let (fewer', (rest, split', less'), down') = run-Winds later q still_down hs in
      (
        omega (arith, fewer, fewer'),
        (
          first ++ rest,
          ap (λ l. p.queue.queue ++ l) (submitted-cons repository a later)
              ∙ sym (append_assoc p.queue.queue (entered repository a) (submitted repository later))
              ∙ ap (λ l. l ++ submitted repository later) split
              ∙ append_assoc first q.queue.queue (submitted repository later)
              ∙ ap (λ l. first ++ l) split'
              ∙ sym (append_assoc first rest _),
          omega (arith, length-append first rest, less, less'),
        ),
        down',
      )

  -- `stop` comes to its end, whatever the order of the threads and however many events are still
  -- submitted, unless the pipeline is started again: once the flag is down, the workers take at most
  -- three steps each; and at any time either all have ended and the joins return, or one of them has a
  -- step to take. Of the queue only the front is taken, at most one event for each worker that had
  -- passed the test of the flag and not yet popped; all others stay, with those submitted later.
  pub stop_terminates :
      (history : List (Action repository)) (p : EventPipeline S)
      → p.running ≡ false
      → AllTaken p history
      → let q = run repository p history in
        (all_worked history ≤ 3 * length p.workers)
        × IsPopped p.queue.queue
            (submitted repository history)
            q.queue.queue
            (count_waiting p.workers)
        × ((join q ≡ some (record q { workers = [] })) ⊎ ((i : ℕ) × Unfinished i q.workers))
  unfolding join
  stop_terminates history p down taken_all =
      let q = run repository p history in
      let (fewer, (popped, split, less), _) = run-Winds history p down taken_all in
      (
        omega (arith, fewer, sum_of-steps_left p.workers),
        (popped, split, omega (arith, less)),
        elim (some-Unfinished q.workers) [ inl h ↦ inl (rw h refl) | inr u ↦ inr u ],
      )
