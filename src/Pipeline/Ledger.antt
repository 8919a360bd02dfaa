-- ===== src/Pipeline/Ledger.antt =====
-- The counter and the index over the steps of src/core/pipeline/event_pipeline.cpp.
use mind_trace.Base.{
  ℕ, ◌+◌, ◌%◌, ◌<◌, ◌≡◌, refl, ap, ◌∙◌, List, [], ◌∷◌, ◌++◌, Option, none, some, arith, length,
  length-append,
}
use mind_trace.Base.Words.{add64, u64_mod}
use mind_trace.Event.{ActivityEvent}
use mind_trace.Storage.{EventRepository}
use mind_trace.Pipeline.{
  EventPipeline, Worker, idle, waiting, busy, done, Action, submits, starts, stops, stops_queue,
  joins, works, run_stages, worker_at, submit, test_flag, take, save_event, finish, work,
  worker_step, step,
}
use mind_trace.Pipeline.Conservation.{
  tally, flow, flow-step, run, submitted, entered, finished, event_of, Fixed, take-Fixed,
  test_flag-Fixed, stop_queue-Fixed, start-Fixed, stop-Fixed, step-join-Fixed,
}

length-tally : (xs : List ActivityEvent) → tally (λ e. 1) xs ≡ length xs
length-tally [] = refl
length-tally (x ∷ xs) = omega (arith, length-tally xs)

module _ {S : Type 0} (repository : EventRepository S) where
  -- The events run through the stages and saved, one after the other.
  abbrev pub save_all : EventPipeline S → Option S → List ActivityEvent → Option S
  save_all p storage [] = storage
  save_all p storage (e ∷ es) =
      save_all p (save_event repository storage (run_stages p.stages e)) es

  -- What a step does that finishes the events `es`.
  abbrev pub Effect : EventPipeline S → List ActivityEvent → EventPipeline S → Type 0
  Effect p es q =
      (q.stages ≡ p.stages)
      × (q.index ≡ p.index)
      × (q.storage ≡ save_all p p.storage es)
      × (q.processed_count ≡ (p.processed_count + length es) % u64_mod)

  module _ (p : EventPipeline S) (fits : p.processed_count < u64_mod) where
    Effect-of_Fixed : (q : EventPipeline S) → Fixed repository p q → Effect p [] q
    Effect-of_Fixed q (a, b, c, d) = (a, b, c, omega arith)

    work-Effect :
        (i : ℕ) (w : Option Worker) → Effect p (event_of repository w) (work repository p i w)
    unfolding work finish add64
    work-Effect i none = Effect-of_Fixed p (refl, refl, refl, refl)
    work-Effect i (some idle) = Effect-of_Fixed (test_flag p i) (test_flag-Fixed repository p i)
    work-Effect i (some waiting) = Effect-of_Fixed (take p i) (take-Fixed repository p i)
    work-Effect i (some (busy e)) = (refl, refl, refl, refl)
    work-Effect i (some done) = Effect-of_Fixed p (refl, refl, refl, refl)

    pub step-Effect :
        (a : Action repository) → Effect p (finished repository p a) (step repository p a)
    unfolding step submit worker_step
    step-Effect (submits e) = Effect-of_Fixed (submit p e) (refl, refl, refl, refl)
    step-Effect starts = Effect-of_Fixed (step repository p starts) (start-Fixed repository p)
    step-Effect stops = Effect-of_Fixed (step repository p stops) (stop-Fixed repository p)
    step-Effect stops_queue =
        Effect-of_Fixed (step repository p stops_queue) (stop_queue-Fixed repository p)
    step-Effect joins = Effect-of_Fixed (step repository p joins) (step-join-Fixed repository p)
    step-Effect (works i) = work-Effect i (worker_at i p.workers)

  pub submitted-cons :
      (a : Action repository) (later : List (Action repository))
      → submitted repository (a ∷ later) ≡ entered repository a ++ submitted repository later
  submitted-cons (submits e) later = refl
  submitted-cons _ later = refl

  -- No event is lost or counted twice: over any interleaving of submissions, starts, stops and workers,
  -- the number of processed events, of those in the hands of workers and of those in the queue grow
  -- together by the number of submitted events. Condition: all these are below 2^64.
  pub run_counts :
      (p : EventPipeline S) (history : List (Action repository))
      → p.processed_count + flow (λ e. 1) p + length (submitted repository history) < u64_mod
      → (run repository p history).processed_count + flow (λ e. 1) (run repository p history)
        ≡ p.processed_count + flow (λ e. 1) p + length (submitted repository history)
  unfolding run
  run_counts p [] h = omega arith
  run_counts p (a ∷ later) h =
      let q = step repository p a in
      let fits : p.processed_count < u64_mod = omega arith in
      let moved = flow-step repository (λ e. 1) p a in
      let counted = (step-Effect p fits a).3 in
      let split : length (submitted repository (a ∷ later))
          ≡ length (entered repository a) + length (submitted repository later) =
        ap length (submitted-cons a later)
        ∙ length-append (entered repository a) (submitted repository later) in
      let same : q.processed_count + flow (λ e. 1) q
          ≡ p.processed_count + flow (λ e. 1) p + length (entered repository a) =
        omega (
          arith,
          moved,
          counted,
          length-tally (entered repository a),
          length-tally (finished repository p a),
        ) in
      omega (arith, same, split, run_counts q later (omega (arith, same, split)))

  -- No step of any thread writes the index that `set_index` gave: it stays as it is, however many
  -- events are processed. Condition: the count of processed events is below 2^64 at the start.
  pub run_index :
      (p : EventPipeline S) (history : List (Action repository))
      → p.processed_count < u64_mod
      → (run repository p history).index ≡ p.index
  unfolding run
  run_index p [] h = refl
  run_index p (a ∷ later) h =
      let effect = step-Effect p h a in
      run_index (step repository p a) later (omega (arith, effect.3)) ∙ effect.1
