-- ===== src/Pipeline/Saves.antt =====
-- What the pipeline of src/core/pipeline/event_pipeline.cpp stores.
use mathlib.Core.Path.{subst}
use mind_trace.Base.{
  ℕ, ◌+◌, ◌<◌, ◌≡◌, refl, ap, ◌∙◌, sym, List, [], ◌∷◌, ◌++◌, Option, none, some, arith,
}
use mind_trace.Base.Words.{u64_mod}
use mind_trace.Event.{ActivityEvent}
use mind_trace.Storage.{EventRepository}
use mind_trace.Pipeline.{
  EventPipeline, PipelineStage, Worker, idle, waiting, busy, done, Action, submits, starts, stops,
  stops_queue, joins, works, run_stages, worker_at, saved, save_event, step,
}
use mind_trace.Pipeline.Conservation.{
  tally, tally-append, flow, flow-step, run, submitted, entered, finished, event_of,
}
use mind_trace.Pipeline.Ledger.{save_all, step-Effect, submitted-cons}

-- What a storage holds, by a view of its contents.
abbrev pub stored : {S : Type 0} → (S → List ActivityEvent) → Option S → List ActivityEvent
stored contents none = []
stored contents (some s) = contents s

abbrev pub IsAttached : {S : Type 0} → Option S → Type 0
IsAttached none = ⊥
IsAttached (some s) = Unit {0}

-- The measure of what is kept of an event after the stages.
abbrev pub staged :
    (ActivityEvent → List ActivityEvent)
    → (ActivityEvent → ℕ)
    → List PipelineStage
    → ActivityEvent
    → ℕ
staged kept f stages e = tally f (kept (run_stages stages e))

-- A storage by what it keeps of an event, as a measure of events tells: nothing where `save` throws.
module _ {S : Type 0} (repository : EventRepository S) (contents : S → List ActivityEvent)
    (kept : ActivityEvent → List ActivityEvent) (f : ActivityEvent → ℕ)
    (keeps : (s : S) (e : ActivityEvent)
      → tally f (contents (saved repository (repository.save s e) s))
        ≡ tally f (contents s) + tally f (kept e)) where
  module _ (stages : List PipelineStage) where
    abbrev measure : ActivityEvent → ℕ
    measure = staged kept f stages

    save_event-stored :
        (p : EventPipeline S) (s : S) (e : ActivityEvent)
        → p.stages ≡ stages
        → let after = save_event repository (some s) (run_stages p.stages e) in
          IsAttached after
          × (tally f (stored contents after) ≡ tally f (contents s) + (measure e + 0))
    unfolding save_event
    save_event-stored p s e same = (
      tt,
      keeps s (run_stages p.stages e)
          ∙ ap (λ st. tally f (contents s) + tally f (kept (run_stages st e))) same
          ∙ omega arith,
    )

    save_worker :
        (p : EventPipeline S) (storage : Option S) (w : Option Worker)
        → p.stages ≡ stages
        → IsAttached storage
        → let after = save_all repository p storage (event_of repository w) in
          IsAttached after
          × (tally f (stored contents after)
              ≡ tally f (stored contents storage) + tally measure (event_of repository w))
    save_worker p none w same h = absurd h
    save_worker p (some s) none same h = (tt, omega arith)
    save_worker p (some s) (some idle) same h = (tt, omega arith)
    save_worker p (some s) (some waiting) same h = (tt, omega arith)
    save_worker p (some s) (some (busy e)) same h = save_event-stored p s e same
    save_worker p (some s) (some done) same h = (tt, omega arith)

    save_step :
        (p : EventPipeline S) (a : Action repository)
        → p.stages ≡ stages
        → IsAttached p.storage
        → let after = save_all repository p p.storage (finished repository p a) in
          IsAttached after
          × (tally f (stored contents after)
              ≡ tally f (stored contents p.storage) + tally measure (finished repository p a))
    save_step p (submits e) same h = save_worker p p.storage none same h
    save_step p starts same h = save_worker p p.storage none same h
    save_step p stops same h = save_worker p p.storage none same h
    save_step p stops_queue same h = save_worker p p.storage none same h
    save_step p joins same h = save_worker p p.storage none same h
    save_step p (works i) same h = save_worker p p.storage (worker_at i p.workers) same h

    saves_step :
        (p : EventPipeline S) (a : Action repository)
        → p.processed_count < u64_mod
        → p.stages ≡ stages
        → IsAttached p.storage
        → let q = step repository p a in
          (q.processed_count < u64_mod)
          × (q.stages ≡ stages)
          × IsAttached q.storage
          × (tally f (stored contents q.storage) + flow measure q
              ≡ tally f (stored contents p.storage)
                + flow measure p
                + tally measure (entered repository a))
    saves_step p a h e at =
        let effect = step-Effect repository p h a in
        let (attached, holds) = save_step p a e at in
        (
          omega (arith, effect.3),
          effect.0 ∙ e,
          subst IsAttached (sym effect.2) attached,
          omega (
            arith,
            ap (λ s. tally f (stored contents s)) effect.2,
            holds,
            flow-step repository measure p a,
          ),
        )

    pub saves_run :
        (p : EventPipeline S) (history : List (Action repository))
        → p.processed_count < u64_mod
        → p.stages ≡ stages
        → IsAttached p.storage
        → tally f (stored contents (run repository p history).storage)
            + flow measure (run repository p history)
          ≡ tally f (stored contents p.storage)
            + flow measure p
            + tally measure (submitted repository history)
    unfolding run
    saves_run p [] h e at = omega arith
    saves_run p (a ∷ later) h e at =
        let (h', e', at', here) = saves_step p a h e at in
        omega (
          arith,
          here,
          ap (tally measure) (submitted-cons repository a later),
          tally-append measure (entered repository a) (submitted repository later),
          saves_run (step repository p a) later h' e' at',
        )

-- A storage by what it keeps of an event: nothing where `save` throws.
module _ {S : Type 0} (repository : EventRepository S) (contents : S → List ActivityEvent)
    (kept : ActivityEvent → List ActivityEvent)
    (keeps : (s : S) (e : ActivityEvent)
      → contents (saved repository (repository.save s e) s) ≡ contents s ++ kept e) where
  -- What is kept of every submitted event is stored once, after all stages, or still on its way: over
  -- any interleaving, and by every measure `f` of events, what is stored and what is to be kept of
  -- the events in the hands of workers and in the queue grow together by what is to be kept of the
  -- submitted events. Conditions: a storage is attached, `save` appends what it keeps, nothing where
  -- it throws, and the count of processed events is below 2^64 at the start.
  pub run_saves :
      (f : ActivityEvent → ℕ) (p : EventPipeline S) (history : List (Action repository))
      → p.processed_count < u64_mod
      → IsAttached p.storage
      → tally f (stored contents (run repository p history).storage)
          + flow (staged kept f p.stages) (run repository p history)
        ≡ tally f (stored contents p.storage)
          + flow (staged kept f p.stages) p
          + tally (staged kept f p.stages) (submitted repository history)
  run_saves f p history h at =
      saves_run repository contents kept f
        (λ s e. ap (tally f) (keeps s e) ∙ tally-append f (contents s) (kept e)) p.stages p history
        h refl at
