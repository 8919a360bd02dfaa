-- ===== src/Pipeline/Persistence.antt =====
-- The pipeline of src/core/pipeline/event_pipeline.cpp over the store of
-- src/core/storage/event_store.cpp: what is in the database in the end.
use mathlib.Core.List.{map-append}
use mind_trace.Base.{
  ℕ, ◌+◌, arith, ◌<◌, ◌≡◌, refl, ap, ◌∙◌, true, List, [], ◌∷◌, map, Option, none, some,
}
use mind_trace.Base.Words.{u64_mod}
use mind_trace.Base.Text.{Text}
use mind_trace.Event.{ActivityEvent, SameEvent}
use mind_trace.Json.{Json, IsJson}
use mind_trace.Storage.Sqlite.{Values, Sqlite, IsTable}
use mind_trace.Storage.EventStore.{bind_event, meta_str, insert_event, save, event_store}
use mind_trace.Storage.EventStore.Rows.{events}
use mind_trace.Storage.EventStore.Contract.{cut}
use mind_trace.Storage.EventStore.Additions.{step_insert-Adds-cut}
use mind_trace.Pipeline.{EventPipeline, Action, saved}
use mind_trace.Pipeline.Conservation.{tally, tally-append, flow, run, submitted}
use mind_trace.Pipeline.Saves.{stored, IsAttached, staged, saves_run}

abbrev pub unnumbered : ActivityEvent → ActivityEvent
unnumbered e = record e { id = 0 }

-- What the store keeps of an event: nothing when its metadata cannot be written.
abbrev written : ActivityEvent → Option Text → List ActivityEvent
written e none = []
written e (some t) = unnumbered (cut e) ∷ []

module _ {J : Type 0} (json : Json J) where
  abbrev pub kept_of : ActivityEvent → List ActivityEvent
  kept_of e = written e (meta_str json e)

-- A measure of events that does not see in which order the metadata of an event are listed.
abbrev pub IsMeasure : (ActivityEvent → ℕ) → Type 0
IsMeasure f = (a b : ActivityEvent) → SameEvent a b → f a ≡ f b

SameEvent-unnumbered :
    (a b : ActivityEvent) (i : ℕ)
    → SameEvent a (record b { id = i })
    → SameEvent (unnumbered a) (unnumbered b)
SameEvent-unnumbered a b i (_, t, u, s, x, m) = (refl, t, u, s, x, m)

module _ {J : Type 0} (json : Json J) (laws : IsJson json) {D : Type 0} {sqlite : Sqlite D}
    (table : IsTable sqlite) (prepares : (d : D) → sqlite.prepares_insert d ≡ true)
    (inserts : (d : D) (v : Values) → (d' : D) × (sqlite.step_insert d v ≡ some d')) where
  -- The stored events but for their ids.
  abbrev pub contents : D → List ActivityEvent
  contents d = map unnumbered (events json table d)

  module _ (f : ActivityEvent → ℕ) (measure : IsMeasure f) where
    keeps_inserted :
        (d : D) (e : ActivityEvent) (o : Option Text)
        → meta_str json e ≡ o
        → tally f (contents (saved (event_store json sqlite) (insert_event json sqlite d e o) d))
          ≡ tally f (contents d) + tally f (written e o)
    unfolding insert_event saved
    keeps_inserted d e none h = omega arith
    keeps_inserted d e (some t) h =
        let (d', done) = inserts d (bind_event e t) in
        let (c, grown, same) = step_insert-Adds-cut json laws table d e t d' h done in
        let stored = events json table d in
        rw done (
          ap (λ l. tally f (map unnumbered l)) grown
          ∙ ap (tally f) (map-append unnumbered stored (c ∷ []))
          ∙ tally-append f (map unnumbered stored) (unnumbered c ∷ [])
          ∙ ap (λ n. tally f (map unnumbered stored) + (n + 0))
              (measure (unnumbered c) (unnumbered (cut e)) (SameEvent-unnumbered c (cut e) _ same)))

    keeps_event :
        (d : D) (e : ActivityEvent)
        → tally f
            (contents (saved (event_store json sqlite) ((event_store json sqlite).save d e) d))
          ≡ tally f (contents d) + tally f (kept_of json e)
    unfolding event_store save
    keeps_event d e = rw (prepares d) (keeps_inserted d e (meta_str json e) refl)

  -- Over any interleaving of submissions, workers, starts and stops, every submitted event whose
  -- metadata can be written is in the database once, with its time, its type, its metadata, and its
  -- source and content up to their first byte 0, all as the stages leave them, or still on its way;
  -- nothing else is added. So tells every measure `f` of events that does not see in which order the
  -- metadata of an event are listed. Conditions: no insertion fails, the pipeline has a store, and its
  -- count is below 2^64 at the start.
  pub run_persists :
      (f : ActivityEvent → ℕ)
      → IsMeasure f
      → (p : EventPipeline D) (history : List (Action (event_store json sqlite)))
      → p.processed_count < u64_mod
      → IsAttached p.storage
      → let after = run (event_store json sqlite) p history in
        let on_the_way = flow (staged (kept_of json) f p.stages) in
        tally f (stored contents after.storage) + on_the_way after
        ≡ tally f (stored contents p.storage)
          + on_the_way p
          + tally (staged (kept_of json) f p.stages) (submitted (event_store json sqlite) history)
  run_persists f measure p history h at =
      saves_run (event_store json sqlite) contents (kept_of json) f (keeps_event f measure) p.stages
        p history h refl at
