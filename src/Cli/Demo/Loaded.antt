-- ===== src/Cli/Demo/Loaded.antt =====
-- `cmd_demo` of apps/cli/main.cpp over the event store: the loop comes to its end, and what it has stored.
use mathlib.Core.List.{append-nil, append_assoc, map-append}
use mind_trace.Base.{ℕ, ◌≡◌, refl, ap, ◌∙◌, sym, true, List, [], ◌∷◌, ◌++◌, map, some, All}
use mind_trace.Base.Text.{Text}
use mind_trace.Event.{ActivityEvent}
use mind_trace.Index.{InvertedIndex, add}
use mind_trace.Base.Int64.{cast64}
use mind_trace.Json.{Json, IsJson}
use mind_trace.Storage.Listing.{strip, strip-SameEvent}
use mind_trace.Storage.Sqlite.{Values, Sqlite, IsTable}
use mind_trace.Storage.EventStore.{bind_event, meta_str, insert_event, save, event_store}
use mind_trace.Storage.EventStore.Rows.{events}
use mind_trace.Storage.EventStore.Saving.{IsPlain, step_insert-Adds}
use mind_trace.Cli.Demo.{load_rest, load}

module _ {J : Type 0} (json : Json J) where
  -- The metadata can be written as a text.
  abbrev pub IsWritable : ActivityEvent → Type 0
  IsWritable e = (t : Text) × (meta_str json e ≡ some t)

module _ {J : Type 0} (json : Json J) (laws : IsJson json) {D : Type 0} {sqlite : Sqlite D}
    (table : IsTable sqlite) (prepares : (d : D) → sqlite.prepares_insert d ≡ true)
    (inserts : (d : D) (v : Values) → (d' : D) × (sqlite.step_insert d v ≡ some d')) where
  -- The stored events but for ids and metadata.
  abbrev contents : D → List ActivityEvent
  contents d = map strip (events json table d)

  save-some :
      (d : D) (e : ActivityEvent)
      → IsPlain e
      → IsWritable json e
      → (id : ℕ) × (d' : D) × (save json sqlite d e ≡ some (id, d'))
        × (contents d' ≡ contents d ++ strip e ∷ [])
  unfolding save insert_event
  save-some d e plain (t, written) =
      let (d', done) = inserts d (bind_event e t) in
      let (c, grown, same) = step_insert-Adds json laws table d e t d' plain written done in
      (
        cast64 (sqlite.last_insert_rowid d'),
        d',
        rw (prepares d, written, done) refl,
        ap (map strip) grown
            ∙ map-append strip (events json table d) (c ∷ [])
            ∙ ap (λ x. contents d ++ x ∷ []) (strip-SameEvent c e _ same),
      )

  -- The loop of `cmd_demo` comes to its end, and has stored its events in their order.
  pub load-some :
      (es : List ActivityEvent) (d : D) (index : InvertedIndex)
      → All IsPlain es
      → All (IsWritable json) es
      → (d' : D) × (index' : InvertedIndex) × (load (event_store json sqlite) es d index
          ≡ some (d', index'))
        × (contents d' ≡ contents d ++ map strip es)
  unfolding load load_rest event_store
  load-some [] d index plain written = (d, index, refl, sym (append-nil (contents d)))
  load-some (e ∷ es) d index (plain, plains) (written, writtens) =
      let (id, d1, saved, one) = save-some d e plain written in
      let (d', index', loaded, more) =
        load-some es d1 (add index (record e { id = id })) plains writtens in
      (
        d',
        index',
        rw saved loaded,
        more
            ∙ ap (λ l. l ++ map strip es) one
            ∙ append_assoc (contents d) (strip e ∷ []) (map strip es),
      )
