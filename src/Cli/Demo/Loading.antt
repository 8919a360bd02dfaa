-- ===== src/Cli/Demo/Loading.antt =====
-- What `cmd_demo` of apps/cli/main.cpp leaves in the store and the index.
use mind_trace.Base.{ℕ, zero, ◌≡◌, refl, List, [], ◌∷◌, Option, none, some, All}
use mind_trace.Event.{ActivityEvent}
use mind_trace.Index.{InvertedIndex, add}
use mind_trace.Json.{Json, IsJson}
use mind_trace.Storage.Sqlite.{Sqlite, IsTable}
use mind_trace.Storage.EventStore.{c_str, event_store, save}
use mind_trace.Storage.EventStore.Saving.{IsPlain}
use mind_trace.Cli.Daemon.{Daemon, pick, saved, added}
use mind_trace.Cli.Daemon.Sync.{InSync, saved-InSync, added-InSync}
use mind_trace.Cli.Demo.{demo_events, load_rest, load, cmd_demo}

pub demo_events-IsPlain : (now : ℕ) → All IsPlain (demo_events now)
unfolding demo_events c_str
demo_events-IsPlain now = (
  (refl, refl),
  (
    (refl, refl),
    (
      (refl, refl),
      (
        (refl, refl),
        (
          (refl, refl),
          ((refl, refl), ((refl, refl), ((refl, refl), ((refl, refl), ((refl, refl), tt))))),
        ),
      ),
    ),
  ),
)

abbrev pub daemon : {S : Type 0} → S → InvertedIndex → List ActivityEvent → Daemon S
daemon s index pending = record { store = s; index = index; pending = pending }

module _ {J : Type 0} (json : Json J) (laws : IsJson json) {D : Type 0} {sqlite : Sqlite D}
    (table : IsTable sqlite) where
  -- An event that is saved and then indexed.
  round-InSync :
      (e : ActivityEvent) (s : D) (index : InvertedIndex) (id : ℕ) (s' : D)
      → IsPlain e
      → save json sqlite s e ≡ some (id, s')
      → InSync json table (daemon s index [])
      → InSync json table (daemon s' (add index (record e { id = id })) [])
  unfolding saved added pick
  round-InSync e s index id s' plain h sync =
      added-InSync json laws table (daemon s' index (record e { id = id } ∷ []))
        (some (record e { id = id }, [])) zero refl
        (saved-InSync json laws table (daemon s index []) e (some (id, s')) plain h sync)

  load_rest-InSync :
      (e : ActivityEvent) (rest : D → InvertedIndex → Option (D × InvertedIndex)) (s : D)
      (index : InvertedIndex) (o : Option (ℕ × D)) (s' : D) (index' : InvertedIndex)
      → IsPlain e
      → save json sqlite s e ≡ o
      → InSync json table (daemon s index [])
      → ((s1 : D) (index1 : InvertedIndex)
          → InSync json table (daemon s1 index1 [])
          → rest s1 index1 ≡ some (s', index')
          → InSync json table (daemon s' index' []))
      → load_rest (event_store json sqlite) e rest index o ≡ some (s', index')
      → InSync json table (daemon s' index' [])
  unfolding load_rest
  load_rest-InSync e rest s index none s' index' plain h sync later k = cc
  load_rest-InSync e rest s index (some (id, s1)) s' index' plain h sync later k =
      later s1 (add index (record e { id = id })) (round-InSync e s index id s1 plain h sync) k

  pub load-InSync :
      (es : List ActivityEvent) (s : D) (index : InvertedIndex) (s' : D) (index' : InvertedIndex)
      → All IsPlain es
      → InSync json table (daemon s index [])
      → load (event_store json sqlite) es s index ≡ some (s', index')
      → InSync json table (daemon s' index' [])
  unfolding load event_store
  load-InSync [] s index s' index' plain sync h =
      let same_store : s ≡ s' = cc in
      let same_index : index ≡ index' = cc in rw (← same_store, ← same_index) sync
  load-InSync (e ∷ es) s index s' index' (plain, plain_later) sync h =
      load_rest-InSync e (load (event_store json sqlite) es) s index (save json sqlite s e) s'
        index' plain refl sync
        (λ s1 index1 in_sync. load-InSync es s1 index1 s' index' plain_later in_sync) h

  -- When the demonstration has loaded its events, the index is in step with the store, if it was
  -- before: it has what the store has.
  pub cmd_demo-InSync :
      (now : ℕ) (s : D) (index : InvertedIndex) (s' : D) (index' : InvertedIndex)
      → InSync json table (daemon s index [])
      → cmd_demo (event_store json sqlite) now s index ≡ some (s', index')
      → InSync json table (daemon s' index' [])
  unfolding cmd_demo
  cmd_demo-InSync now s index s' index' sync h =
      load-InSync (demo_events now) s index s' index' (demo_events-IsPlain now) sync h
