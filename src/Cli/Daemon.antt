-- ===== src/Cli/Daemon.antt =====
-- `cmd_daemon` of apps/cli/main.cpp: the callback that the three collectors share, on threads of their
-- own. It saves an event in one step, under the mutex of the store, and adds it to the index in
-- another, under the mutex of the index; `pending` are the events between the two.
pub mod Sync
pub mod Session
use mind_trace.Base.{ℕ, zero, suc, List, [], ◌∷◌, ◌++◌, Option, none, some}
use mind_trace.Event.{ActivityEvent}
use mind_trace.Index.{InvertedIndex, add}
use mind_trace.Storage.{EventRepository}

pub record Daemon (S : Type 0) : Type 0 where
  pub store : S
  pub index : InvertedIndex
  pub pending : List ActivityEvent

pub data Step : Type 0 where
  saves : ActivityEvent → Step
  adds : ℕ → Step

abbrev put_back :
    ActivityEvent
    → Option (ActivityEvent × List ActivityEvent)
    → Option (ActivityEvent × List ActivityEvent)
put_back e none = none
put_back e (some (x, rest)) = some (x, e ∷ rest)

-- The event at a place, with the others.
unfoldable pub pick : ℕ → List ActivityEvent → Option (ActivityEvent × List ActivityEvent)
pick i [] = none
pick zero (e ∷ es) = some (e, es)
pick (suc i) (e ∷ es) = put_back e (pick i es)

module _ {S : Type 0} where
  -- `e.id = id`. An exception of `save` ends the callback.
  unfoldable pub saved : Daemon S → ActivityEvent → Option (ℕ × S) → Daemon S
  saved d e none = d
  saved d e (some (id, s)) = record d {
    store = s;
    pending = d.pending ++ record e { id = id } ∷ [];
  }

  -- `index->add(e)`.
  unfoldable pub added : Daemon S → Option (ActivityEvent × List ActivityEvent) → Daemon S
  added d none = d
  added d (some (e, rest)) = record d { index = add d.index e; pending = rest }

  module _ (repository : EventRepository S) where
    unfoldable pub step : Daemon S → Step → Daemon S
    unfolding saved added
    step d (saves e) = saved d e (repository.save d.store e)
    step d (adds i) = added d (pick i d.pending)

    unfoldable pub run : Daemon S → List Step → Daemon S
    run d [] = d
    run d (a ∷ later) = run (step d a) later
