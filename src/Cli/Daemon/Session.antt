-- ===== src/Cli/Daemon/Session.antt =====
-- `cmd_daemon` of apps/cli/main.cpp from its first collector to its return, and `signal_handler`: the
-- main thread and one thread for each collector as steps that interleave. A collector runs one
-- callback at a time, which saves an event in one step and indexes it in another; its `stop` has
-- returned when its thread has ended. An exception of `save` ends the process and is no step. What a
-- collector sends is an argument.
pub mod Settled
use mind_trace.Base.{
  ℕ, ◌≡◌, Bool, true, false, not, ◌&&◌, List, [], ◌∷◌, ◌++◌, map, any, Option, some, if◌then◌else◌,
}
use mind_trace.Event.{ActivityEvent}
use mind_trace.Index.{InvertedIndex, add}
use mind_trace.Storage.{EventRepository}
use mind_trace.Cli.Daemon.{Daemon}

pub data Collector : Type 0 where
  window browser files : Collector

abbrev pub is_same : Collector → Collector → Bool
is_same window window = true
is_same browser browser = true
is_same files files = true
is_same _ _ = false

-- Where the main thread stands: before the `start` or the `stop` of a collector, in its loop, or past
-- all of these.
pub data Phase : Type 0 where
  starting : Collector → Phase
  watching : Phase
  stopping : Collector → Phase
  left : Phase

-- The collectors are started in this order, and stopped in the same one.
abbrev pub after_start : Collector → Phase
after_start window = starting browser
after_start browser = starting files
after_start files = watching

abbrev pub after_stop : Collector → Phase
after_stop window = stopping browser
after_stop browser = stopping files
after_stop files = left

-- A map from collectors with another value for one.
abbrev pub set_active : Collector → Bool → (Collector → Bool) → Collector → Bool
set_active c b active other = if is_same c other then b else active other

-- `daemon_running` is the flag; `active` are the collectors with a thread; `in_hand` are the events
-- that a callback has saved and not yet indexed.
pub record DaemonSession (S : Type 0) : Type 0 where
  pub daemon_running : Bool
  pub phase : Phase
  pub active : Collector → Bool
  pub store : S
  pub index : InvertedIndex
  pub in_hand : List (Collector × ActivityEvent)

-- The collector is in a callback.
abbrev pub is_busy : Collector → List (Collector × ActivityEvent) → Bool
is_busy c in_hand = any (λ x. is_same c x.0) in_hand

module _ {S : Type 0} (repository : EventRepository S)
    (sends : Collector → ActivityEvent → Type 0) where
  pub data Step (s : DaemonSession S) : DaemonSession S → Type 0 where
    starts :
        (c : Collector)
        → s.phase ≡ starting c
        → Step s (record s { phase = after_start c; active = set_active c true s.active })
    is_interrupted : Step s (record s { daemon_running = false })
    sees_flag :
        s.phase ≡ watching
        → s.daemon_running ≡ false
        → Step s (record s { phase = stopping window })
    stops :
        (c : Collector)
        → s.phase ≡ stopping c
        → is_busy c s.in_hand ≡ false
        → Step s (record s { phase = after_stop c; active = set_active c false s.active })
    saves :
        (c : Collector) (e : ActivityEvent) (id : ℕ) (store : S)
        → sends c e
        → s.active c ≡ true
        → is_busy c s.in_hand ≡ false
        → repository.save s.store e ≡ some (id, store)
        → Step s (record s { store = store; in_hand = s.in_hand ++ (c, record e { id = id }) ∷ [] })
    adds :
        (before : List (Collector × ActivityEvent)) (c : Collector) (e : ActivityEvent)
        (after : List (Collector × ActivityEvent))
        → s.in_hand ≡ before ++ (c, e) ∷ after
        → Step s (record s { index = add s.index e; in_hand = before ++ after })

  pub data Reach (s : DaemonSession S) : DaemonSession S → Type 0 where
    here : Reach s s
    next : {t u : DaemonSession S} → Reach s t → Step t u → Reach s u

-- `cmd_daemon` is called with a store and an index.
abbrev pub called : {S : Type 0} → S → InvertedIndex → DaemonSession S
called store index = record {
  daemon_running = true;
  phase = starting window;
  active = λ c. false;
  store = store;
  index = index;
  in_hand = [];
}

-- The store and the index with the events between them.
abbrev pub daemon_of : {S : Type 0} → DaemonSession S → Daemon S
daemon_of s = record { store = s.store; index = s.index; pending = map (λ x. x.1) s.in_hand }
