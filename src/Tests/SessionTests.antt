-- ===== src/Tests/SessionTests.antt =====
-- Theorems of Cli.Daemon.Session at concrete inputs.
use mathlib.Core.List.Perm
use mind_trace.Base.{◌≡◌, refl, Bool, true, false, []}
use mind_trace.Event.{ActivityEvent}
use mind_trace.Index.{empty, add, add_all}
use mind_trace.Storage.EventStore.{event_store}
use mind_trace.Storage.EventStore.Saving.{IsPlain}
use mind_trace.Cli.Daemon.Sync.{InSync}
use mind_trace.Cli.Daemon.Session.{
  Collector, window, browser, files, left, set_active, DaemonSession, starts, is_interrupted,
  sees_flag, stops, saves, adds, Reach, here, next, called,
}
use mind_trace.Cli.Daemon.Session.Settled.{session_settled}
use mind_trace.Tests.{visit}
use mind_trace.Tests.SampleJson.{sample_json, sample_json-IsJson}
use mind_trace.Tests.SampleStore.{Connection, opened, sample_sqlite, sample_table}
use mind_trace.Tests.StoreTests.{with_visit, visit-IsPlain, saves_visit}

abbrev SendsPlain : Collector → ActivityEvent → Type 0
SendsPlain c e = IsPlain e

abbrev all_active : Collector → Bool
all_active = set_active files true (set_active browser true (set_active window true (λ c. false)))

-- A visit is saved before the signal and indexed after it.
abbrev settled : DaemonSession Connection
settled = record {
  daemon_running = false;
  phase = left;
  active = set_active files false (set_active browser false (set_active window false all_active));
  store = with_visit;
  index = add empty (record visit { id = 1 });
  in_hand = [];
}

reaches_settled :
    Reach (event_store sample_json sample_sqlite) SendsPlain (called opened empty) settled
unfolding event_store
reaches_settled =
    let watched =
      next (next (next here (starts window refl)) (starts browser refl)) (starts files refl) in
    let saved =
      next watched (saves browser visit 1 with_visit visit-IsPlain refl refl saves_visit) in
    let interrupted = next (next saved is_interrupted) (sees_flag refl refl) in
    let indexed =
      next (next interrupted (stops window refl refl))
        (adds [] browser (record visit { id = 1 }) [] refl) in
    next (next indexed (stops browser refl refl)) (stops files refl refl)

opened-InSync :
    InSync sample_json sample_table (record { store = opened; index = empty; pending = [] })
unfolding add_all
opened-InSync = ([], refl, Perm.refl [])

session_settled_example :
    (settled.daemon_running ≡ false)
    × ((c : Collector) → settled.active c ≡ false)
    × InSync sample_json sample_table
        (record { store = settled.store; index = settled.index; pending = [] })
session_settled_example =
    session_settled sample_json sample_json-IsJson sample_table SendsPlain (λ c e sent. sent) opened
      empty settled opened-InSync reaches_settled refl
