-- ===== src/Cli/Daemon/Session/Settled.antt =====
-- What holds when `cmd_daemon` of apps/cli/main.cpp returns.
use mathlib.Core.List.{map-append}
use mathlib.Core.List.Perm
use mathlib.Core.Path.{subst}
use mind_trace.Base.{
  ◌≡◌, refl, ◌∙◌, Bool, true, false, not, List, [], ◌∷◌, ◌++◌, map, all, all-append, and_split,
  and_join, some, Perm, map-perm, arith,
}
use mind_trace.Event.{ActivityEvent}
use mind_trace.Index.{InvertedIndex}
use mind_trace.Json.{Json, IsJson}
use mind_trace.Storage.{EventRepository}
use mind_trace.Storage.Sqlite.{Sqlite, IsTable}
use mind_trace.Storage.EventStore.{event_store}
use mind_trace.Storage.EventStore.Saving.{IsPlain}
use mind_trace.Cli.Daemon.{saved}
use mind_trace.Cli.Daemon.Sync.{InSync, saved-InSync, indexed-InSync}
use mind_trace.Cli.Daemon.Session.{
  Collector, window, browser, files, is_same, Phase, starting, watching, stopping, left,
  after_start, after_stop, set_active, DaemonSession, is_busy, Step, starts, is_interrupted,
  sees_flag, stops, saves, adds, Reach, here, next, called, daemon_of,
}

-- The collectors that have no thread when the main thread stands at a place.
abbrev idle_at : Phase → Collector → Bool
idle_at (starting window) c = true
idle_at (starting browser) c = not (is_same window c)
idle_at (starting files) c = is_same files c
idle_at watching c = false
idle_at (stopping window) c = false
idle_at (stopping browser) c = is_same window c
idle_at (stopping files) c = not (is_same files c)
idle_at left c = true

-- The main thread is past its loop.
abbrev is_past_loop : Phase → Bool
is_past_loop (starting c) = false
is_past_loop watching = false
is_past_loop (stopping c) = true
is_past_loop left = true

idle_after_start :
    (c o : Collector) (active : Collector → Bool)
    → (idle_at (starting c) o ≡ true → active o ≡ false)
    → idle_at (after_start c) o ≡ true
    → set_active c true active o ≡ false
idle_after_start window window active h k = ground (arith, h, k)
idle_after_start window browser active h k = h refl
idle_after_start window files active h k = h refl
idle_after_start browser window active h k = ground (arith, h, k)
idle_after_start browser browser active h k = ground (arith, h, k)
idle_after_start browser files active h k = h refl
idle_after_start files o active h k = ground (arith, h, k)

idle_after_stop :
    (c o : Collector) (active : Collector → Bool)
    → (idle_at (stopping c) o ≡ true → active o ≡ false)
    → idle_at (after_stop c) o ≡ true
    → set_active c false active o ≡ false
idle_after_stop window window active h k = refl
idle_after_stop window browser active h k = ground (arith, h, k)
idle_after_stop window files active h k = ground (arith, h, k)
idle_after_stop browser window active h k = h refl
idle_after_stop browser browser active h k = refl
idle_after_stop browser files active h k = ground (arith, h, k)
idle_after_stop files window active h k = h refl
idle_after_stop files browser active h k = h refl
idle_after_stop files files active h k = refl

-- Each event between store and index is in the hands of a collector with a thread; the collectors
-- that are not yet started, or stopped, have none; and the loop is left with the flag down.
pub IsHeld : {S : Type 0} → DaemonSession S → Type 0
IsHeld s =
    (all (λ x. s.active x.0) s.in_hand ≡ true)
    × ((o : Collector) → idle_at s.phase o ≡ true → s.active o ≡ false)
    × (is_past_loop s.phase ≡ true → s.daemon_running ≡ false)

still_held :
    (c : Collector) (active : Collector → Bool) (xs : List (Collector × ActivityEvent))
    → all (λ x. active x.0) xs ≡ true
    → all (λ x. set_active c true active x.0) xs ≡ true
still_held c active [] h = refl
still_held c active (x ∷ xs) h = ground (arith, still_held c active xs)

held_by_others :
    (c : Collector) (active : Collector → Bool) (xs : List (Collector × ActivityEvent))
    → all (λ x. active x.0) xs ≡ true
    → is_busy c xs ≡ false
    → all (λ x. set_active c false active x.0) xs ≡ true
held_by_others c active [] h k = refl
held_by_others c active (x ∷ xs) h k = ground (arith, held_by_others c active xs)

all_but :
    (p : Collector × ActivityEvent → Bool) (x : Collector × ActivityEvent)
    (before after : List (Collector × ActivityEvent))
    → all p (before ++ x ∷ after) ≡ true
    → all p (before ++ after) ≡ true
all_but p x [] after h = (and_split _ _ h).1
all_but p x (y ∷ before) after h = ground (arith, all_but p x before after)

put_in-perm {ℓ} :
    {A : Type ℓ} (x : A) (before after : List A) → Perm (x ∷ before ++ after) (before ++ x ∷ after)
put_in-perm x [] after = Perm.refl (x ∷ after)
put_in-perm x (y ∷ before) after =
    Perm.trans (Perm.swap y x (before ++ after)) (Perm.cons y (put_in-perm x before after))

module _ {S : Type 0} (repository : EventRepository S)
    (sends : Collector → ActivityEvent → Type 0) where
  pub Step-IsHeld : {s t : DaemonSession S} → Step repository sends s t → IsHeld s → IsHeld t
  unfolding IsHeld
  Step-IsHeld {s} (starts c at) (held, idle, flag) = (
    still_held c s.active s.in_hand held,
    λ o. idle_after_start c o s.active (λ i. idle o (rw at i)),
    after_starting c,
  )
    where
      after_starting :
          (c : Collector) → is_past_loop (after_start c) ≡ true → s.daemon_running ≡ false
      after_starting window h = ground (arith, h)
      after_starting browser h = ground (arith, h)
      after_starting files h = ground (arith, h)
  Step-IsHeld is_interrupted (held, idle, flag) = (held, idle, λ p. refl)
  Step-IsHeld {s} (sees_flag at down) (held, idle, flag) =
      (held, λ o k. ground (arith, k), λ p. down)
  Step-IsHeld {s} (stops c at free) (held, idle, flag) = (
    held_by_others c s.active s.in_hand held free,
    λ o. idle_after_stop c o s.active (λ i. idle o (rw at i)),
    λ p. flag (rw at refl),
  )
  Step-IsHeld {s} (saves c e id store sent works free done) (held, idle, flag) = (
    all-append (λ x. s.active x.0) s.in_hand ((c, record e { id = id }) ∷ [])
        ∙ and_join _ _ held (and_join _ _ works refl),
    idle,
    flag,
  )
  Step-IsHeld {s} (adds before c e after split) (held, idle, flag) =
      (all_but (λ x. s.active x.0) (c, e) before after (rw (← split) held), idle, flag)

  Reach-IsHeld : {s t : DaemonSession S} → IsHeld s → Reach repository sends s t → IsHeld t
  Reach-IsHeld held here = held
  Reach-IsHeld held (next r st) = Step-IsHeld st (Reach-IsHeld held r)

  called-IsHeld : (store : S) (index : InvertedIndex) → IsHeld (called store index)
  unfolding IsHeld
  called-IsHeld store index = (refl, λ o k. refl, λ p. ground (arith, p))

  none_in_hand : (s : DaemonSession S) → IsHeld s → s.phase ≡ left → s.in_hand ≡ []
  unfolding IsHeld
  none_in_hand s (held, idle, flag) at = empty_of s.in_hand held
    where
      empty_of :
          (xs : List (Collector × ActivityEvent)) → all (λ x. s.active x.0) xs ≡ true → xs ≡ []
      empty_of [] h = refl
      empty_of (x ∷ xs) h =
          let inactive : s.active x.0 ≡ false = idle x.0 (rw at refl) in ground (arith, h, inactive)

module _ {J : Type 0} (json : Json J) (laws : IsJson json) {D : Type 0} {sqlite : Sqlite D}
    (table : IsTable sqlite) (sends : Collector → ActivityEvent → Type 0)
    (plain : (c : Collector) (e : ActivityEvent) → sends c e → IsPlain e) where
  Step-InSync :
      {s t : DaemonSession D}
      → Step (event_store json sqlite) sends s t
      → InSync json table (daemon_of s)
      → InSync json table (daemon_of t)
  unfolding event_store saved
  Step-InSync (starts c at) sync = sync
  Step-InSync is_interrupted sync = sync
  Step-InSync (sees_flag at down) sync = sync
  Step-InSync (stops c at free) sync = sync
  Step-InSync {s} (saves c e id store sent works free done) sync =
      rw
        (map-append (λ (x : Collector × ActivityEvent). x.1) s.in_hand
          ((c, record e { id = id }) ∷ []))
        (saved-InSync json laws table (daemon_of s) e (some (id, store)) (plain c e sent) done sync)
  Step-InSync {s} (adds before c e after split) sync =
      indexed-InSync json laws table (daemon_of s) e (map (λ x. x.1) (before ++ after))
        (rw split
          (map-perm (λ (x : Collector × ActivityEvent). x.1) (put_in-perm (c, e) before after)))
        sync

  Reach-InSync :
      {s t : DaemonSession D}
      → InSync json table (daemon_of s)
      → Reach (event_store json sqlite) sends s t
      → InSync json table (daemon_of t)
  Reach-InSync sync here = sync
  Reach-InSync sync (next r st) = Step-InSync st (Reach-InSync sync r)

  -- When `cmd_daemon` has returned, its flag has been lowered, no collector has a thread, and every event
  -- of the store is in the index, whatever the interleaving. Conditions: they were in step when it was
  -- called, and no event that a collector sends has a byte 0 in its source or content.
  pub session_settled :
      (store : D) (index : InvertedIndex) (s : DaemonSession D)
      → InSync json table (record { store = store; index = index; pending = [] })
      → Reach (event_store json sqlite) sends (called store index) s
      → s.phase ≡ left
      → (s.daemon_running ≡ false)
        × ((c : Collector) → s.active c ≡ false)
        × InSync json table (record { store = s.store; index = s.index; pending = [] })
  unfolding IsHeld
  session_settled store index s sync reached at =
      let held =
        Reach-IsHeld (event_store json sqlite) sends
          (called-IsHeld (event_store json sqlite) sends store index) reached in
      let settled = Reach-InSync sync reached in
      (
        held.2 (rw at refl),
        λ c. held.1 c (rw at refl),
        subst
            (λ xs.
              InSync json table
                (record { store = s.store; index = s.index; pending = map (λ x. x.1) xs }))
            (none_in_hand (event_store json sqlite) sends s held at) settled,
      )
