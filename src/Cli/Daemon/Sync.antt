-- ===== src/Cli/Daemon/Sync.antt =====
-- The index and the store of `cmd_daemon` in apps/cli/main.cpp.
use mathlib.Core.List.{append_assoc, map-append}
use mathlib.Core.List.Perm
use mind_trace.Base.{
  ℕ, zero, suc, ◌≡◌, refl, sym, ap, ◌∙◌, List, [], ◌∷◌, ◌++◌, map, Option, none, some, Perm,
  map-perm, All,
}
use mind_trace.Event.{SameEvent, ActivityEvent}
use mind_trace.Index.{InvertedIndex, empty, add, add_all}
use mind_trace.Json.{Json, IsJson}
use mind_trace.Storage.Sqlite.{Sqlite, IsTable}
use mind_trace.Storage.Listing.{bare}
use mind_trace.Storage.EventStore.{event_store, save}
use mind_trace.Storage.EventStore.Rows.{events}
use mind_trace.Storage.EventStore.Saving.{IsPlain, save_inserts, step_insert-Adds}
use mind_trace.Cli.Daemon.{Daemon, Step, saves, adds, put_back, pick, saved, added, step, run}

put_back-perm :
    (x : ActivityEvent) (es : List ActivityEvent) (o : Option (ActivityEvent × List ActivityEvent))
    (e : ActivityEvent) (rest : List ActivityEvent)
    → ((r : List ActivityEvent) → o ≡ some (e, r) → Perm (e ∷ r) es)
    → put_back x o ≡ some (e, rest)
    → Perm (e ∷ rest) (x ∷ es)
put_back-perm x es none e rest ih h = cc
put_back-perm x es (some (y, r)) e rest ih h =
    let first : y ≡ e = cc in
    let same : some (y, r) ≡ some (e, r) = rw first refl in
    let front : x ∷ r ≡ rest = cc in
    rw (← front) (Perm.trans (Perm.swap x e r) (Perm.cons x (ih r same)))

pick-perm :
    (i : ℕ) (es : List ActivityEvent) (e : ActivityEvent) (rest : List ActivityEvent)
    → pick i es ≡ some (e, rest)
    → Perm (e ∷ rest) es
unfolding pick
pick-perm i [] e rest h = cc
pick-perm zero (x ∷ es) e rest h =
    let front : x ≡ e = cc in let back : es ≡ rest = cc in rw (front, back) (Perm.refl (e ∷ rest))
pick-perm (suc i) (x ∷ es) e rest h =
    put_back-perm x es (pick i es) e rest (λ r. pick-perm i es e r) h

add_all-last :
    (index : InvertedIndex) (es : List ActivityEvent) (e : ActivityEvent)
    → add_all index (es ++ e ∷ []) ≡ add (add_all index es) e
unfolding add_all
add_all-last index [] e = refl
add_all-last index (x ∷ es) e = add_all-last (add index x) es e

SameEvent-bare : (a b : ActivityEvent) → SameEvent a b → bare a ≡ bare b
SameEvent-bare a b (p, q, r, s, t, _) = cc

perm-last :
    (es us : List ActivityEvent) (e u : ActivityEvent)
    → Perm (map bare es) (map bare us)
    → bare e ≡ bare u
    → Perm (map bare (es ++ e ∷ [])) (map bare (us ++ u ∷ []))
perm-last es us e u h same =
    rw (map-append bare es (e ∷ []), map-append bare us (u ∷ []), same)
      (Perm.append_right (bare u ∷ []) h)

-- The event of a step has no byte 0 in its texts.
abbrev pub IsPlainStep : Step → Type 0
IsPlainStep (saves e) = IsPlain e
IsPlainStep (adds i) = Unit

module _ {J : Type 0} (json : Json J) {D : Type 0} {sqlite : Sqlite D}
    (table : IsTable sqlite) where
  -- The index has the events of the store, in some order and but for their metadata, that are not
  -- pending.
  abbrev pub InSync : Daemon D → Type 0
  InSync d =
      (es : List ActivityEvent) × (d.index ≡ add_all empty es)
      × Perm (map bare (es ++ d.pending)) (map bare (events json table d.store))

module _ {J : Type 0} (json : Json J) (laws : IsJson json) {D : Type 0} {sqlite : Sqlite D}
    (table : IsTable sqlite) where
  pub saved-InSync :
      (d : Daemon D) (e : ActivityEvent) (o : Option (ℕ × D))
      → IsPlain e
      → save json sqlite d.store e ≡ o
      → InSync json table d
      → InSync json table (saved d e o)
  unfolding saved
  saved-InSync d e none plain h sync = sync
  saved-InSync d e (some (id, s)) plain h (es, indexed, same) =
      let (t, written, stepped, is_id) = save_inserts json sqlite d.store e id s h in
      let (stored, grown, copy) =
        step_insert-Adds json laws table d.store e t s plain written stepped in
      (
        es,
        indexed,
        rw (grown, ← append_assoc es d.pending (record e { id = id } ∷ []))
            (perm-last (es ++ d.pending) (events json table d.store) (record e { id = id }) stored
              same (rw is_id (sym (SameEvent-bare stored _ copy)))),
      )

  -- An event that is pending is indexed.
  pub indexed-InSync :
      (d : Daemon D) (e : ActivityEvent) (rest : List ActivityEvent)
      → Perm (e ∷ rest) d.pending
      → InSync json table d
      → InSync json table (record d { index = add d.index e; pending = rest })
  indexed-InSync d e rest h (es, indexed, same) = (
    es ++ e ∷ [],
    ap (λ index. add index e) indexed ∙ sym (add_all-last empty es e),
    rw (append_assoc es (e ∷ []) rest) (Perm.trans (map-perm bare (Perm.append_left es h)) same),
  )

  pub added-InSync :
      (d : Daemon D) (o : Option (ActivityEvent × List ActivityEvent)) (i : ℕ)
      → pick i d.pending ≡ o
      → InSync json table d
      → InSync json table (added d o)
  unfolding added
  added-InSync d none i h sync = sync
  added-InSync d (some (e, rest)) i h sync =
      indexed-InSync d e rest (pick-perm i d.pending e rest h) sync

  step-InSync :
      (d : Daemon D) (a : Step)
      → IsPlainStep a
      → InSync json table d
      → InSync json table (step (event_store json sqlite) d a)
  unfolding step event_store
  step-InSync d (saves e) plain sync = saved-InSync d e _ plain refl sync
  step-InSync d (adds i) plain sync = added-InSync d _ i refl sync

  -- Over any interleaving of the callbacks of the collectors, the index and the pending events
  -- together stay what the store has. Condition: no event has a byte 0 in its source or content.
  pub run-InSync :
      (steps : List Step) (d : Daemon D)
      → All IsPlainStep steps
      → InSync json table d
      → InSync json table (run (event_store json sqlite) d steps)
  unfolding run
  run-InSync [] d plain sync = sync
  run-InSync (a ∷ later) d (plain, plain_later) sync =
      run-InSync later (step (event_store json sqlite) d a) plain_later (step-InSync d a plain sync)
