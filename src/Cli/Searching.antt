-- ===== src/Cli/Searching.antt =====
-- The index, the search and the statistics of apps/cli/main.cpp over the event store: what the user gets.
use mathlib.Core.List.{append-nil}
use mathlib.Core.List.Perm
use mathlib.Core.Path.{subst}
use mind_trace.Base.{
  ℕ, ◌<◌, ◌≡◌, ◌≢◌, refl, sym, ap, ◌∙◌, Bool, true, false, ◌||◌, ◌&&◌, List, [], ◌∷◌, ◌++◌, map,
  some, arith, any, all, and_split, and_join, length, keep, leb, ltb, if◌then◌else◌, ◌==◌, Perm,
  map-perm, length-perm,
}
use mind_trace.Base.Eq.{nat_eq}
use mind_trace.Base.Text.{Text}
use mind_trace.Base.Sort.{Sorter, Sorted}
use mind_trace.Base.Int64.{i64_half}
use mind_trace.Base.Dictionary.{Distinct-perm}
use mind_trace.Event.{ActivityEvent}
use mind_trace.Index.{InvertedIndex, empty, add_all}
use mind_trace.Index.Invariant.{event_count-add_all}
use mind_trace.Json.{Json}
use mind_trace.Storage.Sqlite.{Sqlite, IsTable}
use mind_trace.Storage.Listing.{bare}
use mind_trace.Storage.EventStore.{event_store, find_by_time_range}
use mind_trace.Storage.EventStore.Rows.{events, Distinct-events}
use mind_trace.Storage.EventStore.Finding.{
  find_by_id-events, count-events, is_dated, within, find_by_time_range-events,
}
use mind_trace.Search.Parser.{parse}
use mind_trace.Search.Planner.{QueryPlan, plan}
use mind_trace.Search.Executor.{candidate_sets, search, more_recent}
use mind_trace.Search.Executor.Results.{has_id}
use mind_trace.Search.Executor.Relevance.{relevant, execute-relevant}
use mind_trace.Cli.{rebuild_index, cmd_search, cmd_stats}
use mind_trace.Cli.Daemon.{Daemon}
use mind_trace.Cli.Daemon.Sync.{InSync}

-- The plan makes use of at least one of the indexes.
abbrev pub uses_index : QueryPlan → Bool
uses_index p = p.use_keyword_index || (p.use_time_index || p.use_app_index)

three_sets {ℓ} :
    {A : Type ℓ} (a b c : Bool) (x y z : A)
    → (a || (b || c)) ≡ true
    → (if a then x ∷ [] else []) ++ ((if b then y ∷ [] else []) ++ (if c then z ∷ [] else [])) ≢ []
three_sets true b c x y z h e = cc
three_sets false true c x y z h e = cc
three_sets false false true x y z h e = cc
three_sets false false false x y z h e = cc

candidate_sets_ne :
    (index : InvertedIndex) (p : QueryPlan)
    → uses_index p ≡ true
    → candidate_sets (some index) p ≢ []
unfolding candidate_sets
candidate_sets_ne index p h =
    three_sets p.use_keyword_index p.use_time_index p.use_app_index _ _ _ h

keep-all {ℓ} : {A : Type ℓ} (p : A → Bool) (xs : List A) → all p xs ≡ true → keep p xs ≡ xs
keep-all p [] h = refl
keep-all p (x ∷ xs) h = ground (arith, keep-all p xs)

all_both {ℓ} :
    {A : Type ℓ} (p q : A → Bool) (xs : List A)
    → all (λ x. p x && q x) xs ≡ true
    → (all p xs ≡ true) × (all q xs ≡ true)
all_both p q [] h = (refl, refl)
all_both p q (x ∷ xs) h =
    let (a, b) = all_both p q xs (and_split _ _ h).1 in
    let (c, d) = and_split _ _ (and_split _ _ h).0 in (and_join _ _ c a, and_join _ _ d b)

all-within :
    (now : ℕ) (es : List ActivityEvent)
    → all (λ e. leb e.timestamp now) es ≡ true
    → all (within 0 now) es ≡ true
all-within now [] h = refl
all-within now (e ∷ es) h = ground (arith, all-within now es)

module _ {J : Type 0} (json : Json J) {D : Type 0} {sqlite : Sqlite D}
    (table : IsTable sqlite) where
  -- A store whose times are below 2^63 and not after a time `now`.
  abbrev pub is_past : ℕ → D → Bool
  is_past now s = all (λ e. ltb e.timestamp i64_half && leb e.timestamp now) (events json table s)

  -- The events that `main` indexes are all that are stored.
  found_all :
      (s : D) (now : ℕ)
      → now < i64_half
      → is_past now s ≡ true
      → Perm (find_by_time_range json sqlite s 0 now) (events json table s)
  found_all s now h past =
      let stored = events json table s in
      let (dated, not_later) = all_both is_dated (λ e. leb e.timestamp now) stored past in
      subst (Perm (find_by_time_range json sqlite s 0 now))
        (keep-all (within 0 now) stored (all-within now stored not_later))
        (find_by_time_range-events json table s dated 0 now (omega arith) h).0

  -- Rebuilding the index puts it in step with the store. Condition: the clock reads a time below 2^63,
  -- and no stored event is of a later time.
  pub rebuild_index-InSync :
      (s : D) (now : ℕ)
      → now < i64_half
      → is_past now s ≡ true
      → InSync json table (record {
        store = s;
        index = rebuild_index (event_store json sqlite) s now;
        pending = [];
      })
  unfolding rebuild_index event_store
  rebuild_index-InSync s now h past =
      let found = find_by_time_range json sqlite s 0 now in
      (found, refl, rw (append-nil found) (map-perm bare (found_all s now h past)))

  -- The statistics over a rebuilt index: the number of stored events is that of the store, and the index
  -- has as many. Condition: the clock reads a time below 2^63, and no stored event is of a later time.
  pub cmd_stats-rebuild_index :
      (s : D) (now : ℕ)
      → now < i64_half
      → is_past now s ≡ true
      → let (stored, indexed, keywords) =
          cmd_stats (event_store json sqlite) s (rebuild_index (event_store json sqlite) s now) in
        (stored ≡ length (events json table s)) × (indexed ≡ stored)
  unfolding cmd_stats rebuild_index event_store
  cmd_stats-rebuild_index s now h past =
      let same = found_all s now h past in
      let all_stored = count-events json table s in
      (
        all_stored,
        event_count-add_all (find_by_time_range json sqlite s 0 now)
              (Distinct-perm (map-perm (λ e. e.id) (Perm.symm same)) (Distinct-events json table s))
            ∙ length-perm same
            ∙ sym all_stored,
      )

  -- A search over a store and an index in step returns, most recent first, exactly the ids of the
  -- stored events that meet what the query asks for. Conditions: no callback is between saving and
  -- indexing, and the query makes use of an index.
  pub cmd_search-InSync :
      (d : Daemon D) (sorter : Sorter ActivityEvent) (set_sorter : Sorter (List ℕ))
      (first second n : ℕ) (query : Text)
      → InSync json table d
      → d.pending ≡ []
      → let p = plan (parse first second query) in
        uses_index p ≡ true
        → (found : List ActivityEvent) × (cmd_search
              (event_store json sqlite)
              sorter
              set_sorter
              first
              second
              n
              query
              d.store
              d.index
            ≡ some found)
          × Sorted more_recent found
          × ((j : ℕ)
              → has_id j found ≡ any (λ e. relevant p e && e.id == j) (events json table d.store))
  unfolding cmd_search search event_store
  cmd_search-InSync d sorter set_sorter first second n query sync none_pending used =
      let (es, indexed, same) = sync in
      let p = plan (parse first second query) in
      let same_events : Perm (map bare es) (map bare (events json table d.store)) =
        subst (λ l. Perm (map bare l) (map bare (events json table d.store)))
          (ap (λ l. es ++ l) none_pending ∙ append-nil es) same in
      rw indexed (
        execute-relevant (event_store json sqlite) d.store es (events json table d.store)
          same_events (Distinct-events json table d.store) (find_by_id-events json table d.store)
          sorter set_sorter n p (candidate_sets_ne (add_all empty es) p used))
