-- ===== src/Cli/Unindexed.antt =====
-- Searches of apps/cli/main.cpp whose query makes no use of an index, over the event store.

use mathlib.Core.Path.{subst}
use mind_trace.Base.{
  ℕ, ◌<◌, ◌≤◌, ◌≡◌, ◌≢◌, refl, Bool, true, false, ◌||◌, List, [], ◌∷◌, ◌++◌, some, arith, all,
  length, keep, leb, if◌then◌else◌, Perm,
}
use mind_trace.Base.Sort.{Sorter, Sorted}
use mind_trace.Base.Text.{Text}
use mind_trace.Base.Int64.{i64_half}
use mind_trace.Event.{ActivityEvent, type_eq}
use mind_trace.Index.{InvertedIndex}
use mind_trace.Json.{Json}
use mind_trace.Storage.Sqlite.{Sqlite, IsTable}
use mind_trace.Storage.EventStore.{event_store, find_by_time_range}
use mind_trace.Storage.EventStore.Rows.{events}
use mind_trace.Storage.EventStore.Finding.{
  is_dated, is_named, within, find_by_type-events, find_by_time_range-events,
}
use mind_trace.Search.Parser.{parse}
use mind_trace.Search.Planner.{QueryPlan, plan}
use mind_trace.Search.Executor.{candidate_sets, search, more_recent}
use mind_trace.Search.Executor.Fallback.{execute_by_type, execute_most_recent}
use mind_trace.Cli.{cmd_search}
use mind_trace.Cli.Searching.{uses_index}

no_sets {ℓ} :
    {A : Type ℓ} (a b c : Bool) (x y z : A)
    → (a || (b || c)) ≡ false
    → (if a then x ∷ [] else []) ++ ((if b then y ∷ [] else []) ++ (if c then z ∷ [] else [])) ≡ []
no_sets true b c x y z h = cc
no_sets false true c x y z h = cc
no_sets false false true x y z h = cc
no_sets false false false x y z h = refl

candidate_sets-nil :
    (index : InvertedIndex) (p : QueryPlan)
    → uses_index p ≡ false
    → candidate_sets (some index) p ≡ []
unfolding candidate_sets
candidate_sets-nil index p h = no_sets p.use_keyword_index p.use_time_index p.use_app_index _ _ _ h

keep-within_zero :
    (n : ℕ) (es : List ActivityEvent) → keep (within 0 n) es ≡ keep (λ e. leb e.timestamp n) es
keep-within_zero n [] = refl
keep-within_zero n (e ∷ es) = ground (arith, keep-within_zero n es)

module _ {J : Type 0} (json : Json J) {D : Type 0} {sqlite : Sqlite D} (table : IsTable sqlite)
    (s : D) (index : InvertedIndex) (sorter : Sorter ActivityEvent) (set_sorter : Sorter (List ℕ))
    (first second n : ℕ) (query : Text)
    (unused : uses_index (plan (parse first second query)) ≡ false) where
  -- A search for a type alone returns all stored events of that type, each once and the most recent
  -- first, whatever is in the index. Conditions: the query makes no use of an index and asks for a
  -- type, and every row has the name of an event type.
  pub cmd_search_by_type :
      (plan (parse first second query)).use_type_filter ≡ true
      → all is_named (table.rows s) ≡ true
      → (found : List ActivityEvent) × (cmd_search
            (event_store json sqlite)
            sorter
            set_sorter
            first
            second
            n
            query
            s
            index
          ≡ some found)
        × Sorted more_recent found
        × Perm found (
            keep
              (λ e. type_eq e.type (plan (parse first second query)).type_filter)
              (events json table s))
  unfolding cmd_search search event_store
  cmd_search_by_type typed named =
      execute_by_type (event_store json sqlite) s (events json table s) sorter set_sorter
        (λ t. find_by_type-events json table s t named) (some index) n
        (plan (parse first second query)) (candidate_sets-nil index _ unused) typed

  -- A search that asks for nothing returns the most recent stored events up to the time `n` of the
  -- clock, the most recent first: all of them, or the first hundred when there are more. Conditions:
  -- the query makes no use of an index and asks for no type, and the clock and all stored times are
  -- below 2^63.
  pub cmd_search_most_recent :
      (plan (parse first second query)).use_type_filter ≡ false
      → n < i64_half
      → all is_dated (events json table s) ≡ true
      → (found : List ActivityEvent) × (older : List ActivityEvent) × (cmd_search
            (event_store json sqlite)
            sorter
            set_sorter
            first
            second
            n
            query
            s
            index
          ≡ some found)
        × Perm (found ++ older) (keep (λ e. leb e.timestamp n) (events json table s))
        × Sorted more_recent (found ++ older)
        × (length found ≤ 100)
        × (older ≢ [] → length found ≡ 100)
  unfolding cmd_search search event_store
  cmd_search_most_recent untyped h dated =
      execute_most_recent (event_store json sqlite) s (events json table s) sorter set_sorter
        (some index) n (plan (parse first second query))
        (subst (Perm (find_by_time_range json sqlite s 0 n))
          (keep-within_zero n (events json table s))
          (find_by_time_range-events json table s dated 0 n (omega arith) h).0)
        (candidate_sets-nil index _ unused) untyped
