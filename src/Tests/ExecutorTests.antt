-- ===== src/Tests/ExecutorTests.antt =====
-- Theorems of Search.Executor at concrete inputs.
use mathlib.Core.List.Perm
use mind_trace.Base.{ℕ, ◌≡◌, ◌≢◌, refl, true, ◌&&◌, List, [], ◌∷◌, map, some, any, ◌==◌}
use mind_trace.Base.Eq.{nat_eq}
use mind_trace.Base.Text.{codes}
use mind_trace.Base.Sort.{insertion_sorter, Sorted}
use mind_trace.Event.{ActivityEvent, file_modified}
use mind_trace.Index.{add_all, empty}
use mind_trace.Search.Planner.{QueryPlan, new_plan}
use mind_trace.Search.Executor.{candidate_sets, execute, more_recent}
use mind_trace.Search.Executor.Results.{has_id}
use mind_trace.Search.Executor.Relevance.{execute-relevant, relevant}
use mind_trace.Storage.Listing.{bare}
use mind_trace.Tests.{history, in_memory, noon}

-- "main", in file modifications.
abbrev main_edits : QueryPlan
main_edits = record new_plan {
  use_keyword_index = true;
  keywords = codes "main" ∷ [];
  use_type_filter = true;
  type_filter = file_modified;
}

has_candidates : candidate_sets (some (add_all empty history)) main_edits ≢ []
unfolding candidate_sets
has_candidates = λ e. cc

execute-relevant_example :
    (found : List ActivityEvent) × (execute in_memory insertion_sorter insertion_sorter
        (some history)
        (some (add_all empty history))
        noon
        main_edits
      ≡ some found)
    × Sorted more_recent found
    × ((j : ℕ) → has_id j found ≡ any (λ e. relevant main_edits e && e.id == j) history)
execute-relevant_example =
    execute-relevant in_memory history history history (Perm.refl (map bare history))
      (refl, (refl, (refl, tt))) (λ j. refl) insertion_sorter insertion_sorter noon main_edits
      has_candidates
