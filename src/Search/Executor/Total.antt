-- ===== src/Search/Executor/Total.antt =====
-- `search` of src/search/query_executor.cpp over a storage and an index: it calls through no null pointer.
use mind_trace.Base.{ℕ, ◌≡◌, refl, List, [], ◌∷◌, some}
use mind_trace.Base.Text.{Text}
use mind_trace.Base.Sort.{Sorter}
use mind_trace.Event.{ActivityEvent}
use mind_trace.Index.{InvertedIndex}
use mind_trace.Storage.{EventRepository}
use mind_trace.Search.Parser.{parse}
use mind_trace.Search.Planner.{QueryPlan, plan}
use mind_trace.Search.Executor.{candidate_sets, with_candidates, run_plan, execute, search}

module _ {S : Type 0} (repository : EventRepository S) (sorter : Sorter ActivityEvent)
    (set_sorter : Sorter (List ℕ)) (s : S) where
  with_candidates-some :
      (p : QueryPlan) (sets : List (List ℕ))
      → (found : List ActivityEvent) × (with_candidates repository sorter (some s) p sets
          ≡ some found)
  unfolding with_candidates
  with_candidates-some p [] = ([], refl)
  with_candidates-some p (first ∷ sets) = (_, refl)

  run_plan-some :
      (n : ℕ) (p : QueryPlan) (sets : List (List ℕ))
      → (found : List ActivityEvent) × (run_plan repository sorter set_sorter (some s) n p sets
          ≡ some found)
  unfolding run_plan
  run_plan-some n p [] = (_, refl)
  run_plan-some n p (first ∷ sets) = with_candidates-some p _

  -- Every query has a result.
  pub search-some :
      (index : InvertedIndex) (first second n : ℕ) (query : Text)
      → (found : List ActivityEvent) × (search repository sorter set_sorter
            (some s)
            (some index)
            first
            second
            n
            query
          ≡ some found)
  unfolding search execute
  search-some index first second n query =
      let p = plan (parse first second query) in run_plan-some n p (candidate_sets (some index) p)
