-- ===== src/Search/Executor.antt =====
-- include/search/query_executor.hpp and src/search/query_executor.cpp: running a plan against the index
-- and the storage. Both may be null pointers, `none` here; the result `none` is a call through the
-- null storage. `std::sort` is an argument, since it leaves the order of equal keys open, and so is
-- the storage, an implementation of `EventRepository` with its state.
pub mod Candidates
pub mod Results
pub mod Relevance
pub mod Total
pub mod Fallback
use mind_trace.Base.{
  ℕ, Bool, true, false, not, ◌||◌, List, [], ◌∷◌, ◌++◌, Option, none, some, if◌then◌else◌, ltb,
  length, take, keep,
}
use mind_trace.Base.Eq.{nat_eq}
use mind_trace.Base.Text.{Text}
use mind_trace.Base.Dictionary.{count, insert_all}
use mind_trace.Base.Sort.{Sorter}
use mind_trace.Event.{EventType, ActivityEvent, type_eq}
use mind_trace.Index.{InvertedIndex, search_keyword, search_time_range, search_application}
use mind_trace.Storage.{EventRepository}
use mind_trace.Search.Parser.{parse}
use mind_trace.Search.Planner.{QueryPlan, plan}

-- The loop over the keywords of a plan.
unfoldable pub keyword_ids : InvertedIndex → List Text → List ℕ → List ℕ
keyword_ids index [] kw_ids = kw_ids
keyword_ids index (kw ∷ kws) kw_ids =
    keyword_ids index kws (insert_all (search_keyword index kw) kw_ids)

unfoldable pub candidate_sets : Option InvertedIndex → QueryPlan → List (List ℕ)
candidate_sets none p = []
candidate_sets (some index) p =
    (if p.use_keyword_index then keyword_ids index p.keywords [] ∷ [] else [])
    ++ ((if p.use_time_index then search_time_range index p.time_start p.time_end ∷ [] else [])
        ++ (if p.use_app_index then search_application index p.app_filter ∷ [] else []))

-- One round of the intersection loop: a new set of the ids that `s` holds too.
intersection : List ℕ → List ℕ → List ℕ
intersection final_ids s = insert_all (keep (λ id. count id s) final_ids) []

unfoldable pub intersect_all : List ℕ → List (List ℕ) → List ℕ
unfolding intersection
intersect_all final_ids [] = final_ids
intersect_all final_ids (s ∷ sets) = intersect_all (intersection final_ids s) sets

-- The type filter of a fetched event.
abbrev pub passes : QueryPlan → ActivityEvent → Bool
passes p event = not p.use_type_filter || type_eq event.type p.type_filter

-- `if (event) { …; results.push_back(…); }`
fetch_one : QueryPlan → Option ActivityEvent → List ActivityEvent → List ActivityEvent
fetch_one p none rest = rest
fetch_one p (some event) rest = if passes p event then event ∷ rest else rest

-- `a.timestamp > b.timestamp`
abbrev pub more_recent : ActivityEvent → ActivityEvent → Bool
more_recent a b = ltb b.timestamp a.timestamp

abbrev pub smaller : List ℕ → List ℕ → Bool
smaller a b = ltb (length a) (length b)

module _ {S : Type 0} (repository : EventRepository S) where
  -- The loop over the ids that are left.
  unfoldable pub fetch : QueryPlan → S → List ℕ → List ActivityEvent
  unfolding fetch_one
  fetch p s [] = []
  fetch p s (id ∷ ids) = fetch_one p (repository.find_by_id s id) (fetch p s ids)

module _ {S : Type 0} (repository : EventRepository S) (sorter : Sorter ActivityEvent) where
  -- No candidate set was made: the storage is asked. `n` is the reading of the clock.
  unfoldable pub without_index : Option S → ℕ → QueryPlan → List ActivityEvent
  without_index none n p = []
  without_index (some s) n p =
      if p.use_type_filter
      then sorter.sort more_recent (repository.find_by_type s p.type_filter)
      else take 100 (sorter.sort more_recent (repository.find_by_time_range s 0 n))

  -- The sorted sets are intersected and the events fetched.
  with_candidates : Option S → QueryPlan → List (List ℕ) → Option (List ActivityEvent)
  with_candidates storage p [] = some []
  with_candidates none p (first ∷ sets) =
      if ltb 0 (length (intersect_all first sets)) then none else some []
  with_candidates (some s) p (first ∷ sets) =
      some (sorter.sort more_recent (fetch repository p s (intersect_all first sets)))

module _ {S : Type 0} (repository : EventRepository S) (sorter : Sorter ActivityEvent)
    (set_sorter : Sorter (List ℕ)) where
  run_plan : Option S → ℕ → QueryPlan → List (List ℕ) → Option (List ActivityEvent)
  unfolding with_candidates
  run_plan storage n p [] = some (without_index repository sorter storage n p)
  run_plan storage n p (s ∷ sets) =
      with_candidates repository sorter storage p (set_sorter.sort smaller (s ∷ sets))

  unfoldable pub execute :
      Option S → Option InvertedIndex → ℕ → QueryPlan → Option (List ActivityEvent)
  unfolding run_plan
  execute storage index n p = run_plan storage n p (candidate_sets index p)

  -- `first`, `second` and `n` are the readings of the clock, in this order.
  unfoldable pub search :
      Option S → Option InvertedIndex → ℕ → ℕ → ℕ → Text → Option (List ActivityEvent)
  search storage index first second n query =
      execute storage index n (plan (parse first second query))
