-- ===== src/Search/Executor/Results.antt =====
-- What `execute` of src/search/query_executor.cpp returns.

use mind_trace.Base.{
  ℕ, Bool, true, false, not, ◌≡◌, ◌≢◌, refl, ap, ◌∙◌, ◌||◌, ◌&&◌, List, [], ◌∷◌, Option, none, some,
  arith, any, any-perm, nil_of_perm, all, all-perm, ◌==◌, ==_iff, Perm,
}
use mind_trace.Base.Eq.{nat_eq}
use mind_trace.Base.Dictionary.{count}
use mind_trace.Base.Sort.{Sorter, Sorted, IsStrictWeak}
use mind_trace.Event.{ActivityEvent, type_eq}
use mind_trace.Index.{InvertedIndex}
use mind_trace.Storage.{EventRepository}
use mind_trace.Search.Planner.{QueryPlan}
use mind_trace.Search.Executor.{
  candidate_sets, intersect_all, fetch_one, fetch, more_recent, smaller, with_candidates, run_plan,
  execute,
}
use mind_trace.Search.Executor.Candidates.{count-intersect_all}

pub more_recent-IsStrictWeak : IsStrictWeak more_recent
more_recent-IsStrictWeak = record {
  asym = λ a b h. ground arith;
  negative_trans = λ a b c h k. ground arith;
}

-- A value is there and passes a test.
abbrev pub holds {ℓ} : {A : Type ℓ} → (A → Bool) → Option A → Bool
holds q none = false
holds q (some a) = q a

-- The plan asks for no type, or for the type of the event.
abbrev pub is_asked_type : QueryPlan → ActivityEvent → Bool
is_asked_type p event = not p.use_type_filter || type_eq event.type p.type_filter

-- The stored event is there and of the type that the plan asks for.
abbrev pub accepted : QueryPlan → Option ActivityEvent → Bool
accepted p = holds (is_asked_type p)

abbrev pub has_id : ℕ → List ActivityEvent → Bool
has_id j = any (λ (e : ActivityEvent). e.id == j)

-- A list of events as `execute` gives it: of the ids that are in all sets, stored and accepted.
abbrev pub IsResult :
    {S : Type 0}
    → EventRepository S
    → S
    → QueryPlan
    → List (List ℕ)
    → Option (List ActivityEvent)
    → Type 0
IsResult repository s p sets r =
    (es : List ActivityEvent) × (r ≡ some es)
    × Sorted more_recent es
    × ((j : ℕ) → has_id j es ≡ (all (count j) sets && accepted p (repository.find_by_id s j)))

merge_tests : (e a b c : Bool) → (e ≡ true → a ≡ b) → ((e && a) || (c && b)) ≡ ((e || c) && b)
merge_tests e a b c h = ground arith

module _ {S : Type 0} (repository : EventRepository S) (s : S)
    (ids_match : (id : ℕ) (event : ActivityEvent)
      → repository.find_by_id s id ≡ some event
      → event.id ≡ id) where
  has_id-fetch_one :
      (p : QueryPlan) (id : ℕ) (o : Option ActivityEvent) (rest : List ActivityEvent) (j : ℕ)
      → repository.find_by_id s id ≡ o
      → has_id j (fetch_one p o rest) ≡ ((id == j && accepted p o) || has_id j rest)
  unfolding fetch_one
  has_id-fetch_one p id none rest j h = ground arith
  has_id-fetch_one p id (some event) rest j h = ground (arith, ids_match id event h)

  accepted_of_eq :
      (p : QueryPlan) (id j : ℕ)
      → (id == j) ≡ true
      → accepted p (repository.find_by_id s id) ≡ accepted p (repository.find_by_id s j)
  accepted_of_eq p id j h = rw ((==_iff id j).0 h)

  fetch_cons :
      (p : QueryPlan) (id : ℕ) (ids : List ℕ) (j : ℕ)
      → has_id j (fetch repository p s (id ∷ ids)) ≡ (
          (id == j && accepted p (repository.find_by_id s id))
          || has_id j (fetch repository p s ids))
  unfolding fetch
  fetch_cons p id ids j =
      has_id-fetch_one p id (repository.find_by_id s id) (fetch repository p s ids) j refl

  has_id-fetch :
      (p : QueryPlan) (ids : List ℕ) (j : ℕ)
      → has_id j (fetch repository p s ids)
        ≡ (count j ids && accepted p (repository.find_by_id s j))
  has_id-fetch p [] j = unfold fetch in refl
  has_id-fetch p (id ∷ ids) j =
      fetch_cons p id ids j
      ∙ ap (λ r. (id == j && accepted p (repository.find_by_id s id)) || r) (has_id-fetch p ids j)
      ∙ merge_tests (id == j) _ _ (count j ids) (accepted_of_eq p id j)

  module _ (sorter : Sorter ActivityEvent) (set_sorter : Sorter (List ℕ)) where
    with_candidates-IsResult :
        (p : QueryPlan) (given sets : List (List ℕ))
        → given ≢ []
        → Perm sets given
        → IsResult repository s p given (with_candidates repository sorter (some s) p sets)
    unfolding with_candidates
    with_candidates-IsResult p given [] ne h = absurd (ne (nil_of_perm given h))
    with_candidates-IsResult p given (first ∷ sets) ne h = (
      _,
      refl,
      sorter.sort-Sorted more_recent more_recent-IsStrictWeak _,
      λ j.
          any-perm (λ (e : ActivityEvent). e.id == j) (sorter.sort-perm more_recent _)
          ∙ has_id-fetch p (intersect_all first sets) j
          ∙ ap (λ b. b && accepted p (repository.find_by_id s j))
              (count-intersect_all first sets j ∙ all-perm (count j) h),
    )

    -- With a storage and at least one candidate set, `execute` returns a result and calls nothing
    -- through a null pointer. The result is sorted from the most recent event on. It holds an event
    -- with a given id exactly when every candidate set holds the id, and the storage finds for it an
    -- event of the type that is asked for. Condition: the storage finds under an id only an event that
    -- carries this id.
    pub execute-IsResult :
        (index : Option InvertedIndex) (n : ℕ) (p : QueryPlan)
        → candidate_sets index p ≢ []
        → IsResult repository s p
            (candidate_sets index p)
            (execute repository sorter set_sorter (some s) index n p)
    unfolding execute
    execute-IsResult index n p ne = run_plan-IsResult (candidate_sets index p) ne
      where
        run_plan-IsResult :
            (sets : List (List ℕ))
            → sets ≢ []
            → IsResult repository s p sets (run_plan repository sorter set_sorter (some s) n p sets)
        run_plan-IsResult [] h = absurd (h refl)
        run_plan-IsResult (c ∷ cs) h =
            with_candidates-IsResult p (c ∷ cs) (set_sorter.sort smaller (c ∷ cs)) h
              (set_sorter.sort-perm smaller (c ∷ cs))
