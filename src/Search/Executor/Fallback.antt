-- ===== src/Search/Executor/Fallback.antt =====
-- What `execute` of src/search/query_executor.cpp does when no index is of use: it asks the storage.
use mind_trace.Base.{
  length-take-le, ℕ, zero, suc, ◌≤◌, ◌≡◌, ◌≢◌, refl, sym, ap, ◌∙◌, Bool, true, false, List, [], ◌∷◌,
  ◌++◌, Option, some, arith, if◌then◌else◌, keep, leb, length, take, drop, Perm,
}
use mathlib.Core.List.Perm
use mathlib.Core.Path.{subst}
use mind_trace.Base.Sort.{Sorter, Sorted}
use mind_trace.Event.{EventType, ActivityEvent, type_eq}
use mind_trace.Index.{InvertedIndex}
use mind_trace.Storage.{EventRepository}
use mind_trace.Search.Planner.{QueryPlan}
use mind_trace.Search.Executor.{candidate_sets, without_index, more_recent, run_plan, execute}
use mind_trace.Search.Executor.Results.{more_recent-IsStrictWeak}

take-append-drop {ℓ} : {A : Type ℓ} (n : ℕ) (xs : List A) → take n xs ++ drop n xs ≡ xs
take-append-drop zero xs = refl
take-append-drop (suc n) [] = refl
take-append-drop (suc n) (x ∷ xs) = ap (◌∷◌ x) (take-append-drop n xs)

length-take_full {ℓ} : {A : Type ℓ} (n : ℕ) (xs : List A) → drop n xs ≢ [] → length (take n xs) ≡ n
length-take_full zero xs h = refl
length-take_full (suc n) [] h = absurd (h refl)
length-take_full (suc n) (x ∷ xs) h = omega (arith, length-take_full n xs h)

if_true {ℓ} : {A : Type ℓ} (b : Bool) (x y : A) → b ≡ true → (if b then x else y) ≡ x
if_true true x y h = refl
if_true false x y h = cc

if_false {ℓ} : {A : Type ℓ} (b : Bool) (x y : A) → b ≡ false → (if b then x else y) ≡ y
if_false true x y h = cc
if_false false x y h = refl

module _ {S : Type 0} (repository : EventRepository S) (s : S) (stored : List ActivityEvent)
    (sorter : Sorter ActivityEvent) (set_sorter : Sorter (List ℕ)) where
  execute_unindexed :
      (index : Option InvertedIndex) (n : ℕ) (p : QueryPlan)
      → candidate_sets index p ≡ []
      → execute repository sorter set_sorter (some s) index n p
        ≡ some (without_index repository sorter (some s) n p)
  unfolding execute
  execute_unindexed index n p h = rw (h, run_plan) refl

  -- A plan that uses no index but asks for a type returns all stored events of that type, each once and
  -- the most recent first. Condition: the storage finds exactly these by their type.
  pub execute_by_type :
      ((t : EventType) → Perm (repository.find_by_type s t) (keep (λ e. type_eq e.type t) stored))
      → (index : Option InvertedIndex) (n : ℕ) (p : QueryPlan) → candidate_sets index p ≡ []
      → p.use_type_filter ≡ true
      → (found : List ActivityEvent) × (execute repository sorter set_sorter (some s) index n p
          ≡ some found)
        × Sorted more_recent found
        × Perm found (keep (λ e. type_eq e.type p.type_filter) stored)
  unfolding without_index
  execute_by_type finds index n p h typed = (
    sorter.sort more_recent (repository.find_by_type s p.type_filter),
    execute_unindexed index n p h ∙ ap some (if_true p.use_type_filter _ _ typed),
    sorter.sort-Sorted more_recent more_recent-IsStrictWeak _,
    Perm.trans (sorter.sort-perm more_recent _) (finds p.type_filter),
  )

  -- A plan that asks for nothing returns the most recent stored events up to the time `n` of the clock,
  -- the most recent first: all of them, or the first hundred when there are more. Condition: the storage
  -- finds exactly the events up to `n`.
  pub execute_most_recent :
      (index : Option InvertedIndex) (n : ℕ) (p : QueryPlan)
      → Perm (repository.find_by_time_range s 0 n) (keep (λ e. leb e.timestamp n) stored)
      → candidate_sets index p ≡ []
      → p.use_type_filter ≡ false
      → (found : List ActivityEvent) × (older : List ActivityEvent) × (execute repository sorter
            set_sorter
            (some s)
            index
            n
            p
          ≡ some found)
        × Perm (found ++ older) (keep (λ e. leb e.timestamp n) stored)
        × Sorted more_recent (found ++ older)
        × (length found ≤ 100)
        × (older ≢ [] → length found ≡ 100)
  unfolding without_index
  execute_most_recent index n p finds h untyped =
      let sorted = sorter.sort more_recent (repository.find_by_time_range s 0 n) in
      (
        take 100 sorted,
        drop 100 sorted,
        execute_unindexed index n p h ∙ ap some (if_false p.use_type_filter _ _ untyped),
        subst (λ l. Perm l (keep (λ e. leb e.timestamp n) stored))
            (sym (take-append-drop 100 sorted)) (Perm.trans (sorter.sort-perm more_recent _) finds),
        subst (Sorted more_recent) (sym (take-append-drop 100 sorted))
            (sorter.sort-Sorted more_recent more_recent-IsStrictWeak _),
        length-take-le 100 sorted,
        length-take_full 100 sorted,
      )
