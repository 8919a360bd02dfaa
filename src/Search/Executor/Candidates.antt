-- ===== src/Search/Executor/Candidates.antt =====
-- The candidate ids of src/search/query_executor.cpp: unions over keywords, and the intersection.
use mind_trace.Base.{
  ℕ, Bool, true, ◌≡◌, refl, ◌||◌, ◌&&◌, List, [], ◌∷◌, arith, keep, any, all, ◌==◌, ==_iff,
}
use mind_trace.Base.Eq.{nat_eq}
use mind_trace.Base.Text.{Text}
use mind_trace.Base.Dictionary.{count, insert_all, count-insert_all}
use mind_trace.Index.{InvertedIndex, search_keyword}
use mind_trace.Search.Executor.{keyword_ids, intersect_all}

test_of_id : (p : ℕ → Bool) (x j : ℕ) → (x == j) ≡ true → p x ≡ p j
test_of_id p x j h = rw ((==_iff x j).0 h)

count-keep : (p : ℕ → Bool) (xs : List ℕ) (j : ℕ) → count j (keep p xs) ≡ (count j xs && p j)
count-keep p [] j = refl
count-keep p (x ∷ xs) j = ground (arith, test_of_id p x j, count-keep p xs j)

-- An id is left after the intersection exactly when it is in every set.
pub count-intersect_all :
    (final_ids : List ℕ) (sets : List (List ℕ)) (j : ℕ)
    → count j (intersect_all final_ids sets) ≡ all (count j) (final_ids ∷ sets)
unfolding intersect_all
count-intersect_all final_ids [] j = ground arith
count-intersect_all final_ids (s ∷ sets) j = ground (
  arith,
  count-intersect_all (insert_all (keep (λ id. count id s) final_ids) []) sets j,
  count-insert_all (keep (λ id. count id s) final_ids) [] j,
  count-keep (λ id. count id s) final_ids j,
)

pub count-keyword_ids :
    (index : InvertedIndex) (kws : List Text) (ids : List ℕ) (j : ℕ)
    → count j (keyword_ids index kws ids)
      ≡ (count j ids || any (λ kw. count j (search_keyword index kw)) kws)
unfolding keyword_ids
count-keyword_ids index [] ids j = ground arith
count-keyword_ids index (kw ∷ kws) ids j = ground (
  arith,
  count-keyword_ids index kws (insert_all (search_keyword index kw) ids) j,
  count-insert_all (search_keyword index kw) ids j,
)
