-- ===== src/Search/Executor/Relevance.antt =====
-- The parts of search together: what a plan finds among indexed and stored events, from
-- src/search/query_executor.cpp down to src/core/indexing/inverted_index.cpp.
use mathlib.Core.Path.{fun_ext}
use mind_trace.Base.{
  ℕ, ◌/◌, Bool, true, false, not, ◌≡◌, ◌≢◌, refl, ap, ◌∙◌, sym, ◌||◌, ◌&&◌, List, [], ◌∷◌, ◌++◌,
  map, some, arith, any, all, Perm, if◌then◌else◌, ◌==◌, is_empty, leb,
}
use mind_trace.Base.Eq.{nat_eq}
use mind_trace.Base.Text.{Text, contains, lower}
use mind_trace.Base.Dictionary.{count, Distinct}
use mind_trace.Base.Sort.{Sorter, Sorted}
use mind_trace.Event.{ActivityEvent, extract_keywords}
use mind_trace.Index.{InvertedIndex, empty, add_all, search_time_range, search_application, app_key}
use mind_trace.Index.Search.{search_keyword-add_all, search_application-add_all}
use mind_trace.Index.Hours.{search_time_range-add_all}
use mind_trace.Storage.{EventRepository}
use mind_trace.Storage.Listing.{ids, event_with_id, event_with_id-match, bare, any-bare}
use mind_trace.Search.Planner.{QueryPlan}
use mind_trace.Search.Executor.{candidate_sets, keyword_ids, more_recent, execute}
use mind_trace.Search.Executor.Candidates.{count-keyword_ids}
use mind_trace.Search.Executor.Results.{holds, accepted, is_asked_type, has_id, execute-IsResult}

-- A test holds of some event with an id.
abbrev hit : (ActivityEvent → Bool) → ℕ → List ActivityEvent → Bool
hit a j = any (λ e. a e && e.id == j)

any_absent :
    (a : ActivityEvent → Bool) (i j : ℕ) (es : List ActivityEvent)
    → count i (ids es) ≡ false
    → (i == j) ≡ true
    → hit a j es ≡ false
any_absent a i j [] h k = refl
any_absent a i j (e ∷ es) h k = ground (arith, any_absent a i j es)

-- Under distinct ids, two tests hold of events with an id exactly when both hold of one.
any_and :
    (a b : ActivityEvent → Bool) (j : ℕ) (es : List ActivityEvent)
    → Distinct (ids es)
    → (hit a j es && hit b j es) ≡ any (λ e. (a e && b e) && e.id == j) es
any_and a b j [] d = refl
any_and a b j (e ∷ es) (h, d) = ground (
  arith,
  any_absent a e.id j es h,
  any_absent b e.id j es h,
  any_absent (λ x. a x && b x) e.id j es h,
  any_and a b j es d,
)

restrict :
    (flag : Bool) (a b : ActivityEvent → Bool) (j : ℕ) (es : List ActivityEvent)
    → Distinct (ids es)
    → ((not flag || hit a j es) && hit b j es)
      ≡ any (λ e. ((not flag || a e) && b e) && e.id == j) es
restrict true a b j es d = any_and a b j es d
restrict false a b j es d = refl

holds-event_with_id :
    (q : ActivityEvent → Bool) (j : ℕ) (es : List ActivityEvent)
    → Distinct (ids es)
    → holds q (event_with_id j es) ≡ any (λ e. q e && e.id == j) es
holds-event_with_id q j [] d = refl
holds-event_with_id q j (e ∷ es) (h, d) =
    ground (arith, any_absent q e.id j es h, holds-event_with_id q j es d)

and_regroup : (a b c d : Bool) → ((a && (b && c)) && d) ≡ (a && (b && (c && d)))
and_regroup a b c d = ground arith

-- Three optional conditions and one that always stands.
restrict_all :
    (f g h : Bool) (a b c d : ActivityEvent → Bool) (j : ℕ) (es : List ActivityEvent)
    → Distinct (ids es)
    → (((not f || hit a j es) && ((not g || hit b j es) && (not h || hit c j es))) && hit d j es)
      ≡ any (λ e. ((not f || a e) && ((not g || b e) && ((not h || c e) && d e))) && e.id == j) es
restrict_all f g h a b c d j es distinct =
    and_regroup (not f || hit a j es) (not g || hit b j es) (not h || hit c j es) (hit d j es)
    ∙ ap (λ r. (not f || hit a j es) && r)
        (ap (λ r. (not g || hit b j es) && r) (restrict h c d j es distinct)
          ∙ restrict g b (λ e. (not h || c e) && d e) j es distinct)
    ∙ restrict f a (λ e. (not g || b e) && ((not h || c e) && d e)) j es distinct

any_or {ℓ} :
    {A : Type ℓ} (f g : A → Bool) (xs : List A) → any (λ x. f x || g x) xs ≡ (any f xs || any g xs)
any_or f g [] = refl
any_or f g (x ∷ xs) = ground (arith, any_or f g xs)

any_none {ℓ} : {A : Type ℓ} (xs : List A) → any (λ x. false) xs ≡ false
any_none [] = refl
any_none (x ∷ xs) = any_none xs

and_or_distrib : (a b c : Bool) → ((a && c) || (b && c)) ≡ ((a || b) && c)
and_or_distrib a b c = ground arith

any_swap :
    (q : Text → ActivityEvent → Bool) (r : ActivityEvent → Bool) (kws : List Text)
    (es : List ActivityEvent)
    → any (λ kw. any (λ e. q kw e && r e) es) kws ≡ any (λ e. any (λ kw. q kw e) kws && r e) es
any_swap q r [] es = sym (any_none es)
any_swap q r (kw ∷ kws) es =
    ap (λ b. any (λ e. q kw e && r e) es || b) (any_swap q r kws es)
    ∙ sym (any_or _ _ es)
    ∙ ap (λ f. any f es) (fun_ext (λ e. and_or_distrib (q kw e) (any (λ k. q k e) kws) (r e)))

-- Some keyword of the event contains a searched one.
abbrev pub has_keyword : List Text → ActivityEvent → Bool
has_keyword kws e = any (λ kw. any (λ k. contains k (lower kw)) (extract_keywords e)) kws

abbrev pub in_hours : ℕ → ℕ → ActivityEvent → Bool
in_hours start end e =
    leb (start / 3600) (e.timestamp / 3600) && leb (e.timestamp / 3600) (end / 3600)

abbrev pub from_app : Text → ActivityEvent → Bool
from_app app e = not (is_empty e.source) && contains (app_key e.source) (lower app)

-- The event meets each condition that the plan makes.
abbrev pub relevant : QueryPlan → ActivityEvent → Bool
relevant p e =
    (not p.use_keyword_index || has_keyword p.keywords e)
    && ((not p.use_time_index || in_hours p.time_start p.time_end e)
        && ((not p.use_app_index || from_app p.app_filter e) && is_asked_type p e))

keyword_test-bare :
    (kws : List Text) (j : ℕ) (e : ActivityEvent)
    → (has_keyword kws (bare e) && e.id == j) ≡ (has_keyword kws e && e.id == j)
unfolding extract_keywords
keyword_test-bare kws j e = refl

count-keyword_ids_of_events :
    (es : List ActivityEvent) (kws : List Text) (j : ℕ)
    → count j (keyword_ids (add_all empty es) kws []) ≡ any (λ e. has_keyword kws e && e.id == j) es
count-keyword_ids_of_events es kws j =
    count-keyword_ids (add_all empty es) kws [] j
    ∙ ap (λ f. any f kws) (fun_ext (λ kw. search_keyword-add_all es kw j))
    ∙ any_swap (λ kw e. any (λ k. contains k (lower kw)) (extract_keywords e)) (λ e. e.id == j) kws
        es

all-append {ℓ} :
    {A : Type ℓ} (p : A → Bool) (xs ys : List A) → all p (xs ++ ys) ≡ (all p xs && all p ys)
all-append p [] ys = refl
all-append p (x ∷ xs) ys = ground (arith, all-append p xs ys)

all_if {ℓ} :
    {A : Type ℓ} (p : A → Bool) (b : Bool) (x : A)
    → all p (if b then x ∷ [] else []) ≡ (not b || p x)
all_if p true x = ground arith
all_if p false x = refl

all-candidate_sets :
    (index : InvertedIndex) (p : QueryPlan) (j : ℕ)
    → all (count j) (candidate_sets (some index) p) ≡ (
        (not p.use_keyword_index || count j (keyword_ids index p.keywords []))
        && ((not p.use_time_index || count j (search_time_range index p.time_start p.time_end))
            && (not p.use_app_index || count j (search_application index p.app_filter))))
unfolding candidate_sets
all-candidate_sets index p j =
    rw (all-append, all_if (count j) p.use_keyword_index (keyword_ids index p.keywords []))
      (rw (
        all-append,
        all_if (count j) p.use_time_index (search_time_range index p.time_start p.time_end),
        all_if (count j) p.use_app_index (search_application index p.app_filter),
      ))

module _ {S : Type 0} (repository : EventRepository S) (s : S) (es stored : List ActivityEvent)
    (same : Perm (map bare es) (map bare stored)) (distinct : Distinct (ids stored))
    (finds : (j : ℕ) → repository.find_by_id s j ≡ event_with_id j stored)
    (sorter : Sorter ActivityEvent) (set_sorter : Sorter (List ℕ)) where
  found_match :
      (id : ℕ) (event : ActivityEvent) → repository.find_by_id s id ≡ some event → event.id ≡ id
  found_match id event h = event_with_id-match stored id event (sym (finds id) ∙ h)

  candidates_of_events :
      (p : QueryPlan) (j : ℕ)
      → (all (count j) (candidate_sets (some (add_all empty es)) p)
          && accepted p (repository.find_by_id s j))
        ≡ any (λ e. relevant p e && e.id == j) stored
  candidates_of_events p j =
      rw
        (
          all-candidate_sets (add_all empty es) p j,
          finds j,
          holds-event_with_id (is_asked_type p) j stored distinct,
          count-keyword_ids_of_events es p.keywords j
              ∙ any-bare _ (keyword_test-bare p.keywords j) es stored same,
          search_time_range-add_all es p.time_start p.time_end j
              ∙ any-bare _ (λ e. refl) es stored same,
          search_application-add_all es p.app_filter j ∙ any-bare _ (λ e. refl) es stored same,
        )
        (restrict_all p.use_keyword_index p.use_time_index p.use_app_index (has_keyword p.keywords)
          (in_hours p.time_start p.time_end) (from_app p.app_filter) (is_asked_type p) j stored
          distinct)

  -- Let the storage find exactly the events `stored`, of distinct ids, and let the index hold them, but
  -- for their metadata, in any order `es` of their addition. Then a plan that uses an index gives a
  -- list, sorted from the most recent event on, that has an event with a given id exactly when the
  -- stored event with that id meets all that the plan asks for: one of the keywords, the hours of the
  -- time range, the application, and the type.
  pub execute-relevant :
      (n : ℕ) (p : QueryPlan)
      → candidate_sets (some (add_all empty es)) p ≢ []
      → (found : List ActivityEvent) × (execute repository sorter set_sorter
            (some s)
            (some (add_all empty es))
            n
            p
          ≡ some found)
        × Sorted more_recent found
        × ((j : ℕ) → has_id j found ≡ any (λ e. relevant p e && e.id == j) stored)
  execute-relevant n p ne =
      let (found, returns, sorted, members) =
        execute-IsResult repository s found_match sorter set_sorter (some (add_all empty es)) n p
          ne in
      (found, returns, sorted, λ j. members j ∙ candidates_of_events p j)
