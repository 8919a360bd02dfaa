-- ===== src/Index/Search.antt =====
-- What the searches of src/core/indexing/inverted_index.cpp find, as tests on the indexed events.
use mind_trace.Base.{
  ℕ, ◌≡◌, refl, Bool, ◌||◌, ◌&&◌, List, [], ◌∷◌, Option, none, some, is_empty, any, not, arith,
  ◌==◌,
}
use mind_trace.Base.Eq.{nat_eq, string_eq}
use mind_trace.Base.Text.{Text, lower, contains, contains_refl}
use mind_trace.Base.Dictionary.{hits, count, count-gather, count-find, find}
use mind_trace.Event.{ActivityEvent, extract_keywords}
use mind_trace.Index.{
  InvertedIndex, app_key, add, add_all, search_keyword, search_application, exact_match, empty,
}
use mind_trace.Index.Contents.{hits-add_keywords, hits-add_app}

exact_match-absorbed :
    (k : Text) (m : List (Text × List ℕ)) (j : ℕ) (r : Option (List ℕ))
    → find k m ≡ r
    → (count j (exact_match r) || hits (λ i. contains i k) m j) ≡ hits (λ i. contains i k) m j
unfolding exact_match
exact_match-absorbed k m j none e = refl
exact_match-absorbed k m j (some ids) e =
    ground (arith, count-find k m ids (λ i. contains i k) j (contains_refl k) e)

count-search_keyword :
    (index : InvertedIndex) (kw : Text) (j : ℕ)
    → count j (search_keyword index kw) ≡ hits (λ k. contains k (lower kw)) index.keyword_index j
unfolding search_keyword
count-search_keyword index kw j =
    rw (count-gather (λ k. contains k (lower kw)) index.keyword_index _ j)
      (exact_match-absorbed (lower kw) index.keyword_index j _ refl)

keyword_index-add_all :
    (p : Text → Bool) (index : InvertedIndex) (es : List ActivityEvent) (j : ℕ)
    → hits p (add_all index es).keyword_index j
      ≡ (hits p index.keyword_index j || any (λ e. any p (extract_keywords e) && e.id == j) es)
unfolding add_all add
keyword_index-add_all p index [] j = ground arith
keyword_index-add_all p index (e ∷ es) j = ground (
  arith,
  keyword_index-add_all p (add index e) es j,
  hits-add_keywords p e.id j (extract_keywords e) index.keyword_index,
)

-- After any history of events from the empty index, a keyword search returns an id exactly when some
-- event with that id has a keyword that contains the searched one, without regard to case.
pub search_keyword-add_all :
    (es : List ActivityEvent) (kw : Text) (j : ℕ)
    → count j (search_keyword (add_all empty es) kw)
      ≡ any (λ e. any (λ k. contains k (lower kw)) (extract_keywords e) && e.id == j) es
search_keyword-add_all es kw j =
    rw (count-search_keyword (add_all empty es) kw j)
      (keyword_index-add_all (λ k. contains k (lower kw)) empty es j)

app_index-add_all :
    (p : Text → Bool) (index : InvertedIndex) (es : List ActivityEvent) (j : ℕ)
    → hits p (add_all index es).app_index j ≡ (
        hits p index.app_index j
        || any (λ e. not (is_empty e.source) && p (app_key e.source) && e.id == j) es)
unfolding add_all add
app_index-add_all p index [] j = ground arith
app_index-add_all p index (e ∷ es) j =
    ground (arith, app_index-add_all p (add index e) es j, hits-add_app p e j index.app_index)

-- After any history of events from the empty index, an application search returns an id exactly when
-- some event with that id has a source, and the last component of it contains the searched name,
-- without regard to case.
pub search_application-add_all :
    (es : List ActivityEvent) (app : Text) (j : ℕ)
    → count j (search_application (add_all empty es) app)
      ≡ any
          (λ e. not (is_empty e.source) && contains (app_key e.source) (lower app) && e.id == j)
          es
unfolding search_application
search_application-add_all es app j =
    rw (count-gather (λ k. contains k (lower app)) (add_all empty es).app_index [] j)
      (app_index-add_all (λ k. contains k (lower app)) empty es j)
