-- ===== src/Index/Invariant.antt =====
-- What holds of every index that src/core/indexing/inverted_index.cpp builds.
use mind_trace.Base.{
  ℕ, ◌+◌, ◌≡◌, refl, ap, ◌∙◌, Bool, true, false, ◌||◌, ◌&&◌, List, [], ◌∷◌, arith, any, length,
  length-append, ==_iff, and_split, not, is_empty, if◌then◌else◌, ◌==◌,
}
use mind_trace.Base.Eq.{Eq, nat_eq, string_eq}
use mind_trace.Base.Text.{Text}
use mind_trace.Base.Dictionary.{
  count, insert, insert_all, count-insert, hits, hits-add_at, keys, Distinct-keys-add_at,
  Distinct-insert, Distinct, add_at,
}
use mind_trace.Event.{ActivityEvent, extract_keywords}
use mind_trace.Index.{
  InvertedIndex, empty, add, add_all, add_keywords, add_app, event_count, hour_bucket,
}
use mind_trace.Index.Contents.{hits-add_keywords, hits-add_app}
use mind_trace.Storage.Listing.{ids}

abbrev pub in_some {ℓ} : {K : Type ℓ} ⦃e : Eq K⦄ → List (K × List ℕ) → ℕ → Bool
in_some m j = hits (λ k. true) m j

-- The keys of each hash map are distinct, as are the ids of all events, and an id in a bucket of a hash
-- map is the id of an event that was added.
abbrev pub IsValid : InvertedIndex → Type 0
IsValid index =
    Distinct (keys index.keyword_index)
    × Distinct (keys index.time_index)
    × Distinct (keys index.app_index)
    × Distinct index.all_events
    × ((j : ℕ)
        → (in_some index.keyword_index j
            || (in_some index.time_index j || in_some index.app_index j))
          ≡ true
        → count j index.all_events ≡ true)

Distinct-keys-add_keywords :
    (id : ℕ) (kws : List Text) (m : List (Text × List ℕ))
    → Distinct (keys m)
    → Distinct (keys (add_keywords id kws m))
unfolding add_keywords
Distinct-keys-add_keywords id [] m h = h
Distinct-keys-add_keywords id (kw ∷ kws) m h =
    Distinct-keys-add_keywords id kws (add_at kw id m) (Distinct-keys-add_at kw id m h)

Distinct-keys-add_app :
    (e : ActivityEvent) (m : List (Text × List ℕ))
    → Distinct (keys m)
    → Distinct (keys (add_app e m))
unfolding add_app
Distinct-keys-add_app e m h =
    Distinct-if (is_empty e.source) m _ h (Distinct-keys-add_at _ e.id m h)
  where
    Distinct-if :
        (b : Bool) (x y : List (Text × List ℕ))
        → Distinct (keys x)
        → Distinct (keys y)
        → Distinct (keys (if b then x else y))
    Distinct-if true x y h k = h
    Distinct-if false x y h k = k

any_of_id : (kws : List Text) (b : Bool) → (any (λ (k : Text). true) kws && b) ≡ true → b ≡ true
any_of_id kws b h = (and_split _ _ h).1

is_added :
    (k t a k' t' a' n n' b x y : Bool)
    → k' ≡ (k || (x && b))
    → t' ≡ (t || b)
    → a' ≡ (a || (y && b))
    → n' ≡ (n || b)
    → ((k || (t || a)) ≡ true → n ≡ true)
    → (k' || (t' || a')) ≡ true
    → n' ≡ true
is_added k t a k' t' a' n n' b x y e1 e2 e3 e4 h s = ground arith

add_app_hits :
    (e : ActivityEvent) (j : ℕ) (m : List (Text × List ℕ))
    → in_some (add_app e m) j ≡ (in_some m j || (not (is_empty e.source) && e.id == j))
add_app_hits e j m = hits-add_app (λ k. true) e j m ∙ ground arith

-- `add` keeps the index valid.
pub add-IsValid :
    (index : InvertedIndex) (e : ActivityEvent) → IsValid index → IsValid (add index e)
unfolding add
add-IsValid index e (kw, time, app, all_ids, within) = (
  Distinct-keys-add_keywords e.id (extract_keywords e) index.keyword_index kw,
  Distinct-keys-add_at (hour_bucket e.timestamp) e.id index.time_index time,
  Distinct-keys-add_app e index.app_index app,
  Distinct-insert e.id index.all_events all_ids,
  λ j.
      is_added _ _ _ _ _ _ _ _ (e.id == j) (any (λ (k : Text). true) (extract_keywords e))
        (not (is_empty e.source))
        (hits-add_keywords (λ k. true) e.id j (extract_keywords e) index.keyword_index)
        (hits-add_at (λ k. true) (hour_bucket e.timestamp) e.id j index.time_index)
        (add_app_hits e j index.app_index) (count-insert e.id j index.all_events) (within j),
)

-- After any history of additions to a valid index, the empty one among them, the index is valid.
pub add_all-IsValid :
    (es : List ActivityEvent) (index : InvertedIndex) → IsValid index → IsValid (add_all index es)
unfolding add_all
add_all-IsValid [] index h = h
add_all-IsValid (e ∷ es) index h = add_all-IsValid es (add index e) (add-IsValid index e h)

pub empty-IsValid : IsValid empty
empty-IsValid = (tt, tt, tt, tt, λ j h. cc)

length-insert : (x : ℕ) (s : List ℕ) → count x s ≡ false → length (insert x s) ≡ length s + 1
unfolding insert
length-insert x s h = rw h (length-append s (x ∷ []))

count_same : (x y : ℕ) (xs : List ℕ) → (x == y) ≡ true → count x xs ≡ count y xs
count_same x y xs h = rw ((==_iff x y).0 h) refl

still_fresh :
    (x y : ℕ) (xs s : List ℕ)
    → count x xs ≡ false
    → count y xs ≡ true
    → count y s ≡ false
    → count y (insert x s) ≡ false
still_fresh x y xs s h k l = ground (arith, count-insert x y s, count_same x y xs)

length-insert_all :
    (xs s : List ℕ)
    → Distinct xs
    → ((x : ℕ) → count x xs ≡ true → count x s ≡ false)
    → length (insert_all xs s) ≡ length s + length xs
unfolding insert_all
length-insert_all [] s d h = omega arith
length-insert_all (x ∷ xs) s (k, d) h = omega (
  arith,
  length-insert x s (h x (ground (arith, ==_iff x x))),
  length-insert_all xs (insert x s) d (λ y c. still_fresh x y xs s k c (h y (ground arith))),
)

all_events-add_all :
    (es : List ActivityEvent) (index : InvertedIndex)
    → (add_all index es).all_events ≡ insert_all (ids es) index.all_events
unfolding add_all add insert_all
all_events-add_all [] index = refl
all_events-add_all (e ∷ es) index = all_events-add_all es (add index e)

-- The number of indexed events is that of the added ones when their ids are distinct.
pub event_count-add_all :
    (es : List ActivityEvent) → Distinct (ids es) → event_count (add_all empty es) ≡ length es
unfolding event_count
event_count-add_all es d =
    ap (length) (all_events-add_all es empty)
    ∙ length-insert_all (ids es) [] d (λ x c. refl)
    ∙ length-ids es
  where
    length-ids : (us : List ActivityEvent) → 0 + length (ids us) ≡ length us
    length-ids [] = refl
    length-ids (u ∷ us) = omega (arith, length-ids us)
