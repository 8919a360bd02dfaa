-- ===== src/Index.antt =====
-- include/core/indexing/inverted_index.hpp and src/core/indexing/inverted_index.cpp: the index in
-- memory. Every method holds the lock of the index to its end, so a method is one step on the state.
pub mod Contents
pub mod Hours
pub mod Search
pub mod Invariant
use mind_trace.Base.{
  ℕ, zero, suc, ◌+◌, ◌-◌, ◌/◌, ◌≡◌, refl, Bool, true, false, ◌||◌, List, [], ◌∷◌, Option, none,
  some, if◌then◌else◌, leb, length, is_empty,
}
use mind_trace.Base.Eq.{nat_eq, string_eq}
use mind_trace.Base.Text.{Text, lower, contains, last_component}
use mind_trace.Base.Dictionary.{insert, insert_all, add_at, find, gather, keys}
use mind_trace.Event.{ActivityEvent, extract_keywords}

pub record InvertedIndex : Type 0 where
  pub keyword_index : List (Text × List ℕ)
  pub time_index : List (ℕ × List ℕ)
  pub app_index : List (Text × List ℕ)
  pub all_events : List ℕ

-- `InvertedIndex()` and `clear`.
abbrev pub empty : InvertedIndex
empty = record { keyword_index = []; time_index = []; app_index = []; all_events = [] }

unfoldable pub clear : InvertedIndex → InvertedIndex
clear index = record index { keyword_index = []; time_index = []; app_index = []; all_events = [] }

-- The loop over the keywords of an event.
unfoldable pub add_keywords : ℕ → List Text → List (Text × List ℕ) → List (Text × List ℕ)
add_keywords id [] m = m
add_keywords id (kw ∷ kws) m = add_keywords id kws (add_at kw id m)

unfoldable pub hour_bucket : ℕ → ℕ
hour_bucket timestamp = timestamp / 3600

-- The key of an event in the application index: the last component of its source, in lower case.
unfoldable pub app_key : Text → Text
app_key source = lower (last_component source)

unfoldable pub add_app : ActivityEvent → List (Text × List ℕ) → List (Text × List ℕ)
unfolding app_key
add_app event m = if is_empty event.source then m else add_at (app_key event.source) event.id m

unfoldable pub add : InvertedIndex → ActivityEvent → InvertedIndex
add index event = record index {
  all_events = insert event.id index.all_events;
  keyword_index = add_keywords event.id (extract_keywords event) index.keyword_index;
  time_index = add_at (hour_bucket event.timestamp) event.id index.time_index;
  app_index = add_app event index.app_index;
}

-- `if (it != end()) results = it->second;` and `results.insert(...)` on what is found.
exact_match : Option (List ℕ) → List ℕ
exact_match none = []
exact_match (some ids) = ids

unfoldable pub search_keyword : InvertedIndex → Text → List ℕ
unfolding exact_match
search_keyword index keyword =
    let lower_kw = lower keyword in
    let results = exact_match (find lower_kw index.keyword_index) in
    gather (λ indexed_kw. contains indexed_kw lower_kw) index.keyword_index results

-- One round of the loop over hours.
add_bucket : Option (List ℕ) → List ℕ → List ℕ
add_bucket none results = results
add_bucket (some ids) results = insert_all ids results

-- `for (bucket = …; bucket <= end_bucket; ++bucket)`. A bucket is at most 2^64 / 3600, so `++` does
-- not wrap. The first argument bounds the rounds.
unfoldable pub scan_buckets : ℕ → List (ℕ × List ℕ) → ℕ → ℕ → List ℕ → List ℕ
unfolding add_bucket
scan_buckets zero m bucket end_bucket results = results
scan_buckets (suc rounds) m bucket end_bucket results = elim (leb bucket end_bucket) [
  | true ↦ scan_buckets rounds m (suc bucket) end_bucket (add_bucket (find bucket m) results)
  | false ↦ results
]

unfoldable pub search_time_range : InvertedIndex → ℕ → ℕ → List ℕ
search_time_range index start end =
    let start_bucket = start / 3600 in
    let end_bucket = end / 3600 in
    scan_buckets (suc end_bucket - start_bucket) index.time_index start_bucket end_bucket []

unfoldable pub search_application : InvertedIndex → Text → List ℕ
search_application index app_name =
    let lower_app = lower app_name in gather (λ app. contains app lower_app) index.app_index []

unfoldable pub event_count : InvertedIndex → ℕ
event_count index = length index.all_events

unfoldable pub keyword_count : InvertedIndex → ℕ
keyword_count index = length index.keyword_index

-- The index of a history of events: `add` for one after the other.
unfoldable pub add_all : InvertedIndex → List ActivityEvent → InvertedIndex
add_all index [] = index
add_all index (e ∷ es) = add_all (add index e) es
