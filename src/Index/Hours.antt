-- ===== src/Index/Hours.antt =====
-- `search_time_range` of src/core/indexing/inverted_index.cpp: its loop over hours, and how exact it is.
use mathlib.Core.Path.{fun_ext}
use mind_trace.Base.{
  ℕ, zero, suc, ◌+◌, ◌-◌, ◌/◌, ◌<◌, ◌≤◌, ◌≡◌, refl, sym, ◌∙◌, Bool, true, false, ◌||◌, ◌&&◌, List,
  [], ◌∷◌, Option, none, some, any, any_mono, arith, ◌==◌, leb, ltb,
}
use native.Mathlib.Decide.{dec_lt}
use mind_trace.Base.Eq.{nat_eq}
use mind_trace.Base.Dictionary.{
  Distinct, Distinct-keys-add_at, hits, hits-add_at, hits_or, hits_never, keys, count,
  count-insert_all, count-found, find, found,
}
use mind_trace.Event.{ActivityEvent}
use mind_trace.Index.{
  InvertedIndex, add, add_all, hour_bucket, empty, search_time_range, scan_buckets, add_bucket,
}

-- The test of the hours from `bucket` to `end_bucket`.
abbrev within : ℕ → ℕ → ℕ → Bool
within bucket end_bucket h = leb bucket h && leb h end_bucket

count-add_bucket :
    (o : Option (List ℕ)) (results : List ℕ) (j : ℕ)
    → count j (add_bucket o results) ≡ (count j results || count j (found o))
unfolding add_bucket
count-add_bucket none results j = ground arith
count-add_bucket (some ids) results j = count-insert_all ids results j

within_past : (b e : ℕ) → e < b → within b e ≡ (λ h. false)
within_past b e lt = fun_ext (λ h. ground arith)

within_first : (b e : ℕ) → b ≤ e → within b e ≡ (λ h. h == b || within (suc b) e h)
within_first b e le = fun_ext (λ h. ground arith)

scan_buckets_round :
    (rounds : ℕ) (m : List (ℕ × List ℕ)) (b e : ℕ) (results : List ℕ)
    → b ≤ e
    → scan_buckets (suc rounds) m b e results
      ≡ scan_buckets rounds m (suc b) e (add_bucket (find b m) results)
unfolding scan_buckets
scan_buckets_round rounds m b e results h = ground arith

scan_buckets_end :
    (rounds : ℕ) (m : List (ℕ × List ℕ)) (b e : ℕ) (results : List ℕ)
    → e < b
    → scan_buckets rounds m b e results ≡ results
unfolding scan_buckets
scan_buckets_end zero m b e results h = refl
scan_buckets_end (suc rounds) m b e results h = ground arith

count-scan_end :
    (rounds : ℕ) (m : List (ℕ × List ℕ)) (b e : ℕ) (results : List ℕ) (j : ℕ)
    → e < b
    → count j (scan_buckets rounds m b e results) ≡ (count j results || hits (within b e) m j)
count-scan_end rounds m b e results j h =
    rw (scan_buckets_end rounds m b e results h, within_past b e h, hits_never m j) (ground arith)

-- With enough rounds the loop visits every hour from `b` to `e`.
count-scan_buckets :
    (rounds : ℕ) (m : List (ℕ × List ℕ)) (b e : ℕ) (results : List ℕ) (j : ℕ)
    → Distinct (keys m)
    → e < b + rounds
    → count j (scan_buckets rounds m b e results) ≡ (count j results || hits (within b e) m j)
count-scan_buckets zero m b e results j d h = count-scan_end zero m b e results j (omega arith)
count-scan_buckets (suc rounds) m b e results j d h = elim (dec_lt e b) [
  | yes past ↦ count-scan_end (suc rounds) m b e results j past
  | no more ↦
      rw
        (
          scan_buckets_round rounds m b e results (omega arith),
          count-scan_buckets rounds m (suc b) e (add_bucket (find b m) results) j d (omega arith),
          count-add_bucket (find b m) results j,
          count-found b m j d,
          within_first b e (omega arith),
          hits_or (λ k. k == b) (within (suc b) e) m j,
        )
        (ground arith)
]

pub time_index-Distinct :
    (index : InvertedIndex) (es : List ActivityEvent)
    → Distinct (keys index.time_index)
    → Distinct (keys (add_all index es).time_index)
unfolding add_all add
time_index-Distinct index [] d = d
time_index-Distinct index (e ∷ es) d =
    time_index-Distinct (add index e) es (Distinct-keys-add_at (hour_bucket e.timestamp) e.id _ d)

time_index-add_all :
    (p : ℕ → Bool) (index : InvertedIndex) (es : List ActivityEvent) (j : ℕ)
    → hits p (add_all index es).time_index j
      ≡ (hits p index.time_index j || any (λ e. p (e.timestamp / 3600) && e.id == j) es)
unfolding add_all add hour_bucket
time_index-add_all p index [] j = ground arith
time_index-add_all p index (e ∷ es) j = ground (
  arith,
  time_index-add_all p (add index e) es j,
  hits-add_at p (e.timestamp / 3600) e.id j index.time_index,
)

-- After any history of events from the empty index, a search of the range from `start` to `end`
-- returns an id exactly when some event with that id lies in an hour from that of `start` to that of
-- `end`. The loop visits all these hours and stops.
pub search_time_range-add_all :
    (es : List ActivityEvent) (start end j : ℕ)
    → count j (search_time_range (add_all empty es) start end)
      ≡ any
          (λ e.
            (leb (start / 3600) (e.timestamp / 3600) && leb (e.timestamp / 3600) (end / 3600))
            && e.id == j)
          es
unfolding search_time_range
search_time_range-add_all es start end j =
    rw
      (count-scan_buckets (suc (end / 3600) - start / 3600) (add_all empty es).time_index
        (start / 3600) (end / 3600) [] j (time_index-Distinct empty es tt) (omega arith))
      (time_index-add_all (within (start / 3600) (end / 3600)) empty es j)

-- No event of the range is missed: if some indexed event has the id and a time from `start` to `end`,
-- the search returns the id.
pub search_time_range_complete :
    (es : List ActivityEvent) (start end j : ℕ)
    → any (λ e. (leb start e.timestamp && leb e.timestamp end) && e.id == j) es ≡ true
    → count j (search_time_range (add_all empty es) start end) ≡ true
search_time_range_complete es start end j h =
    search_time_range-add_all es start end j ∙ any_mono _ _ (λ e k. ground arith) es h

-- What is returned lies less than an hour outside the range: some indexed event with the id is less
-- than 3600 seconds before `start`, or in the range, or less than 3600 seconds after `end`.
pub search_time_range_sound :
    (es : List ActivityEvent) (start end j : ℕ)
    → count j (search_time_range (add_all empty es) start end) ≡ true
    → any (λ e. (ltb start (e.timestamp + 3600) && ltb e.timestamp (end + 3600)) && e.id == j) es
      ≡ true
search_time_range_sound es start end j h =
    any_mono _ _ (λ e k. ground arith) es (sym (search_time_range-add_all es start end j) ∙ h)

-- The range is widened to whole hours: an event after `end`, but in the hour of `end`, is returned too.
-- Condition: the range starts no later than it ends.
pub search_time_range_late :
    (es : List ActivityEvent) (e : ActivityEvent) (start end : ℕ)
    → start ≤ end
    → end < e.timestamp
    → e.timestamp / 3600 ≡ end / 3600
    → count e.id (search_time_range (add_all empty (e ∷ es)) start end) ≡ true
search_time_range_late es e start end h k same =
    search_time_range-add_all (e ∷ es) start end e.id ∙ ground arith
