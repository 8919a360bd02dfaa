-- ===== src/Collectors/Browser/Watermark.antt =====
-- The watermark of the browser collector, src/collectors/browser_collector.cpp: which visits a poll
-- sends, and the clock of Chrome.
use mathlib.Core.List.{append_assoc, append-nil}
use mathlib.Core.Path.{subst}
use mind_trace.Base.{
  ℕ, ◌+◌, ◌*◌, ◌<◌, ◌≡◌, refl, sym, ap, ◌∙◌, Bool, true, ◌&&◌, List, [], ◌∷◌, ◌++◌, some, map,
  if◌then◌else◌, ltb, leb, keep, and_split, keep-append, all, all-perm, arith, Perm,
}
use mind_trace.Base.Words.{u64_mod, add64, sub64, mul64}
use mind_trace.Event.{ActivityEvent}
use mind_trace.Collectors.{CollectorBase, emit}
use mind_trace.Collectors.Browser.{
  Visit, BrowserCollector, get_chrome_timestamp, chrome_to_unix_timestamp, visit_event, read_rows,
  process_history,
}

-- A time in Unix seconds is read back from Chrome's clock, and from any microsecond of that second.
-- Condition: Chrome's time is below 2^64.
pub chrome_to_unix_timestamp-get_chrome_timestamp :
    (t us : ℕ)
    → us < 1_000_000
    → (t + 11_644_473_600) * 1_000_000 + us < u64_mod
    → chrome_to_unix_timestamp (get_chrome_timestamp t + us) ≡ t
unfolding chrome_to_unix_timestamp get_chrome_timestamp add64 sub64 mul64
chrome_to_unix_timestamp-get_chrome_timestamp t us h k = omega (arith, h, k)

-- The visits later than a watermark.
abbrev pub is_newer : ℕ → Visit → Bool
is_newer m v = ltb m v.visit_time

abbrev pub not_later : ℕ → Visit → Bool
not_later m v = leb v.visit_time m

emit-sent :
    (c : CollectorBase) (e : ActivityEvent)
    → c.has_callback ≡ true
    → (emit c e).sent ≡ c.sent ++ e ∷ []
unfolding emit
emit-sent c e h = rw h refl

emit-has_callback :
    (c : CollectorBase) (e : ActivityEvent) → (emit c e).has_callback ≡ c.has_callback
unfolding emit
emit-has_callback c e = refl

read_rows-sent :
    (vs : List Visit) (c : CollectorBase) (m : ℕ)
    → c.has_callback ≡ true
    → (read_rows vs c m).0.sent ≡ c.sent ++ map visit_event vs
unfolding read_rows
read_rows-sent [] c m h = sym (append-nil c.sent)
read_rows-sent (v ∷ vs) c m h =
    read_rows-sent vs (emit c (visit_event v)) (if ltb m v.visit_time then v.visit_time else m)
      (emit-has_callback c (visit_event v) ∙ h)
    ∙ ap (λ l. l ++ map visit_event vs) (emit-sent c (visit_event v) h)
    ∙ append_assoc c.sent (visit_event v ∷ []) (map visit_event vs)

read_rows-has_callback :
    (vs : List Visit) (c : CollectorBase) (m : ℕ)
    → (read_rows vs c m).0.has_callback ≡ c.has_callback
unfolding read_rows
read_rows-has_callback [] c m = refl
read_rows-has_callback (v ∷ vs) c m =
    read_rows-has_callback vs (emit c (visit_event v)) _ ∙ emit-has_callback c (visit_event v)

-- The maximum is at most a bound exactly when the watermark before and all rows are.
leb-read_rows :
    (vs : List Visit) (c : CollectorBase) (m b : ℕ)
    → leb (read_rows vs c m).1 b ≡ (leb m b && all (not_later b) vs)
unfolding read_rows
leb-read_rows [] c m b = ground arith
leb-read_rows (v ∷ vs) c m b = ground (
  arith,
  leb-read_rows vs (emit c (visit_event v)) (if ltb m v.visit_time then v.visit_time else m) b,
)

-- Once all visits later than `m` are at most `n`, and `m` is too, none is later than `n`.
pub keep-newer_none :
    (vs : List Visit) (m n : ℕ)
    → leb m n ≡ true
    → all (not_later n) (keep (is_newer m) vs) ≡ true
    → keep (is_newer n) vs ≡ []
keep-newer_none [] m n h k = refl
keep-newer_none (v ∷ vs) m n h k = ground (arith, keep-newer_none vs m n)

-- The watermark after a poll is at most a bound exactly when the one before and the rows are.
pub leb-last_visit_time :
    (query : ℕ → List Visit) (c : BrowserCollector) (b : ℕ)
    → leb (process_history (some query) c).last_visit_time b
      ≡ (leb c.last_visit_time b && all (not_later b) (query c.last_visit_time))
unfolding process_history
leb-last_visit_time query c b = leb-read_rows (query c.last_visit_time) c.base c.last_visit_time b

pub leb_refl : (n : ℕ) → leb n n ≡ true
leb_refl n = ground arith

pub process_history-sent :
    (query : ℕ → List Visit) (c : BrowserCollector)
    → c.base.has_callback ≡ true
    → (process_history (some query) c).base.sent
      ≡ c.base.sent ++ map visit_event (query c.last_visit_time)
unfolding process_history
process_history-sent query c e = read_rows-sent (query c.last_visit_time) c.base c.last_visit_time e

pub process_history-has_callback :
    (query : ℕ → List Visit) (c : BrowserCollector)
    → (process_history (some query) c).base.has_callback ≡ c.base.has_callback
unfolding process_history
process_history-has_callback query c =
    read_rows-has_callback (query c.last_visit_time) c.base c.last_visit_time

module _ (query : List Visit → ℕ → List Visit)
    (query_newer : (h : List Visit) (m : ℕ) → Perm (query h m) (keep (is_newer m) h)) where
  -- After a poll the watermark is not below the one before, and no visit of the history is later.
  pub watermark_covers :
      (h : List Visit) (c : BrowserCollector)
      → let n = (process_history (some (query h)) c).last_visit_time in
        (leb c.last_visit_time n ≡ true)
        × (all (not_later n) (keep (is_newer c.last_visit_time) h) ≡ true)
  unfolding process_history
  watermark_covers h c =
      let m = c.last_visit_time in
      let n = (read_rows (query h m) c.base m).1 in
      let bounded : (leb m n && all (not_later n) (query h m)) ≡ true =
        sym (leb-read_rows (query h m) c.base m n) ∙ leb_refl n in
      (
        (and_split _ _ bounded).0,
        sym (all-perm (not_later n) (query_newer h m)) ∙ (and_split _ _ bounded).1,
      )

  -- Let a first poll read a history and a second one the same history with new visits at its end.
  -- Then the first sends the event of each visit that is later than the watermark, and the second of
  -- each new visit that is later than the watermark of the first: no visit is sent by both. Conditions:
  -- a callback is set, and the query gives the visits later than its argument, in some order.
  pub process_history_twice :
      (h new : List Visit) (c : BrowserCollector)
      → c.base.has_callback ≡ true
      → let first = process_history (some (query h)) c in
        let second = process_history (some (query (h ++ new))) first in
        (rows : List Visit) × (more : List Visit) × Perm rows (keep (is_newer c.last_visit_time) h)
        × Perm more (keep (is_newer first.last_visit_time) new)
        × (first.base.sent ≡ c.base.sent ++ map visit_event rows)
        × (second.base.sent ≡ first.base.sent ++ map visit_event more)
  process_history_twice h new c e =
      let first = process_history (some (query h)) c in
      let m = c.last_visit_time in
      let n = first.last_visit_time in
      let (grows, covers) = watermark_covers h c in
      let only_new : keep (is_newer n) (h ++ new) ≡ keep (is_newer n) new =
        keep-append (is_newer n) h new
        ∙ ap (λ l. l ++ keep (is_newer n) new) (keep-newer_none h m n grows covers) in
      (
        query h m,
        query (h ++ new) n,
        query_newer h m,
        subst (λ l. Perm (query (h ++ new) n) l) only_new (query_newer (h ++ new) n),
        process_history-sent (query h) c e,
        process_history-sent (query (h ++ new)) first
            (process_history-has_callback (query h) c ∙ e),
      )
