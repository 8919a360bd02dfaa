-- ===== src/Storage/EventStore/Refinement.antt =====
-- src/core/storage/event_store.cpp keeps the contract of its interface over any sequence of calls.

use mathlib.Core.Path.{subst}
use mind_trace.Base.{
  ℕ, ◌≡◌, refl, sym, ap, ◌∙◌, Bool, true, false, List, [], ◌∷◌, ◌++◌, Option, none, some, arith,
  map, map-perm, keep, all, All, Perm,
}
use mind_trace.Base.Eq.{nat_eq}
use mind_trace.Base.Sort.{Sorted}
use mind_trace.Base.Int64.{cast64, cast64_invol}
use mind_trace.Base.Dictionary.{count, Distinct}
use mind_trace.Event.{ActivityEvent, event_type_to_string}
use mind_trace.Json.{Json, IsJson}
use mind_trace.Storage.Sqlite.{Row, Sqlite, IsTable, in_range, earlier_row}
use mind_trace.Storage.Listing.{ids}
use mind_trace.Storage.EventStore.{
  c_str, row_to_event, batch_loop, unless_refused, end_batch, save, save_batch, find_by_time_range,
  find_by_type, clear,
}
use mind_trace.Storage.EventStore.Rows.{events, Distinct-events}
use mind_trace.Storage.EventStore.Finding.{
  is_named, find_by_id-events, count-events, find_by_type-events,
}
use mind_trace.Storage.EventStore.Saving.{Adds, save_inserts, Distinct-last, ids-append}
use mind_trace.Storage.EventStore.Contract.{
  Call, saves, saves_batch, gets, gets_between, gets_of_type, counts, clears, Answer, returns, cut,
  within_signed, earlier_signed, Promises, Conforms,
}
use mind_trace.Storage.EventStore.Calls.{of_save, of_batch, call_on, log_of}
use mind_trace.Storage.EventStore.Additions.{IsNamed, Gets, step_insert-cut, batch_loop-Gets}

module _ {J : Type 0} (json : Json J) where
  keep-signed :
      (start end : ℕ) (rs : List Row)
      → map (row_to_event json) (keep (in_range (cast64 start) (cast64 end)) rs)
        ≡ keep (within_signed start end) (map (row_to_event json) rs)
  unfolding row_to_event
  keep-signed start end [] = refl
  keep-signed start end (r ∷ rs) =
      ground (arith, cast64_invol r.timestamp, keep-signed start end rs)

  All-signed :
      (x : Row) (rs : List Row)
      → All (λ r. earlier_row r x ≡ false) rs
      → All (λ e. earlier_signed e (row_to_event json x) ≡ false) (map (row_to_event json) rs)
  unfolding row_to_event
  All-signed x [] h = tt
  All-signed x (r ∷ rs) (h, hs) =
      (rw (cast64_invol r.timestamp, cast64_invol x.timestamp) h, All-signed x rs hs)

  Sorted-signed :
      (rs : List Row) → Sorted earlier_row rs → Sorted earlier_signed (map (row_to_event json) rs)
  Sorted-signed [] s = tt
  Sorted-signed (r ∷ rs) (h, s) = (All-signed r rs h, Sorted-signed rs s)

module _ {J : Type 0} (json : Json J) (laws : IsJson json) {D : Type 0} {sqlite : Sqlite D}
    (table : IsTable sqlite)
    (deletes : (d : D) → (d' : D) × (sqlite.delete_events d ≡ some d')) where
  -- A call keeps its promise, and every row named.
  abbrev Keeps : D → Call → Answer × D → Type 0
  Keeps d c r =
      Promises (events json table d) c r.0 (events json table r.1) × IsNamed json laws table r.1

  save-Keeps :
      (d : D) (e : ActivityEvent) (o : Option (ℕ × D))
      → save json sqlite d e ≡ o
      → IsNamed json laws table d
      → Keeps d (saves e) (of_save json sqlite d o)
  unfolding of_save
  save-Keeps d e none h named = (refl, named)
  save-Keeps d e (some (id, d')) h named =
      let (t, written, stepped_to, is_id) = save_inserts json sqlite d e id d' h in
      let (added, named') = step_insert-cut json laws table d e t d' written stepped_to named in
      let (c, grown, same) = subst (λ i. Adds json laws table d (cut e) i d') (sym is_id) added in
      let absent : count c.id (ids (events json table d)) ≡ false =
        Distinct-last (ids (events json table d)) c.id (
          subst Distinct (ap ids grown ∙ ids-append (events json table d) c)
            (Distinct-events json table d')) in
      (
        (c, grown, same, ap (λ i. count i (ids (events json table d))) (sym same.0) ∙ absent),
        named',
      )

  committed-Keeps :
      (d : D) (batch : List ActivityEvent) (d' : D) (o : Option D)
      → sqlite.commit d' ≡ o
      → Gets json laws table d batch d'
      → Keeps d (saves_batch batch) (returns, unless_refused json sqlite d' o)
  unfolding unless_refused
  committed-Keeps d batch d' none h added = added
  committed-Keeps d batch d' (some d2) h ((new, grown, part), named) =
      let same = (table.commit_lem d' d2 h).0 in
      ((new, ap (map (row_to_event json)) same ∙ grown, part), ap (all is_named) same ∙ named)

  end_batch-Keeps :
      (d : D) (batch : List ActivityEvent) (r : D × Bool)
      → Gets json laws table d batch r.0
      → Keeps d (saves_batch batch) (of_batch json sqlite (end_batch json sqlite r))
  unfolding of_batch end_batch
  end_batch-Keeps d batch (d', false) added = added
  end_batch-Keeps d batch (d', true) added =
      committed-Keeps d batch d' (sqlite.commit d') refl added

  save_batch-Keeps :
      (d : D) (batch : List ActivityEvent)
      → IsNamed json laws table d
      → Keeps d (saves_batch batch) (of_batch json sqlite (save_batch json sqlite d batch))
  unfolding save_batch
  save_batch-Keeps d batch named =
      let begun = sqlite.begin_transaction d in
      let same = (table.begin_lem d).0 in
      let r = batch_loop json sqlite (sqlite.prepares_insert begun) begun batch in
      let ((new, grown, part), named') =
        batch_loop-Gets json laws table (sqlite.prepares_insert begun) batch begun
          (ap (all is_named) same ∙ named) in
      end_batch-Keeps d batch r
        ((new, grown ∙ ap (λ rs. map (row_to_event json) rs ++ new) same, part), named')

  call_on-Keeps :
      (d : D) (c : Call) → IsNamed json laws table d → Keeps d c (call_on json sqlite d c)
  unfolding call_on find_by_time_range find_by_type clear
  call_on-Keeps d (saves e) named = save-Keeps d e (save json sqlite d e) refl named
  call_on-Keeps d (saves_batch batch) named = save_batch-Keeps d batch named
  call_on-Keeps d (gets id) named = ((find_by_id-events json table d id, refl), named)
  call_on-Keeps d (gets_between start end) named =
      let (found, sorted) = table.select_time-rows d (cast64 start) (cast64 end) in
      (
        (
          subst (Perm (map (row_to_event json) (sqlite.select_time d (cast64 start) (cast64 end))))
              (keep-signed json start end (table.rows d)) (map-perm (row_to_event json) found),
          Sorted-signed json _ sorted,
          refl,
        ),
        named,
      )
  call_on-Keeps d (gets_of_type t) named = (
    (
      find_by_type-events json table d t named,
      Sorted-signed json _ (table.select_type-rows d (c_str (event_type_to_string t))).1,
      refl,
    ),
    named,
  )
  call_on-Keeps d counts named = ((count-events json table d, refl), named)
  call_on-Keeps d clears named =
      let (d', done) = deletes d in
      let gone = table.delete_lem d d' done in
      rw (done, unless_refused) (ap (map (row_to_event json)) gone, ap (all is_named) gone)

  -- Over any sequence of calls the store answers as the contract of a repository allows: an event is
  -- added under a fresh id or the call throws and changes nothing; of a batch a part is added, in its
  -- order; ids, ranges of times and types are looked up among exactly the events that are stored, and
  -- all of them are counted and removed. Conditions: at the start every row has the name of a type, and
  -- no deletion is refused.
  pub log_of-Conforms :
      (calls : List Call) (d : D)
      → all is_named (table.rows d) ≡ true
      → Conforms (events json table d) (log_of json sqlite d calls)
  unfolding log_of
  log_of-Conforms [] d named = tt
  log_of-Conforms (c ∷ later) d named =
      let (kept, named') = call_on-Keeps d c named in
      let d' = (call_on json sqlite d c).1 in
      (events json table d', kept, log_of-Conforms later d' named')
