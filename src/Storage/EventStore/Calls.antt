-- ===== src/Storage/EventStore/Calls.antt =====
-- The methods of src/core/storage/event_store.cpp as calls with answers.

use mind_trace.Base.{ℕ, Bool, true, false, List, [], ◌∷◌, Option, none, some}
use mind_trace.Base.Eq.{nat_eq}
use mind_trace.Base.Dictionary.{}
use mind_trace.Json.{Json}
use mind_trace.Storage.Sqlite.{Sqlite}
use mind_trace.Storage.EventStore.{
  save, save_batch, find_by_id, find_by_time_range, find_by_type, count as stored_count, clear,
}
use mind_trace.Storage.EventStore.Contract.{
  Call, saves, saves_batch, gets, gets_between, gets_of_type, counts, clears, Answer, gives,
  returns, throws, finds, lists,
}

module _ {J : Type 0} (json : Json J) {D : Type 0} (sqlite : Sqlite D) where
  unfoldable pub of_save : D → Option (ℕ × D) → Answer × D
  of_save d none = (throws, d)
  of_save d (some (id, d')) = (gives id, d')

  unfoldable pub of_batch : D × Bool → Answer × D
  of_batch (d, true) = (returns, d)
  of_batch (d, false) = (throws, d)

  -- A call on the store: its answer, and the database after it.
  unfoldable pub call_on : D → Call → Answer × D
  unfolding of_save of_batch
  call_on d (saves e) = of_save d (save json sqlite d e)
  call_on d (saves_batch batch) = of_batch (save_batch json sqlite d batch)
  call_on d (gets id) = (finds (find_by_id json sqlite d id), d)
  call_on d (gets_between start end) = (lists (find_by_time_range json sqlite d start end), d)
  call_on d (gets_of_type t) = (lists (find_by_type json sqlite d t), d)
  call_on d counts = (gives (stored_count json sqlite d), d)
  call_on d clears = (returns, clear json sqlite d)

  -- The calls of a sequence with their answers.
  unfoldable pub log_of : D → List Call → List (Call × Answer)
  log_of d [] = []
  log_of d (c ∷ later) = (c, (call_on d c).0) ∷ log_of (call_on d c).1 later
