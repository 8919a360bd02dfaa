-- ===== src/Storage/EventStore/Contract.antt =====
-- What include/core/storage/event_repository.hpp promises its callers, told by the list of the events in
-- the order of their insertion; with what src/core/storage/event_store.cpp makes of bytes 0, of times
-- from 2^63 on, and of an insertion that fails.
use mind_trace.Base.{
  ℕ, ◌≡◌, Bool, false, ◌&&◌, List, [], ◌∷◌, ◌++◌, Option, ltb, leb, keep, length, Perm, ◌⊎◌,
}
use mind_trace.Base.Eq.{nat_eq}
use mind_trace.Base.Sort.{Sorted}
use mind_trace.Base.Int64.{cast64}
use mind_trace.Base.Dictionary.{count}
use mind_trace.Event.{EventType, ActivityEvent, SameEvent, type_eq}
use mind_trace.Storage.Listing.{ids, event_with_id}
use mind_trace.Storage.EventStore.{c_str}

pub data Call : Type 0 where
  saves : ActivityEvent → Call
  saves_batch : List ActivityEvent → Call
  gets : ℕ → Call
  gets_between : ℕ → ℕ → Call
  gets_of_type : EventType → Call
  counts clears : Call

pub data Answer : Type 0 where
  gives : ℕ → Answer
  returns throws : Answer
  finds : Option ActivityEvent → Answer
  lists : List ActivityEvent → Answer

-- The event with its texts up to their first byte 0.
abbrev pub cut : ActivityEvent → ActivityEvent
cut e = record e { source = c_str e.source; content = c_str e.content }

-- Times as signed numbers.
abbrev pub within_signed : ℕ → ℕ → ActivityEvent → Bool
within_signed start end e =
    leb (cast64 start) (cast64 e.timestamp) && leb (cast64 e.timestamp) (cast64 end)

abbrev pub earlier_signed : ActivityEvent → ActivityEvent → Bool
earlier_signed a b = ltb (cast64 a.timestamp) (cast64 b.timestamp)

-- The first list has the events of a part of the second, in its order, each with an id of its own.
abbrev pub IsPartOf : List ActivityEvent → List ActivityEvent → Type 0
IsPartOf new [] = new ≡ []
IsPartOf new (e ∷ es) =
    IsPartOf new es
    ⊎ ((c : ActivityEvent) × (rest : List ActivityEvent) × (new ≡ c ∷ rest)
        × SameEvent c (record (cut e) { id = c.id })
        × IsPartOf rest es)

-- A call on a repository with the events `es` may be answered so, and leaves the last list.
abbrev pub Promises : List ActivityEvent → Call → Answer → List ActivityEvent → Type 0
Promises es (saves e) (gives id) after =
    (c : ActivityEvent) × (after ≡ es ++ c ∷ [])
    × SameEvent c (record (cut e) { id = id })
    × (count id (ids es) ≡ false)
Promises es (saves e) throws after = after ≡ es
Promises es (saves_batch batch) returns after =
    (new : List ActivityEvent) × (after ≡ es ++ new) × IsPartOf new batch
Promises es (saves_batch batch) throws after =
    (new : List ActivityEvent) × (after ≡ es ++ new) × IsPartOf new batch
Promises es (gets id) (finds found) after = (found ≡ event_with_id id es) × (after ≡ es)
Promises es (gets_between start end) (lists found) after =
    Perm found (keep (within_signed start end) es) × Sorted earlier_signed found × (after ≡ es)
Promises es (gets_of_type t) (lists found) after =
    Perm found (keep (λ e. type_eq e.type t) es) × Sorted earlier_signed found × (after ≡ es)
Promises es counts (gives n) after = (n ≡ length es) × (after ≡ es)
Promises es clears returns after = after ≡ []
Promises es call answer after = ⊥

-- A log of calls with their answers, from a repository with the events `es` on.
abbrev pub Conforms : List ActivityEvent → List (Call × Answer) → Type 0
Conforms es [] = Unit
Conforms es ((call, answer) ∷ log) =
    (after : List ActivityEvent) × Promises es call answer after × Conforms after log
