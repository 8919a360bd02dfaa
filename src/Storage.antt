-- ===== src/Storage.antt =====
-- include/core/storage/event_repository.hpp: the interface through which the other parts save and find
-- events. `S` is the state behind it; `none` as the result of `save` is an exception.
pub mod Listing
pub mod Sqlite
pub mod EventStore
use mind_trace.Base.{ℕ, List, Option}
use mind_trace.Base.Text.{Text}
use mind_trace.Event.{EventType, ActivityEvent}

pub record EventRepository (S : Type 0) : Type 0 where
  pub save : S → ActivityEvent → Option (ℕ × S)
  pub save_batch : S → List ActivityEvent → Option S
  pub find_by_id : S → ℕ → Option ActivityEvent
  pub find_by_time_range : S → ℕ → ℕ → List ActivityEvent
  pub find_by_type : S → EventType → List ActivityEvent
  pub find_by_keyword : S → Text → List ActivityEvent
  pub count : S → ℕ
  pub clear : S → S
