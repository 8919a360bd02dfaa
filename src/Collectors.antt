-- ===== src/Collectors.antt =====
-- include/collectors/collector_base.hpp: what every collector has. The callback is known by the events
-- that it was given, in order.
pub mod Browser
pub mod Clipboard
pub mod FileSystem
pub mod WindowFocus
use mind_trace.Base.{Bool, true, false, List, [], ◌∷◌, ◌++◌, if◌then◌else◌}
use mind_trace.Event.{ActivityEvent}

pub record CollectorBase : Type 0 where
  pub has_callback : Bool
  pub running : Bool
  pub sent : List ActivityEvent

-- A collector without a callback, and `set_callback`.
abbrev pub new_collector : CollectorBase
new_collector = record { has_callback = false; running = false; sent = [] }

abbrev pub set_callback : CollectorBase → CollectorBase
set_callback c = record c { has_callback = true }

-- Without a callback the event is dropped.
unfoldable pub emit : CollectorBase → ActivityEvent → CollectorBase
emit c event = record c { sent = if c.has_callback then c.sent ++ event ∷ [] else c.sent }
