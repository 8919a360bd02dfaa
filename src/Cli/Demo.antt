-- ===== src/Cli/Demo.antt =====
-- `cmd_demo` of apps/cli/main.cpp: the events that it loads, up to what it prints.
pub mod Loading
pub mod Loaded
use mind_trace.Base.{ℕ, ◌+◌, ◌*◌, ◌/◌, List, [], ◌∷◌, Option, none, some}
use mind_trace.Base.Text.{Text, codes}
use mind_trace.Base.Words.{add64}
use mind_trace.Event.{EventType, ActivityEvent}
use mind_trace.Index.{InvertedIndex, add}
use mind_trace.Storage.{EventRepository}

abbrev demo_event : ℕ → EventType → Text → Text → List (Text × Text) → ActivityEvent
demo_event time type source content metadata = record {
  id = 0;
  timestamp = time;
  type = type;
  source = source;
  content = content;
  metadata = metadata;
}

abbrev extension : Text → List (Text × Text)
extension t = (codes "extension", t) ∷ []

unfoldable pub demo_events : ℕ → List ActivityEvent
demo_events now =
    let today_start = now / 86400 * 86400 in
    demo_event (add64 today_start (9 * 3600)) EventType.window_focus (codes "VSCode")
      (codes "VSCode opened") []
    ∷ demo_event (add64 today_start (9 * 3600 + 300)) EventType.file_opened (codes "main.cpp")
        (codes "Opened main.cpp") (extension (codes ".cpp"))
    ∷ demo_event (add64 today_start (9 * 3600 + 600)) EventType.file_modified (codes "main.cpp")
        (codes "Edited main.cpp") (extension (codes ".cpp"))
    ∷ demo_event (add64 today_start (10 * 3600)) EventType.browser_visit (codes "stackoverflow.com")
        (codes "Searched C++ template help") []
    ∷ demo_event (add64 today_start (10 * 3600 + 300)) EventType.clipboard_copy
        (codes "stackoverflow.com") (codes "Copied code snippet") []
    ∷ demo_event (add64 today_start (11 * 3600)) EventType.file_modified (codes "utils.hpp")
        (codes "Updated utility functions") (extension (codes ".hpp"))
    ∷ demo_event (add64 today_start (12 * 3600)) EventType.window_focus (codes "Terminal")
        (codes "Switched to terminal") []
    ∷ demo_event (add64 today_start (12 * 3600 + 60)) EventType.file_modified
        (codes "CMakeLists.txt") (codes "Updated build config") []
    ∷ demo_event (add64 today_start (14 * 3600)) EventType.browser_visit (codes "github.com")
        (codes "Reviewed pull request") []
    ∷ demo_event (add64 today_start (15 * 3600)) EventType.file_modified (codes "test_main.cpp")
        (codes "Wrote unit tests") (extension (codes ".cpp"))
    ∷ []

module _ {S : Type 0} (repository : EventRepository S) where
  -- The rest of the loop after an event is saved; an exception ends it.
  unfoldable pub load_rest :
      ActivityEvent
      → (S → InvertedIndex → Option (S × InvertedIndex))
      → InvertedIndex
      → Option (ℕ × S)
      → Option (S × InvertedIndex)
  load_rest event rest index none = none
  load_rest event rest index (some (id, s)) = rest s (add index (record event { id = id }))

  unfoldable pub load : List ActivityEvent → S → InvertedIndex → Option (S × InvertedIndex)
  unfolding load_rest
  load [] s index = some (s, index)
  load (event ∷ events) s index = load_rest event (load events) index (repository.save s event)

  unfoldable pub cmd_demo : ℕ → S → InvertedIndex → Option (S × InvertedIndex)
  cmd_demo now s index = load (demo_events now) s index
