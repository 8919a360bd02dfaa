-- ===== src/Tests.antt =====
-- Sample data, runs on it, and the theorems at concrete inputs.
mod EventTests
mod SampleJson
mod SampleStore
mod StoreTests
mod IndexTests
mod ParserTests
mod CliTests
mod OutputTests
mod SessionTests
mod CollectorTests
mod ThreadTests
mod ExecutorTests
mod TimelineTests
mod PipelineTests
use mind_trace.Base.{
  ℕ, zero, suc, ◌+◌, Bool, true, false, List, [], ◌∷◌, ◌++◌, Option, none, some, length, keep, leb,
  ◌&&◌, ◌||◌, if◌then◌else◌, ◌==◌,
}
use mind_trace.Base.Text.{Text, codes, contains}
use mind_trace.Event.{ActivityEvent, file_modified, browser_visit, window_focus, type_eq}
use mind_trace.Storage.{EventRepository}
use mind_trace.Storage.Listing.{event_with_id}

-- 2023-11-14, 22:13:20, a Tuesday.
abbrev pub noon : ℕ
noon = 1_700_000_000

abbrev pub edit : ActivityEvent
edit = record {
  id = 1;
  timestamp = noon;
  type = file_modified;
  source = codes "/home/me/main.cpp";
  content = codes "Edited main.cpp";
  metadata = [];
}

abbrev pub visit : ActivityEvent
visit = record {
  id = 2;
  timestamp = noon + 600;
  type = browser_visit;
  source = codes "chrome.exe";
  content = codes "C++ templates";
  metadata = (codes "url", codes "https://isocpp.org") ∷ [];
}

abbrev pub focus : ActivityEvent
focus = record {
  id = 3;
  timestamp = noon + 9000;
  type = window_focus;
  source = codes "chrome.exe";
  content = codes "Inbox";
  metadata = [];
}

abbrev pub history : List ActivityEvent
history = edit ∷ visit ∷ focus ∷ []

-- A repository that keeps its events in a list.
abbrev pub in_memory : EventRepository (List ActivityEvent)
in_memory = record {
  save = λ s e. some (length s + 1, s ++ e ∷ []);
  save_batch = λ s es. some (s ++ es);
  find_by_id = λ s j. event_with_id j s;
  find_by_time_range = λ s start end. keep (λ e. leb start e.timestamp && leb e.timestamp end) s;
  find_by_type = λ s t. keep (λ e. type_eq e.type t) s;
  find_by_keyword = λ s k. keep (λ e. contains e.content k || contains e.source k) s;
  count = length;
  clear = λ s. [];
}
