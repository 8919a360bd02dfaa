-- ===== src/Collectors/Browser.antt =====
-- include/collectors/browser_collector.hpp and src/collectors/browser_collector.cpp: polls of Chrome's
-- history. The database is SQLite's: a poll gets the rows of the query, or `none` where the file is
-- missing or is not copied, opened or prepared.
pub mod Watermark
pub mod Polling
use mind_trace.Base.{
  ℕ, ◌/◌, true, false, ◌||◌, List, [], ◌∷◌, ◌++◌, Option, none, some, if◌then◌else◌, ltb, is_empty,
}
use mind_trace.Base.Eq.{text_eq}
use mind_trace.Base.Text.{Text, codes}
use mind_trace.Base.Words.{add64, sub64, mul64}
use mind_trace.Event.{ActivityEvent, browser_visit}
use mind_trace.Collectors.{CollectorBase, emit}

-- A row of the query; a text is `none` where SQLite has a null.
pub record Visit : Type 0 where
  pub url : Option Text
  pub title : Option Text
  pub visit_time : ℕ

pub record BrowserCollector : Type 0 where
  pub base : CollectorBase
  pub last_visit_time : ℕ

-- Microseconds since 1601 from seconds since 1970, and back.
unfoldable pub get_chrome_timestamp : ℕ → ℕ
get_chrome_timestamp unix_timestamp_sec = mul64 (add64 unix_timestamp_sec 11_644_473_600) 1_000_000

unfoldable pub chrome_to_unix_timestamp : ℕ → ℕ
chrome_to_unix_timestamp chrome_timestamp_us =
    sub64 (chrome_timestamp_us / 1_000_000) 11_644_473_600

-- `start` at a reading of the clock, and `stop`.
unfoldable pub start : BrowserCollector → ℕ → BrowserCollector
start c now = if c.base.running then c else record c {
  base = record c.base { running = true };
  last_visit_time = get_chrome_timestamp now;
}

unfoldable pub stop : BrowserCollector → BrowserCollector
stop c = record c { base = record c.base { running = false } }

-- `p ? p : otherwise`
abbrev pub text_or : Text → Option Text → Text
text_or otherwise none = otherwise
text_or otherwise (some t) = t

-- The title of a visit, or the address after "Visited: ".
unfoldable pub clean_title : Text → Text → Text
clean_title url title =
    if is_empty title || text_eq title url then codes "Visited: " ++ url else title

unfoldable pub visit_event : Visit → ActivityEvent
visit_event v =
    let url = text_or [] v.url in
    record {
      id = 0;
      timestamp = chrome_to_unix_timestamp v.visit_time;
      type = browser_visit;
      source = codes "chrome.exe";
      content = clean_title url (text_or url v.title);
      metadata = (codes "url", url) ∷ [];
    }

-- The loop over the rows; `max_time_seen` is its running maximum.
unfoldable pub read_rows : List Visit → CollectorBase → ℕ → CollectorBase × ℕ
read_rows [] c max_time_seen = (c, max_time_seen)
read_rows (v ∷ vs) c max_time_seen =
    read_rows vs (emit c (visit_event v))
      (if ltb max_time_seen v.visit_time then v.visit_time else max_time_seen)

-- A poll. The rows are an answer to the watermark, which is bound to the query.
unfoldable pub process_history : Option (ℕ → List Visit) → BrowserCollector → BrowserCollector
process_history none c = c
process_history (some query) c =
    let (base, max_time_seen) = read_rows (query c.last_visit_time) c.base c.last_visit_time in
    record { base = base; last_visit_time = max_time_seen }

-- The loop of the thread: a poll for each time that the flag is read as up.
unfoldable pub poll_loop : List (Option (ℕ → List Visit)) → BrowserCollector → BrowserCollector
poll_loop [] c = c
poll_loop (answer ∷ answers) c = poll_loop answers (process_history answer c)
