-- ===== src/Tests/CollectorTests.antt =====
-- Theorems of Collectors at concrete inputs.
use mathlib.Core.List.Perm
use mind_trace.Base.{
  ℕ, ◌+◌, ◌*◌, ◌≤◌, ◌≡◌, refl, true, false, List, [], ◌∷◌, ◌++◌, map, none, some, length, keep,
  Perm,
}
use mind_trace.Base.Text.{codes, Text, to_lower}
use mind_trace.Base.Eq.{string_eq}
use mind_trace.Base.Dictionary.{Distinct}
use mind_trace.Collectors.{new_collector, set_callback}
use mind_trace.Collectors.Browser.{
  Visit, BrowserCollector, get_chrome_timestamp, chrome_to_unix_timestamp, visit_event,
  process_history,
}
use mind_trace.Collectors.Browser
use mind_trace.Collectors.Browser.Watermark.{is_newer}
use mind_trace.Collectors.FileSystem.{
  File, Forest, nothing, directory, file, FileSystemCollector, state_of, is_skipped, is_tracked,
  scan,
}
use mind_trace.Collectors.FileSystem.Changes.{visible, paths, changes, known_after, scan-changes}
use mind_trace.Collectors.FileSystem.Settled.{stamps}
use mind_trace.Collectors.FileSystem.{scan_loop}
use mind_trace.Collectors.FileSystem.Rounds.{scan_loop_settled}
use mind_trace.Collectors.Browser.{poll_loop}
use mind_trace.Collectors.Browser.Polling.{all_visits, InOrder, answers, poll_loop_once}
use mind_trace.Collectors.WindowFocus.{FocusChange, WindowFocusCollector, all_changes}
use mind_trace.Collectors.WindowFocus
use mind_trace.Collectors.WindowFocus.Throttle.{all_changes_paced}
use mind_trace.Tests.{noon}

abbrev polling : BrowserCollector
polling = Browser.start (record { base = set_callback new_collector; last_visit_time = 0 }) noon

abbrev page : Visit
page = record {
  url = some (codes "https://isocpp.org");
  title = none;
  visit_time = get_chrome_timestamp (noon + 60);
}

abbrev next_page : Visit
next_page = record {
  url = some (codes "https://github.com");
  title = some (codes "GitHub");
  visit_time = get_chrome_timestamp (noon + 120);
}

-- The query of a database that keeps its visits in the order of the list.
abbrev newer_visits : List Visit → ℕ → List Visit
newer_visits h m = keep (is_newer m) h

polling_callback : polling.base.has_callback ≡ true
unfolding Browser.start
polling_callback = refl

poll_loop_once_example :
    (rows : List Visit) × (missed : List Visit) × Perm
      (rows ++ missed)
      (keep (is_newer polling.last_visit_time) (all_visits ((page ∷ []) ∷ (next_page ∷ []) ∷ [])))
    × ((poll_loop
          (answers newer_visits
            (λ h m. Perm.refl (keep (is_newer m) h))
            []
            ((page ∷ []) ∷ (next_page ∷ []) ∷ []))
          polling).base.sent
        ≡ polling.base.sent ++ map visit_event rows)
    × (InOrder [] ((page ∷ []) ∷ (next_page ∷ []) ∷ []) → missed ≡ [])
poll_loop_once_example =
    poll_loop_once newer_visits (λ h m. Perm.refl (keep (is_newer m) h))
      ((page ∷ []) ∷ (next_page ∷ []) ∷ []) polling polling_callback

abbrev source_file : ℕ → File
source_file now = record {
  path = codes "/home/me/main.cpp";
  filename = codes "main.cpp";
  extension = codes ".cpp";
  last_write = some 7;
  size = some (codes "120");
  now = now;
}

abbrev tree : ℕ → Forest
tree now = directory (codes "src") (file (source_file now) nothing) nothing

abbrev watching : FileSystemCollector
watching = record { base = set_callback new_collector; file_states = [] }

Distinct-paths : Distinct (paths (visible (tree noon)))
unfolding is_skipped to_lower is_tracked
Distinct-paths = (refl, tt)

same_stamps : stamps (visible (tree (noon + 2))) ≡ stamps (visible (tree noon))
unfolding is_skipped to_lower is_tracked
same_stamps = refl

scan-changes_example :
    ((scan (tree noon) watching).base.sent
      ≡ watching.base.sent ++ changes watching.file_states (visible (tree noon)))
    × ((p : Text)
        → state_of p (scan (tree noon) watching).file_states
          ≡ known_after p (visible (tree noon)) (state_of p watching.file_states))
scan-changes_example = scan-changes (tree noon) watching refl Distinct-paths

scan_loop_settled_example :
    scan_loop (some (tree noon)) (some (tree (noon + 2)) ∷ none ∷ []) watching
    ≡ scan (tree noon) watching
scan_loop_settled_example =
    scan_loop_settled (tree noon) (some (tree (noon + 2)) ∷ none ∷ []) watching Distinct-paths
      (same_stamps, (tt, tt))

abbrev focused : WindowFocusCollector
focused = WindowFocus.start (record {
  base = set_callback new_collector;
  has_instance = false;
  last_window_title = [];
  last_event_time = 0;
})

abbrev editor : ℕ → FocusChange
editor steady = record {
  is_foreground = true;
  title = some (codes "main.cpp");
  rect = none;
  exe_name = some (codes "Code.exe");
  steady = steady;
  now = noon;
}

abbrev focus_changes : List FocusChange
focus_changes = editor 900_000_000 ∷ editor 950_000_000 ∷ []

all_changes_paced_example :
    let d = all_changes focused focus_changes in
    length d.base.sent * 500_000_000 + focused.last_event_time
    ≤ length focused.base.sent * 500_000_000 + d.last_event_time
all_changes_paced_example = all_changes_paced focus_changes focused
