-- ===== src/Collectors/WindowFocus.antt =====
-- include/collectors/window_focus_collector.hpp and src/collectors/window_focus_collector.cpp, the
-- part for Windows: the callback for a change of focus. What Win32 answers in it is a `FocusChange`;
-- coordinates are shifted by 2^31, so that they are not negative. Here `start`
-- and `stop` are what they do to the collector; Thread has the thread that they start and join.
pub mod Throttle
pub mod Thread
pub mod Stub
use mind_trace.Base.{
  ℕ, ◌+◌, ◌-◌, ◌/◌, Bool, true, false, not, ◌||◌, List, [], ◌∷◌, map, Option, none, some,
  if◌then◌else◌, ltb, is_empty,
}
use mind_trace.Base.Eq.{text_eq, string_eq}
use mind_trace.Base.Text.{Text, codes, lower}
use mind_trace.Base.Dictionary.{count}
use mind_trace.Event.{ActivityEvent, window_focus}
use mind_trace.Collectors.{CollectorBase, emit}

pub record Rect : Type 0 where
  pub left : ℕ
  pub top : ℕ
  pub right : ℕ
  pub bottom : ℕ

-- `title` is `none` when `GetWindowTextW` gives no character, `rect` and `exe_name` when they are not
-- found. `steady` counts nanoseconds, `now` seconds since 1970.
pub record FocusChange : Type 0 where
  pub is_foreground : Bool
  pub title : Option Text
  pub rect : Option Rect
  pub exe_name : Option Text
  pub steady : ℕ
  pub now : ℕ

-- `has_instance`: `instance_` points to this collector.
pub record WindowFocusCollector : Type 0 where
  pub base : CollectorBase
  pub has_instance : Bool
  pub last_window_title : Text
  pub last_event_time : ℕ

unfoldable pub start : WindowFocusCollector → WindowFocusCollector
start c =
    if c.base.running
    then c
    else record c { base = record c.base { running = true }; has_instance = true }

unfoldable pub stop : WindowFocusCollector → WindowFocusCollector
stop c =
    if c.base.running
    then record c { base = record c.base { running = false }; has_instance = false }
    else c

unfoldable pub system_titles : List Text
system_titles = map codes ("Task Switching" ∷ "Program Manager" ∷ [])

unfoldable pub ignored_exes : List Text
ignored_exes = map codes (
    "explorer.exe" ∷ "shellexperiencehost.exe" ∷ "searchhost.exe" ∷ "searchui.exe"
    ∷ "systemsettings.exe" ∷ "lockapp.exe" ∷ "applicationframehost.exe" ∷ "dwm.exe"
    ∷ "textinputhost.exe" ∷ "taskmgr.exe" ∷ [])

-- `width < 100 || height < 100`
unfoldable pub is_small : Option Rect → Bool
is_small none = false
is_small (some r) = ltb r.right (r.left + 100) || ltb r.bottom (r.top + 100)

abbrev pub exe_or_unknown : Option Text → Text
exe_or_unknown none = codes "Unknown"
exe_or_unknown (some name) = name

unfoldable pub is_ignored_exe : Text → Bool
unfolding ignored_exes
is_ignored_exe exe_name = count (lower exe_name) ignored_exes

-- `duration_cast<milliseconds>(now_time - last_event_time_).count() < 500`
unfoldable pub is_too_soon : ℕ → ℕ → Bool
is_too_soon now_time last_event_time = ltb ((now_time - last_event_time) / 1_000_000) 500

unfoldable pub focus_event : FocusChange → Text → ActivityEvent
focus_event w title = record {
  id = 0;
  timestamp = w.now;
  type = window_focus;
  source = exe_or_unknown w.exe_name;
  content = title;
  metadata = [];
}

-- The early returns after the title is known.
unfoldable pub is_noise : WindowFocusCollector → FocusChange → Text → Bool
unfolding system_titles
is_noise c w title =
    is_empty title
    || (count title system_titles
        || (is_small w.rect
            || (text_eq title c.last_window_title
                || (is_ignored_exe (exe_or_unknown w.exe_name)
                    || is_too_soon w.steady c.last_event_time))))

unfoldable pub with_title : WindowFocusCollector → FocusChange → Option Text → WindowFocusCollector
with_title c w none = c
with_title c w (some title) = if is_noise c w title then c else record c {
  last_window_title = title;
  last_event_time = w.steady;
  base = emit c.base (focus_event w title);
}

unfoldable pub win_event_proc : WindowFocusCollector → FocusChange → WindowFocusCollector
win_event_proc c w =
    if not w.is_foreground || not c.has_instance
    then c
    else if not c.base.running
    then c
    else with_title c w w.title

unfoldable pub all_changes : WindowFocusCollector → List FocusChange → WindowFocusCollector
all_changes c [] = c
all_changes c (w ∷ ws) = all_changes (win_event_proc c w) ws
