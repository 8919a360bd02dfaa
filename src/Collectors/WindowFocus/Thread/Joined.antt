-- ===== src/Collectors/WindowFocus/Thread/Joined.antt =====
-- What `stop` of src/collectors/window_focus_collector.cpp has cleaned up when it returns.
use mind_trace.Base.{◌≡◌, refl, Bool, true, false, arith, not, ◌&&◌, ◌||◌}
use mind_trace.Collectors.WindowFocus.{
  WindowFocusCollector, FocusChange, start, win_event_proc, with_title,
}
use mind_trace.Collectors.{emit}
use mind_trace.Collectors.WindowFocus.Thread.{
  Phase, absent, begun, queued, known, looping, ended, ThreadId, own_id, Caller, outside, joining,
  FocusThread, Step, starts, peeks_message, stores_id, sets_hook, is_refused, dispatches, gets_quit,
  stops, sees_id, posts_quit, joins, Reach, here, next, initial,
}

abbrev is_absent : Phase → Bool
is_absent absent = true
is_absent _ = false

abbrev is_looping : Phase → Bool
is_looping looping = true
is_looping _ = false

-- The thread has stored its id.
abbrev has_id : Phase → Bool
has_id known = true
has_id looping = true
has_id ended = true
has_id _ = false

abbrev pub is_own : ThreadId → Bool
is_own own_id = true
is_own _ = false

abbrev pub is_outside : Caller → Bool
is_outside outside = true
is_outside _ = false

abbrev is_joining : Caller → Bool
is_joining joining = true
is_joining _ = false

-- A thread is there while the flag is up or `stop` runs, and only then; its hook is set while it is in
-- its loop; WM_QUIT is in its queue while `stop` joins; and it has stored its id before its loop.
abbrev pub IsConsistent : FocusThread → Type 0
IsConsistent w =
    (is_absent w.phase ≡ (is_outside w.caller && not w.collector.base.running))
    × (w.hook ≡ is_looping w.phase)
    × (w.quit ≡ is_joining w.caller)
    × ((not (has_id w.phase) || is_own w.thread_id) ≡ true)
    × ((is_outside w.caller || not w.collector.base.running) ≡ true)
    × ((w.collector.base.running || (not (is_outside w.caller) || not w.collector.has_instance))
        ≡ true)

win_event_proc_flags :
    (c : WindowFocusCollector) (f : FocusChange)
    → ((win_event_proc c f).base.running ≡ c.base.running)
      × ((win_event_proc c f).has_instance ≡ c.has_instance)
unfolding win_event_proc with_title emit
win_event_proc_flags c f = (ground arith, ground arith)

pub Step-IsConsistent : {w v : FocusThread} → Step w v → IsConsistent w → IsConsistent v
unfolding start
Step-IsConsistent (starts a b) inv = ground arith
Step-IsConsistent (peeks_message a) inv = ground arith
Step-IsConsistent (stores_id a) inv = ground arith
Step-IsConsistent (sets_hook a) inv = ground arith
Step-IsConsistent (is_refused a) inv = ground arith
Step-IsConsistent {w} (dispatches f a) inv = ground (arith, win_event_proc_flags w.collector f)
Step-IsConsistent (gets_quit a b) inv = ground arith
Step-IsConsistent (stops a b) inv = ground arith
Step-IsConsistent (sees_id a b) inv = ground arith
Step-IsConsistent (posts_quit a b c) inv = ground arith
Step-IsConsistent (joins a b) inv = ground arith

pub Reach-IsConsistent : {s w : FocusThread} → IsConsistent s → Reach s w → IsConsistent w
Reach-IsConsistent inv here = inv
Reach-IsConsistent inv (next r st) = Step-IsConsistent st (Reach-IsConsistent inv r)

pub initial-IsConsistent :
    (c : WindowFocusCollector)
    → c.base.running ≡ false
    → c.has_instance ≡ false
    → IsConsistent (initial c)
initial-IsConsistent c down none_set = ground arith

absent_of : (p : Phase) → is_absent p ≡ true → p ≡ absent
absent_of absent h = refl
absent_of begun h = cc
absent_of queued h = cc
absent_of known h = cc
absent_of looping h = cc
absent_of ended h = cc

-- Whatever the threads do, from a collector that was never started on: whenever the flag is down and
-- no `stop` runs, thus whenever `stop` has returned, the thread is joined, its hook is released, no
-- message to quit is left over, and no callback finds the collector.
pub stop_joined :
    (c : WindowFocusCollector) (w : FocusThread)
    → c.base.running ≡ false
    → c.has_instance ≡ false
    → Reach (initial c) w
    → w.caller ≡ outside
    → w.collector.base.running ≡ false
    → (w.phase ≡ absent) × (w.hook ≡ false) × (w.quit ≡ false) × (w.collector.has_instance ≡ false)
stop_joined c w down none_set r out low =
    let inv = Reach-IsConsistent (initial-IsConsistent c down none_set) r in
    let gone : w.phase ≡ absent = absent_of w.phase (ground arith) in
    (gone, ground arith, ground arith, ground arith)
