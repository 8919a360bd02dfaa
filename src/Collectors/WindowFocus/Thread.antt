-- ===== src/Collectors/WindowFocus/Thread.antt =====
-- The thread of the window focus collector, src/collectors/window_focus_collector.cpp: `start`,
-- `run_message_loop` and `stop` as steps that interleave, with one thread that calls `start` and
-- `stop`. A round of a waiting loop of `stop` that does not leave it changes nothing and is no step.
-- Of Win32 it takes what is documented: a message is posted to a thread when its id is that of a
-- thread that has a message queue and has not ended; and the hook is set or refused.
pub mod Joined
pub mod Refused
pub mod Progress
use mind_trace.Base.{◌≡◌, ◌≢◌, Bool, true, false, ◌⊎◌}
use mind_trace.Collectors.WindowFocus.{FocusChange, WindowFocusCollector, start, win_event_proc}

-- Where the thread stands in `run_message_loop`; `absent` when there is none to join.
pub data Phase : Type 0 where
  absent : Phase
  begun : Phase
  queued : Phase
  known : Phase
  looping : Phase
  ended : Phase

-- `thread_id_`: 0, the id of a thread that is joined, or that of the present one.
pub data ThreadId : Type 0 where
  zero_id : ThreadId
  old_id : ThreadId
  own_id : ThreadId

-- Where the caller stands in `stop`: outside, in one of its two loops, or in the join.
pub data Caller : Type 0 where
  outside : Caller
  waiting : Caller
  posting : Caller
  joining : Caller

-- `quit`: the message WM_QUIT is in the queue of the thread.
pub record FocusThread : Type 0 where
  pub collector : WindowFocusCollector
  pub phase : Phase
  pub thread_id : ThreadId
  pub hook : Bool
  pub quit : Bool
  pub caller : Caller

abbrev pub outdated : ThreadId → ThreadId
outdated zero_id = zero_id
outdated old_id = old_id
outdated own_id = old_id

abbrev pub lower_flag : WindowFocusCollector → WindowFocusCollector
lower_flag c = record c { base = record c.base { running = false } }

pub data Step (w : FocusThread) : FocusThread → Type 0 where
  starts :
      w.caller ≡ outside
      → w.collector.base.running ≡ false
      → Step w (record w {
        collector = start w.collector;
        phase = begun;
        thread_id = outdated w.thread_id;
      })
  peeks_message : w.phase ≡ begun → Step w (record w { phase = queued })
  stores_id : w.phase ≡ queued → Step w (record w { phase = known; thread_id = own_id })
  sets_hook : w.phase ≡ known → Step w (record w { phase = looping; hook = true })
  is_refused : w.phase ≡ known → Step w (record w { phase = ended })
  dispatches :
      (change : FocusChange)
      → w.phase ≡ looping
      → Step w (record w { collector = win_event_proc w.collector change })
  gets_quit : w.phase ≡ looping → w.quit ≡ true → Step w (record w { phase = ended; hook = false })
  stops :
      w.caller ≡ outside
      → w.collector.base.running ≡ true
      → Step w (record w { collector = lower_flag w.collector; caller = waiting })
  sees_id : w.caller ≡ waiting → w.thread_id ≢ zero_id → Step w (record w { caller = posting })
  posts_quit :
      w.caller ≡ posting
      → w.thread_id ≡ own_id
      → (w.phase ≡ known) ⊎ (w.phase ≡ looping)
      → Step w (record w { caller = joining; quit = true })
  joins :
      w.caller ≡ joining
      → w.phase ≡ ended
      → Step w (record w {
        collector = record w.collector { has_instance = false };
        phase = absent;
        quit = false;
        caller = outside;
      })

pub data Reach (s : FocusThread) : FocusThread → Type 0 where
  here : Reach s s
  next : {t u : FocusThread} → Reach s t → Step t u → Reach s u

-- Before the first `start`.
abbrev pub initial : WindowFocusCollector → FocusThread
initial c = record {
  collector = c;
  phase = absent;
  thread_id = zero_id;
  hook = false;
  quit = false;
  caller = outside;
}
