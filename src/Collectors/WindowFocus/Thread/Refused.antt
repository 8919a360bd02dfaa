-- ===== src/Collectors/WindowFocus/Thread/Refused.antt =====
-- When Win32 refuses the hook: src/collectors/window_focus_collector.cpp, `run_message_loop` returns
-- at once, and `stop` posts to a thread that has ended.
use mind_trace.Base.{◌≡◌, ◌≢◌, refl, true, false, arith, ◌⊎◌, inl, inr}
use mind_trace.Collectors.WindowFocus.{WindowFocusCollector}
use mind_trace.Collectors.WindowFocus.Thread.Joined.{Reach-IsConsistent, initial-IsConsistent}
use mind_trace.Collectors.WindowFocus.Thread.{
  known, ended, outside, waiting, posting, joining, Caller, FocusThread, Step, starts,
  peeks_message, stores_id, sets_hook, is_refused, dispatches, gets_quit, stops, sees_id,
  posts_quit, joins, Reach, here, next, initial,
}

-- A thread that has ended, while the flag is still up or `stop` is in its loops.
abbrev IsStuck : FocusThread → Type 0
IsStuck w =
    (w.phase ≡ ended)
    × (w.caller ≢ joining)
    × (w.caller ≡ outside → w.collector.base.running ≡ true)

Step-IsStuck : {w v : FocusThread} → Step w v → IsStuck w → IsStuck v
Step-IsStuck (starts a b) s = ground arith
Step-IsStuck (peeks_message a) s = ground arith
Step-IsStuck (stores_id a) s = ground arith
Step-IsStuck (sets_hook a) s = ground arith
Step-IsStuck (is_refused a) s = ground arith
Step-IsStuck (dispatches f a) s = ground arith
Step-IsStuck (gets_quit a b) s = ground arith
Step-IsStuck (stops a b) s = ground arith
Step-IsStuck (sees_id a b) s = ground arith
Step-IsStuck (posts_quit a b c) s = ground arith
Step-IsStuck (joins a b) s = ground arith

Reach-IsStuck : {w v : FocusThread} → IsStuck w → Reach w v → IsStuck v
Reach-IsStuck s here = s
Reach-IsStuck s (next r st) = Step-IsStuck st (Reach-IsStuck s r)

-- `stop` has not been called since the last `start`, or it is in one of its two loops.
abbrev pub IsWaiting : FocusThread → Type 0
IsWaiting w =
    ((w.caller ≡ outside) × (w.collector.base.running ≡ true))
    ⊎ ((w.caller ≡ waiting) ⊎ (w.caller ≡ posting))

stuck-IsWaiting : (w : FocusThread) (caller : Caller) → w.caller ≡ caller → IsStuck w → IsWaiting w
stuck-IsWaiting w outside at (gone, not_joining, up) = inl (at, up at)
stuck-IsWaiting w waiting at stuck = inr (inl at)
stuck-IsWaiting w posting at stuck = inr (inr at)
stuck-IsWaiting w joining at (gone, not_joining, up) = absurd (not_joining at)

-- When the hook is refused before `stop` has posted its message, which may happen, `stop` never
-- returns, whatever the threads do from then on: in every state that is reached the thread has ended,
-- and `stop` is still to be called, with the flag up, or is in one of its two loops. The
-- collector was never started before.
pub stop_after_refusal :
    (c : WindowFocusCollector) (w v : FocusThread)
    → c.base.running ≡ false
    → c.has_instance ≡ false
    → Reach (initial c) w
    → w.phase ≡ known
    → w.caller ≢ joining
    → Reach (record w { phase = ended }) v
    → Step w (record w { phase = ended }) × (v.phase ≡ ended) × IsWaiting v
stop_after_refusal c w v down none_set r at not_joining later =
    let inv = Reach-IsConsistent (initial-IsConsistent c down none_set) r in
    let stuck : IsStuck v = Reach-IsStuck (refl, not_joining, λ out. ground arith) later in
    (is_refused at, stuck.0, stuck-IsWaiting v v.caller refl stuck)
