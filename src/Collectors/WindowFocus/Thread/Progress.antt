-- ===== src/Collectors/WindowFocus/Thread/Progress.antt =====
-- That `stop` of src/collectors/window_focus_collector.cpp can return.
use mind_trace.Base.{◌≡◌, ◌≢◌, refl, true, false, inr, arith}
use mind_trace.Collectors.WindowFocus.{WindowFocusCollector}
use mind_trace.Collectors.WindowFocus.Thread.Joined.{
  is_own, is_outside, IsConsistent, Reach-IsConsistent, initial-IsConsistent, Step-IsConsistent,
}
use mind_trace.Collectors.WindowFocus.Thread.{
  Phase, absent, begun, queued, known, looping, ended, ThreadId, zero_id, old_id, own_id, Caller,
  outside, waiting, posting, joining, FocusThread, Step, peeks_message, stores_id, sets_hook,
  gets_quit, sees_id, posts_quit, joins, Reach, here, next, initial,
}

then-Reach : {s t u : FocusThread} → Step s t → Reach t u → Reach s u
then-Reach st here = next here st
then-Reach st (next r last) = next (then-Reach st r) last

outside_of : (k : Caller) → is_outside k ≡ true → k ≡ outside
outside_of outside h = refl
outside_of waiting h = cc
outside_of posting h = cc
outside_of joining h = cc

-- The flag is down and no `stop` runs: it has returned.
abbrev pub CanReturn : FocusThread → Type 0
CanReturn w =
    (v : FocusThread) × Reach w v × (v.caller ≡ outside) × (v.collector.base.running ≡ false)

CanReturn-step : {w v : FocusThread} → Step w v → CanReturn v → CanReturn w
CanReturn-step st (u, r, out, down) = (u, then-Reach st r, out, down)

own_of : (t : ThreadId) → is_own t ≡ true → t ≡ own_id
own_of own_id h = refl
own_of zero_id h = cc
own_of old_id h = cc

not_zero : (t : ThreadId) → t ≡ own_id → t ≢ zero_id
not_zero t e z = cc

joins_returns :
    (w : FocusThread) → IsConsistent w → w.phase ≡ ended → w.caller ≡ joining → CanReturn w
joins_returns w inv at j = (_, next here (joins j at), refl, ground arith)

-- From the loop of the thread.
module _ (w : FocusThread) (inv : IsConsistent w) (at : w.phase ≡ looping) where
  joining_returns : w.caller ≡ joining → CanReturn w
  joining_returns j =
      let st = gets_quit at (ground arith) in
      CanReturn-step st (joins_returns _ (Step-IsConsistent st inv) refl j)

posting_returns :
    (w : FocusThread) → IsConsistent w → w.phase ≡ looping → w.caller ≡ posting → CanReturn w
posting_returns w inv at j =
    let st = posts_quit j (own_of w.thread_id (ground arith)) (inr at) in
    CanReturn-step st (joining_returns _ (Step-IsConsistent st inv) at refl)

waiting_returns :
    (w : FocusThread) → IsConsistent w → w.phase ≡ looping → w.caller ≡ waiting → CanReturn w
waiting_returns w inv at j =
    let own = own_of w.thread_id (ground arith) in
    let st = sees_id j (not_zero w.thread_id own) in
    CanReturn-step st (posting_returns _ (Step-IsConsistent st inv) at refl)

looping_returns :
    (w : FocusThread) (k : Caller)
    → IsConsistent w
    → w.phase ≡ looping
    → w.caller ≡ k
    → k ≢ outside
    → CanReturn w
looping_returns w outside inv at j in_stop = absurd (in_stop refl)
looping_returns w waiting inv at j in_stop = waiting_returns w inv at j
looping_returns w posting inv at j in_stop = posting_returns w inv at j
looping_returns w joining inv at j in_stop = joining_returns w inv at j

known_returns :
    (w : FocusThread) → IsConsistent w → w.phase ≡ known → w.caller ≢ outside → CanReturn w
known_returns w inv at in_stop =
    let st = sets_hook at in
    CanReturn-step st (looping_returns _ w.caller (Step-IsConsistent st inv) refl refl in_stop)

queued_returns :
    (w : FocusThread) → IsConsistent w → w.phase ≡ queued → w.caller ≢ outside → CanReturn w
queued_returns w inv at in_stop =
    let st = stores_id at in
    CanReturn-step st (known_returns _ (Step-IsConsistent st inv) refl in_stop)

phase_returns :
    (w : FocusThread) (p : Phase)
    → IsConsistent w
    → w.phase ≡ p
    → w.caller ≢ outside
    → (p ≡ ended → w.caller ≡ joining)
    → CanReturn w
phase_returns w absent inv at in_stop alive = absurd (in_stop (outside_of w.caller (ground arith)))
phase_returns w begun inv at in_stop alive =
    let st = peeks_message at in
    CanReturn-step st (queued_returns _ (Step-IsConsistent st inv) refl in_stop)
phase_returns w queued inv at in_stop alive = queued_returns w inv at in_stop
phase_returns w known inv at in_stop alive = known_returns w inv at in_stop
phase_returns w looping inv at in_stop alive = looping_returns w w.caller inv at refl in_stop
phase_returns w ended inv at in_stop alive = joins_returns w inv at (alive refl)

-- Wherever `stop` is, there are steps by which it returns, unless the thread has ended before it got
-- the message to quit: the threads never wait for each other. The
-- collector was never started before.
pub stop_can_return :
    (c : WindowFocusCollector) (w : FocusThread)
    → c.base.running ≡ false
    → c.has_instance ≡ false
    → Reach (initial c) w
    → w.caller ≢ outside
    → (w.phase ≡ ended → w.caller ≡ joining)
    → (v : FocusThread) × Reach w v × (v.caller ≡ outside) × (v.collector.base.running ≡ false)
stop_can_return c w down none_set r in_stop alive =
    phase_returns w w.phase (Reach-IsConsistent (initial-IsConsistent c down none_set) r) refl
      in_stop alive
