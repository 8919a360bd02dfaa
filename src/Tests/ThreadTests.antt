-- ===== src/Tests/ThreadTests.antt =====
-- Runs and theorems of Collectors.WindowFocus.Thread at concrete inputs.
use mind_trace.Base.{◌≡◌, refl, true, false, [], inr}
use mind_trace.Collectors.{new_collector, set_callback}
use mind_trace.Collectors.WindowFocus.{WindowFocusCollector, start}
use mind_trace.Collectors.WindowFocus.Thread.{
  absent, known, looping, ended, own_id, outside, waiting, FocusThread, Step, starts, peeks_message,
  stores_id, sets_hook, gets_quit, stops, sees_id, posts_quit, joins, Reach, here, next, lower_flag,
  initial,
}
use mind_trace.Collectors.WindowFocus.Thread.Joined.{stop_joined}
use mind_trace.Collectors.WindowFocus.Thread.Refused.{IsWaiting, stop_after_refusal}
use mind_trace.Collectors.WindowFocus.Thread.Progress.{stop_can_return}

abbrev unstarted : WindowFocusCollector
unstarted = record {
  base = set_callback new_collector;
  has_instance = false;
  last_window_title = [];
  last_event_time = 0;
}

-- The thread has stored its id; and it is in its loop, with `stop` called.
abbrev with_id : FocusThread
with_id = record (initial unstarted) {
  collector = start unstarted;
  phase = known;
  thread_id = own_id;
}

abbrev stopping : FocusThread
stopping = record with_id {
  collector = lower_flag (start unstarted);
  phase = looping;
  hook = true;
  caller = waiting;
}

abbrev stopped : FocusThread
stopped = record stopping {
  collector = record (lower_flag (start unstarted)) { has_instance = false };
  phase = absent;
  hook = false;
  caller = outside;
}

reaches_id : Reach (initial unstarted) with_id
unfolding start
reaches_id = next (next (next here (starts refl refl)) (peeks_message refl)) (stores_id refl)

reaches_stopping : Reach (initial unstarted) stopping
unfolding start
reaches_stopping = next (next reaches_id (sets_hook refl)) (stops refl refl)

reaches_stopped : Reach (initial unstarted) stopped
reaches_stopped =
    next
      (next
        (next (next reaches_stopping (sees_id refl (λ e. cc))) (posts_quit refl refl (inr refl)))
        (gets_quit refl refl))
      (joins refl refl)

stop_joined_example :
    (stopped.phase ≡ absent)
    × (stopped.hook ≡ false)
    × (stopped.quit ≡ false)
    × (stopped.collector.has_instance ≡ false)
stop_joined_example = stop_joined unstarted stopped refl refl reaches_stopped refl refl

stop_can_return_example :
    (v : FocusThread) × Reach stopping v × (v.caller ≡ outside) × (v.collector.base.running ≡ false)
stop_can_return_example =
    stop_can_return unstarted stopping refl refl reaches_stopping (λ e. cc) (λ e. cc)

abbrev refused : FocusThread
refused = record with_id { phase = ended }

abbrev stuck : FocusThread
stuck = record refused { collector = lower_flag (start unstarted); caller = waiting }

reaches_stuck : Reach refused stuck
unfolding start
reaches_stuck = next here (stops refl refl)

stop_after_refusal_example : Step with_id refused × (stuck.phase ≡ ended) × IsWaiting stuck
stop_after_refusal_example =
    stop_after_refusal unstarted with_id stuck refl refl reaches_id refl (λ e. cc) reaches_stuck
