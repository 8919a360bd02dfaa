-- ===== src/Cli/Periods.antt =====
-- The periods of `cmd_timeline` in apps/cli/main.cpp.
use mathlib.Core.Path.{fun_ext}
use mind_trace.Base.{
  List, ltb, all, ap, sym, ◌∙◌, ℕ, ◌+◌, ◌*◌, ◌/◌, ◌≤◌, ◌<◌, ◌≡◌, Bool, true, ◌&&◌, if◌then◌else◌,
  leb, ◌==◌, arith,
}
use mind_trace.Base.Eq.{text_eq}
use mind_trace.Base.Text.{Text, codes}
use mind_trace.Base.Words.{u64_mod, sub64, sub64_small}
use mind_trace.Base.Sort.{Sorter}
use mind_trace.Event.{ActivityEvent}
use mind_trace.Storage.{EventRepository}
use mind_trace.Timeline.Runs.{events_of, Grouped}
use mind_trace.Timeline.Period.{build_period_lem}
use mind_trace.Cli.{timeline_period, cmd_timeline}

within_yesterday :
    (now t : ℕ)
    → 86400 ≤ now
    → now < u64_mod
    → (leb (sub64 (now / 86400 * 86400) 86400) t && leb t (sub64 (now / 86400 * 86400) 1))
      ≡ (t / 86400 + 1 == now / 86400)
within_yesterday now t h k = ground (
  arith,
  sub64_small (now / 86400 * 86400) 86400 (omega (arith, h, k)) (omega (arith, h, k)),
  sub64_small (now / 86400 * 86400) 1 (omega (arith, h, k)) (omega (arith, h, k)),
)

within_today :
    (now t : ℕ)
    → (leb (now / 86400 * 86400) t && leb t now) ≡ (t / 86400 == now / 86400 && leb t now)
within_today now t = ground arith

-- A time of the day that is asked for.
abbrev pub is_of_day : Text → ℕ → ℕ → Bool
is_of_day day now t =
    if text_eq day (codes "yesterday")
    then t / 86400 + 1 == now / 86400
    else t / 86400 == now / 86400 && leb t now

-- The period of a timeline holds a time exactly when its day is the day before, for "yesterday", and
-- for any other word exactly when it is a time of today up to now. Condition: the clock reads a time
-- after the first day and below 2^64.
pub timeline_period_lem :
    (day : Text) (now t : ℕ)
    → 86400 ≤ now
    → now < u64_mod
    → (leb (timeline_period day now).0 t && leb t (timeline_period day now).1) ≡ is_of_day day now t
unfolding timeline_period
timeline_period_lem day now t h k = ground (arith, within_yesterday now t h k, within_today now t)

module _ {S : Type 0} (repository : EventRepository S) (s : S)
    (bounded : (start end : ℕ)
      → all (λ e. ltb e.timestamp u64_mod) (repository.find_by_time_range s start end) ≡ true)
    (gap_threshold : ℕ) (walk : List (Text × ℕ) → List (Text × ℕ))
    (sorter : Sorter ActivityEvent) where
  -- All events of the timeline that is printed for a day are of that day: the day before for
  -- "yesterday", and otherwise today up to now; and its sessions are as those of the builder.
  -- Conditions: the clock reads a time after the first day and below 2^64, and so do stored events.
  pub cmd_timeline_lem :
      (day : Text) (now : ℕ)
      → 86400 ≤ now
      → now < u64_mod
      → let timeline = cmd_timeline repository gap_threshold walk sorter day now s in
        (all (λ e. is_of_day day now e.timestamp) (events_of timeline.sessions) ≡ true)
        × Grouped gap_threshold walk timeline.sessions
  unfolding cmd_timeline
  cmd_timeline_lem day now h k =
      let start = (timeline_period day now).0 in
      let end = (timeline_period day now).1 in
      let (_, _, within, _, grouped) =
        build_period_lem gap_threshold walk sorter (repository.find_by_time_range s start end) start
          end (bounded start end) in
      (
        ap
              (λ p.
                all p (
                  events_of (cmd_timeline repository gap_threshold walk sorter day now s).sessions))
              (sym (fun_ext (λ (e : ActivityEvent). timeline_period_lem day now e.timestamp h k)))
            ∙ within,
        grouped,
      )
