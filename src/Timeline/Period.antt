-- ===== src/Timeline/Period.antt =====
-- The second `build` of src/timeline/timeline_builder.cpp, for the events of a period.
use mind_trace.Base.{
  ℕ, ◌≡◌, refl, ◌∙◌, Bool, true, ◌&&◌, List, [], ◌∷◌, ltb, leb, length, keep, arith, all, all-keep,
  all-perm, ap,
}
use mind_trace.Base.Text.{Text}
use mind_trace.Base.Sort.{Sorter}
use mind_trace.Base.Words.{u64_mod}
use mind_trace.Event.{ActivityEvent}
use mind_trace.Timeline.{earlier, build_period, total_events}
use mind_trace.Timeline.Runs.{events_of, Grouped}
use mind_trace.Timeline.Groups.{events_of-build, build-Grouped}

all-keep_self {ℓ} : {A : Type ℓ} (p : A → Bool) (xs : List A) → all p (keep p xs) ≡ true
all-keep_self p [] = refl
all-keep_self p (x ∷ xs) = ground (arith, all-keep_self p xs)

-- The times of a period, both ends included.
abbrev pub in_period : ℕ → ℕ → ActivityEvent → Bool
in_period start end e = leb start e.timestamp && leb e.timestamp end

module _ (t : ℕ) (walk : List (Text × ℕ) → List (Text × ℕ)) (sorter : Sorter ActivityEvent) where
  -- The timeline of a period carries its ends, holds only events of the period, and as many as there
  -- are in it; its sessions are as those of `build`. Condition: the times are below 2^64.
  pub build_period_lem :
      (es : List ActivityEvent) (start end : ℕ)
      → all (λ e. ltb e.timestamp u64_mod) es ≡ true
      → let timeline = build_period t walk sorter es start end in
        (timeline.period_start ≡ start)
        × (timeline.period_end ≡ end)
        × (all (in_period start end) (events_of timeline.sessions) ≡ true)
        × (total_events timeline ≡ length (keep (in_period start end) es))
        × Grouped t walk timeline.sessions
  unfolding build_period total_events
  build_period_lem es start end h =
      let kept = keep (in_period start end) es in
      (
        refl,
        refl,
        ap (all (in_period start end)) (events_of-build t walk sorter kept).0
            ∙ all-perm (in_period start end) (sorter.sort-perm earlier kept)
            ∙ all-keep_self (in_period start end) es,
        (events_of-build t walk sorter kept).1,
        build-Grouped t walk sorter kept
            (all-keep (in_period start end) (λ (e : ActivityEvent). ltb e.timestamp u64_mod) es h),
      )
