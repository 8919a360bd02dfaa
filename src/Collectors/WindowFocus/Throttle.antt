-- ===== src/Collectors/WindowFocus/Throttle.antt =====
-- How often src/collectors/window_focus_collector.cpp sends events, and which.
use mind_trace.Base.{
  ℕ, ◌+◌, ◌*◌, ◌≤◌, ◌≡◌, refl, Bool, true, false, not, ◌||◌, ◌&&◌, List, [], ◌∷◌, ◌++◌, Option,
  none, some, if◌then◌else◌, length, length-append, arith, all, is_empty,
}
use mind_trace.Base.Eq.{text_eq, string_eq}
use mind_trace.Base.Text.{Text}
use mind_trace.Base.Dictionary.{count}
use mind_trace.Event.{ActivityEvent}
use mind_trace.Collectors.{CollectorBase, emit}
use mind_trace.Collectors.WindowFocus.{
  WindowFocusCollector, FocusChange, exe_or_unknown, is_small, is_too_soon, is_ignored_exe,
  system_titles, is_noise, focus_event, with_title, win_event_proc, all_changes,
}

-- A collector `c` may become `d`: each event that is sent takes half a second.
abbrev Paced : WindowFocusCollector → WindowFocusCollector → Type 0
Paced c d =
    length d.base.sent * 500_000_000 + c.last_event_time
    ≤ length c.base.sent * 500_000_000 + d.last_event_time

is_too_soon_lem : (n t : ℕ) → is_too_soon n t ≡ false → t + 500_000_000 ≤ n
unfolding is_too_soon
is_too_soon_lem n t h = ground arith

emit-length : (c : CollectorBase) (e : ActivityEvent) → length (emit c e).sent ≤ length c.sent + 1
unfolding emit
emit-length c e = ground (arith, length-append c.sent (e ∷ []))

or_last : (a b c d e f : Bool) → (a || (b || (c || (d || (e || f))))) ≡ false → f ≡ false
or_last a b c d e f h = ground arith

noise_too_soon :
    (c : WindowFocusCollector) (w : FocusChange) (title : Text)
    → is_noise c w title ≡ false
    → is_too_soon w.steady c.last_event_time ≡ false
unfolding is_noise
noise_too_soon c w title h =
    or_last (is_empty title) (count title system_titles) (is_small w.rect)
      (text_eq title c.last_window_title) (is_ignored_exe (exe_or_unknown w.exe_name))
      (is_too_soon w.steady c.last_event_time) h

Paced-self : (c : WindowFocusCollector) → Paced c c
Paced-self c = omega arith

Paced-if :
    (b : Bool) (c d : WindowFocusCollector) → (b ≡ false → Paced c d) → Paced c (if b then c else d)
Paced-if true c d h = Paced-self c
Paced-if false c d h = h refl

with_title-Paced :
    (c : WindowFocusCollector) (w : FocusChange) (o : Option Text) → Paced c (with_title c w o)
unfolding with_title
with_title-Paced c w none = Paced-self c
with_title-Paced c w (some title) = Paced-if (is_noise c w title) c _ (λ h. omega (
  arith,
  is_too_soon_lem w.steady c.last_event_time (noise_too_soon c w title h),
  emit-length c.base (focus_event w title),
))

win_event_proc-Paced : (c : WindowFocusCollector) (w : FocusChange) → Paced c (win_event_proc c w)
unfolding win_event_proc
win_event_proc-Paced c w =
    Paced-if (not w.is_foreground || not c.has_instance) c _
      (λ _. Paced-if (not c.base.running) c _ (λ _. with_title-Paced c w w.title))

-- Over any history of focus changes each event that is sent takes half a second: half a second for
-- each event more is at most the time from the last event sent before to the last one sent in it.
pub all_changes_paced :
    (ws : List FocusChange) (c : WindowFocusCollector)
    → let d = all_changes c ws in
      length d.base.sent * 500_000_000 + c.last_event_time
      ≤ length c.base.sent * 500_000_000 + d.last_event_time
unfolding all_changes
all_changes_paced [] c = omega arith
all_changes_paced (w ∷ ws) c =
    omega (arith, win_event_proc-Paced c w, all_changes_paced ws (win_event_proc c w))

-- What an event of a focus change is meant to be: a title that is not a system's, and a program that
-- is not ignored.
abbrev pub is_meaningful : ActivityEvent → Bool
is_meaningful e =
    not (is_empty e.content)
    && (not (count e.content system_titles) && not (is_ignored_exe e.source))

abbrev AllMeaningful : WindowFocusCollector → Type 0
AllMeaningful c = all is_meaningful c.base.sent ≡ true

all_last :
    (p : ActivityEvent → Bool) (e : ActivityEvent) (es : List ActivityEvent)
    → all p (es ++ e ∷ []) ≡ (all p es && p e)
all_last p e [] = ground arith
all_last p e (x ∷ es) = ground (arith, all_last p e es)

all-emit :
    (p : ActivityEvent → Bool) (c : CollectorBase) (e : ActivityEvent)
    → all p c.sent ≡ true
    → p e ≡ true
    → all p (emit c e).sent ≡ true
unfolding emit
all-emit p c e h k = ground (arith, all_last p e c.sent)

meaningful-if :
    (b : Bool) (c d : WindowFocusCollector)
    → AllMeaningful c
    → (b ≡ false → AllMeaningful d)
    → AllMeaningful (if b then c else d)
meaningful-if true c d h k = h
meaningful-if false c d h k = k refl

or_three :
    (a b c d e f : Bool)
    → (a || (b || (c || (d || (e || f))))) ≡ false
    → (not a && (not b && not e)) ≡ true
or_three a b c d e f h = ground arith

noise_meaningful :
    (c : WindowFocusCollector) (w : FocusChange) (title : Text)
    → is_noise c w title ≡ false
    → is_meaningful (focus_event w title) ≡ true
unfolding is_noise focus_event
noise_meaningful c w title h =
    or_three (is_empty title) (count title system_titles) (is_small w.rect)
      (text_eq title c.last_window_title) (is_ignored_exe (exe_or_unknown w.exe_name))
      (is_too_soon w.steady c.last_event_time) h

with_title-meaningful :
    (c : WindowFocusCollector) (w : FocusChange) (o : Option Text)
    → AllMeaningful c
    → AllMeaningful (with_title c w o)
unfolding with_title
with_title-meaningful c w none h = h
with_title-meaningful c w (some title) h =
    meaningful-if (is_noise c w title) c _ h
      (λ k. all-emit is_meaningful c.base (focus_event w title) h (noise_meaningful c w title k))

-- Over any history of focus changes all events sent stay meaningful: each has a title, none is a
-- system's window, and none is of an ignored program.
pub all_changes_meaningful :
    (ws : List FocusChange) (c : WindowFocusCollector)
    → all is_meaningful c.base.sent ≡ true
    → all is_meaningful (all_changes c ws).base.sent ≡ true
unfolding all_changes win_event_proc
all_changes_meaningful [] c h = h
all_changes_meaningful (w ∷ ws) c h = all_changes_meaningful ws (win_event_proc c w) (
    meaningful-if (not w.is_foreground || not c.has_instance) c _ h
      (λ _. meaningful-if (not c.base.running) c _ h (λ _. with_title-meaningful c w w.title h)))
