-- ===== src/Timeline/Runs.antt =====
-- Sessions as runs of events, for src/timeline/timeline_builder.cpp.
use mathlib.Core.List.{append_assoc}
use mind_trace.Base.{ℕ, ◌+◌, ◌≤◌, ◌<◌, ◌≡◌, refl, ap, sym, List, [], ◌∷◌, ◌++◌, arith}
use mind_trace.Base.Text.{Text}
use mind_trace.Event.{ActivityEvent}
use mind_trace.Timeline.{Session, last_of, determine_primary_app}

-- The events of all sessions, in their order.
abbrev pub events_of : List Session → List ActivityEvent
events_of [] = []
events_of (s ∷ ss) = s.events ++ events_of ss

pub events_of-append : (ss ts : List Session) → events_of (ss ++ ts) ≡ events_of ss ++ events_of ts
events_of-append [] ts = refl
events_of-append (s ∷ ss) ts = rw (events_of-append ss ts) (sym (append_assoc s.events _ _))

-- A run of events: each at most `t` seconds after the one before, from `start` to the event `last`.
abbrev pub Chained : ℕ → ActivityEvent → List ActivityEvent → Type 0
Chained t x [] = Unit
Chained t x (y ∷ ys) =
    (x.timestamp ≤ y.timestamp) × (y.timestamp ≤ x.timestamp + t) × Chained t y ys

abbrev pub IsRun : ℕ → List ActivityEvent → ℕ → ActivityEvent → Type 0
IsRun t [] start last = ⊥
IsRun t (x ∷ xs) start last = (start ≡ x.timestamp) × (last_of x xs ≡ last) × Chained t x xs

last_of-append :
    (x : ActivityEvent) (xs : List ActivityEvent) (e : ActivityEvent) → last_of x (xs ++ e ∷ []) ≡ e
last_of-append x [] e = refl
last_of-append x (y ∷ ys) e = last_of-append y ys e

Chained-append :
    (t : ℕ) (x : ActivityEvent) (xs : List ActivityEvent) (e : ActivityEvent)
    → Chained t x xs
    → (last_of x xs).timestamp ≤ e.timestamp
    → e.timestamp ≤ (last_of x xs).timestamp + t
    → Chained t x (xs ++ e ∷ [])
Chained-append t x [] e c h k = (h, k, tt)
Chained-append t x (y ∷ ys) e (a, b, c) h k = (a, b, Chained-append t y ys e c h k)

pub IsRun-append :
    (t : ℕ) (xs : List ActivityEvent) (start : ℕ) (last e : ActivityEvent)
    → IsRun t xs start last
    → last.timestamp ≤ e.timestamp
    → e.timestamp ≤ last.timestamp + t
    → IsRun t (xs ++ e ∷ []) start e
IsRun-append t [] start last e r h k = absurd r
IsRun-append t (x ∷ xs) start last e (s, l, c) h k =
    let l' : (last_of x xs).timestamp ≡ last.timestamp =
      ap (λ (a : ActivityEvent). a.timestamp) l in
    (s, last_of-append x xs e, Chained-append t x xs e c (omega arith) (omega arith))

module _ (t : ℕ) (walk : List (Text × ℕ) → List (Text × ℕ)) where
  -- A session starts with its first event and ends with its last, no gap in it is above the
  -- threshold, and its application is the one that is determined from its events.
  pub record IsSession (s : Session) : Type 0 where
    pub last : ActivityEvent
    pub run : IsRun t s.events s.start_time last
    pub ends : s.end_time ≡ last.timestamp
    pub app : s.primary_app ≡ determine_primary_app walk s.events

  -- Sessions one after the other, with more than the threshold between two.
  abbrev pub Grouped : List Session → Type 0
  Grouped [] = Unit
  Grouped (s ∷ []) = IsSession s
  Grouped (s ∷ s' ∷ ss) = IsSession s × (s.end_time + t < s'.start_time) × Grouped (s' ∷ ss)

  abbrev pub StartsAt : ℕ → List Session → Type 0
  StartsAt n [] = ⊥
  StartsAt n (s ∷ ss) = s.start_time ≡ n

  pub Grouped-cons :
      (s : Session) (n : ℕ) (ss : List Session)
      → IsSession s
      → StartsAt n ss
      → s.end_time + t < n
      → Grouped ss
      → Grouped (s ∷ ss)
  Grouped-cons s n [] h a lt g = absurd a
  Grouped-cons s n (s' ∷ ss) h a lt g = (h, omega arith, g)
