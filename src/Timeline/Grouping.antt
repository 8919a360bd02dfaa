-- ===== src/Timeline/Grouping.antt =====
-- The loop of src/timeline/timeline_builder.cpp that closes a session at a gap.
use mathlib.Core.List.{append_assoc}
use mind_trace.Base.{
  ℕ, ◌+◌, ◌≤◌, ◌<◌, ◌≡◌, refl, ap, ◌∙◌, sym, true, false, List, [], ◌∷◌, ◌++◌, ltb, arith, All, inl,
  inr, Bool-cases, ltb→lt, ltb→le,
}
use mind_trace.Base.Text.{Text}
use mind_trace.Base.Sort.{Sorted}
use mind_trace.Base.Words.{sub64, sub64_small, u64_mod}
use mind_trace.Event.{ActivityEvent}
use mind_trace.Timeline.{Session, start_session, earlier, close, group, build_sorted}
use mind_trace.Timeline.Runs.{
  events_of, IsRun, IsRun-append, IsSession, Grouped, StartsAt, Grouped-cons,
}

module _ (t : ℕ) (walk : List (Text × ℕ) → List (Text × ℕ)) where
  group_far :
      (prev e : ActivityEvent) (current : Session) (rest : List ActivityEvent)
      (sessions : List Session)
      → ltb t (sub64 e.timestamp prev.timestamp) ≡ true
      → group t walk prev current (e ∷ rest) sessions
        ≡ group t walk e (start_session e) rest (sessions ++ close t walk current prev ∷ [])
  unfolding group
  group_far prev e current rest sessions h = ground arith

  group_near :
      (prev e : ActivityEvent) (current : Session) (rest : List ActivityEvent)
      (sessions : List Session)
      → ltb t (sub64 e.timestamp prev.timestamp) ≡ false
      → group t walk prev current (e ∷ rest) sessions
        ≡ group t walk e (record current { events = current.events ++ e ∷ [] }) rest sessions
  unfolding group
  group_near prev e current rest sessions h = ground arith

  group_end :
      (prev : ActivityEvent) (current : Session) (sessions : List Session)
      → group t walk prev current [] sessions ≡ sessions ++ close t walk current prev ∷ []
  unfolding group
  group_end prev current sessions = refl

  -- The sessions that are closed already stay in front.
  group-append :
      (prev : ActivityEvent) (current : Session) (rest : List ActivityEvent) (done : List Session)
      → group t walk prev current rest done ≡ done ++ group t walk prev current rest []
  group-append prev current [] done = rw (group_end, group_end)
  group-append prev current (e ∷ rest) done =
      elim (Bool-cases (ltb t (sub64 e.timestamp prev.timestamp))) [
        | inl far ↦
            group_far prev e current rest done far
            ∙ group-append e _ rest (done ++ close t walk current prev ∷ [])
            ∙ append_assoc done _ _
            ∙ ap (λ r. done ++ r) (sym (group-append e _ rest (close t walk current prev ∷ [])))
            ∙ ap (λ r. done ++ r) (sym (group_far prev e current rest [] far))
        | inr near ↦
            group_near prev e current rest done near
            ∙ group-append e _ rest done
            ∙ ap (λ r. done ++ r) (sym (group_near prev e current rest [] near))
      ]

  events_of-close :
      (current : Session) (prev : ActivityEvent) (ss : List Session)
      → events_of (close t walk current prev ∷ ss) ≡ current.events ++ events_of ss
  unfolding close
  events_of-close current prev ss = refl

  events_of-group :
      (prev : ActivityEvent) (current : Session) (rest : List ActivityEvent)
      → events_of (group t walk prev current rest []) ≡ current.events ++ rest
  events_of-group prev current [] = rw group_end (unfold close in refl)
  events_of-group prev current (e ∷ rest) =
      elim (Bool-cases (ltb t (sub64 e.timestamp prev.timestamp))) [
        | inl far ↦
            ap events_of (group_far prev e current rest [] far ∙ group-append e _ rest _)
            ∙ events_of-close current prev (group t walk e (start_session e) rest [])
            ∙ ap (λ r. current.events ++ r) (events_of-group e (start_session e) rest)
        | inr near ↦
            ap events_of (group_near prev e current rest [] near)
            ∙ events_of-group e _ rest
            ∙ append_assoc current.events (e ∷ []) rest
      ]

  close-IsSession :
      (prev : ActivityEvent) (current : Session)
      → IsRun t current.events current.start_time prev
      → IsSession t walk (close t walk current prev)
  unfolding close
  close-IsSession prev current r = record { last = prev; run = r; ends = refl; app = refl }

  group-StartsAt :
      (prev : ActivityEvent) (current : Session) (rest : List ActivityEvent)
      → StartsAt t walk current.start_time (group t walk prev current rest [])
  group-StartsAt prev current [] = rw group_end (unfold close in refl)
  group-StartsAt prev current (e ∷ rest) =
      elim (Bool-cases (ltb t (sub64 e.timestamp prev.timestamp))) [
        | inl far ↦
            rw
              (
                group_far prev e current rest [] far,
                group-append e _ rest (close t walk current prev ∷ []),
              )
              (unfold close in refl)
        | inr near ↦ rw (group_near prev e current rest [] near) (group-StartsAt e _ rest)
      ]

  abbrev pub Fits : List ActivityEvent → Type 0
  Fits = All (λ e. e.timestamp < u64_mod)

  gap_of_sorted :
      (a b : ActivityEvent)
      → earlier b a ≡ false
      → b.timestamp < u64_mod
      → (a.timestamp ≤ b.timestamp) × (sub64 b.timestamp a.timestamp + a.timestamp ≡ b.timestamp)
  gap_of_sorted a b h fits =
      let le : a.timestamp ≤ b.timestamp = ground arith in
      (le, omega (arith, sub64_small b.timestamp a.timestamp fits le))

  ends_before :
      (prev e : ActivityEvent) (current : Session)
      → ltb t (sub64 e.timestamp prev.timestamp) ≡ true
      → (prev.timestamp ≤ e.timestamp)
        × (sub64 e.timestamp prev.timestamp + prev.timestamp ≡ e.timestamp)
      → (close t walk current prev).end_time + t < e.timestamp
  unfolding close
  ends_before prev e current far g = omega (arith, ltb→lt t (sub64 e.timestamp prev.timestamp) far)

  close_enough :
      (prev e : ActivityEvent)
      → ltb t (sub64 e.timestamp prev.timestamp) ≡ false
      → (prev.timestamp ≤ e.timestamp)
        × (sub64 e.timestamp prev.timestamp + prev.timestamp ≡ e.timestamp)
      → e.timestamp ≤ prev.timestamp + t
  close_enough prev e near g = omega (arith, ltb→le t (sub64 e.timestamp prev.timestamp) near)

  group-Grouped :
      (prev : ActivityEvent) (current : Session) (rest : List ActivityEvent)
      → IsRun t current.events current.start_time prev
      → Sorted earlier (prev ∷ rest)
      → Fits rest
      → Grouped t walk (group t walk prev current rest [])
  group-Grouped prev current [] r s f = rw group_end (close-IsSession prev current r)
  group-Grouped prev current (e ∷ rest) r ((h, _), s) (f, fs) =
      elim (Bool-cases (ltb t (sub64 e.timestamp prev.timestamp))) [
        | inl far ↦
            rw
              (
                group_far prev e current rest [] far,
                group-append e _ rest (close t walk current prev ∷ []),
              )
              (Grouped-cons t walk (close t walk current prev) e.timestamp _
                (close-IsSession prev current r) (group-StartsAt e _ rest)
                (ends_before prev e current far (gap_of_sorted prev e h f))
                (group-Grouped e _ rest (refl, refl, tt) s fs))
        | inr near ↦ rw (group_near prev e current rest [] near) (
            group-Grouped e _ rest
              (IsRun-append t current.events current.start_time prev e r
                (gap_of_sorted prev e h f).0 (close_enough prev e near (gap_of_sorted prev e h f)))
              s fs)
      ]

  pub build_sorted-Grouped :
      (es : List ActivityEvent)
      → Sorted earlier es
      → Fits es
      → Grouped t walk (build_sorted t walk es).sessions
  unfolding build_sorted
  build_sorted-Grouped [] s f = tt
  build_sorted-Grouped (e ∷ rest) s f = group-Grouped e _ rest (refl, refl, tt) s f.1

  pub events_of-build_sorted :
      (es : List ActivityEvent) → events_of (build_sorted t walk es).sessions ≡ es
  unfolding build_sorted
  events_of-build_sorted [] = refl
  events_of-build_sorted (e ∷ rest) = events_of-group e _ rest

-- The tests of all timestamps, as facts.
