-- ===== src/Timeline/Groups.antt =====
-- The sessions of src/timeline/timeline_builder.cpp: no event is lost, and the gaps decide.
use mind_trace.Base.{
  ℕ, ◌+◌, ◌<◌, ◌≡◌, refl, ap, ◌∙◌, sym, true, List, [], ◌∷◌, ltb, length, length-append,
  length-perm, arith, All, all, all-perm, ltb→lt, &&-split,
}
use mind_trace.Base.Text.{Text}
use mind_trace.Base.Sort.{Sorter, IsStrictWeak}
use mind_trace.Base.Words.{u64_mod}
use mind_trace.Event.{ActivityEvent}
use mind_trace.Timeline.{Session, total_events, count_events, earlier, build_sorted, build}
use mind_trace.Timeline.Runs.{events_of, Grouped}
use mind_trace.Timeline.Grouping.{build_sorted-Grouped, events_of-build_sorted}

pub earlier-IsStrictWeak : IsStrictWeak earlier
earlier-IsStrictWeak = record {
  asym = λ a b h. ground arith;
  negative_trans = λ a b c h k. ground arith;
}

-- The tests of all timestamps, as facts.
fits_of_all :
    (es : List ActivityEvent)
    → all (λ (e : ActivityEvent). ltb e.timestamp u64_mod) es ≡ true
    → All (λ (e : ActivityEvent). e.timestamp < u64_mod) es
fits_of_all [] h = tt
fits_of_all (e ∷ es) h =
    let (a, b) = &&-split (ltb e.timestamp u64_mod) _ h in
    (ltb→lt e.timestamp u64_mod a, fits_of_all es b)

nil_sorted {ℓ} : {A : Type ℓ} (xs : List A) → length xs ≡ 0 → xs ≡ []
nil_sorted [] h = refl
nil_sorted (x ∷ xs) h = absurd (omega arith)

count_events-length : (ss : List Session) (n : ℕ) → count_events ss n ≡ n + length (events_of ss)
unfolding count_events
count_events-length [] n = omega arith
count_events-length (s ∷ ss) n =
    omega
      (arith, count_events-length ss (n + length s.events), length-append s.events (events_of ss))

module _ (t : ℕ) (walk : List (Text × ℕ) → List (Text × ℕ)) (sorter : Sorter ActivityEvent) where
  -- The sessions of a timeline hold the given events in the order of the sort: none is lost, repeated
  -- or moved, and `total_events` counts them.
  pub events_of-build :
      (es : List ActivityEvent)
      → (events_of (build t walk sorter es).sessions ≡ sorter.sort earlier es)
        × (total_events (build t walk sorter es) ≡ length es)
  unfolding build total_events
  events_of-build [] =
      (sym (nil_sorted (sorter.sort earlier []) (length-perm (sorter.sort-perm earlier []))), refl)
  events_of-build (e ∷ es) = (
    events_of-build_sorted t walk (sorter.sort earlier (e ∷ es)),
    count_events-length (build_sorted t walk (sorter.sort earlier (e ∷ es))).sessions 0
        ∙ omega (
          arith,
          ap length (events_of-build_sorted t walk (sorter.sort earlier (e ∷ es))),
          length-perm (sorter.sort-perm earlier (e ∷ es)),
        ),
  )

  -- Every session of a timeline is a run of events: it starts with its first event and ends with its
  -- last, and from one event to the next there are at most `t` seconds, the gap threshold. Between the
  -- end of a session and the start of the next there are more than `t` seconds. Condition: the times
  -- are below 2^64.
  pub build-Grouped :
      (es : List ActivityEvent)
      → all (λ e. ltb e.timestamp u64_mod) es ≡ true
      → Grouped t walk (build t walk sorter es).sessions
  unfolding build
  build-Grouped [] h = tt
  build-Grouped (e ∷ es) h =
      build_sorted-Grouped t walk (sorter.sort earlier (e ∷ es))
        (sorter.sort-Sorted earlier earlier-IsStrictWeak (e ∷ es))
        (fits_of_all _ (
          all-perm (λ (x : ActivityEvent). ltb x.timestamp u64_mod)
            (sorter.sort-perm earlier (e ∷ es))
          ∙ h))
