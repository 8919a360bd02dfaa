-- ===== src/Timeline/Primary.antt =====
-- `determine_primary_app` of src/timeline/timeline_builder.cpp.
use mind_trace.Base.{
  ℕ, suc, ◌+◌, ◌≤◌, ◌<◌, ◌≡◌, refl, ◌∙◌, sym, Bool, true, false, ◌||◌, List, [], ◌∷◌, if◌then◌else◌,
  ltb, arith, any, any-perm, Perm, inl, inr, ◌⊎◌, Bool-cases, ◌&&◌, ◌==◌,
}
use native.Mathlib.Decide.{dec_lt}
use mind_trace.Base.Eq.{text_eq, text_eq_refl, text_eq→eq}
use mind_trace.Base.Text.{Text}
use mind_trace.Event.{ActivityEvent}
use mind_trace.Timeline.{app_of, increment, count_apps, most_frequent, determine_primary_app}

-- How many events have an application.
abbrev pub app_count : Text → List ActivityEvent → ℕ
app_count a [] = 0
app_count a (e ∷ es) = if text_eq (app_of e) a then suc (app_count a es) else app_count a es

-- The count of the first entry for `a`.
abbrev count_at : Text → List (Text × ℕ) → ℕ
count_at a [] = 0
count_at a ((b, n) ∷ m) = if text_eq b a then n else count_at a m

eq_trans : (b k a : Text) → text_eq b k ≡ true → text_eq b a ≡ text_eq k a
eq_trans b k a h = rw (text_eq→eq b k h)

same_key :
    (b k a : Text) (n r : ℕ)
    → text_eq b k ≡ true
    → (if text_eq b a then n + 1 else r)
      ≡ (if text_eq k a then suc (if text_eq b a then n else r) else if text_eq b a then n else r)
same_key b k a n r h = ground (arith, eq_trans b k a)

eq_middle : (b k a : Text) → text_eq b a ≡ true → text_eq k a ≡ true → text_eq b k ≡ true
eq_middle b k a h l = rw (text_eq→eq b a h, text_eq→eq k a l) (text_eq_refl a)

other_key :
    (b k a : Text) (n r : ℕ)
    → text_eq b k ≡ false
    → (if text_eq b a then n else if text_eq k a then suc r else r)
      ≡ (if text_eq k a then suc (if text_eq b a then n else r) else if text_eq b a then n else r)
other_key b k a n r h = ground (arith, eq_middle b k a)

text_eq_sym : (k b : Text) → text_eq k b ≡ true → text_eq b k ≡ true
text_eq_sym k b h = rw (text_eq→eq k b h) (text_eq_refl b)

count_at-increment :
    (k a : Text) (m : List (Text × ℕ))
    → count_at a (increment k m) ≡ (if text_eq k a then suc (count_at a m) else count_at a m)
unfolding increment
count_at-increment k a [] = ground arith
count_at-increment k a ((b, n) ∷ m) = elim (Bool-cases (text_eq b k)) [
  | inl h ↦ rw h (same_key b k a n (count_at a m) h)
  | inr h ↦ rw h (rw (count_at-increment k a m) (other_key b k a n (count_at a m) h))
]

count_at-count_apps :
    (a : Text) (es : List ActivityEvent) (m : List (Text × ℕ))
    → count_at a (count_apps es m) ≡ count_at a m + app_count a es
unfolding count_apps
count_at-count_apps a [] m = omega arith
count_at-count_apps a (e ∷ es) m =
    ground
      (arith, count_at-count_apps a es (increment (app_of e) m), count_at-increment (app_of e) a m)

abbrev entry : Text → ℕ → Text × ℕ → Bool
entry a n d = text_eq d.0 a && d.1 == n

abbrev has_key : Text → List (Text × ℕ) → Bool
has_key a = any (λ (d : Text × ℕ). text_eq d.0 a)

abbrev DistinctKeys : List (Text × ℕ) → Type 0
DistinctKeys [] = Unit
DistinctKeys ((b, n) ∷ m) = (has_key b m ≡ false) × DistinctKeys m

has_key-increment :
    (k a : Text) (m : List (Text × ℕ)) → has_key a (increment k m) ≡ (has_key a m || text_eq k a)
unfolding increment
has_key-increment k a [] = ground arith
has_key-increment k a ((b, n) ∷ m) = elim (Bool-cases (text_eq b k)) [
  | inl h ↦ rw h (ground (arith, eq_trans b k a))
  | inr h ↦ rw h (ground (arith, has_key-increment k a m))
]

increment-DistinctKeys :
    (k : Text) (m : List (Text × ℕ)) → DistinctKeys m → DistinctKeys (increment k m)
unfolding increment
increment-DistinctKeys k [] d = (refl, tt)
increment-DistinctKeys k ((b, n) ∷ m) (h, d) = elim (Bool-cases (text_eq b k)) [
  | inl e ↦ rw e (h, d)
  | inr e ↦
      rw e (ground (arith, has_key-increment k b m, text_eq_sym k b), increment-DistinctKeys k m d)
]

count_apps-DistinctKeys :
    (es : List ActivityEvent) (m : List (Text × ℕ))
    → DistinctKeys m
    → DistinctKeys (count_apps es m)
unfolding count_apps
count_apps-DistinctKeys [] m d = d
count_apps-DistinctKeys (e ∷ es) m d =
    count_apps-DistinctKeys es _ (increment-DistinctKeys (app_of e) m d)

entry_of_count :
    (a : Text) (n : ℕ) (m : List (Text × ℕ)) → count_at a m ≡ n → 0 < n → any (entry a n) m ≡ true
entry_of_count a n [] h k = absurd (omega arith)
entry_of_count a n ((b, c) ∷ m) h k = ground (arith, entry_of_count a n m)

has_key_of_entry :
    (a : Text) (n : ℕ) (m : List (Text × ℕ)) → any (entry a n) m ≡ true → has_key a m ≡ true
has_key_of_entry a n [] h = h
has_key_of_entry a n ((b, k) ∷ m) h = ground (arith, has_key_of_entry a n m)

count_of_entry :
    (a : Text) (n : ℕ) (m : List (Text × ℕ))
    → DistinctKeys m
    → any (entry a n) m ≡ true
    → count_at a m ≡ n
count_of_entry a n [] d h = cc
count_of_entry a n ((b, k) ∷ m) (f, d) h = elim (Bool-cases (text_eq b a)) [
  | inl e ↦
      let fresh : has_key a m ≡ false = rw (text_eq→eq b a e) at f in
      rw e (ground (arith, has_key_of_entry a n m))
  | inr e ↦ rw e (count_of_entry a n m d (ground arith))
]

-- The largest count, as the loop finds it.
best : List (Text × ℕ) → ℕ → ℕ
best [] max_count = max_count
best ((app, n) ∷ m) max_count = best m (if ltb max_count n then n else max_count)

le-best : (m : List (Text × ℕ)) (x : ℕ) → x ≤ best m x
unfolding best
le-best [] x = omega arith
le-best ((app, n) ∷ m) x = ground (arith, le-best m (if ltb x n then n else x))

entry-le-best :
    (a : Text) (n : ℕ) (m : List (Text × ℕ)) (x : ℕ) → any (entry a n) m ≡ true → n ≤ best m x
unfolding best
entry-le-best a n [] x h = cc
entry-le-best a n ((b, k) ∷ m) x h =
    ground
      (arith, le-best m (if ltb x k then k else x), entry-le-best a n m (if ltb x k then k else x))

-- The loop keeps what it had, or finds an entry with the largest count.
abbrev Found : Text → ℕ → List (Text × ℕ) → Text → ℕ → Type 0
Found p x m q y = ((y ≡ x) × (q ≡ p)) ⊎ (any (entry q y) m ≡ true)

Found-better :
    (p : Text) (x : ℕ) (app : Text) (n : ℕ) (m : List (Text × ℕ)) (q : Text) (y : ℕ)
    → Found (if ltb x n then app else p) (if ltb x n then n else x) m q y
    → Found p x ((app, n) ∷ m) q y
Found-better p x app n m q y (inr h) = inr (ground arith)
Found-better p x app n m q y (inl (h, k)) = elim (Bool-cases (ltb x n)) [
  | inl lt ↦ inr (ground (arith, text_eq_refl app))
  | inr le ↦ inl (ground arith, ground arith)
]

most_frequent-Found :
    (m : List (Text × ℕ)) (p : Text) (x : ℕ) → Found p x m (most_frequent m p x) (best m x)
unfolding most_frequent best
most_frequent-Found [] p x = inl (refl, refl)
most_frequent-Found ((app, n) ∷ m) p x =
    Found-better p x app n m _ _
      (most_frequent-Found m (if ltb x n then app else p) (if ltb x n then n else x))

module _ (walk : List (Text × ℕ) → List (Text × ℕ))
    (walk-perm : (m : List (Text × ℕ)) → Perm (walk m) m) where
  app_count-entry :
      (es : List ActivityEvent) (a : Text) (n : ℕ)
      → any (entry a n) (walk (count_apps es [])) ≡ true
      → app_count a es ≡ n
  app_count-entry es a n h = omega (
    arith,
    count_at-count_apps a es [],
    count_of_entry a n (count_apps es []) (count_apps-DistinctKeys es [] tt)
        (sym (any-perm (entry a n) (walk-perm (count_apps es []))) ∙ h),
  )

  app_count-le-best :
      (es : List ActivityEvent) (a : Text) → app_count a es ≤ best (walk (count_apps es [])) 0
  app_count-le-best es a = elim (dec_lt 0 (app_count a es)) [
    | yes h ↦ entry-le-best a (app_count a es) (walk (count_apps es [])) 0 (
        any-perm (entry a (app_count a es)) (walk-perm (count_apps es []))
        ∙ entry_of_count a (app_count a es) (count_apps es [])
            (omega (arith, count_at-count_apps a es [])) h)
    | no h ↦ omega arith
  ]

  -- Whatever the order in which the hash map is walked, no application has more events in a session
  -- than its primary application.
  pub determine_primary_app_most :
      (es : List ActivityEvent) (a : Text)
      → app_count a es ≤ app_count (determine_primary_app walk es) es
  unfolding determine_primary_app
  determine_primary_app_most es a = elim (most_frequent-Found (walk (count_apps es [])) [] 0) [
    | inl (none_found, _) ↦ omega (arith, app_count-le-best es a)
    | inr h ↦ omega (arith, app_count-le-best es a, app_count-entry es _ _ h)
  ]
