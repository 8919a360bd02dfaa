-- ===== src/Collectors/Browser/Polling.antt =====
-- `poll_loop` of src/collectors/browser_collector.cpp: what many polls of a growing history send.
use mathlib.Core.List.{append_assoc, append-nil, map-append, perm_append_comm, perm_middle}
use mathlib.Core.List.Perm
use mathlib.Core.Path.{subst}
use mind_trace.Base.{
  ℕ, ◌-◌, ◌<◌, ◌≡◌, refl, sym, ap, ◌∙◌, Bool, true, false, not, ◌&&◌, List, [], ◌∷◌, ◌++◌, Option,
  some, map, inl, inr, Bool-cases, ltb, leb, keep, keep-append, and_split, and_join, all,
  all-append, all-perm, all-keep, arith, Perm,
}
use mind_trace.Collectors.Browser.{Visit, BrowserCollector, visit_event, process_history, poll_loop}
use mind_trace.Collectors.Browser.Watermark.{
  is_newer, not_later, leb_refl, keep-newer_none, watermark_covers, leb-last_visit_time,
  process_history-sent, process_history-has_callback,
}

perm_shuffle {ℓ} :
    {A : Type ℓ} (a b c d : List A) → Perm ((a ++ b) ++ (c ++ d)) ((a ++ c) ++ (b ++ d))
perm_shuffle a b c d = subst (Perm ((a ++ b) ++ (c ++ d))) (sym (append_assoc a c (b ++ d))) (
    subst (λ l. Perm l (a ++ (c ++ (b ++ d)))) (sym (append_assoc a b (c ++ d)))
      (Perm.append_left a (
        subst (λ l. Perm l (c ++ (b ++ d))) (append_assoc b c d)
          (subst (Perm ((b ++ c) ++ d)) (append_assoc c b d)
            (Perm.append_right d (perm_append_comm b c))))))

-- A list is split by a stronger test.
keep-parts {ℓ} :
    {A : Type ℓ} (p q : A → Bool)
    → ((x : A) → q x ≡ true → p x ≡ true)
    → (xs : List A) → Perm (keep q xs ++ keep (λ x. p x && not (q x)) xs) (keep p xs)
keep-parts p q h [] = Perm.refl []
keep-parts p q h (x ∷ xs) = elim (Bool-cases (q x)) [
  | inl e ↦ rw (e, h x e) (Perm.cons x (keep-parts p q h xs))
  | inr e ↦ elim (Bool-cases (p x)) [
    | inl f ↦
        rw (e, f)
          (Perm.trans (perm_middle (keep q xs) (keep (λ x. p x && not (q x)) xs))
            (Perm.cons x (keep-parts p q h xs)))
    | inr f ↦ rw (e, f) (keep-parts p q h xs)
  ]
]

-- All visits of the batches.
abbrev pub all_visits : List (List Visit) → List Visit
all_visits [] = []
all_visits (new ∷ news) = new ++ all_visits news

-- Each visit of a batch is later than all those before the batch.
abbrev pub is_later_than_all : List Visit → Visit → Bool
is_later_than_all h v = all (λ u. ltb u.visit_time v.visit_time) h

abbrev pub InOrder : List Visit → List (List Visit) → Type 0
InOrder h [] = Unit
InOrder h (new ∷ news) = (all (is_later_than_all h) new ≡ true) × InOrder (h ++ new) news

module _ (query : List Visit → ℕ → List Visit)
    (query_newer : (h : List Visit) (m : ℕ) → Perm (query h m) (keep (is_newer m) h)) where
  -- The answers to polls between which a history `h` grows by batches.
  abbrev pub answers : List Visit → List (List Visit) → List (Option (ℕ → List Visit))
  answers h [] = []
  answers h (new ∷ news) = some (query (h ++ new)) ∷ answers (h ++ new) news

  -- A collector that has seen a history: no visit of it is later than the watermark, and the watermark
  -- is not above the first one, `m0`, and the visits.
  abbrev Covers : ℕ → List Visit → BrowserCollector → Type 0
  Covers m0 h c =
      (leb m0 c.last_visit_time ≡ true)
      × (keep (is_newer c.last_visit_time) h ≡ [])
      × ((b : ℕ) → leb m0 b ≡ true → all (not_later b) h ≡ true → leb c.last_visit_time b ≡ true)

  Covers-process_history :
      (m0 : ℕ) (h new : List Visit) (c : BrowserCollector)
      → Covers m0 h c
      → Covers m0 (h ++ new) (process_history (some (query (h ++ new))) c)
  Covers-process_history m0 h new c (above, seen, tight) =
      let whole = h ++ new in
      let n = (process_history (some (query whole)) c).last_visit_time in
      let (grows, covers) = watermark_covers query query_newer whole c in
      (
        leb_trans m0 c.last_visit_time n above grows,
        keep-newer_none whole c.last_visit_time n grows covers,
        λ b low bounded.
            leb-last_visit_time (query whole) c b
            ∙ and_join _ _
                (tight b low (and_split _ _ (sym (all-append (not_later b) h new) ∙ bounded)).0)
                (all-perm (not_later b) (query_newer whole c.last_visit_time)
                  ∙ all-keep (is_newer c.last_visit_time) (not_later b) whole bounded),
      )
    where
      leb_trans : (i j k : ℕ) → leb i j ≡ true → leb j k ≡ true → leb i k ≡ true
      leb_trans i j k g h = ground arith

  -- The visits of a batch that the next poll passes over though they are later than `m0`.
  abbrev missed_of : ℕ → ℕ → List Visit → List Visit
  missed_of m0 m new = keep (λ v. is_newer m0 v && not (is_newer m v)) new

  missed_of-nil :
      (m0 : ℕ) (h new : List Visit) (c : BrowserCollector)
      → Covers m0 h c
      → all (is_later_than_all h) new ≡ true
      → missed_of m0 c.last_visit_time new ≡ []
  missed_of-nil m0 h [] c covers later = refl
  missed_of-nil m0 h (v ∷ new) c covers later =
      let (later_v, later_new) = and_split _ _ later in
      let not_missed : (is_newer m0 v && not (is_newer c.last_visit_time v)) ≡ false =
        elim (Bool-cases (is_newer m0 v)) [
          | inl newer ↦ ground (
            arith,
            covers.2 (v.visit_time - 1) (ground arith)
                (all-earlier v.visit_time h (omega (arith, ltb_lt m0 v.visit_time newer)) later_v),
          )
          | inr older ↦ rw older refl
        ] in
      rw not_missed (missed_of-nil m0 h new c covers later_new)
    where
      ltb_lt : (a b : ℕ) → ltb a b ≡ true → a < b
      ltb_lt a b l = ground arith

      all-earlier :
          (t : ℕ) (us : List Visit)
          → 0 < t
          → all (λ u. ltb u.visit_time t) us ≡ true
          → all (not_later (t - 1)) us ≡ true
      all-earlier t [] p a = refl
      all-earlier t (u ∷ us) p a = ground (arith, all-earlier t us p)

  poll_loop-Covers :
      (news : List (List Visit)) (h : List Visit) (m0 : ℕ) (c : BrowserCollector)
      → c.base.has_callback ≡ true
      → Covers m0 h c
      → (rows : List Visit) × (missed : List Visit) × Perm
          (rows ++ missed)
          (keep (is_newer m0) (all_visits news))
        × ((poll_loop (answers h news) c).base.sent ≡ c.base.sent ++ map visit_event rows)
        × (InOrder h news → missed ≡ [])
  unfolding poll_loop
  poll_loop-Covers [] h m0 c e covers =
      ([], [], Perm.refl [], sym (append-nil c.base.sent), λ o. refl)
  poll_loop-Covers (new ∷ news) h m0 c e covers =
      let m = c.last_visit_time in
      let polled = process_history (some (query (h ++ new))) c in
      let (rows, missed, split, sent, ordered) =
        poll_loop-Covers news (h ++ new) m0 polled
          (process_history-has_callback (query (h ++ new)) c ∙ e)
          (Covers-process_history m0 h new c covers) in
      let first = query (h ++ new) m in
      let passed = missed_of m0 m new in
      let only_new : keep (is_newer m) (h ++ new) ≡ keep (is_newer m) new =
        keep-append (is_newer m) h new ∙ ap (λ l. l ++ keep (is_newer m) new) covers.1 in
      let first_new : Perm first (keep (is_newer m) new) =
        subst (Perm first) only_new (query_newer (h ++ new) m) in
      let first_split : Perm (first ++ passed) (keep (is_newer m0) new) =
        Perm.trans (Perm.append_right passed first_new)
          (keep-parts (is_newer m0) (is_newer m) (λ v. newer_than_first m0 m v covers.0) new) in
      (
        first ++ rows,
        passed ++ missed,
        Perm.trans (perm_shuffle first rows passed missed) (
            subst (Perm ((first ++ passed) ++ (rows ++ missed)))
              (sym (keep-append (is_newer m0) new (all_visits news)))
              (Perm.trans (Perm.append_right (rows ++ missed) first_split)
                (Perm.append_left (keep (is_newer m0) new) split))),
        sent
            ∙ ap (λ l. l ++ map visit_event rows) (process_history-sent (query (h ++ new)) c e)
            ∙ append_assoc c.base.sent (map visit_event first) (map visit_event rows)
            ∙ ap (λ l. c.base.sent ++ l) (sym (map-append visit_event first rows)),
        λ (later, later_on). rw (missed_of-nil m0 h new c covers later) (ordered later_on),
      )
    where
      newer_than_first :
          (a b : ℕ) (v : Visit) → leb a b ≡ true → is_newer b v ≡ true → is_newer a v ≡ true
      newer_than_first a b v g k = ground arith

  -- Let the history grow by a batch of visits before each poll of the loop. Then the loop sends the
  -- events of visits later than the first watermark, none of them twice, and misses none of them when
  -- each batch is later than all visits before it. Conditions: a callback is set, no poll fails, and
  -- the query gives the visits later than its argument, in some order.
  pub poll_loop_once :
      (batches : List (List Visit)) (c : BrowserCollector)
      → c.base.has_callback ≡ true
      → (rows : List Visit) × (missed : List Visit) × Perm
          (rows ++ missed)
          (keep (is_newer c.last_visit_time) (all_visits batches))
        × ((poll_loop (answers [] batches) c).base.sent ≡ c.base.sent ++ map visit_event rows)
        × (InOrder [] batches → missed ≡ [])
  poll_loop_once batches c e =
      poll_loop-Covers batches [] c.last_visit_time c e
        (leb_refl c.last_visit_time, refl, λ b low bounded. low)
