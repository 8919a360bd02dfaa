-- ===== src/Storage/EventStore/Finding.antt =====
-- What the queries of src/core/storage/event_store.cpp find, as tests on the stored events.
use mathlib.Core.List.Perm
use mathlib.Core.Path.{subst}
use mind_trace.Base.{
  ℕ, ◌<◌, ◌≡◌, refl, ap, ◌∙◌, Bool, true, false, ◌&&◌, List, [], ◌∷◌, map, Option, none, some,
  arith, ◌==◌, ltb, leb, keep, length, All, map-perm, Perm, all, all-perm, all-keep, and_split,
  nil_of_perm, ◌+◌,
}
use mind_trace.Base.Eq.{text_eq, text_eq→eq}
use mind_trace.Base.Text.{Text}
use mind_trace.Base.Sort.{Sorted}
use mind_trace.Base.Int64.{
  cast64, cast64_invol, leb-cast64_left, leb-cast64_right, leb-cast64_negative, ltb-cast64,
  i64_half,
}
use mind_trace.Event.{EventType, ActivityEvent, type_eq, event_type_to_string, string_to_event_type}
use mind_trace.Json.{Json}
use mind_trace.Storage.Sqlite.{Row, Sqlite, IsTable, in_range, is_text, earlier_row}
use mind_trace.Storage.Listing.{event_with_id}
use mind_trace.Storage.EventStore.{
  text_or_empty, first_of, row_to_event, find_by_id, find_by_time_range, find_by_type, count,
}
use mind_trace.Storage.EventStore.Rows.{cast64_eq, events, c_str-event_type_to_string}

text_eq-names :
    (u t : EventType) → text_eq (event_type_to_string u) (event_type_to_string t) ≡ type_eq u t
unfolding event_type_to_string type_eq
text_eq-names EventType.file_opened EventType.file_opened = refl
text_eq-names EventType.file_modified EventType.file_modified = refl
text_eq-names EventType.browser_visit EventType.browser_visit = refl
text_eq-names EventType.window_focus EventType.window_focus = refl
text_eq-names EventType.clipboard_copy EventType.clipboard_copy = refl
text_eq-names EventType.screenshot_captured EventType.screenshot_captured = refl
text_eq-names EventType.unknown EventType.unknown = refl
text_eq-names _ _ = refl

-- A time below 2^63.
abbrev pub is_dated : ActivityEvent → Bool
is_dated e = ltb e.timestamp i64_half

abbrev pub within : ℕ → ℕ → ActivityEvent → Bool
within start end e = leb start e.timestamp && leb e.timestamp end

abbrev pub earlier_event : ActivityEvent → ActivityEvent → Bool
earlier_event a b = ltb a.timestamp b.timestamp

-- The type of a row is written as the name of an event type.
abbrev pub is_named : Row → Bool
is_named r = is_text r.type (event_type_to_string (string_to_event_type (text_or_empty r.type)))

module _ {J : Type 0} (json : Json J) where
  first_of-keep :
      (j : ℕ) (rs : List Row)
      → first_of (map (row_to_event json) (keep (λ r. r.id == cast64 j) rs))
        ≡ event_with_id j (map (row_to_event json) rs)
  unfolding row_to_event
  first_of-keep j [] = refl
  first_of-keep j (r ∷ rs) = ground (arith, cast64_eq r.id j, first_of-keep j rs)

  keep-in_range :
      (start end : ℕ) (rs : List Row)
      → start < i64_half
      → end < i64_half
      → all is_dated (map (row_to_event json) rs) ≡ true
      → map (row_to_event json) (keep (in_range (cast64 start) (cast64 end)) rs)
        ≡ keep (within start end) (map (row_to_event json) rs)
  unfolding row_to_event
  keep-in_range start end [] h k dated = refl
  keep-in_range start end (r ∷ rs) h k dated = ground (
    arith,
    leb-cast64_left start r.timestamp,
    leb-cast64_right r.timestamp end,
    λ (d : all is_dated (map (row_to_event json) rs) ≡ true). keep-in_range start end rs h k d,
  )

  keep_negative :
      (start n : ℕ) (rs : List Row)
      → i64_half + n < i64_half + i64_half
      → all is_dated (map (row_to_event json) rs) ≡ true
      → keep (in_range (cast64 start) (cast64 (i64_half + n))) rs ≡ []
  unfolding row_to_event
  keep_negative start n [] h dated = refl
  keep_negative start n (r ∷ rs) h dated = ground (
    arith,
    leb-cast64_negative r.timestamp n,
    λ (d : all is_dated (map (row_to_event json) rs) ≡ true). keep_negative start n rs h d,
  )

  not_earlier :
      (x : Row) (rs : List Row)
      → is_dated (row_to_event json x) ≡ true
      → all is_dated (map (row_to_event json) rs) ≡ true
      → All (λ r. earlier_row r x ≡ false) rs
      → All (λ e. earlier_event e (row_to_event json x) ≡ false) (map (row_to_event json) rs)
  unfolding row_to_event
  not_earlier x [] h d s = tt
  not_earlier x (r ∷ rs) h d (s, ss) = (
    ground (arith, ltb-cast64 r.timestamp x.timestamp),
    not_earlier x rs h (and_split _ _ d).1 ss,
  )

  Sorted-rows :
      (rs : List Row)
      → all is_dated (map (row_to_event json) rs) ≡ true
      → Sorted earlier_row rs
      → Sorted earlier_event (map (row_to_event json) rs)
  Sorted-rows [] d s = tt
  Sorted-rows (r ∷ rs) d (h, s) = (
    not_earlier r rs (and_split _ _ d).0 (and_split _ _ d).1 h,
    Sorted-rows rs (and_split _ _ d).1 s,
  )

  length-map_rows : (rs : List Row) → length rs ≡ length (map (row_to_event json) rs)
  length-map_rows [] = refl
  length-map_rows (r ∷ rs) = omega (arith, length-map_rows rs)

  is_text_named :
      (o : Option Text) (t u : EventType)
      → u ≡ string_to_event_type (text_or_empty o)
      → is_text o (event_type_to_string u) ≡ true
      → is_text o (event_type_to_string t) ≡ type_eq u t
  is_text_named none t u h k = cc
  is_text_named (some s) t u h k = rw (text_eq→eq s (event_type_to_string u) k) (text_eq-names u t)

  keep-is_text :
      (t : EventType) (rs : List Row)
      → all is_named rs ≡ true
      → map (row_to_event json) (keep (λ r. is_text r.type (event_type_to_string t)) rs)
        ≡ keep (λ e. type_eq e.type t) (map (row_to_event json) rs)
  unfolding row_to_event
  keep-is_text t [] named = refl
  keep-is_text t (r ∷ rs) named = ground (
    arith,
    is_text_named r.type t (string_to_event_type (text_or_empty r.type)) refl,
    λ (d : all is_named rs ≡ true). keep-is_text t rs d,
  )

  module _ {D : Type 0} {sqlite : Sqlite D} (table : IsTable sqlite) where
    -- An event is found under an id exactly as in the list of the stored events.
    pub find_by_id-events :
        (d : D) (j : ℕ) → find_by_id json sqlite d j ≡ event_with_id j (events json table d)
    unfolding find_by_id
    find_by_id-events d j = rw (table.select_id-rows d (cast64 j)) (first_of-keep j (table.rows d))

    pub count-events : (d : D) → count json sqlite d ≡ length (events json table d)
    unfolding count
    count-events d =
        rw (table.select_count-rows d)
          (cast64_invol (length (table.rows d)) ∙ length-map_rows (table.rows d))

    module _ (d : D) (dated : all is_dated (events json table d) ≡ true) where
      -- Between two times below 2^63 exactly the stored events of these times are found, each once, in
      -- the order of their times. Condition: all stored times are below 2^63.
      pub find_by_time_range-events :
          (start end : ℕ)
          → start < i64_half
          → end < i64_half
          → let found = find_by_time_range json sqlite d start end in
            Perm found (keep (within start end) (events json table d)) × Sorted earlier_event found
      unfolding find_by_time_range
      find_by_time_range-events start end h k =
          let answer = sqlite.select_time d (cast64 start) (cast64 end) in
          let (same, sorted) = table.select_time-rows d (cast64 start) (cast64 end) in
          let same_events : Perm (map (row_to_event json) answer)
              (keep (within start end) (events json table d)) =
            subst (Perm (map (row_to_event json) answer))
              (keep-in_range start end (table.rows d) h k dated)
              (map-perm (row_to_event json) same) in
          (
            same_events,
            Sorted-rows answer
                (all-perm is_dated same_events
                  ∙ all-keep (within start end) is_dated (events json table d) dated)
                sorted,
          )

      -- An end of 2^63 or more finds nothing, since it is compared as a negative number. Condition: all
      -- stored times are below 2^63.
      pub find_by_time_range_negative :
          (start n : ℕ)
          → i64_half + n < i64_half + i64_half
          → find_by_time_range json sqlite d start (i64_half + n) ≡ []
      unfolding find_by_time_range
      find_by_time_range_negative start n h = ap (map (row_to_event json)) (
          nil_of_perm (sqlite.select_time d (cast64 start) (cast64 (i64_half + n))) (
            Perm.symm (
              subst (Perm (sqlite.select_time d (cast64 start) (cast64 (i64_half + n))))
                (keep_negative start n (table.rows d) h dated)
                (table.select_time-rows d (cast64 start) (cast64 (i64_half + n))).0)))

    -- For a type exactly the stored events of that type are found, each once. Condition: every row
    -- has the name of an event type.
    pub find_by_type-events :
        (d : D) (t : EventType)
        → all is_named (table.rows d) ≡ true
        → Perm (find_by_type json sqlite d t) (keep (λ e. type_eq e.type t) (events json table d))
    unfolding find_by_type
    find_by_type-events d t named = rw (c_str-event_type_to_string t) (
        subst (Perm (map (row_to_event json) (sqlite.select_type d (event_type_to_string t))))
          (keep-is_text t (table.rows d) named)
          (map-perm (row_to_event json) (table.select_type-rows d (event_type_to_string t)).0))
