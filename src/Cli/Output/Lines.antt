-- ===== src/Cli/Output/Lines.antt =====
-- The lines of what `cmd_search` of apps/cli/main.cpp prints.
use mathlib.Core.List.{append_assoc}
use mind_trace.Base.{
  ℕ, ◌≡◌, refl, sym, ap, ◌∙◌, Bool, true, false, not, ◌&&◌, List, [], ◌∷◌, ◌++◌, map, if◌then◌else◌,
  ◌==◌, all, all-append, and_split, and_join, is_empty, length,
}
use mind_trace.Base.Text.{Text, codes}
use mind_trace.Base.Decimal.{decimal}
use mind_trace.Common.{Tm, truncate, format_time_only}
use mind_trace.Common.Clean.{
  is_clean, is_clean-append, is_clean-truncate, is_clean-decimal, is_clean-format_time_only,
}
use mind_trace.Event.{EventType, ActivityEvent, event_type_to_string}
use mind_trace.Cli.Output.{
  unlines, event_line, print_event, print_events, found_lines, print_search,
}

-- A byte before the first of the lines.
abbrev before : ℕ → List Text → List Text
before c [] = (c ∷ []) ∷ []
before c (l ∷ ls) = (c ∷ l) ∷ ls

-- The lines that a terminal shows for a text.
abbrev pub lines : Text → List Text
lines [] = []
lines (c ∷ s) = let rest = lines s in if c == 10 then [] ∷ rest else before c rest

not-true : (b : Bool) → not b ≡ true → b ≡ false
not-true true h = sym h
not-true false h = refl

lines-append : (s rest : Text) → is_clean s ≡ true → lines (s ++ 10 ∷ rest) ≡ s ∷ lines rest
lines-append [] rest h = refl
lines-append (c ∷ s) rest h =
    let (other, clean) = and_split (not (c == 10)) (is_clean s) h in
    rw (lines-append s rest clean, not-true (c == 10) other) refl

lines-unlines : (ls : List Text) → all is_clean ls ≡ true → lines (unlines ls) ≡ ls
lines-unlines [] h = refl
lines-unlines (l ∷ ls) h =
    let (clean, rest) = and_split _ _ h in
    lines-append l (unlines ls) clean ∙ ap (λ k. l ∷ k) (lines-unlines ls rest)

is_clean-event_type_to_string : (t : EventType) → is_clean (event_type_to_string t) ≡ true
unfolding event_type_to_string
is_clean-event_type_to_string EventType.file_opened = refl
is_clean-event_type_to_string EventType.file_modified = refl
is_clean-event_type_to_string EventType.browser_visit = refl
is_clean-event_type_to_string EventType.window_focus = refl
is_clean-event_type_to_string EventType.clipboard_copy = refl
is_clean-event_type_to_string EventType.screenshot_captured = refl
is_clean-event_type_to_string EventType.unknown = refl

-- Texts one after the other.
abbrev joined : List Text → Text
joined [] = []
joined (s ∷ []) = s
joined (s ∷ t ∷ rest) = s ++ joined (t ∷ rest)

is_clean-joined : (ss : List Text) → all is_clean ss ≡ true → is_clean (joined ss) ≡ true
is_clean-joined [] h = refl
is_clean-joined (s ∷ []) h = (and_split _ _ h).0
is_clean-joined (s ∷ t ∷ rest) h =
    is_clean-append s (joined (t ∷ rest)) (and_split _ _ h).0
      (is_clean-joined (t ∷ rest) (and_split _ _ h).1)

-- The query and the number of its results with the text around them, by pieces and by lines.
regroup :
    (query number found under : Text)
    → found ≡ under
    → query ++ (codes "\"\n   Found " ++ (number ++ (codes " result(s)\n\n" ++ found)))
      ≡ (query ++ codes "\"")
        ++ (10 ∷ (codes "   Found " ++ (number ++ codes " result(s)")) ++ (10 ∷ 10 ∷ under))
regroup query number found under same =
    let counted = number ++ codes " result(s)" in
    ap (λ t. query ++ (codes "\"\n   Found " ++ (number ++ (codes " result(s)\n\n" ++ t)))) same
    ∙ ap (λ t. query ++ (codes "\"\n   Found " ++ t))
        (sym (append_assoc number (codes " result(s)") (10 ∷ 10 ∷ under)))
    ∙ sym
        (append_assoc query (codes "\"") (10 ∷ (codes "   Found " ++ counted) ++ (10 ∷ 10 ∷ under)))

-- An event whose source and content are of one line.
abbrev pub is_one_line : ActivityEvent → Bool
is_one_line e = is_clean e.source && is_clean e.content

module _ (localtime : ℕ → Tm) where
  is_clean-event_line :
      (e : ActivityEvent) → is_one_line e ≡ true → is_clean (event_line localtime e) ≡ true
  unfolding event_line
  is_clean-event_line e h =
      let (source, content) = and_split (is_clean e.source) (is_clean e.content) h in
      is_clean-joined
        (codes "  "
          ∷ format_time_only localtime e.timestamp
          ∷ codes "  ["
          ∷ event_type_to_string e.type
          ∷ codes "]  "
          ∷ truncate e.source 40
          ∷ codes "  -  "
          ∷ truncate e.content 50
          ∷ [])
        (rw
          (
            is_clean-format_time_only localtime e.timestamp,
            is_clean-event_type_to_string e.type,
            is_clean-truncate e.source 40 source,
            is_clean-truncate e.content 50 content,
          )
          refl)

  is_clean-event_lines :
      (es : List ActivityEvent)
      → all is_one_line es ≡ true
      → all is_clean (map (event_line localtime) es) ≡ true
  is_clean-event_lines [] h = refl
  is_clean-event_lines (e ∷ es) h =
      let (one, rest) = and_split _ _ h in
      and_join _ _ (is_clean-event_line e one) (is_clean-event_lines es rest)

  unlines-event_lines :
      (es : List ActivityEvent) (rest : List Text)
      → unlines (map (event_line localtime) es ++ rest) ≡ print_events localtime es ++ unlines rest
  unfolding print_events print_event
  unlines-event_lines [] rest = refl
  unlines-event_lines (e ∷ es) rest =
      ap (λ t. event_line localtime e ++ 10 ∷ t) (unlines-event_lines es rest)
      ∙ sym (
          append_assoc (event_line localtime e) (codes "\n")
            (print_events localtime es ++ unlines rest))
      ∙ sym (
          append_assoc (event_line localtime e ++ codes "\n") (print_events localtime es)
            (unlines rest))

  -- The lines under the number of results.
  abbrev pub result_lines : List ActivityEvent → List Text
  result_lines results =
      if is_empty results
      then codes "   No results found." ∷ []
      else map (event_line localtime) results ++ [] ∷ []

  abbrev pub search_title : Text
  search_title = 240 ∷ 159 ∷ 148 ∷ 141 ∷ codes " Search: \""

  -- What a search shows, line by line: a title, the number of the results, then the results.
  abbrev pub search_lines : Text → List ActivityEvent → List Text
  search_lines query results =
      []
      ∷ (search_title ++ (query ++ codes "\""))
      ∷ (codes "   Found " ++ (decimal (length results) ++ codes " result(s)"))
      ∷ []
      ∷ result_lines results

  found_lines-unlines :
      (results : List ActivityEvent)
      → found_lines localtime results ≡ unlines (result_lines results)
  unfolding found_lines
  found_lines-unlines [] = refl
  found_lines-unlines (e ∷ es) = sym (unlines-event_lines (e ∷ es) ([] ∷ []))

  print_search-unlines :
      (query : Text) (results : List ActivityEvent)
      → print_search localtime query results ≡ unlines (search_lines query results)
  unfolding print_search
  print_search-unlines query results =
      ap (λ t. 10 ∷ search_title ++ t)
        (regroup query (decimal (length results)) _ _ (found_lines-unlines results))

  all-result_lines :
      (results : List ActivityEvent)
      → all is_one_line results ≡ true
      → all is_clean (result_lines results) ≡ true
  all-result_lines [] h = refl
  all-result_lines (e ∷ es) h =
      all-append is_clean (map (event_line localtime) (e ∷ es)) ([] ∷ [])
      ∙ and_join _ _ (is_clean-event_lines (e ∷ es) h) refl

  -- A search prints, line by line, its query, the number of its results, and one line for each result in
  -- their order, or that there are none. Condition: no line break is in the query, nor in the source or
  -- the content of a result.
  pub lines-print_search :
      (query : Text) (results : List ActivityEvent)
      → is_clean query ≡ true
      → all is_one_line results ≡ true
      → lines (print_search localtime query results) ≡ search_lines query results
  lines-print_search query results q h =
      ap lines (print_search-unlines query results)
      ∙ lines-unlines (search_lines query results) (
          rw
            (
              is_clean-append search_title (query ++ codes "\"") refl
                  (is_clean-append query (codes "\"") q refl),
              is_clean-append (codes "   Found ") (decimal (length results) ++ codes " result(s)")
                  refl
                  (is_clean-append (decimal (length results)) (codes " result(s)")
                    (is_clean-decimal (length results)) refl),
              all-result_lines results h,
            )
            refl)
