-- ===== src/Search/Parser/Keywords.antt =====
-- The keywords of a query, src/search/query_parser.cpp, are the tokens that the index would take from
-- the same text, less the stop words.
use mind_trace.Base.{ℕ, ◌≡◌, refl, not, List, [], ◌∷◌, map, arith, keep}
use mind_trace.Base.Text.{Text, lower, is_alnum-to_lower, words, words-lower}
use mind_trace.Event.{clean_word, clean_words, tokenize}
use mind_trace.Search.Parser.{
  QuerySpec, today_start, clean_query_word, query_keywords, extract_query_keywords, is_stop_word,
  parse, resolve_time_expression, resolve_event_type, resolve_date, resolve_day, resolve_work_hours,
  days,
}

clean_query_word-lower : (w : Text) → clean_query_word (lower w) ≡ clean_word w
unfolding clean_query_word clean_word
clean_query_word-lower [] = refl
clean_query_word-lower (c ∷ w) = ground (arith, is_alnum-to_lower c, clean_query_word-lower w)

query_keywords-lower :
    (ws : List Text)
    → query_keywords (map lower ws) ≡ keep (λ k. not (is_stop_word k)) (clean_words ws)
unfolding query_keywords clean_words
query_keywords-lower [] = refl
query_keywords-lower (w ∷ ws) = ground (arith, clean_query_word-lower w, query_keywords-lower ws)

event_type_keeps_keywords :
    (query : Text) (spec : QuerySpec) → (resolve_event_type query spec).keywords ≡ spec.keywords
unfolding resolve_event_type
event_type_keeps_keywords query spec = ground arith

-- No part of `resolve_time_expression` writes the keywords.
day_keeps_keywords :
    (ts : ℕ) (query : Text) (ds : List (Text × ℕ)) (spec : QuerySpec)
    → (resolve_day ts query ds spec).keywords ≡ spec.keywords
unfolding resolve_day
day_keeps_keywords ts query [] spec = refl
day_keeps_keywords ts query ((name, wday) ∷ ds) spec =
    ground (arith, day_keeps_keywords ts query ds spec)

date_keeps_keywords :
    (ts second : ℕ) (query : Text) (spec : QuerySpec)
    → (resolve_date ts second query spec).keywords ≡ spec.keywords
unfolding resolve_date
date_keeps_keywords ts second query spec = ground (arith, day_keeps_keywords ts query days spec)

time_keeps_keywords :
    (first second : ℕ) (query : Text) (spec : QuerySpec)
    → (resolve_time_expression first second query spec).keywords ≡ spec.keywords
unfolding resolve_time_expression resolve_work_hours
time_keeps_keywords first second query spec =
    ground (arith, date_keeps_keywords (today_start first) second query spec)

-- The keywords of a query are the tokens that the index takes from the same text, in their order,
-- less those that are stop words.
pub keywords-parse :
    (first second : ℕ) (query : Text)
    → (parse first second query).keywords ≡ keep (λ k. not (is_stop_word k)) (tokenize query)
unfolding parse extract_query_keywords tokenize
keywords-parse first second query =
    rw
      (
        event_type_keeps_keywords (lower query) _,
        time_keeps_keywords first second (lower query) _,
        words-lower query,
      )
      (query_keywords-lower (words query))
