-- ===== src/Tests/EventTests.antt =====
-- Runs and theorems of Event at concrete inputs.
use mind_trace.Base.{◌≡◌, refl, [], ◌∷◌}
use mind_trace.Base.Text.{codes, words, is_alnum, to_lower}
use mind_trace.Base.Sort.{insertion_sort}
use mind_trace.Event.{event_type_to_string, tokenize, extract_keywords, clean_word, is_long_enough}
use mind_trace.Tests.{edit}

keywords-edit :
    extract_keywords edit
    ≡ codes "edited" ∷ codes "filemodified" ∷ codes "homememaincpp" ∷ codes "maincpp" ∷ []
unfolding extract_keywords tokenize words is_alnum to_lower clean_word is_long_enough insertion_sort
    event_type_to_string
keywords-edit = refl
