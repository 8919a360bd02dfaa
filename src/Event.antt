-- ===== src/Event.antt =====
-- include/core/event/activity_event.hpp and src/core/event/activity_event.cpp: the event type and its
-- names, the event record, and the keywords of an event.
pub mod Keywords
pub mod Names
pub mod Serial
use mind_trace.Base.{
  ℕ, Bool, true, false, ◌≡◌, ◌&&◌, ◌++◌, List, [], ◌∷◌, if◌then◌else◌, Perm, length, ltb, ◌==◌,
}
use mind_trace.Base.Text.{Text, codes, to_lower, lower, is_alnum, words}
use mind_trace.Base.Eq.{text_eq}
use mind_trace.Base.Sort.{insertion_sort}

pub data EventType : Type 0 where
  file_opened file_modified browser_visit window_focus clipboard_copy screenshot_captured unknown :
      EventType

-- `a == b` of the enumeration.
unfoldable pub type_eq : EventType → EventType → Bool
type_eq file_opened file_opened = true
type_eq file_modified file_modified = true
type_eq browser_visit browser_visit = true
type_eq window_focus window_focus = true
type_eq clipboard_copy clipboard_copy = true
type_eq screenshot_captured screenshot_captured = true
type_eq unknown unknown = true
type_eq _ _ = false

unfoldable pub event_type_to_string : EventType → Text
event_type_to_string file_opened = codes "FileOpened"
event_type_to_string file_modified = codes "FileModified"
event_type_to_string browser_visit = codes "BrowserVisit"
event_type_to_string window_focus = codes "WindowFocus"
event_type_to_string clipboard_copy = codes "ClipboardCopy"
event_type_to_string screenshot_captured = codes "ScreenshotCaptured"
event_type_to_string unknown = codes "Unknown"

unfoldable pub string_to_event_type : Text → EventType
string_to_event_type str =
    if text_eq str (codes "FileOpened")
    then file_opened
    else if text_eq str (codes "FileModified")
    then file_modified
    else if text_eq str (codes "BrowserVisit")
    then browser_visit
    else if text_eq str (codes "WindowFocus")
    then window_focus
    else if text_eq str (codes "ClipboardCopy")
    then clipboard_copy
    else if text_eq str (codes "ScreenshotCaptured")
    then screenshot_captured
    else unknown

-- `id` and `timestamp` are uint64_t; the metadata map is a list of entries.
pub record ActivityEvent : Type 0 where
  pub id : ℕ
  pub timestamp : ℕ
  pub type : EventType
  pub source : Text
  pub content : Text
  pub metadata : List (Text × Text)

-- `operator==`: the map of metadata is compared whatever the order of its entries.
abbrev pub SameEvent : ActivityEvent → ActivityEvent → Type 0
SameEvent a b =
    (a.id ≡ b.id)
    × (a.timestamp ≡ b.timestamp)
    × (a.type ≡ b.type)
    × (a.source ≡ b.source)
    × (a.content ≡ b.content)
    × Perm a.metadata b.metadata

-- The loop over the bytes of one word: letters and digits, in lower case.
unfoldable pub clean_word : Text → Text
clean_word [] = []
clean_word (c ∷ w) = let rest = clean_word w in if is_alnum c then to_lower c ∷ rest else rest

-- `!clean.empty() && clean.size() > 1`
unfoldable pub is_long_enough : Text → Bool
is_long_enough clean = ltb 0 (length clean) && ltb 1 (length clean)

-- The loop over the words of a text.
unfoldable pub clean_words : List Text → List Text
clean_words [] = []
clean_words (w ∷ ws) =
    let clean = clean_word w in
    let rest = clean_words ws in if is_long_enough clean then clean ∷ rest else rest

unfoldable pub tokenize : Text → List Text
unfolding clean_words
tokenize text = clean_words (words text)

-- `operator<` of `std::string`.
abbrev pub text_ltb : Text → Text → Bool
text_ltb [] [] = false
text_ltb [] (d ∷ t) = true
text_ltb (c ∷ s) [] = false
text_ltb (c ∷ s) (d ∷ t) = if c == d then text_ltb s t else ltb c d

-- `std::unique`: of each run of equal neighbours one stays.
unique : List Text → List Text
unique [] = []
unique (x ∷ []) = x ∷ []
unique (x ∷ y ∷ r) = let rest = unique (y ∷ r) in if text_eq x y then rest else x ∷ rest

-- Texts that compare equal are equal, so every `std::sort` gives the list of insertion sort.
unfoldable pub extract_keywords : ActivityEvent → List Text
unfolding unique
extract_keywords event = unique (
    insertion_sort text_ltb (
      tokenize event.content
      ++ (tokenize event.source ++ lower (event_type_to_string event.type) ∷ [])))
