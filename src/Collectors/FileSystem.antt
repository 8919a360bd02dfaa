-- ===== src/Collectors/FileSystem.antt =====
-- include/collectors/filesystem_collector.hpp and src/collectors/filesystem_collector.cpp: scans of a
-- directory. What the recursive iterator walks over is a `Forest`, with what each call on an entry
-- answers; `nothing` is its end, or where the scan is stopped. An error code, or an exception
-- before the file's state is written, makes the loop pass the entry over. Times of writing are numbers.
pub mod Changes
pub mod Settled
pub mod Rounds
use mind_trace.Base.{
  ℕ, Bool, true, false, ◌||◌, List, [], ◌∷◌, ◌++◌, map, Option, none, some, if◌then◌else◌, ◌==◌,
}
use mind_trace.Base.Eq.{text_eq, string_eq}
use mind_trace.Base.Text.{Text, codes, lower}
use mind_trace.Base.Dictionary.{count}
use mind_trace.Event.{ActivityEvent, EventType, file_opened, file_modified}
use mind_trace.Collectors.{CollectorBase, emit}

-- A regular file. `size` is `std::to_string` of its size, and `now` the clock at the entry.
pub record File : Type 0 where
  pub path : Text
  pub filename : Text
  pub extension : Text
  pub last_write : Option ℕ
  pub size : Option Text
  pub now : ℕ

pub data Forest : Type 0 where
  nothing : Forest
  directory : Text → Forest → Forest → Forest
  file : File → Forest → Forest
  other : Forest → Forest

pub record FileSystemCollector : Type 0 where
  pub base : CollectorBase
  pub file_states : List (Text × ℕ)

unfoldable pub start : FileSystemCollector → FileSystemCollector
start c = record c { base = record c.base { running = true } }

unfoldable pub stop : FileSystemCollector → FileSystemCollector
stop c = record c { base = record c.base { running = false } }

unfoldable pub allowed_extensions : List Text
allowed_extensions = map codes (
    ".txt" ∷ ".md" ∷ ".pdf" ∷ ".doc" ∷ ".docx" ∷ ".rtf" ∷ ".csv" ∷ ".xlsx" ∷ ".pptx" ∷ ".cpp"
    ∷ ".hpp" ∷ ".h" ∷ ".c" ∷ ".py" ∷ ".js" ∷ ".ts" ∷ ".html" ∷ ".css" ∷ ".json" ∷ ".png" ∷ ".jpg"
    ∷ ".jpeg" ∷ ".gif" ∷ ".mp4" ∷ ".mov" ∷ ".flv" ∷ [])

unfoldable pub ignored_directories : List Text
ignored_directories =
    map codes ("appdata" ∷ "cache" ∷ "logs" ∷ "temp" ∷ "tmp" ∷ "node_modules" ∷ "build" ∷ [])

-- `dir_name[0] == '.'`
abbrev starts_with_dot : Text → Bool
starts_with_dot [] = false
starts_with_dot (c ∷ s) = c == 46

unfoldable pub is_skipped : Text → Bool
unfolding ignored_directories
is_skipped name = starts_with_dot (lower name) || count (lower name) ignored_directories

unfoldable pub is_tracked : File → Bool
unfolding allowed_extensions
is_tracked f = count (lower f.extension) allowed_extensions

-- `file_states_.find(path)`, and `file_states_[path] = last_write`.
unfoldable pub state_of : Text → List (Text × ℕ) → Option ℕ
state_of path [] = none
state_of path ((p, w) ∷ m) = if text_eq p path then some w else state_of path m

unfoldable pub set_state : Text → ℕ → List (Text × ℕ) → List (Text × ℕ)
set_state path last_write [] = (path, last_write) ∷ []
set_state path last_write ((p, w) ∷ m) =
    if text_eq p path then (p, last_write) ∷ m else (p, w) ∷ set_state path last_write m

abbrev size_entry : Option Text → List (Text × Text)
size_entry none = []
size_entry (some fsize) = (codes "size", fsize) ∷ []

-- The event of a file, of a type and with a text before the name.
unfoldable pub file_event : EventType → Text → File → ActivityEvent
file_event type before f = record {
  id = 0;
  timestamp = f.now;
  type = type;
  source = f.path;
  content = before ++ f.filename;
  metadata = size_entry f.size ++ (codes "extension", f.extension) ∷ [];
}

abbrev pub discovered : File → ActivityEvent
discovered = file_event file_opened (codes "File discovered: ")

abbrev pub modified : File → ActivityEvent
modified = file_event file_modified (codes "File modified: ")

-- The file's state becomes `last_write`, and an event is sent.
abbrev record_change : FileSystemCollector → File → ℕ → ActivityEvent → FileSystemCollector
record_change c f last_write event = record {
  base = emit c.base event;
  file_states = set_state f.path last_write c.file_states;
}

-- A file by its state so far: new, or changed when the times differ.
unfoldable pub compare_state : FileSystemCollector → File → ℕ → Option ℕ → FileSystemCollector
compare_state c f last_write none = record_change c f last_write (discovered f)
compare_state c f last_write (some w) =
    if w == last_write then c else record_change c f last_write (modified f)

-- The time of writing, or `none` for an error code.
abbrev pub with_last_write : FileSystemCollector → File → Option ℕ → FileSystemCollector
with_last_write c f none = c
with_last_write c f (some last_write) = compare_state c f last_write (state_of f.path c.file_states)

-- The body of the loop for a regular file.
unfoldable pub visit_file : FileSystemCollector → File → FileSystemCollector
visit_file c f = if is_tracked f then with_last_write c f f.last_write else c

-- The loop. The iterator goes into a directory right after it, unless recursion is disabled.
unfoldable pub scan : Forest → FileSystemCollector → FileSystemCollector
scan nothing c = c
scan (directory name inside rest) c =
    scan rest (let visited = scan inside c in if is_skipped name then c else visited)
scan (file f rest) c = scan rest (visit_file c f)
scan (other rest) c = scan rest c

-- `none` where the directory does not exist.
unfoldable pub scan_directory : Option Forest → FileSystemCollector → FileSystemCollector
scan_directory none c = c
scan_directory (some forest) c = scan forest c

-- The rounds of the loop after the first scan, and the loop: what each scan finds, up to where the flag
-- is read as down.
rescan : List (Option Forest) → FileSystemCollector → FileSystemCollector
rescan [] c = c
rescan (found ∷ rounds) c = rescan rounds (scan_directory found c)

unfoldable pub scan_loop :
    Option Forest → List (Option Forest) → FileSystemCollector → FileSystemCollector
unfolding rescan
scan_loop first rounds c = rescan rounds (scan_directory first c)
