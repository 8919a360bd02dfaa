-- ===== src/Collectors/FileSystem/Changes.antt =====
-- What a scan of src/collectors/filesystem_collector.cpp sends and remembers.
use mathlib.Core.List.{append_assoc, append-nil}
use mind_trace.Base.{
  ℕ, Bool, true, false, ◌≡◌, refl, sym, ap, ◌∙◌, List, [], ◌∷◌, ◌++◌, map, Option, none, some,
  if◌then◌else◌, ◌==◌, arith,
}
use mind_trace.Base.Eq.{text_eq, text_eq→eq, text_eq_refl, text_eq_sym, string_eq, nat_eq}
use mind_trace.Base.Text.{Text}
use mind_trace.Base.Dictionary.{count, Distinct}
use mind_trace.Event.{ActivityEvent}
use mind_trace.Collectors.{emit}
use mind_trace.Collectors.FileSystem.{
  File, Forest, nothing, directory, file, other, FileSystemCollector, is_skipped, is_tracked,
  state_of, set_state, discovered, modified, with_last_write, compare_state, visit_file, scan,
}

-- A file with its time of writing, if it is tracked and the time is known.
abbrev pub readable : Bool → File → Option ℕ → List (File × ℕ)
readable tracked f none = []
readable tracked f (some w) = if tracked then (f, w) ∷ [] else []

-- The files that a scan looks at, in its order.
abbrev pub visible : Forest → List (File × ℕ)
visible nothing = []
visible (directory name inside rest) =
    let inner = visible inside in (if is_skipped name then [] else inner) ++ visible rest
visible (file f rest) = readable (is_tracked f) f f.last_write ++ visible rest
visible (other rest) = visible rest

abbrev pub paths : List (File × ℕ) → List Text
paths = map (λ (v : File × ℕ). v.0.path)

-- The event of a file: none if its known state is its time of writing.
abbrev pub change : File × ℕ → Option ℕ → List ActivityEvent
change (f, w) none = discovered f ∷ []
change (f, w) (some known) = if known == w then [] else modified f ∷ []

abbrev pub changes : List (Text × ℕ) → List (File × ℕ) → List ActivityEvent
changes m [] = []
changes m (v ∷ vs) = change v (state_of v.0.path m) ++ changes m vs

-- What is known of a path after a scan: its time of writing, or what was known before.
abbrev pub known_after : Text → List (File × ℕ) → Option ℕ → Option ℕ
known_after p [] before = before
known_after p ((f, w) ∷ vs) before = if text_eq f.path p then some w else known_after p vs before

unfoldable pub visit : File × ℕ → FileSystemCollector → FileSystemCollector
visit (f, w) c = compare_state c f w (state_of f.path c.file_states)

unfoldable pub visit_all : List (File × ℕ) → FileSystemCollector → FileSystemCollector
visit_all [] c = c
visit_all (v ∷ vs) c = visit_all vs (visit v c)

visit_all-append :
    (vs us : List (File × ℕ)) (c : FileSystemCollector)
    → visit_all (vs ++ us) c ≡ visit_all us (visit_all vs c)
unfolding visit_all
visit_all-append [] us c = refl
visit_all-append (v ∷ vs) us c = visit_all-append vs us (visit v c)

visit_if :
    (tracked : Bool) (c : FileSystemCollector) (f : File) (w : Option ℕ)
    → (if tracked then with_last_write c f w else c) ≡ visit_all (readable tracked f w) c
unfolding visit_all visit
visit_if true c f none = refl
visit_if false c f none = refl
visit_if true c f (some w) = refl
visit_if false c f (some w) = refl

visit_file_lem :
    (c : FileSystemCollector) (f : File)
    → visit_file c f ≡ visit_all (readable (is_tracked f) f f.last_write) c
unfolding visit_file
visit_file_lem c f = visit_if (is_tracked f) c f f.last_write

visit_inside :
    (skipped : Bool) (vs us : List (File × ℕ)) (c : FileSystemCollector)
    → visit_all us (if skipped then c else visit_all vs c)
      ≡ visit_all ((if skipped then [] else vs) ++ us) c
visit_inside true vs us c = refl
visit_inside false vs us c = sym (visit_all-append vs us c)

pub scan_lem : (t : Forest) (c : FileSystemCollector) → scan t c ≡ visit_all (visible t) c
unfolding scan
scan_lem nothing c = unfold visit_all in refl
scan_lem (directory name inside rest) c =
    scan_lem rest _
    ∙ ap (λ d. visit_all (visible rest) (if is_skipped name then c else d)) (scan_lem inside c)
    ∙ visit_inside (is_skipped name) (visible inside) (visible rest) c
scan_lem (file f rest) c =
    scan_lem rest (visit_file c f)
    ∙ ap (visit_all (visible rest)) (visit_file_lem c f)
    ∙ sym (visit_all-append (readable (is_tracked f) f f.last_write) (visible rest) c)
scan_lem (other rest) c = scan_lem rest c

state_of-set_state :
    (q : Text) (w : ℕ) (m : List (Text × ℕ)) (p : Text)
    → state_of p (set_state q w m) ≡ (if text_eq q p then some w else state_of p m)
unfolding state_of set_state
state_of-set_state q w [] p = refl
state_of-set_state q w ((k, v) ∷ m) p =
    ground (arith, text_eq→eq k q, text_eq→eq q p, text_eq_refl q, state_of-set_state q w m p)

state_of-same :
    (q p : Text) (m : List (Text × ℕ)) → text_eq q p ≡ true → state_of p m ≡ state_of q m
state_of-same q p m h = rw (text_eq→eq q p h) refl

-- One file, by its state.
pub state_of-compare_state :
    (c : FileSystemCollector) (f : File) (w : ℕ) (o : Option ℕ) (p : Text)
    → state_of f.path c.file_states ≡ o
    → state_of p (compare_state c f w o).file_states
      ≡ (if text_eq f.path p then some w else state_of p c.file_states)
unfolding compare_state
state_of-compare_state c f w none p h = state_of-set_state f.path w c.file_states p
state_of-compare_state c f w (some k) p h =
    ground
      (arith, state_of-set_state f.path w c.file_states p, state_of-same f.path p c.file_states)

sent-compare_state :
    (c : FileSystemCollector) (f : File) (w : ℕ) (o : Option ℕ)
    → c.base.has_callback ≡ true
    → (compare_state c f w o).base.sent ≡ c.base.sent ++ change (f, w) o
unfolding compare_state emit
sent-compare_state c f w none h = rw h refl
sent-compare_state c f w (some k) h = ground (arith, append-nil c.base.sent)

has_callback-compare_state :
    (c : FileSystemCollector) (f : File) (w : ℕ) (o : Option ℕ)
    → (compare_state c f w o).base.has_callback ≡ c.base.has_callback
unfolding compare_state emit
has_callback-compare_state c f w none = refl
has_callback-compare_state c f w (some k) = ground arith

pub known_after_absent :
    (vs : List (File × ℕ)) (p : Text) (before : Option ℕ)
    → count p (paths vs) ≡ false
    → known_after p vs before ≡ before
known_after_absent [] p before h = refl
known_after_absent ((f, w) ∷ vs) p before h = ground (arith, known_after_absent vs p before)

known_after_if :
    (b : Bool) (vs : List (File × ℕ)) (p : Text) (w : ℕ) (before : Option ℕ)
    → (b ≡ true → count p (paths vs) ≡ false)
    → known_after p vs (if b then some w else before)
      ≡ (if b then some w else known_after p vs before)
known_after_if true vs p w before h = known_after_absent vs p (some w) (h refl)
known_after_if false vs p w before h = refl

pub state_of-visit_all :
    (vs : List (File × ℕ)) (c : FileSystemCollector) (p : Text)
    → Distinct (paths vs)
    → state_of p (visit_all vs c).file_states ≡ known_after p vs (state_of p c.file_states)
unfolding visit_all visit
state_of-visit_all [] c p d = refl
state_of-visit_all ((f, w) ∷ vs) c p (h, d) =
    state_of-visit_all vs (visit (f, w) c) p d
    ∙ ap (known_after p vs) (state_of-compare_state c f w (state_of f.path c.file_states) p refl)
    ∙ known_after_if (text_eq f.path p) vs p w _ (λ e. rw (sym (text_eq→eq f.path p e)) h)

-- The events of files do not depend on what is known of a path that none of them has.
changes_same :
    (q : Text) (w : ℕ) (vs : List (File × ℕ)) (m n : List (Text × ℕ))
    → count q (paths vs) ≡ false
    → ((p : Text) → state_of p n ≡ (if text_eq q p then some w else state_of p m))
    → changes n vs ≡ changes m vs
changes_same q w [] m n h agree = refl
changes_same q w (v ∷ vs) m n h agree = ground (
  arith,
  agree v.0.path,
  text_eq_sym q v.0.path,
  λ (absent : count q (paths vs) ≡ false). changes_same q w vs m n absent agree,
)

sent-visit_all :
    (vs : List (File × ℕ)) (c : FileSystemCollector)
    → c.base.has_callback ≡ true
    → Distinct (paths vs)
    → (visit_all vs c).base.sent ≡ c.base.sent ++ changes c.file_states vs
unfolding visit_all visit
sent-visit_all [] c e d = sym (append-nil c.base.sent)
sent-visit_all ((f, w) ∷ vs) c e (h, d) =
    sent-visit_all vs (visit (f, w) c)
      (has_callback-compare_state c f w (state_of f.path c.file_states) ∙ e) d
    ∙ ap (λ l. l ++ changes (visit (f, w) c).file_states vs)
        (sent-compare_state c f w (state_of f.path c.file_states) e)
    ∙ append_assoc c.base.sent _ _
    ∙ ap (λ l. c.base.sent ++ (change (f, w) (state_of f.path c.file_states) ++ l))
        (changes_same f.path w vs c.file_states (visit (f, w) c).file_states h
          (λ p. state_of-compare_state c f w (state_of f.path c.file_states) p refl))

-- A scan sends, in its order, one event for each file in sight that is new or has another time of
-- writing than the one remembered, and nothing else. After it the collector remembers of every path
-- the time of writing of the file in sight, or what it remembered before. Conditions: a callback is
-- set, and no two files in sight have the same path.
pub scan-changes :
    (t : Forest) (c : FileSystemCollector)
    → c.base.has_callback ≡ true
    → Distinct (paths (visible t))
    → ((scan t c).base.sent ≡ c.base.sent ++ changes c.file_states (visible t))
      × ((p : Text)
          → state_of p (scan t c).file_states
            ≡ known_after p (visible t) (state_of p c.file_states))
scan-changes t c e d =
    rw (scan_lem t c) (sent-visit_all (visible t) c e d, λ p. state_of-visit_all (visible t) c p d)
