-- ===== src/Event/Names.antt =====
-- The names of event types, src/core/event/activity_event.cpp.
use mind_trace.Base.{◌≡◌, refl, sym, ◌⊎◌, inl, inr, Bool-cases, if◌then◌else◌}
use mind_trace.Base.Text.{Text}
use mind_trace.Base.Eq.{text_eq, text_eq→eq}
use mind_trace.Event.{
  EventType, file_opened, file_modified, browser_visit, window_focus, clipboard_copy,
  screenshot_captured, unknown, event_type_to_string, string_to_event_type,
}

-- Every event type, `Unknown` among them, is read back from its name.
pub string_to_event_type-event_type_to_string :
    (t : EventType) → string_to_event_type (event_type_to_string t) ≡ t
unfolding string_to_event_type event_type_to_string
string_to_event_type-event_type_to_string file_opened = refl
string_to_event_type-event_type_to_string _ = refl

abbrev Reads : Text → EventType → Type 0
Reads s t = (t ≡ unknown) ⊎ (event_type_to_string t ≡ s)

-- One test of the ladder.
Reads-if :
    (s : Text) (t rest : EventType)
    → Reads s rest
    → Reads s (if text_eq s (event_type_to_string t) then t else rest)
Reads-if s t rest h = elim (Bool-cases (text_eq s (event_type_to_string t))) [
  | inl e ↦ rw e (inr (sym (text_eq→eq s (event_type_to_string t) e)))
  | inr e ↦ rw e h
]

-- A text is read as `Unknown`, or it is the name of the type that is read.
pub string_to_event_type_cases :
    (s : Text)
    → (string_to_event_type s ≡ unknown) ⊎ (event_type_to_string (string_to_event_type s) ≡ s)
unfolding string_to_event_type event_type_to_string
string_to_event_type_cases s = Reads-if s file_opened _ (
    Reads-if s file_modified _ (
      Reads-if s browser_visit _ (
        Reads-if s window_focus _
          (Reads-if s clipboard_copy _ (Reads-if s screenshot_captured _ (inl refl))))))
