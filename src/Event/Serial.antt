-- ===== src/Event/Serial.antt =====
-- `to_json` and `from_json` of src/core/event/activity_event.cpp; the JSON values are the library's.
pub mod RoundTrip
use mind_trace.Base.{ℕ, List, [], Option, none, some, if◌then◌else◌, ◌>>=◌}
use mind_trace.Base.Text.{Text, codes}
use mind_trace.Event.{ActivityEvent, event_type_to_string, string_to_event_type}
use mind_trace.Json.{Json}

module _ {J : Type 0} (json : Json J) where
  unfoldable pub to_json : ActivityEvent → J
  to_json e =
      let j1 = json.set json.null (codes "id") (json.of_number e.id) in
      let j2 = json.set j1 (codes "timestamp") (json.of_number e.timestamp) in
      let j3 = json.set j2 (codes "type") (json.of_text (event_type_to_string e.type)) in
      let j4 = json.set j3 (codes "source") (json.of_text e.source) in
      let j5 = json.set j4 (codes "content") (json.of_text e.content) in
      json.set j5 (codes "metadata") (json.of_map e.metadata)

  -- `j.at(key).get<…>()`.
  abbrev number_at : J → Text → Option ℕ
  number_at j key = json.at j key >>= json.to_number

  abbrev text_at : J → Text → Option Text
  text_at j key = json.at j key >>= json.to_text

  metadata_of : J → Option (List (Text × Text))
  metadata_of j =
      if json.contains j (codes "metadata")
      then json.at j (codes "metadata") >>= json.to_map
      else some []

  -- `none` is an exception of the library: a key is missing or its value has another type.
  unfoldable pub from_json : J → Option ActivityEvent
  unfolding metadata_of
  from_json j = do
    id ← json.value j (codes "id") 0
    timestamp ← number_at j (codes "timestamp")
    type ← text_at j (codes "type")
    source ← text_at j (codes "source")
    content ← text_at j (codes "content")
    metadata ← metadata_of j
    some (record {
      id = id;
      timestamp = timestamp;
      type = string_to_event_type type;
      source = source;
      content = content;
      metadata = metadata;
    })
