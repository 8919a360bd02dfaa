-- ===== src/Event/Serial/RoundTrip.antt =====
-- Reading back what `to_json` of src/core/event/activity_event.cpp has written, and refusals.
use mind_trace.Base.{◌≡◌, refl, ap, ◌∙◌, true, List, [], ◌∷◌, Option, none, some, if◌then◌else◌}
use mind_trace.Base.Eq.{text_eq}
use mind_trace.Base.Text.{Text, codes}
use mind_trace.Event.{ActivityEvent, SameEvent, event_type_to_string}
use mind_trace.Event.Names.{string_to_event_type-event_type_to_string}
use mind_trace.Event.Serial.{to_json, from_json}
use mind_trace.Json.{Json, IsJson}

module _ {J : Type 0} (json : Json J) (laws : IsJson json) where
  -- `j[key] = v;` for one after the other.
  set_fields : J → List (Text × J) → J
  set_fields j [] = j
  set_fields j ((key, v) ∷ fields) = set_fields (json.set j key v) fields

  abbrev field_at : Text → List (Text × J) → Option J → Option J
  field_at key [] before = before
  field_at key ((k, v) ∷ fields) before =
      field_at key fields (if text_eq k key then some v else before)

  at-set_fields :
      (j : J) (fields : List (Text × J)) (key : Text)
      → laws.is_object j ≡ true
      → json.at (set_fields j fields) key ≡ field_at key fields (json.at j key)
  unfolding set_fields
  at-set_fields j [] key h = refl
  at-set_fields j ((k, v) ∷ fields) key h =
      at-set_fields (json.set j k v) fields key (laws.is_object-set j k v h)
      ∙ ap (field_at key fields) (laws.at-set j k v h key)

  is_object-set_fields :
      (j : J) (fields : List (Text × J))
      → laws.is_object j ≡ true
      → laws.is_object (set_fields j fields) ≡ true
  unfolding set_fields
  is_object-set_fields j [] h = h
  is_object-set_fields j ((k, v) ∷ fields) h =
      is_object-set_fields (json.set j k v) fields (laws.is_object-set j k v h)

  abbrev later_fields : ActivityEvent → List (Text × J)
  later_fields e =
      (codes "timestamp", json.of_number e.timestamp)
      ∷ (codes "type", json.of_text (event_type_to_string e.type))
      ∷ (codes "source", json.of_text e.source)
      ∷ (codes "content", json.of_text e.content)
      ∷ (codes "metadata", json.of_map e.metadata)
      ∷ []

  at-to_json :
      (e : ActivityEvent) (key : Text)
      → json.at (to_json json e) key
        ≡ field_at key
            (later_fields e)
            (if text_eq (codes "id") key then some (json.of_number e.id) else none)
  unfolding to_json set_fields
  at-to_json e key =
      at-set_fields (json.set json.null (codes "id") (json.of_number e.id)) (later_fields e) key
        (laws.is_object-set_null (codes "id") (json.of_number e.id))
      ∙ ap (field_at key (later_fields e)) (
          laws.at-set_null (codes "id") (json.of_number e.id) key
          ∙ ap (λ o. if text_eq (codes "id") key then some (json.of_number e.id) else o)
              (laws.at-null key))

  is_object-to_json : (e : ActivityEvent) → laws.is_object (to_json json e) ≡ true
  unfolding to_json set_fields
  is_object-to_json e =
      is_object-set_fields (json.set json.null (codes "id") (json.of_number e.id)) (later_fields e)
        (laws.is_object-set_null (codes "id") (json.of_number e.id))

  -- An event is read back from the JSON that is made of it, with its metadata in any order.
  pub from_json-to_json :
      (e : ActivityEvent)
      → (read : ActivityEvent) × (from_json json (to_json json e) ≡ some read) × SameEvent read e
  unfolding from_json
  from_json-to_json e =
      let (metadata, is_read, same) = laws.to_map-of_map e.metadata in
      let j = to_json json e in
      let id_read =
        laws.value-at j (codes "id") 0 (json.of_number e.id) (is_object-to_json e)
          (at-to_json e (codes "id")) in
      (
        record e { metadata = metadata },
        rw
            (
              id_read,
              laws.to_number-of_number e.id,
              at-to_json e (codes "timestamp"),
              at-to_json e (codes "type"),
              at-to_json e (codes "source"),
              at-to_json e (codes "content"),
              laws.contains-at j (codes "metadata") (json.of_map e.metadata)
                  (at-to_json e (codes "metadata")),
              at-to_json e (codes "metadata"),
            )
            (rw (
              laws.to_number-of_number e.timestamp,
              laws.to_text-of_text (event_type_to_string e.type),
              laws.to_text-of_text e.source,
              laws.to_text-of_text e.content,
              is_read,
              string_to_event_type-event_type_to_string e.type,
            )),
        (refl, refl, refl, refl, refl, same),
      )
