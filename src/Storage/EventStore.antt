-- ===== src/Storage/EventStore.antt =====
-- include/core/storage/event_store.hpp and src/core/storage/event_store.cpp: events in a table of SQLite.
-- The connection `D` and its statements are SQLite's, the texts of metadata nlohmann::json's. Every
-- method holds the mutex to its end, so it is one step.
pub mod Rows
pub mod Finding
pub mod Saving
pub mod Transactions
pub mod Batches
pub mod Contract
pub mod Calls
pub mod Additions
pub mod Refinement
use mind_trace.Base.{
  ℕ, Bool, true, false, List, [], ◌∷◌, ◌++◌, map, Option, none, some, if◌then◌else◌, ◌==◌,
}
use mind_trace.Base.Text.{Text, codes}
use mind_trace.Base.Int64.{Int64, cast64}
use mind_trace.Event.{EventType, ActivityEvent, event_type_to_string, string_to_event_type}
use mind_trace.Json.{Json}
use mind_trace.Storage.{EventRepository}
use mind_trace.Storage.Sqlite.{Sqlite, Values, Row}

-- What is read of a text through a pointer to its bytes: all up to the first 0.
unfoldable pub c_str : Text → Text
c_str [] = []
c_str (c ∷ s) = let rest = c_str s in if c == 0 then [] else c ∷ rest

-- `text ? text : ""`, made a string up to the first byte 0.
abbrev pub text_or_empty : Option Text → Text
text_or_empty none = []
text_or_empty (some t) = c_str t

-- What is bound to the insertion of an event, whose metadata are written as `meta_str`.
unfoldable pub bind_event : ActivityEvent → Text → Values
bind_event event meta_str = record {
  timestamp = cast64 event.timestamp;
  type = c_str (event_type_to_string event.type);
  source = c_str event.source;
  content = c_str event.content;
  metadata_json = c_str meta_str;
}

abbrev pub first_of {ℓ} : {A : Type ℓ} → List A → Option A
first_of [] = none
first_of (x ∷ xs) = some x

module _ {J : Type 0} (json : Json J) where
  abbrev pub meta_str : ActivityEvent → Option Text
  meta_str event = json.dump (json.of_map event.metadata)

  -- Text that is not JSON, or no map, leaves the metadata empty.
  read_json : Option J → List (Text × Text)
  read_json none = []
  read_json (some j) = elim (json.to_map j) [ none ↦ [] | some m ↦ m ]

  unfoldable pub read_metadata : Option Text → List (Text × Text)
  unfolding read_json
  read_metadata none = []
  read_metadata (some t) = read_json (json.parse (c_str t))

  unfoldable pub row_to_event : Row → ActivityEvent
  row_to_event r = record {
    id = cast64 r.id;
    timestamp = cast64 r.timestamp;
    type = string_to_event_type (text_or_empty r.type);
    source = text_or_empty r.source;
    content = text_or_empty r.content;
    metadata = read_metadata r.metadata_json;
  }

  module _ {D : Type 0} (sqlite : Sqlite D) where
    schema_made : Option D → Option D
    schema_made none = none
    schema_made (some d) = sqlite.create_schema d

    -- The constructor; `none` is its exception. The pragma on the journal, whose result is not looked
    -- at, belongs to opening the database.
    unfoldable pub open_store : Text → Option D
    unfolding schema_made
    open_store db_path = schema_made (sqlite.open_database (c_str db_path))

    pub inserted : Option D → Option (ℕ × D)
    inserted none = none
    inserted (some d) = some (cast64 (sqlite.last_insert_rowid d), d)

    unfoldable pub insert_event : D → ActivityEvent → Option Text → Option (ℕ × D)
    unfolding inserted
    insert_event d event none = none
    insert_event d event (some meta) = inserted (sqlite.step_insert d (bind_event event meta))

    -- `none` is an exception, of the insertion or of the writing of the metadata. It leaves the
    -- database as it was.
    unfoldable pub save : D → ActivityEvent → Option (ℕ × D)
    unfolding insert_event
    save d event = if sqlite.prepares_insert d then insert_event d event (meta_str event) else none

    -- A statement whose result is not looked at.
    pub unless_refused : D → Option D → D
    unless_refused d none = d
    unless_refused d (some d') = d'

    -- An event whose metadata are not written leaves the loop by an exception.
    pub unless_thrown : Option Text → (Text → D × Bool) → D → D × Bool
    unless_thrown none rest d = (d, false)
    unless_thrown (some meta) rest d = rest meta

    -- The loop over the events of a batch, with whether it comes to its end. A statement that is not
    -- prepared inserts nothing.
    unfoldable pub batch_loop : Bool → D → List ActivityEvent → D × Bool
    unfolding unless_refused unless_thrown
    batch_loop prepared d [] = (d, true)
    batch_loop prepared d (event ∷ events) =
        unless_thrown (meta_str event)
          (λ meta.
            batch_loop prepared
              (if prepared
                then unless_refused d (sqlite.step_insert d (bind_event event meta))
                else d)
              events)
          d

    -- `COMMIT`, which an exception skips.
    end_batch : D × Bool → D × Bool
    unfolding unless_refused
    end_batch (d, true) = (unless_refused d (sqlite.commit d), true)
    end_batch (d, false) = (d, false)

    -- The database after it, and whether it returns.
    unfoldable pub save_batch : D → List ActivityEvent → D × Bool
    unfolding end_batch
    save_batch d events =
        let begun = sqlite.begin_transaction d in
        end_batch (batch_loop (sqlite.prepares_insert begun) begun events)

    unfoldable pub find_by_id : D → ℕ → Option ActivityEvent
    find_by_id d id = first_of (map row_to_event (sqlite.select_id d (cast64 id)))

    unfoldable pub find_by_time_range : D → ℕ → ℕ → List ActivityEvent
    find_by_time_range d start end =
        map row_to_event (sqlite.select_time d (cast64 start) (cast64 end))

    unfoldable pub find_by_type : D → EventType → List ActivityEvent
    find_by_type d type =
        map row_to_event (sqlite.select_type d (c_str (event_type_to_string type)))

    unfoldable pub find_by_keyword : D → Text → List ActivityEvent
    find_by_keyword d keyword =
        map row_to_event (sqlite.select_like d (c_str (codes "%" ++ (keyword ++ codes "%"))))

    -- 0 when the query gives no row.
    counted : Option Int64 → ℕ
    counted none = 0
    counted (some n) = cast64 n

    unfoldable pub count : D → ℕ
    unfolding counted
    count d = counted (first_of (sqlite.select_count d))

    unfoldable pub clear : D → D
    unfolding unless_refused
    clear d = unless_refused d (sqlite.delete_events d)

    returned : D × Bool → Option D
    returned (d, true) = some d
    returned (d, false) = none

    -- The store behind the interface, where an exception has no state.
    unfoldable pub event_store : EventRepository D
    unfolding returned
    event_store = record {
      save = save;
      save_batch = λ d events. returned (save_batch d events);
      find_by_id = find_by_id;
      find_by_time_range = find_by_time_range;
      find_by_type = find_by_type;
      find_by_keyword = find_by_keyword;
      count = count;
      clear = clear;
    }
