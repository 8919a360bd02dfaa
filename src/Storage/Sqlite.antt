-- ===== src/Storage/Sqlite.antt =====
-- SQLite as src/core/storage/event_store.cpp uses it: a connection `D` to a database with the table of
-- events, and one operation for each statement that is run on it.
use mind_trace.Base.{
  ◌≡◌, Bool, true, false, ◌&&◌, List, [], ◌∷◌, ◌++◌, Option, none, some, if◌then◌else◌, leb, ltb,
  ◌==◌, keep, map, length, Perm,
}
use mind_trace.Base.Eq.{nat_eq, text_eq}
use mind_trace.Base.Text.{Text}
use mind_trace.Base.Sort.{Sorted}
use mind_trace.Base.Int64.{Int64, cast64}
use mind_trace.Base.Dictionary.{Distinct}

-- The values that are bound to an insertion.
pub record Values : Type 0 where
  pub timestamp : Int64
  pub type : Text
  pub source : Text
  pub content : Text
  pub metadata_json : Text

-- The columns of a row; a text is `none` where it is null.
pub record Row : Type 0 where
  pub id : Int64
  pub timestamp : Int64
  pub type : Option Text
  pub source : Option Text
  pub content : Option Text
  pub metadata_json : Option Text

abbrev pub row_of : Int64 → Values → Row
row_of i v = record {
  id = i;
  timestamp = v.timestamp;
  type = some v.type;
  source = some v.source;
  content = some v.content;
  metadata_json = some v.metadata_json;
}

pub record Sqlite (D : Type 0) : Type 0 where
  -- `none`: the file is not opened, the tables are not made.
  pub open_database : Text → Option D
  pub create_schema : D → Option D
  -- The insertion: whether it is prepared, and a step of it, `none` unless it is done.
  pub prepares_insert : D → Bool
  pub step_insert : D → Values → Option D
  pub last_insert_rowid : D → Int64
  pub begin_transaction : D → D
  -- `none`: the statement is refused, as for a lock that another connection has, and the connection
  -- stays as it was.
  pub commit : D → Option D
  -- The rows of each query, in the order of its steps.
  pub select_id : D → Int64 → List Row
  pub select_time : D → Int64 → Int64 → List Row
  pub select_type : D → Text → List Row
  pub select_like : D → Text → List Row
  pub select_count : D → List Int64
  pub delete_events : D → Option D

abbrev pub earlier_row : Row → Row → Bool
earlier_row a b = ltb a.timestamp b.timestamp

-- `type = ?` and `timestamp >= ? AND timestamp <= ?`.
abbrev pub is_text : Option Text → Text → Bool
is_text none t = false
is_text (some s) t = text_eq s t

abbrev pub in_range : Int64 → Int64 → Row → Bool
in_range start end r = leb start r.timestamp && leb r.timestamp end

-- The rows of a query with `ORDER BY timestamp`.
abbrev pub IsQuery : (Row → Bool) → List Row → List Row → Type 0
IsQuery test rows answer = Perm answer (keep test rows) × Sorted earlier_row answer

-- What SQLite documents of these statements, by the rows that the connection sees, those that are
-- durable, that is, seen after it is closed without more ado, and whether a transaction is open.
pub record IsTable {D : Type 0} (sqlite : Sqlite D) : Type 0 where
  pub rows : D → List Row
  pub durable : D → List Row
  pub in_transaction : D → Bool
  pub rows-step_insert :
      (d : D) (v : Values) (d' : D)
      → sqlite.step_insert d v ≡ some d'
      → rows d' ≡ rows d ++ row_of (sqlite.last_insert_rowid d') v ∷ []
  -- The primary key.
  pub rows_distinct : (d : D) → Distinct (map (λ r. r.id) (rows d))
  pub transaction-step_insert :
      (d : D) (v : Values) (d' : D)
      → sqlite.step_insert d v ≡ some d'
      → (in_transaction d' ≡ in_transaction d)
        × (durable d' ≡ (if in_transaction d then durable d else rows d'))
  pub begin_lem :
      (d : D)
      → (rows (sqlite.begin_transaction d) ≡ rows d)
        × (durable (sqlite.begin_transaction d) ≡ durable d)
        × (in_transaction (sqlite.begin_transaction d) ≡ true)
  pub commit_lem :
      (d d' : D)
      → sqlite.commit d ≡ some d'
      → (rows d' ≡ rows d) × (durable d' ≡ rows d) × (in_transaction d' ≡ false)
  pub select_id-rows : (d : D) (i : Int64) → sqlite.select_id d i ≡ keep (λ r. r.id == i) (rows d)
  pub select_time-rows :
      (d : D) (start end : Int64)
      → IsQuery (in_range start end) (rows d) (sqlite.select_time d start end)
  pub select_type-rows :
      (d : D) (t : Text) → IsQuery (λ r. is_text r.type t) (rows d) (sqlite.select_type d t)
  pub select_count-rows : (d : D) → sqlite.select_count d ≡ cast64 (length (rows d)) ∷ []
  pub delete_lem : (d d' : D) → sqlite.delete_events d ≡ some d' → rows d' ≡ []
