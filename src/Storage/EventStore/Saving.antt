-- ===== src/Storage/EventStore/Saving.antt =====
-- What `save` of src/core/storage/event_store.cpp writes, and how it is read back.
use mathlib.Core.Path.{subst}
use mind_trace.Base.{
  ℕ, ◌≡◌, refl, sym, ap, ◌∙◌, Bool, true, false, ◌||◌, List, [], ◌∷◌, ◌++◌, map, Option, none, some,
  arith, if◌then◌else◌, ◌==◌, Perm,
}
use mind_trace.Base.Eq.{nat_eq}
use mind_trace.Base.Text.{Text}
use mind_trace.Base.Int64.{cast64, cast64_invol}
use mind_trace.Base.Dictionary.{count, Distinct}
use mind_trace.Event.{SameEvent, ActivityEvent, string_to_event_type}
use mind_trace.Event.Names.{string_to_event_type-event_type_to_string}
use mind_trace.Json.{Json, IsJson}
use mind_trace.Storage.Sqlite.{Sqlite, IsTable, row_of}
use mind_trace.Storage.Listing.{ids, event_with_id}
use mind_trace.Storage.EventStore.{
  c_str, bind_event, meta_str, read_metadata, read_json, row_to_event, inserted, insert_event, save,
  find_by_id,
}
use mind_trace.Storage.EventStore.Rows.{
  events, Distinct-events, c_str_eq, c_str-event_type_to_string,
}
use mind_trace.Storage.EventStore.Finding.{find_by_id-events}

-- An event whose texts have no byte 0.
abbrev pub IsPlain : ActivityEvent → Type 0
IsPlain e = (c_str e.source ≡ e.source) × (c_str e.content ≡ e.content)

event_with_id-last :
    (es : List ActivityEvent) (e : ActivityEvent) (j : ℕ)
    → count e.id (ids es) ≡ false
    → event_with_id j (es ++ e ∷ []) ≡ (if e.id == j then some e else event_with_id j es)
event_with_id-last [] e j h = refl
event_with_id-last (x ∷ es) e j h = ground (arith, event_with_id-last es e j)

pub ids-append :
    (es : List ActivityEvent) (e : ActivityEvent) → ids (es ++ e ∷ []) ≡ ids es ++ e.id ∷ []
ids-append [] e = refl
ids-append (x ∷ es) e = cc (ids-append es e)

pub Distinct-last : (xs : List ℕ) (x : ℕ) → Distinct (xs ++ x ∷ []) → count x xs ≡ false
Distinct-last [] x d = refl
Distinct-last (y ∷ xs) x (h, d) = ground (arith, Distinct-last xs x d, count-last y x xs)
  where
    count-last : (a b : ℕ) (zs : List ℕ) → count a (zs ++ b ∷ []) ≡ (count a zs || b == a)
    count-last a b [] = ground arith
    count-last a b (z ∷ zs) = ground (arith, count-last a b zs)

map-append_last {ℓ κ} :
    {A : Type ℓ} {B : Type κ} (f : A → B) (xs : List A) (x : A)
    → map f (xs ++ x ∷ []) ≡ map f xs ++ f x ∷ []
map-append_last f [] x = refl
map-append_last f (y ∷ xs) x = cc (map-append_last f xs x)

some_if {ℓ} :
    {A : Type ℓ} (b : Bool) (o : Option A) (a : A) → (if b then o else none) ≡ some a → o ≡ some a
some_if true o a h = h
some_if false o a h = cc

module _ {J : Type 0} (json : Json J) {D : Type 0} (sqlite : Sqlite D) where
  inserted-some :
      (r : Option D) (id : ℕ) (d' : D)
      → inserted json sqlite r ≡ some (id, d')
      → (r ≡ some d') × (id ≡ cast64 (sqlite.last_insert_rowid d'))
  unfolding inserted
  inserted-some none id d' h = cc
  inserted-some (some d) id d' h =
      let same : d ≡ d' = cc in
      (ap some same, let e : cast64 (sqlite.last_insert_rowid d) ≡ id = cc in rw (← same) (sym e))

  insert_event-some :
      (d : D) (e : ActivityEvent) (o : Option Text) (id : ℕ) (d' : D)
      → insert_event json sqlite d e o ≡ some (id, d')
      → (t : Text) × (o ≡ some t)
        × (sqlite.step_insert d (bind_event e t) ≡ some d')
        × (id ≡ cast64 (sqlite.last_insert_rowid d'))
  unfolding insert_event
  insert_event-some d e none id d' h = cc
  insert_event-some d e (some t) id d' h =
      let (stepped, is_id) = inserted-some (sqlite.step_insert d (bind_event e t)) id d' h in
      (t, refl, stepped, is_id)

  -- A successful `save` has inserted one row.
  pub save_inserts :
      (d : D) (e : ActivityEvent) (id : ℕ) (d' : D)
      → save json sqlite d e ≡ some (id, d')
      → (t : Text) × (meta_str json e ≡ some t)
        × (sqlite.step_insert d (bind_event e t) ≡ some d')
        × (id ≡ cast64 (sqlite.last_insert_rowid d'))
  unfolding save
  save_inserts d e id d' h =
      insert_event-some d e (meta_str json e) id d' (some_if (sqlite.prepares_insert d) _ _ h)

module _ {J : Type 0} (json : Json J) (laws : IsJson json) where
  -- Metadata that are written as a text are read back from it.
  read_metadata-meta_str :
      (e : ActivityEvent) (t : Text)
      → meta_str json e ≡ some t
      → Perm (read_metadata json (some (c_str t))) e.metadata
  unfolding read_metadata
  read_metadata-meta_str e t h =
      let (read, is_read, same) = laws.to_map-of_map e.metadata in
      let whole = c_str_eq t (laws.dump_bytes _ t h) in
      rw (whole, whole, laws.parse-dump _ t h) (rw (is_read, read_json) same)

  -- An event is read from the row that is written for it.
  row_to_event-bind_event :
      (i : ℕ) (e : ActivityEvent) (t : Text)
      → IsPlain e
      → meta_str json e ≡ some t
      → SameEvent (row_to_event json (row_of i (bind_event e t))) (record e { id = cast64 i })
  unfolding row_to_event bind_event
  row_to_event-bind_event i e t (hs, hc) h = (
    refl,
    cast64_invol e.timestamp,
    ap (λ t. string_to_event_type (c_str t)) (c_str-event_type_to_string e.type)
        ∙ ap string_to_event_type (c_str-event_type_to_string e.type)
        ∙ string_to_event_type-event_type_to_string e.type,
    ap c_str hs ∙ hs,
    ap c_str hc ∙ hc,
    read_metadata-meta_str e t h,
  )

  module _ {D : Type 0} {sqlite : Sqlite D} (table : IsTable sqlite) where
    -- Adds an event, the same up to its id, at the end of the stored ones.
    abbrev pub Adds : D → ActivityEvent → ℕ → D → Type 0
    Adds d e id d' =
        (stored : ActivityEvent) × (events json table d' ≡ events json table d ++ stored ∷ [])
        × SameEvent stored (record e { id = id })

    pub step_insert-Adds :
        (d : D) (e : ActivityEvent) (t : Text) (d' : D)
        → IsPlain e
        → meta_str json e ≡ some t
        → sqlite.step_insert d (bind_event e t) ≡ some d'
        → Adds d e (cast64 (sqlite.last_insert_rowid d')) d'
    step_insert-Adds d e t d' plain h k = (
      row_to_event json (row_of (sqlite.last_insert_rowid d') (bind_event e t)),
      ap (map (row_to_event json)) (table.rows-step_insert d (bind_event e t) d' k)
          ∙ map-append_last (row_to_event json) (table.rows d) _,
      row_to_event-bind_event (sqlite.last_insert_rowid d') e t plain h,
    )

    -- An event that is saved is found under the id that `save` returns, with all that it had but the
    -- order of its metadata, and under every other id the same is found as before. Condition: its
    -- source and its content hold no byte 0.
    pub find_by_id-save :
        (d : D) (e : ActivityEvent) (id : ℕ) (d' : D)
        → IsPlain e
        → save json sqlite d e ≡ some (id, d')
        → (found : ActivityEvent) × SameEvent found (record e { id = id })
          × ((j : ℕ)
              → find_by_id json sqlite d' j
                ≡ (if id == j then some found else find_by_id json sqlite d j))
    find_by_id-save d e id d' plain h =
        let (t, written, stepped, is_id) = save_inserts json sqlite d e id d' h in
        let (stored, grown, same) =
          subst (λ i. Adds d e i d') (sym is_id)
            (step_insert-Adds d e t d' plain written stepped) in
        let absent : count stored.id (ids (events json table d)) ≡ false =
          Distinct-last (ids (events json table d)) stored.id (
            subst (Distinct) (ap ids grown ∙ ids-append (events json table d) stored)
              (Distinct-events json table d')) in
        (
          stored,
          same,
          λ j.
              find_by_id-events json table d' j
              ∙ ap (event_with_id j) grown
              ∙ event_with_id-last (events json table d) stored j absent
              ∙ ap (λ i. if i == j then some stored else event_with_id j (events json table d))
                  same.0
              ∙ ap (λ o. if id == j then some stored else o)
                  (sym (find_by_id-events json table d j)),
        )
