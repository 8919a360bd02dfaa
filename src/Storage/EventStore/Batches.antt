-- ===== src/Storage/EventStore/Batches.antt =====
-- What `save_batch` of src/core/storage/event_store.cpp stores when no insertion fails.
use mathlib.Core.List.{append_assoc, append-nil}
use mind_trace.Base.{
  ℕ, ◌≡◌, refl, sym, ap, ◌∙◌, Bool, true, false, List, [], ◌∷◌, ◌++◌, map, Option, none, some, All,
}
use mind_trace.Base.Text.{Text}
use mind_trace.Event.{SameEvent, ActivityEvent}
use mind_trace.Json.{Json, IsJson}
use mind_trace.Storage.Sqlite.{Sqlite, Values, IsTable}
use mind_trace.Storage.EventStore.{
  row_to_event, bind_event, meta_str, unless_refused, unless_thrown, batch_loop, end_batch,
  save_batch,
}
use mind_trace.Storage.EventStore.Transactions.{Pending, batch_loop-Pending}
use mind_trace.Storage.EventStore.Rows.{events}
use mind_trace.Storage.EventStore.Saving.{IsPlain, step_insert-Adds}

-- The events of the first list are those of the second, each with an id of its own.
abbrev pub Copies : List ActivityEvent → List ActivityEvent → Type 0
Copies [] [] = Unit
Copies [] (e ∷ es) = ⊥
Copies (c ∷ cs) [] = ⊥
Copies (c ∷ cs) (e ∷ es) = SameEvent c (record e { id = c.id }) × Copies cs es

-- An event that can be stored: its texts are plain, and its metadata are written.
abbrev pub IsStorable : {J : Type 0} → Json J → ActivityEvent → Type 0
IsStorable json e = IsPlain e × ((t : Text) × (meta_str json e ≡ some t))

module _ {D : Type 0} {sqlite : Sqlite D} (table : IsTable sqlite) where
  -- After a `COMMIT` that is done all is durable; after one that is refused no more than before, and the
  -- transaction is still open.
  abbrev pub IsCommitted : Option D → D → D → Type 0
  IsCommitted none d d' = (table.durable d' ≡ table.durable d) × (table.in_transaction d' ≡ true)
  IsCommitted (some c) d d' = (table.durable d' ≡ table.rows d') × (table.in_transaction d' ≡ false)

module _ {J : Type 0} (json : Json J) (laws : IsJson json) {D : Type 0} {sqlite : Sqlite D}
    (table : IsTable sqlite) (prepares : (d : D) → sqlite.prepares_insert d ≡ true)
    (inserts : (d : D) (v : Values) → (d' : D) × (sqlite.step_insert d v ≡ some d')) where
  Copies_same :
      (c e : ActivityEvent) (i : ℕ)
      → SameEvent c (record e { id = i })
      → SameEvent c (record e { id = c.id })
  Copies_same c e i (_, b, c', d, f, g) = (refl, b, c', d, f, g)

  -- The events `d` has got on the way to `d'` are copies.
  abbrev Grows : D → List ActivityEvent → D × Bool → Type 0
  Grows d es r =
      (new : List ActivityEvent) × (events json table r.0 ≡ events json table d ++ new)
      × Copies new es
      × (r.1 ≡ true)

  batch_loop-Grows :
      (es : List ActivityEvent) (d : D)
      → All (IsStorable json) es
      → Grows d es (batch_loop json sqlite true d es)
  unfolding batch_loop
  batch_loop-Grows [] d h = ([], sym (append-nil (events json table d)), tt, refl)
  batch_loop-Grows (e ∷ es) d ((plain, (t, written)), storable) =
      let (d', k) = inserts d (bind_event e t) in
      let (stored, grown, same) = step_insert-Adds json laws table d e t d' plain written k in
      let (new, grown_more, copies, returns) = batch_loop-Grows es d' storable in
      rw (written, unless_thrown)
        (rw (k, unless_refused)
          (
            stored ∷ new,
            grown_more
                ∙ ap (λ l. l ++ new) grown
                ∙ append_assoc (events json table d) (stored ∷ []) new,
            (Copies_same stored e _ same, copies),
            returns,
          ))

  end_batch-returned :
      (r : D × Bool)
      → r.1 ≡ true
      → end_batch json sqlite r ≡ (unless_refused json sqlite r.0 (sqlite.commit r.0), true)
  unfolding end_batch
  end_batch-returned (d, true) h = refl
  end_batch-returned (d, false) h = cc

  ended :
      (d begun : D) (o : Option D)
      → sqlite.commit begun ≡ o
      → Pending json table d begun
      → let d' = unless_refused json sqlite begun o in
        (table.rows d' ≡ table.rows begun) × IsCommitted table o d d'
  unfolding unless_refused
  ended d begun none h (open_still, same) = (refl, (same, open_still))
  ended d begun (some d') h pending =
      let (committed, durable, closed) = table.commit_lem begun d' h in
      (committed, (durable ∙ sym committed, closed))

  -- `save_batch` returns, and a batch of storable events is stored whole and in its order, at the end of
  -- what was stored before. When the `COMMIT` is done, all that is stored is durable; when it is refused,
  -- `save_batch` returns all the same, but nothing of the batch is durable and the transaction stays
  -- open. Conditions: the insertion is prepared and never fails.
  pub save_batch-Copies :
      (d : D) (batch : List ActivityEvent)
      → All (IsStorable json) batch
      → let (d', returns) = save_batch json sqlite d batch in
        let before_commit = (batch_loop json sqlite true (sqlite.begin_transaction d) batch).0 in
        (returns ≡ true)
        × ((new : List ActivityEvent) × (events json table d' ≡ events json table d ++ new)
            × Copies new batch)
        × IsCommitted table (sqlite.commit before_commit) d d'
  unfolding save_batch
  save_batch-Copies d batch h =
      let begun = sqlite.begin_transaction d in
      let (same, same_durable, opened) = table.begin_lem d in
      let (new, grown, copies, returns) = batch_loop-Grows batch begun h in
      let r = batch_loop json sqlite true begun batch in
      let (still_open, undurable) = batch_loop-Pending json table true batch begun opened in
      let (kept, committed) =
        ended d r.0 (sqlite.commit r.0) refl (still_open, undurable ∙ same_durable) in
      rw (prepares begun, end_batch-returned r returns)
        (
          refl,
          (
            new,
            ap (map (row_to_event json)) kept
                ∙ grown
                ∙ ap (λ rs. map (row_to_event json) rs ++ new) same,
            copies,
          ),
          committed,
        )
