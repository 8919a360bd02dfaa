-- ===== src/Storage/EventStore/Transactions.antt =====
-- Transactions in src/core/storage/event_store.cpp: what `save_batch` makes durable, and what an
-- exception in it leaves behind.
use mind_trace.Base.{
  ℕ, ◌≡◌, refl, ◌∙◌, Bool, true, false, ◌||◌, List, [], ◌∷◌, Option, none, some, if◌then◌else◌, any,
}
use mind_trace.Base.Text.{Text}
use mind_trace.Event.{ActivityEvent}
use mind_trace.Json.{Json}
use mind_trace.Storage.Sqlite.{Sqlite, Values, IsTable}
use mind_trace.Storage.EventStore.{
  bind_event, meta_str, save, unless_refused, unless_thrown, batch_loop, end_batch, save_batch,
}
use mind_trace.Storage.EventStore.Saving.{save_inserts}

abbrev pub is_none {ℓ} : {A : Type ℓ} → Option A → Bool
is_none none = true
is_none (some a) = false

module _ {J : Type 0} (json : Json J) where
  -- The library refuses to write the metadata of an event.
  abbrev pub is_unwritable : ActivityEvent → Bool
  is_unwritable e = is_none (meta_str json e)

  module _ {D : Type 0} {sqlite : Sqlite D} (table : IsTable sqlite) where
    -- Leaves the transaction open and the durable rows as they are.
    abbrev pub Pending : D → D → Type 0
    Pending d d' = (table.in_transaction d' ≡ true) × (table.durable d' ≡ table.durable d)

    step_insert-Pending :
        (d : D) (v : Values) (d' : D)
        → table.in_transaction d ≡ true
        → sqlite.step_insert d v ≡ some d'
        → Pending d d'
    step_insert-Pending d v d' open_before h =
        let (kept, durable) = table.transaction-step_insert d v d' h in
        (kept ∙ open_before, durable ∙ rw open_before refl)

    stepped-Pending :
        (prepared : Bool) (d : D) (v : Values) (o : Option D)
        → table.in_transaction d ≡ true
        → sqlite.step_insert d v ≡ o
        → Pending d (if prepared then unless_refused json sqlite d o else d)
    unfolding unless_refused
    stepped-Pending false d v o open_before h = (open_before, refl)
    stepped-Pending true d v none open_before h = (open_before, refl)
    stepped-Pending true d v (some d') open_before h = step_insert-Pending d v d' open_before h

    pub unless_thrown-elim :
        (P : D × Bool → Type 0) (o : Option Text) (rest : Text → D × Bool) (d : D)
        → (o ≡ none → P (d, false))
        → ((t : Text) → o ≡ some t → P (rest t))
        → P (unless_thrown json sqlite o rest d)
    unfolding unless_thrown
    unless_thrown-elim P none rest d h k = h refl
    unless_thrown-elim P (some t) rest d h k = k t refl

    pub batch_loop-Pending :
        (prepared : Bool) (es : List ActivityEvent) (d : D)
        → table.in_transaction d ≡ true
        → Pending d (batch_loop json sqlite prepared d es).0
    unfolding batch_loop
    batch_loop-Pending prepared [] d h = (h, refl)
    batch_loop-Pending prepared (e ∷ es) d h =
        unless_thrown-elim (λ r. Pending d r.0) (meta_str json e) _ d (λ _. (h, refl))
          (λ t _.
            let next = stepped-Pending prepared d (bind_event e t) _ h refl in
            let (kept, same) = batch_loop-Pending prepared es _ next.0 in (kept, same ∙ next.1))

    batch_loop_unwritable :
        (prepared : Bool) (es : List ActivityEvent) (d : D)
        → any is_unwritable es ≡ true
        → (batch_loop json sqlite prepared d es).1 ≡ false
    unfolding batch_loop
    batch_loop_unwritable prepared [] d h = cc
    batch_loop_unwritable prepared (e ∷ es) d h =
        unless_thrown-elim (λ r. r.1 ≡ false) (meta_str json e) _ d (λ _. refl)
          (λ t written.
            batch_loop_unwritable prepared es _ (later_unwritable (meta_str json e) t written es h))
      where
        later_unwritable :
            (o : Option Text) (t : Text)
            → o ≡ some t
            → (es : List ActivityEvent) → (is_none o || any is_unwritable es) ≡ true
            → any is_unwritable es ≡ true
        later_unwritable none t h es k = cc
        later_unwritable (some u) t h es k = k

    -- Events that are saved one by one, whatever becomes of each.
    after_save : D → Option (ℕ × D) → D
    after_save d none = d
    after_save d (some (id, d')) = d'

    unfoldable pub save_all : D → List ActivityEvent → D
    unfolding after_save
    save_all d [] = d
    save_all d (e ∷ es) = save_all (after_save d (save json sqlite d e)) es

    after_save-Pending :
        (d : D) (e : ActivityEvent) (o : Option (ℕ × D))
        → table.in_transaction d ≡ true
        → save json sqlite d e ≡ o
        → Pending d (after_save d o)
    unfolding after_save
    after_save-Pending d e none h k = (h, refl)
    after_save-Pending d e (some (id, d')) h k =
        let (t, _, stepped_to, _) = save_inserts json sqlite d e id d' k in
        step_insert-Pending d (bind_event e t) d' h stepped_to

    save_all-Pending :
        (es : List ActivityEvent) (d : D)
        → table.in_transaction d ≡ true
        → Pending d (save_all d es)
    unfolding save_all
    save_all-Pending [] d h = (h, refl)
    save_all-Pending (e ∷ es) d h =
        let next = after_save-Pending d e (save json sqlite d e) h refl in
        let (kept, same) = save_all-Pending es _ next.0 in (kept, same ∙ next.1)

    end_batch-thrown : (r : D × Bool) → r.1 ≡ false → end_batch json sqlite r ≡ r
    unfolding end_batch
    end_batch-thrown (d, true) h = cc
    end_batch-thrown (d, false) h = refl

    -- When the library refuses to write the metadata of an event of a batch, `save_batch` throws and
    -- leaves its transaction open: no event of the batch is durable, and none of those that are saved
    -- one by one afterwards, however many.
    pub save_batch_unwritable :
        (d : D) (batch later : List ActivityEvent)
        → any is_unwritable batch ≡ true
        → let (d', returns) = save_batch json sqlite d batch in
          (returns ≡ false)
          × (table.in_transaction (save_all d' later) ≡ true)
          × (table.durable (save_all d' later) ≡ table.durable d)
    unfolding save_batch
    save_batch_unwritable d batch later h =
        let begun = sqlite.begin_transaction d in
        let prepared = sqlite.prepares_insert begun in
        let r = batch_loop json sqlite prepared begun batch in
        let thrown : r.1 ≡ false = batch_loop_unwritable prepared batch begun h in
        let (_, same_begun, open_begun) = table.begin_lem d in
        let (open_after, same_after) = batch_loop-Pending prepared batch begun open_begun in
        let (kept, same) = save_all-Pending later r.0 open_after in
        rw (end_batch-thrown r thrown) (thrown, kept, same ∙ (same_after ∙ same_begun))
