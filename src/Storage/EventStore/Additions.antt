-- ===== src/Storage/EventStore/Additions.antt =====
-- What src/core/storage/event_store.cpp adds to the stored events, whatever bytes an event has.
use mathlib.Core.List.{append_assoc, append-nil}
use mathlib.Core.Path.{subst}
use mind_trace.Base.{
  ℕ, ◌≡◌, refl, sym, ap, ◌∙◌, Bool, true, false, List, [], ◌∷◌, ◌++◌, Option, none, some, inl, inr,
  arith, if◌then◌else◌, all, all-append, and_join,
}
use mind_trace.Base.Eq.{nat_eq, text_eq_refl}
use mind_trace.Base.Text.{Text}
use mind_trace.Base.Int64.{cast64}
use mind_trace.Event.{ActivityEvent, event_type_to_string}
use mind_trace.Event.Names.{string_to_event_type-event_type_to_string}
use mind_trace.Json.{Json, IsJson}
use mind_trace.Storage.Sqlite.{Sqlite, IsTable, row_of}
use mind_trace.Storage.EventStore.{c_str, bind_event, meta_str, unless_refused, batch_loop}
use mind_trace.Storage.EventStore.Rows.{events, c_str-event_type_to_string}
use mind_trace.Storage.EventStore.Finding.{is_named}
use mind_trace.Storage.EventStore.Saving.{IsPlain, Adds, step_insert-Adds}
use mind_trace.Storage.EventStore.Transactions.{unless_thrown-elim}
use mind_trace.Storage.EventStore.Contract.{cut, IsPartOf}

c_str_idem : (s : Text) → c_str (c_str s) ≡ c_str s
unfolding c_str
c_str_idem [] = refl
c_str_idem (c ∷ s) = ground (arith, c_str_idem s)

cut-IsPlain : (e : ActivityEvent) → IsPlain (cut e)
cut-IsPlain e = (c_str_idem e.source, c_str_idem e.content)

-- The same is bound for an event and for what is kept of it.
bind_event-cut : (e : ActivityEvent) (t : Text) → bind_event (cut e) t ≡ bind_event e t
unfolding bind_event
bind_event-cut e t = cc (c_str_idem e.source, c_str_idem e.content)

bound-is_named :
    (i : ℕ) (e : ActivityEvent) (t : Text) → is_named (row_of i (bind_event e t)) ≡ true
unfolding bind_event
bound-is_named i e t =
    let named = c_str-event_type_to_string e.type in
    rw (named, named, string_to_event_type-event_type_to_string e.type)
      (text_eq_refl (event_type_to_string e.type))

IsPartOf-none : (es : List ActivityEvent) → IsPartOf [] es
IsPartOf-none [] = refl
IsPartOf-none (e ∷ es) = inl (IsPartOf-none es)

module _ {J : Type 0} (json : Json J) (laws : IsJson json) {D : Type 0} {sqlite : Sqlite D}
    (table : IsTable sqlite) where
  -- Every row has the name of an event type.
  abbrev pub IsNamed : D → Type 0
  IsNamed d = all is_named (table.rows d) ≡ true

  -- An inserted event, on the way from `d` to `d'`.
  pub step_insert-Adds-cut :
      (d : D) (e : ActivityEvent) (t : Text) (d' : D)
      → meta_str json e ≡ some t
      → sqlite.step_insert d (bind_event e t) ≡ some d'
      → Adds json laws table d (cut e) (cast64 (sqlite.last_insert_rowid d')) d'
  step_insert-Adds-cut d e t d' written h =
      step_insert-Adds json laws table d (cut e) t d' (cut-IsPlain e) written
        (ap (sqlite.step_insert d) (bind_event-cut e t) ∙ h)

  pub step_insert-cut :
      (d : D) (e : ActivityEvent) (t : Text) (d' : D)
      → meta_str json e ≡ some t
      → sqlite.step_insert d (bind_event e t) ≡ some d'
      → IsNamed d
      → Adds json laws table d (cut e) (cast64 (sqlite.last_insert_rowid d')) d' × IsNamed d'
  step_insert-cut d e t d' written h named = (
    step_insert-Adds-cut d e t d' written h,
    ap (all is_named) (table.rows-step_insert d (bind_event e t) d' h)
        ∙ all-append is_named (table.rows d) _
        ∙ and_join _ _ named (and_join _ _ (bound-is_named (sqlite.last_insert_rowid d') e t) refl),
  )

  -- The events of a part of a batch are added.
  abbrev pub Gets : D → List ActivityEvent → D → Type 0
  Gets d es d' =
      ((new : List ActivityEvent) × (events json table d' ≡ events json table d ++ new)
        × IsPartOf new es)
      × IsNamed d'

  Gets-later :
      (d : D) (e : ActivityEvent) (es : List ActivityEvent) (d' : D)
      → Gets d es d'
      → Gets d (e ∷ es) d'
  Gets-later d e es d' ((new, grown, part), named) = ((new, grown, inl part), named)

  Gets-stepped :
      (d : D) (e : ActivityEvent) (es : List ActivityEvent) (t : Text) (d1 d' : D)
      → Adds json laws table d (cut e) (cast64 (sqlite.last_insert_rowid d1)) d1
      → Gets d1 es d'
      → Gets d (e ∷ es) d'
  Gets-stepped d e es t d1 d' (c, added, same) ((new, grown, part), named) = (
    (
      c ∷ new,
      grown ∙ ap (λ l. l ++ new) added ∙ append_assoc (events json table d) (c ∷ []) new,
      inr (c, new, refl, (refl, same.1, same.2, same.3, same.4, same.5), part),
    ),
    named,
  )

  after_step-Gets :
      (prepared : Bool) (d : D) (e : ActivityEvent) (es : List ActivityEvent) (t : Text)
      (o : Option D) (d' : D)
      → meta_str json e ≡ some t
      → sqlite.step_insert d (bind_event e t) ≡ o
      → IsNamed d
      → ((d1 : D)
          → IsNamed d1
          → d1 ≡ (if prepared then unless_refused json sqlite d o else d)
          → Gets d1 es d')
      → Gets d (e ∷ es) d'
  unfolding unless_refused
  after_step-Gets false d e es t o d' w h named later = Gets-later d e es d' (later d named refl)
  after_step-Gets true d e es t none d' w h named later = Gets-later d e es d' (later d named refl)
  after_step-Gets true d e es t (some d1) d' w h named later =
      let (added, named1) = step_insert-cut d e t d1 w h named in
      Gets-stepped d e es t d1 d' added (later d1 named1 refl)

  pub batch_loop-Gets :
      (prepared : Bool) (es : List ActivityEvent) (d : D)
      → IsNamed d
      → Gets d es (batch_loop json sqlite prepared d es).0
  unfolding batch_loop
  batch_loop-Gets prepared [] d named = (([], sym (append-nil (events json table d)), refl), named)
  batch_loop-Gets prepared (e ∷ es) d named =
      unless_thrown-elim json table (λ r. Gets d (e ∷ es) r.0) (meta_str json e) _ d
        (λ _. (([], sym (append-nil (events json table d)), IsPartOf-none (e ∷ es)), named))
        (λ t w.
          after_step-Gets prepared d e es t (sqlite.step_insert d (bind_event e t)) _ w refl named
            (λ d1 named1 same.
              subst (λ x. Gets d1 es (batch_loop json sqlite prepared x es).0) same
                (batch_loop-Gets prepared es d1 named1)))
