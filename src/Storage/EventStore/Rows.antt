-- ===== src/Storage/EventStore/Rows.antt =====
-- The events of a table, src/core/storage/event_store.cpp.
use mind_trace.Base.{ℕ, ◌≡◌, refl, sym, ap, ◌∙◌, true, List, [], ◌∷◌, map, arith, ◌==◌, not, all}
use mind_trace.Base.Eq.{nat_eq}
use mind_trace.Base.Text.{Text}
use mind_trace.Base.Int64.{cast64, cast64_invol}
use mind_trace.Base.Dictionary.{Distinct, count}
use mind_trace.Event.{EventType, ActivityEvent, event_type_to_string}
use mind_trace.Json.{Json}
use mind_trace.Storage.Sqlite.{Row, Sqlite, IsTable}
use mind_trace.Storage.Listing.{ids}
use mind_trace.Storage.EventStore.{c_str, row_to_event}

cast64-injective : (a b : ℕ) → cast64 a ≡ cast64 b → a ≡ b
cast64-injective a b h = sym (cast64_invol a) ∙ ap cast64 h ∙ cast64_invol b

==_of_iff : (a b c d : ℕ) → (a ≡ b → c ≡ d) → (c ≡ d → a ≡ b) → (a == b) ≡ (c == d)
==_of_iff a b c d h k = ground arith

-- An id is compared alike before and after the cast.
pub cast64_eq : (i j : ℕ) → (i == cast64 j) ≡ (cast64 i == j)
cast64_eq i j =
    ==_of_iff i (cast64 j) (cast64 i) j (λ h. ap cast64 h ∙ cast64_invol j)
      (λ h. sym (cast64_invol i) ∙ ap cast64 h)

cast64_eq_both : (i j : ℕ) → (cast64 i == cast64 j) ≡ (i == j)
cast64_eq_both i j = ==_of_iff (cast64 i) (cast64 j) i j (cast64-injective i j) (ap cast64)

pub c_str_eq : (s : Text) → all (λ c. not (c == 0)) s ≡ true → c_str s ≡ s
unfolding c_str
c_str_eq [] h = refl
c_str_eq (c ∷ s) h = ground (arith, c_str_eq s)

pub c_str-event_type_to_string :
    (t : EventType) → c_str (event_type_to_string t) ≡ event_type_to_string t
unfolding c_str event_type_to_string
c_str-event_type_to_string EventType.file_opened = refl
c_str-event_type_to_string _ = refl

module _ {J : Type 0} (json : Json J) where
  count-ids_of_rows :
      (i : ℕ) (rs : List Row)
      → count (cast64 i) (ids (map (row_to_event json) rs)) ≡ count i (map (λ r. r.id) rs)
  unfolding row_to_event
  count-ids_of_rows i [] = refl
  count-ids_of_rows i (r ∷ rs) = ground (arith, cast64_eq_both r.id i, count-ids_of_rows i rs)

  Distinct-ids_of_rows :
      (rs : List Row) → Distinct (map (λ r. r.id) rs) → Distinct (ids (map (row_to_event json) rs))
  unfolding row_to_event
  Distinct-ids_of_rows [] d = tt
  Distinct-ids_of_rows (r ∷ rs) (h, d) = (count-ids_of_rows r.id rs ∙ h, Distinct-ids_of_rows rs d)

  module _ {D : Type 0} {sqlite : Sqlite D} (table : IsTable sqlite) where
    -- The events that a connection sees.
    abbrev pub events : D → List ActivityEvent
    events d = map (row_to_event json) (table.rows d)

    pub Distinct-events : (d : D) → Distinct (ids (events d))
    Distinct-events d = Distinct-ids_of_rows (table.rows d) (table.rows_distinct d)
