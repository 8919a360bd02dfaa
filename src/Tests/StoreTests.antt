-- ===== src/Tests/StoreTests.antt =====
-- Theorems of Storage.EventStore and of Event.Serial at concrete inputs.

use mind_trace.Base.{
  ℕ, ◌+◌, ◌≡◌, refl, true, false, List, [], ◌∷◌, ◌++◌, some, arith, if◌then◌else◌, ◌==◌, all,
}
use mind_trace.Base.Text.{codes}
use mind_trace.Base.Int64.{i64_half, cast64}
use mind_trace.Event.{ActivityEvent, SameEvent}
use mind_trace.Event.Serial.{to_json, from_json}
use mind_trace.Event.Serial.RoundTrip.{from_json-to_json}
use mind_trace.Storage.Sqlite.{Values}
use mind_trace.Storage.EventStore.{
  c_str, bind_event, row_to_event, save, save_batch, find_by_id, find_by_time_range,
}
use mind_trace.Storage.EventStore.Rows.{events}
use mind_trace.Storage.EventStore.Finding.{is_dated, find_by_time_range_negative}
use mind_trace.Storage.EventStore.Saving.{IsPlain, find_by_id-save}
use mind_trace.Storage.EventStore.Batches.{IsCommitted, Copies, save_batch-Copies}
use mind_trace.Storage.EventStore.Transactions.{save_all, save_batch_unwritable}
use mind_trace.Storage.EventStore.Contract.{
  Call, saves, saves_batch, gets, gets_between, gets_of_type, counts, clears, Conforms,
}
use mind_trace.Storage.EventStore.{batch_loop}
use mind_trace.Storage.EventStore.Calls.{log_of}
use mind_trace.Storage.EventStore.Refinement.{log_of-Conforms}
use mind_trace.Storage.EventStore.Finding.{is_named}
use mind_trace.Event.{browser_visit, event_type_to_string, string_to_event_type}
use mind_trace.Tests.{noon, edit, visit}
use mind_trace.Tests.SampleJson.{sample_json, sample_json-IsJson, written}
use mind_trace.Tests.SampleStore.{Connection, opened, sample_sqlite, sample_table}

abbrev pub visit_values : Values
visit_values = bind_event visit (written visit.metadata)

-- The store after the visit is saved.
abbrev pub with_visit : Connection
with_visit = record opened { values = visit_values ∷ []; committed = visit_values ∷ [] }

pub saves_visit : save sample_json sample_sqlite opened visit ≡ some (1, with_visit)
unfolding save cast64
saves_visit = refl

pub visit-IsPlain : IsPlain visit
unfolding c_str
visit-IsPlain = (refl, refl)

pub edit-IsPlain : IsPlain edit
unfolding c_str
edit-IsPlain = (refl, refl)

pub visit_is_dated : all is_dated (events sample_json sample_table with_visit) ≡ true
unfolding row_to_event bind_event cast64
visit_is_dated = refl

find_by_id-save_example :
    (found : ActivityEvent) × SameEvent found (record visit { id = 1 })
    × ((j : ℕ)
        → find_by_id sample_json sample_sqlite with_visit j
          ≡ (if 1 == j then some found else find_by_id sample_json sample_sqlite opened j))
find_by_id-save_example =
    find_by_id-save sample_json sample_json-IsJson sample_table opened visit 1 with_visit
      visit-IsPlain saves_visit

find_by_time_range_negative_example :
    find_by_time_range sample_json sample_sqlite with_visit 0 (i64_half + 7) ≡ []
find_by_time_range_negative_example =
    find_by_time_range_negative sample_json sample_table with_visit visit_is_dated 0 7 (omega arith)

save_batch-Copies_example :
    let (d', returns) = save_batch sample_json sample_sqlite with_visit (edit ∷ visit ∷ []) in
    let before_commit =
      (batch_loop sample_json sample_sqlite true
        (sample_sqlite.begin_transaction with_visit)
        (edit ∷ visit ∷ [])).0 in
    (returns ≡ true)
    × ((new : List ActivityEvent) × (events sample_json sample_table d'
          ≡ events sample_json sample_table with_visit ++ new)
        × Copies new (edit ∷ visit ∷ []))
    × IsCommitted sample_table (sample_sqlite.commit before_commit) with_visit d'
save_batch-Copies_example =
    save_batch-Copies sample_json sample_json-IsJson sample_table (λ d. refl) (λ d v. (_, refl))
      with_visit (edit ∷ visit ∷ []) ((edit-IsPlain, (_, refl)), ((visit-IsPlain, (_, refl)), tt))

-- A page whose address is not written in ASCII.
abbrev foreign : ActivityEvent
foreign = record visit { metadata = (codes "url", codes "https://" ++ 252 ∷ []) ∷ [] }

save_batch_unwritable_example :
    let (d', returns) = save_batch sample_json sample_sqlite with_visit (edit ∷ foreign ∷ []) in
    (returns ≡ false)
    × (sample_table.in_transaction (save_all sample_json sample_table d' (visit ∷ [])) ≡ true)
    × (sample_table.durable (save_all sample_json sample_table d' (visit ∷ []))
        ≡ sample_table.durable with_visit)
save_batch_unwritable_example =
    save_batch_unwritable sample_json sample_table with_visit (edit ∷ foreign ∷ []) (visit ∷ [])
      refl

from_json-to_json_example :
    (read : ActivityEvent) × (from_json sample_json (to_json sample_json visit) ≡ some read)
    × SameEvent read visit
from_json-to_json_example = from_json-to_json sample_json sample_json-IsJson visit

abbrev visited : List Call
visited =
    saves edit
    ∷ saves_batch (visit ∷ foreign ∷ [])
    ∷ gets 2
    ∷ gets_between noon (noon + 60)
    ∷ gets_of_type browser_visit
    ∷ counts
    ∷ clears
    ∷ gets 2
    ∷ []

with_visit_named : all is_named (sample_table.rows with_visit) ≡ true
unfolding bind_event c_str event_type_to_string string_to_event_type
with_visit_named = refl

log_of-Conforms_example :
    Conforms
      (events sample_json sample_table with_visit)
      (log_of sample_json sample_sqlite with_visit visited)
log_of-Conforms_example =
    log_of-Conforms sample_json sample_json-IsJson sample_table (λ d. (_, refl)) visited with_visit
      with_visit_named
