-- ===== src/Tests/SampleStore.antt =====
-- A model of SQLite that has its documented behaviour: the rows are the values inserted so far, numbered
-- from 1 on, beside those of the last commit.

use mind_trace.Base.{
  ℕ, suc, ◌+◌, ◌<◌, ◌≡◌, refl, ap, ◌∙◌, Bool, true, false, List, [], ◌∷◌, ◌++◌, map, some, arith,
  if◌then◌else◌, ◌==◌, keep, length,
}
use mind_trace.Base.Eq.{nat_eq}
use mind_trace.Base.Sort.{insertion_sort, insertion_sort-perm, insertion_sort-Sorted, IsStrictWeak}
use mind_trace.Base.Dictionary.{count, Distinct}
use mind_trace.Base.Int64.{i64_half, cast64}
use mind_trace.Storage.Sqlite.{Values, Row, Sqlite, IsTable, row_of, earlier_row, in_range, is_text}

pub record Connection : Type 0 where
  pub values : List Values
  pub committed : List Values
  pub in_transaction : Bool

abbrev numbered : ℕ → List Values → List Row
numbered k [] = []
numbered k (v ∷ vs) = row_of (i64_half + k) v ∷ numbered (suc k) vs

abbrev inserted : Connection → Values → Connection
inserted d v = record d {
  values = d.values ++ v ∷ [];
  committed = if d.in_transaction then d.committed else d.values ++ v ∷ [];
}

abbrev cleared : Connection → Connection
cleared d = record d { values = []; committed = if d.in_transaction then d.committed else [] }

abbrev answer : Connection → (Row → Bool) → List Row
answer d test = insertion_sort earlier_row (keep test (numbered 1 d.values))

abbrev pub opened : Connection
opened = record { values = []; committed = []; in_transaction = false }

abbrev pub sample_sqlite : Sqlite Connection
sample_sqlite = record {
  open_database = λ path. some opened;
  create_schema = λ d. some d;
  prepares_insert = λ d. true;
  step_insert = λ d v. some (inserted d v);
  last_insert_rowid = λ d. i64_half + length d.values;
  begin_transaction = λ d. record d { in_transaction = true };
  commit = λ d. some (record d { committed = d.values; in_transaction = false });
  select_id = λ d i. keep (λ r. r.id == i) (numbered 1 d.values);
  select_time = λ d start end. answer d (in_range start end);
  select_type = λ d t. answer d (λ r. is_text r.type t);
  select_like = λ d t. [];
  select_count = λ d. cast64 (length (numbered 1 d.values)) ∷ [];
  delete_events = λ d. some (cleared d);
}

pub earlier_row-IsStrictWeak : IsStrictWeak earlier_row
earlier_row-IsStrictWeak = record {
  asym = λ a b h. ground arith;
  negative_trans = λ a b c h k. ground arith;
}

numbered-last :
    (k : ℕ) (vs : List Values) (v : Values)
    → numbered (suc k) (vs ++ v ∷ [])
      ≡ numbered (suc k) vs ++ row_of (i64_half + (k + length (vs ++ v ∷ []))) v ∷ []
numbered-last k [] v = ap (λ i. row_of (i64_half + i) v ∷ []) (omega arith)
numbered-last k (u ∷ vs) v = ap (◌∷◌ (row_of (i64_half + suc k) u)) (
    numbered-last (suc k) vs v
    ∙ ap (λ i. numbered (suc (suc k)) vs ++ row_of (i64_half + i) v ∷ []) (omega arith))

absent_below :
    (j k : ℕ) (vs : List Values)
    → j < k
    → count (i64_half + j) (map (λ r. r.id) (numbered k vs)) ≡ false
absent_below j k [] h = refl
absent_below j k (v ∷ vs) h = ground (arith, absent_below j (suc k) vs (omega (arith, h)))

pub numbered-Distinct : (k : ℕ) (vs : List Values) → Distinct (map (λ r. r.id) (numbered k vs))
numbered-Distinct k [] = tt
numbered-Distinct k (v ∷ vs) =
    (absent_below k (suc k) vs (omega arith), numbered-Distinct (suc k) vs)

numbered_if :
    (b : Bool) (vs us : List Values)
    → numbered 1 (if b then vs else us) ≡ (if b then numbered 1 vs else numbered 1 us)
numbered_if true vs us = refl
numbered_if false vs us = refl

of_some {ℓ} : {A : Type ℓ} (x y : A) → some x ≡ some y → x ≡ y
of_some x y h = cc

pub rows-inserted :
    (d : Connection) (v : Values) (d' : Connection)
    → some (inserted d v) ≡ some d'
    → numbered 1 d'.values ≡ numbered 1 d.values ++ row_of (i64_half + length d'.values) v ∷ []
rows-inserted d v d' h = rw (← of_some _ _ h) (
    numbered-last 0 d.values v
    ∙ ap (λ i. numbered 1 d.values ++ row_of (i64_half + i) v ∷ []) (omega arith))

pub transaction-inserted :
    (d : Connection) (v : Values) (d' : Connection)
    → some (inserted d v) ≡ some d'
    → (d'.in_transaction ≡ d.in_transaction)
      × (numbered 1 d'.committed
          ≡ (if d.in_transaction then numbered 1 d.committed else numbered 1 d'.values))
transaction-inserted d v d' h =
    rw (← of_some _ _ h) (refl, numbered_if d.in_transaction d.committed (d.values ++ v ∷ []))

pub rows-committed :
    (d d' : Connection)
    → some (record d { committed = d.values; in_transaction = false }) ≡ some d'
    → (numbered 1 d'.values ≡ numbered 1 d.values)
      × (numbered 1 d'.committed ≡ numbered 1 d.values)
      × (d'.in_transaction ≡ false)
rows-committed d d' h = rw (← of_some _ _ h) (refl, refl, refl)

pub rows-cleared : (d d' : Connection) → some (cleared d) ≡ some d' → numbered 1 d'.values ≡ []
rows-cleared d d' h = rw (← of_some _ _ h) refl

abbrev pub sample_table : IsTable sample_sqlite
sample_table = record {
  rows = λ d. numbered 1 d.values;
  durable = λ d. numbered 1 d.committed;
  in_transaction = λ d. d.in_transaction;
  rows-step_insert = rows-inserted;
  rows_distinct = λ d. numbered-Distinct 1 d.values;
  transaction-step_insert = transaction-inserted;
  begin_lem = λ d. (refl, refl, refl);
  commit_lem = λ d d' h. rows-committed d d' h;
  select_id-rows = λ d i. refl;
  select_time-rows = λ d start end. (
    insertion_sort-perm earlier_row _,
    insertion_sort-Sorted earlier_row earlier_row-IsStrictWeak _,
  );
  select_type-rows = λ d t. (
    insertion_sort-perm earlier_row _,
    insertion_sort-Sorted earlier_row earlier_row-IsStrictWeak _,
  );
  select_count-rows = λ d. refl;
  delete_lem = λ d d' h. rows-cleared d d' h;
}
