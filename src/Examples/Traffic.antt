-- ===== src/Examples/Traffic.antt =====
-- The simulator and the import of files.
use text.Mathlib.Text.{◌==◌ as str_eq}
use text.Mathlib.TextEquality.{eq_iff}
use text.Mathlib.TextPositions.{eq_refl}
use transactguard.Prelude.{
  ℕ, ◌+◌, ◌≤◌, ◌<◌, ◌≡◌, refl, sym, inl, inr, Bool-cases, Bool, true, false, ◌||◌, none, some, List,
  [], ◌∷◌, String, length, pos, arith, if◌then◌else◌,
}
use transactguard.Simulator.{
  SimRun, no_tick, for_score, for_publication, StartBody, running, completed, stopped, start_with,
}
use transactguard.Simulator.Runs.{Sim, scored}
use transactguard.Simulator.Runs.Replay.{replay, started_run_completes}
use transactguard.Imports.{
  CsvRow, TransactionInput, Texts, Store, map_row_to_transaction, in_batch, missing_headers,
  required_csv_headers, max_reported_errors,
}
use transactguard.Imports.Upload.{
  Summary, CsvFile, errors_omitted, import_rows, import_row, flush_some,
  import_transactions_from_csv,
}
use transactguard.Imports.Upload.Counts.{import_accounts}
use transactguard.Imports.Upload.Again.{import_is_idempotent}

abbrev start_body : StartBody
start_body = record { transactions_per_second = none; count = some 2 }

started_run_completes_example :
    (run : SimRun) × ((start_with start_body (1 ∷ 2 ∷ []) 8 4 20).1 ≡ some run)
    × ((replay (true ∷ false ∷ []) 20 run).status ≡ completed)
    × ((replay (true ∷ false ∷ []) 20 run).scored + (replay (true ∷ false ∷ []) 20 run).failed ≡ 2)
unfolding start_with
started_run_completes_example =
    started_run_completes 20 start_body (1 ∷ 2 ∷ []) 8 4 _ (true ∷ false ∷ []) refl refl

abbrev first : SimRun
first = record {
  id = 8;
  status = running;
  tps = 5;
  total = 2;
  transaction_ids = 1 ∷ 2 ∷ [];
  cursor = 0;
  sent = 0;
  scored = 0;
  failed = 0;
  in_flight = false;
  waits = no_tick;
  timer = true;
  started_at = 20;
  finished_at = none;
  started_by = 4;
}

abbrev taken : SimRun
taken = record first { cursor = 1; sent = 1; in_flight = true; waits = for_score }

abbrev halted : SimRun
halted = record taken { status = stopped; timer = false; finished_at = some 22 }

-- Started, ticked, and stopped while the tick waits for its score, which then comes.
abbrev late : Sim
late = record {
  runs = record halted { scored = 1; waits = for_publication } ∷ [];
  active = some 0;
  starting = [];
}

-- A table that is the list of its ids.
abbrev known : String → List String → Bool
known id [] = false
known id (x ∷ xs) = str_eq id x || known id xs

abbrev insert_all : List TransactionInput → List String → ℕ × List String
insert_all [] s = (0, s)
insert_all (t ∷ ts) s =
    let (n, s') = insert_all ts s in if known t.txn_id s' then (n, s') else (n + 1, t.txn_id ∷ s')

insert_all-le : (b : List TransactionInput) (s : List String) → (insert_all b s).0 ≤ length b
insert_all-le [] s = omega arith
insert_all-le (t ∷ ts) s = ground (arith, insert_all-le ts s)

known-insert_all :
    (id : String) (b : List TransactionInput) (s : List String)
    → known id (insert_all b s).1 ≡ (known id s || in_batch id b)
known-insert_all id [] s = ground arith
known-insert_all id (t ∷ ts) s =
    let ih = known-insert_all id ts s in
    elim (Bool-cases (known t.txn_id (insert_all ts s).1)) [
      | inr new ↦ rw new (ground (arith, ih))
      | inl old ↦ elim (Bool-cases (str_eq id t.txn_id)) [
        | inl same ↦
            let e = (eq_iff id t.txn_id).0 same in
            rw (old, same) (ground (arith, ih, rw (sym e) at old))
        | inr other ↦ rw (old, other) ih
      ]
    ]

insert_all-present :
    (b : List TransactionInput) (s : List String)
    → ((id : String) → in_batch id b ≡ true → known id s ≡ true)
    → insert_all b s ≡ (0, s)
insert_all-present [] s h = refl
insert_all-present (t ∷ ts) s h =
    let ih = insert_all-present ts s (λ id m. h id (ground arith)) in
    let k = h t.txn_id (rw (eq_refl t.txn_id)) in rw ih (rw k)

abbrev shelf : Store
shelf = record {
  State = List String;
  has = known;
  create_many = insert_all;
  create_many-le = insert_all-le;
  has-create_many = known-insert_all;
  create_many-present = insert_all-present;
}

-- Texts that stand for one number each.
abbrev texts : Texts
texts = record {
  number = λ s. if str_eq s "x" then none else some (pos 100);
  whole = λ s. if str_eq s "x" then none else some 1;
  trim = λ s. s;
  to_upper_case = λ s. s;
  derive_txn_id = λ parts. "TXN";
}

abbrev csv_row : CsvRow
csv_row = record {
  step = some "1";
  type = some "PAYMENT";
  amount = some "1";
  name_orig = some "C1";
  oldbalance_org = some "1";
  newbalance_orig = some "1";
  name_dest = some "M1";
  oldbalance_dest = some "1";
  newbalance_dest = some "1";
  txn_id = none;
}

abbrev file : CsvFile
file = record {
  headers = required_csv_headers;
  rows = csv_row ∷ csv_row ∷ record csv_row { amount = some "x" } ∷ [];
  broken = false;
}

abbrev summary : Summary
summary = record { total_rows = 3; inserted = 1; skipped = 1; failed = 1; errors = 4 ∷ [] }

abbrev second_summary : Summary
second_summary = record summary { inserted = 0; skipped = 2 }

import_accounts_example :
    (0 < length file.rows)
    × (missing_headers texts.trim file.headers required_csv_headers ≡ [])
    × (file.broken ≡ false)
    × (summary.total_rows ≡ length file.rows)
    × (summary.inserted + summary.skipped + summary.failed ≡ summary.total_rows)
    × (length summary.errors + errors_omitted summary ≡ summary.failed)
    × (length summary.errors ≤ max_reported_errors)
unfolding import_transactions_from_csv missing_headers import_rows import_row flush_some
    map_row_to_transaction
import_accounts_example = import_accounts texts shelf file 4 true [] [] summary refl

import_is_idempotent_example :
    (second_summary.inserted ≡ 0)
    × ((import_transactions_from_csv texts shelf file 4 true
          (import_transactions_from_csv texts shelf file 4 true [] []).1
          []).1
        ≡ (import_transactions_from_csv texts shelf file 4 true [] []).1)
unfolding import_transactions_from_csv missing_headers import_rows import_row flush_some
    map_row_to_transaction
import_is_idempotent_example =
    import_is_idempotent texts shelf file 4 true true [] [] [] summary second_summary refl refl
