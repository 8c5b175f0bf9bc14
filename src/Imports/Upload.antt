-- ===== src/Imports/Upload.antt =====
-- The loop of `importTransactionsFromCsv`: rows are mapped one by one and written in batches.
pub mod Counts
pub mod Again
use transactguard.Prelude.{
  ℕ, suc, ◌+◌, ◌-◌, String, Bool, true, false, Option, none, some, List, [], ◌∷◌, ◌++◌, leb, ltb,
  if◌then◌else◌, length,
}
use transactguard.Errors.{ApiError, Result, ok, throw}
use transactguard.Errors.Raise
use transactguard.Schema.{Action, AuditEntry, record_audit}
use transactguard.Imports.{
  CsvRow, TransactionInput, Texts, Store, map_row_to_transaction, missing_headers,
  required_csv_headers, import_batch_size, max_reported_errors,
}

-- `summary`; `errors` are the numbers of the lines that are reported.
pub record Summary : Type 0 where
  pub total_rows : ℕ
  pub inserted : ℕ
  pub skipped : ℕ
  pub failed : ℕ
  pub errors : List ℕ

-- What the parser delivers: the header, the rows, and whether it breaks off after them.
pub record CsvFile : Type 0 where
  pub headers : List String
  pub rows : List CsvRow
  pub broken : Bool

abbrev pub empty_summary : Summary
empty_summary = record { total_rows = 0; inserted = 0; skipped = 0; failed = 0; errors = [] }

-- `errorsOmitted`
abbrev pub errors_omitted : Summary → ℕ
errors_omitted s = s.failed - max_reported_errors

-- A row that cannot be mapped; the header is line 1.
abbrev pub failed_row : Summary → Summary
failed_row s = record s {
  failed = s.failed + 1;
  errors =
      if ltb (length s.errors) max_reported_errors
      then s.errors ++ ((s.total_rows + 1) ∷ [])
      else s.errors;
}

module _ (T : Texts) (S : Store) where
  -- The variables of the loop, and the table.
  pub record Progress : Type 0 where
    pub summary : Summary
    pub batch : List TransactionInput
    pub table : S.State

  -- `flush`
  unfoldable pub flush : Progress → Progress
  flush p =
      let (count, table) = S.create_many p.batch p.table in
      record {
        summary = record p.summary {
          inserted = p.summary.inserted + count;
          skipped = p.summary.skipped + (length p.batch - count);
        };
        batch = [];
        table = table;
      }

  -- `if (batch.length === 0) return`
  flush_of : List TransactionInput → Progress → Progress
  unfolding flush
  flush_of [] p = p
  flush_of (t ∷ ts) p = flush p

  unfoldable pub flush_some : Progress → Progress
  unfolding flush_of
  flush_some p = flush_of p.batch p

  abbrev pub counted : Progress → Progress
  counted p = record p { summary = record p.summary { total_rows = p.summary.total_rows + 1 } }

  mapped : Option TransactionInput → Progress → Progress
  unfolding flush
  mapped none p = record p { summary = failed_row p.summary }
  mapped (some t) p =
      let p' : Progress = record p { batch = p.batch ++ (t ∷ []) } in
      if leb import_batch_size (length p'.batch) then flush p' else p'

  -- The body of the loop.
  unfoldable pub import_row : ℕ → CsvRow → Progress → Progress
  unfolding mapped
  import_row user_id row p = mapped (map_row_to_transaction T row (some user_id)) (counted p)

  unfoldable pub import_rows : ℕ → List CsvRow → Progress → Progress
  import_rows user_id [] p = p
  import_rows user_id (row ∷ rows) p = import_rows user_id rows (import_row user_id row p)

  -- The end of the import, and the audit entry with it.
  finish_import : ℕ → Bool → Progress → List AuditEntry → Result Summary × S.State × List AuditEntry
  finish_import user_id audit_up p log =
      if ltb 0 p.summary.total_rows
      then (
        ok p.summary,
        p.table,
        record_audit audit_up
            (record {
              user_id = some user_id;
              action =
                  Action.transaction_uploaded p.summary.total_rows p.summary.inserted
                    p.summary.skipped p.summary.failed;
              resource_id = none;
            })
            log,
      )
      else (throw Raise.bad_request, p.table, log)

  -- The rows, under a header that has every column.
  import_checked :
      CsvFile → ℕ → Bool → S.State → List AuditEntry → Result Summary × S.State × List AuditEntry
  unfolding finish_import
  import_checked file user_id audit_up table log =
      let start : Progress = record { summary = empty_summary; batch = []; table = table } in
      let p = import_rows user_id file.rows start in
      if file.broken
      then (throw Raise.bad_request, p.table, log)
      else finish_import user_id audit_up (flush_some p) log

  -- The header is looked at when the first row comes.
  import_found :
      List CsvRow
      → List String
      → CsvFile
      → ℕ
      → Bool
      → S.State
      → List AuditEntry
      → Result Summary × S.State × List AuditEntry
  unfolding import_checked
  import_found [] missing file user_id audit_up table log = (throw Raise.bad_request, table, log)
  import_found (r ∷ rs) (m ∷ ms) file user_id audit_up table log =
      (throw Raise.bad_request, table, log)
  import_found (r ∷ rs) [] file user_id audit_up table log =
      import_checked file user_id audit_up table log

  -- `importTransactionsFromCsv`
  unfoldable pub import_transactions_from_csv :
      CsvFile → ℕ → Bool → S.State → List AuditEntry → Result Summary × S.State × List AuditEntry
  unfolding import_found
  import_transactions_from_csv file user_id audit_up table log =
      import_found file.rows (missing_headers T.trim file.headers required_csv_headers) file user_id
        audit_up table log
