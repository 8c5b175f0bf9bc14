-- ===== src/Imports/Upload/Counts.antt =====
-- The counts of an import.
use transactguard.Prelude.{
  ℕ, suc, ◌+◌, ◌≤◌, ◌<◌, ◌≡◌, String, refl, inl, inr, Bool, false, Option, none, some, List, [],
  ◌∷◌, ◌++◌, leb, ltb, length, length-append, arith, Bool-cases, min,
}
use transactguard.Errors.{ok}
use transactguard.Schema.{AuditEntry}
use transactguard.Imports.{
  CsvRow, TransactionInput, Texts, Store, map_row_to_transaction, missing_headers,
  required_csv_headers, import_batch_size, max_reported_errors,
}
use transactguard.Imports.Upload.{
  Summary, CsvFile, empty_summary, errors_omitted, Progress, flush, flush_of, flush_some, counted,
  mapped, import_row, import_rows, finish_import, import_checked, import_found,
  import_transactions_from_csv,
}

module _ (T : Texts) (S : Store) where
  -- Every row that has been read is inserted, skipped, failed or still in the batch.
  pub record Accounted (n : ℕ) (p : Progress T S) : Type 0 where
    pub rows_are : p.summary.total_rows ≡ n
    pub split : p.summary.inserted + p.summary.skipped + p.summary.failed + length p.batch ≡ n
    pub reported : length p.summary.errors ≡ min p.summary.failed max_reported_errors

  flush-Accounted : (n : ℕ) (p : Progress T S) → Accounted n p → Accounted n (flush T S p)
  unfolding flush
  flush-Accounted n p a =
      let le = S.create_many-le p.batch p.table in
      record { rows_are = a.rows_are; split = omega (arith, a.split, le); reported = a.reported }

  flush_of-Accounted :
      (n : ℕ) (b : List TransactionInput) (p : Progress T S)
      → p.batch ≡ b
      → Accounted n p
      → Accounted n (flush_of T S b p) × ((flush_of T S b p).batch ≡ [])
  unfolding flush_of flush
  flush_of-Accounted n [] p e a = (a, e)
  flush_of-Accounted n (t ∷ ts) p e a = (flush-Accounted n p a, refl)

  mapped-Accounted :
      (n : ℕ) (o : Option TransactionInput) (p : Progress T S)
      → Accounted n p
      → Accounted (suc n) (mapped T S o (counted T S p))
  unfolding mapped
  mapped-Accounted n none p a = record {
    rows_are = omega (arith, a.rows_are);
    split = omega (arith, a.split);
    reported =
        ground
          (arith, a.reported, length-append p.summary.errors ((p.summary.total_rows + 1 + 1) ∷ []));
  }
  mapped-Accounted n (some t) p a =
      let p' : Progress T S = record (counted T S p) { batch = p.batch ++ (t ∷ []) } in
      let a' : Accounted (suc n) p' = record {
        rows_are = omega (arith, a.rows_are);
        split = omega (arith, a.split, length-append p.batch (t ∷ []));
        reported = a.reported;
      } in
      elim (Bool-cases (leb import_batch_size (length (p.batch ++ (t ∷ []))))) [
        | inl full ↦ rw full (flush-Accounted (suc n) p' a')
        | inr room ↦ rw room a'
      ]

  import_rows-Accounted :
      (user_id n m : ℕ) (rows : List CsvRow) (p : Progress T S)
      → n + length rows ≡ m
      → Accounted n p
      → Accounted m (import_rows T S user_id rows p)
  unfolding import_rows import_row
  import_rows-Accounted user_id n m [] p e a = let e' : n ≡ m = omega (arith, e) in rw e' at a
  import_rows-Accounted user_id n m (row ∷ rows) p e a =
      let b = mapped-Accounted n (map_row_to_transaction T row (some user_id)) p a in
      import_rows-Accounted user_id (suc n) m rows (import_row T S user_id row p) (omega (arith, e))
        b

  -- The state of the loop when all rows are read and the last batch is written.
  unfoldable pub imported : CsvFile → ℕ → S.State → Progress T S
  imported file user_id table = flush_some T S (
      import_rows T S user_id file.rows
        (record { summary = empty_summary; batch = []; table = table }))

  imported-Accounted :
      (file : CsvFile) (user_id : ℕ) (table : S.State)
      → Accounted (length file.rows) (imported file user_id table)
        × ((imported file user_id table).batch ≡ [])
  unfolding imported flush_some
  imported-Accounted file user_id table =
      let start : Progress T S = record { summary = empty_summary; batch = []; table = table } in
      let a : Accounted 0 start = record { rows_are = refl; split = refl; reported = refl } in
      let p = import_rows T S user_id file.rows start in
      flush_of-Accounted (length file.rows) p.batch p refl
        (import_rows-Accounted user_id 0 (length file.rows) file.rows start (omega arith) a)

  -- An import that succeeds: what it was of, and the loop that it went through.
  pub record Succeeded (file : CsvFile) (user_id : ℕ) (table : S.State) (v : Summary)
      (after : S.State) : Type 0 where
    pub some_row : 0 < length file.rows
    pub whole_header : missing_headers T.trim file.headers required_csv_headers ≡ []
    pub not_broken : file.broken ≡ false
    pub summary_is : v ≡ (imported file user_id table).summary
    pub table_is : after ≡ (imported file user_id table).table

  checked_ok :
      (file : CsvFile) (user_id : ℕ) (audit_up : Bool) (table : S.State) (log : List AuditEntry)
      (v : Summary)
      → (import_checked T S file user_id audit_up table log).0 ≡ ok v
      → (file.broken ≡ false)
        × (v ≡ (imported file user_id table).summary)
        × ((import_checked T S file user_id audit_up table log).1
            ≡ (imported file user_id table).table)
  unfolding import_checked finish_import imported
  checked_ok file user_id audit_up table log v h =
      let p = imported file user_id table in
      elim (Bool-cases file.broken) [
        | inl b ↦ absurd (let q = rw b at h in cc)
        | inr n ↦ elim (Bool-cases (ltb 0 p.summary.total_rows)) [
          | inl some' ↦ let q = rw (n, some') at h in (n, cc, rw (n, some'))
          | inr none' ↦ absurd (let q = rw (n, none') at h in cc)
        ]
      ]

  found_ok :
      (rows : List CsvRow) (missing : List String) (file : CsvFile) (user_id : ℕ) (audit_up : Bool)
      (table : S.State) (log : List AuditEntry) (v : Summary)
      → (import_found T S rows missing file user_id audit_up table log).0 ≡ ok v
      → (0 < length rows)
        × (missing ≡ [])
        × (import_found T S rows missing file user_id audit_up table log
            ≡ import_checked T S file user_id audit_up table log)
  unfolding import_found
  found_ok [] missing file user_id audit_up table log v h = absurd (cc)
  found_ok (r ∷ rs) (m ∷ ms) file user_id audit_up table log v h = absurd (cc)
  found_ok (r ∷ rs) [] file user_id audit_up table log v h = (omega arith, refl, refl)

  pub import-Succeeded :
      (file : CsvFile) (user_id : ℕ) (audit_up : Bool) (table : S.State) (log : List AuditEntry)
      (v : Summary)
      → (import_transactions_from_csv T S file user_id audit_up table log).0 ≡ ok v
      → Succeeded file user_id table v
          (import_transactions_from_csv T S file user_id audit_up table log).1
  unfolding import_transactions_from_csv
  import-Succeeded file user_id audit_up table log v h =
      let missing = missing_headers T.trim file.headers required_csv_headers in
      let (pos, good, same) = found_ok file.rows missing file user_id audit_up table log v h in
      let (b, s, t) = checked_ok file user_id audit_up table log v (rw same at h) in
      record {
        some_row = pos;
        whole_header = good;
        not_broken = b;
        summary_is = s;
        table_is = rw same t;
      }

  -- An import that succeeds is of a file with rows, with every required column, that the parser read to
  -- its end. Each row is counted once, as inserted, skipped or failed, and the lines reported and the
  -- errors omitted together are the failed ones, no more than fifty of them reported.
  pub import_accounts :
      (file : CsvFile) (user_id : ℕ) (audit_up : Bool) (table : S.State) (log : List AuditEntry)
      (v : Summary)
      → (import_transactions_from_csv T S file user_id audit_up table log).0 ≡ ok v
      → (0 < length file.rows)
        × (missing_headers T.trim file.headers required_csv_headers ≡ [])
        × (file.broken ≡ false)
        × (v.total_rows ≡ length file.rows)
        × (v.inserted + v.skipped + v.failed ≡ v.total_rows)
        × (length v.errors + errors_omitted v ≡ v.failed)
        × (length v.errors ≤ max_reported_errors)
  import_accounts file user_id audit_up table log v h =
      let s = import-Succeeded file user_id audit_up table log v h in
      let (a, empty) = imported-Accounted file user_id table in
      let e = s.summary_is in
      (
        s.some_row,
        s.whole_header,
        s.not_broken,
        rw e a.rows_are,
        rw e (let n = a.split in let z = rw empty at n in omega (arith, z, a.rows_are)),
        rw e (omega (arith, a.reported)),
        rw e (omega (arith, a.reported)),
      )
