-- ===== src/Imports/Upload/Again.antt =====
-- The same file again.
use transactguard.Prelude.{
  ℕ, ◌≡◌, refl, ap, inl, inr, ◌∙◌, String, Bool, true, false, ◌||◌, Option, none, some, List, [],
  ◌∷◌, ◌++◌, leb, length, arith, Bool-cases,
}
use transactguard.Errors.{ok}
use transactguard.Schema.{AuditEntry}
use transactguard.Imports.{
  CsvRow, TransactionInput, Texts, Store, in_batch, map_row_to_transaction, import_batch_size,
}
use transactguard.Imports.Upload.{
  Summary, CsvFile, empty_summary, Progress, flush, flush_of, flush_some, counted, mapped,
  import_row, import_rows, import_transactions_from_csv,
}
use transactguard.Imports.Upload.Counts.{imported, import-Succeeded}

in_batch-append :
    (id : String) (a b : List TransactionInput)
    → in_batch id (a ++ b) ≡ (in_batch id a || in_batch id b)
in_batch-append id [] b = refl
in_batch-append id (x ∷ a) b = ground (arith, in_batch-append id a b)

abbrev of_row : String → Option TransactionInput → Bool
of_row id none = false
of_row id (some t) = in_batch id (t ∷ [])

-- Does one of the rows map to this id?
abbrev of_rows : Texts → ℕ → String → List CsvRow → Bool
of_rows T user_id id [] = false
of_rows T user_id id (row ∷ rows) =
    of_row id (map_row_to_transaction T row (some user_id)) || of_rows T user_id id rows

or_false : (b : Bool) → b ≡ (b || false)
or_false b = ground arith

or_assoc : (a b c : Bool) → ((a || b) || c) ≡ (a || (b || c))
or_assoc a b c = ground arith

module _ (T : Texts) (S : Store) where
  -- The id is in the table already or waits in the batch.
  abbrev holds : String → Progress T S → Bool
  holds id p = S.has id p.table || in_batch id p.batch

  holds-flush : (id : String) (p : Progress T S) → holds id (flush T S p) ≡ holds id p
  unfolding flush
  holds-flush id p = ground (arith, S.has-create_many id p.batch p.table)

  holds-flush_of :
      (id : String) (b : List TransactionInput) (p : Progress T S)
      → p.batch ≡ b
      → S.has id (flush_of T S b p).table ≡ holds id p
  unfolding flush_of flush
  holds-flush_of id [] p e = rw e (ground arith)
  holds-flush_of id (t ∷ ts) p e = S.has-create_many id p.batch p.table

  holds-mapped :
      (id : String) (o : Option TransactionInput) (p : Progress T S)
      → holds id (mapped T S o (counted T S p)) ≡ (holds id p || of_row id o)
  unfolding mapped
  holds-mapped id none p = ground arith
  holds-mapped id (some t) p =
      let p' : Progress T S = record (counted T S p) { batch = p.batch ++ (t ∷ []) } in
      let a = in_batch-append id p.batch (t ∷ []) in
      elim (Bool-cases (leb import_batch_size (length (p.batch ++ (t ∷ []))))) [
        | inl full ↦ rw full (holds-flush id p' ∙ ground (arith, a))
        | inr room ↦ rw room (ground (arith, a))
      ]

  holds-import_row :
      (id : String) (user_id : ℕ) (row : CsvRow) (p : Progress T S)
      → holds id (import_row T S user_id row p)
        ≡ (holds id p || of_row id (map_row_to_transaction T row (some user_id)))
  unfolding import_row
  holds-import_row id user_id row p =
      holds-mapped id (map_row_to_transaction T row (some user_id)) p

  holds-import_rows :
      (id : String) (user_id : ℕ) (rows : List CsvRow) (p : Progress T S)
      → holds id (import_rows T S user_id rows p) ≡ (holds id p || of_rows T user_id id rows)
  unfolding import_rows
  holds-import_rows id user_id [] p = or_false (holds id p)
  holds-import_rows id user_id (row ∷ rows) p =
      let o = of_row id (map_row_to_transaction T row (some user_id)) in
      holds-import_rows id user_id rows (import_row T S user_id row p)
      ∙ ap (λ b. b || of_rows T user_id id rows) (holds-import_row id user_id row p)
      ∙ or_assoc (holds id p) o (of_rows T user_id id rows)

  -- An import has every id of its rows in the table afterwards.
  imported_has :
      (file : CsvFile) (user_id : ℕ) (table : S.State) (id : String)
      → of_rows T user_id id file.rows ≡ true
      → S.has id (imported T S file user_id table).table ≡ true
  unfolding imported flush_some
  imported_has file user_id table id h =
      let start : Progress T S = record { summary = empty_summary; batch = []; table = table } in
      let p = import_rows T S user_id file.rows start in
      let a = holds-flush_of id p.batch p refl in
      let b = holds-import_rows id user_id file.rows start in ground (arith, a, b)

  -- Nothing is new: the table has every id in the batch.
  record Stale (table : S.State) (p : Progress T S) : Type 0 where
    table_is : p.table ≡ table
    none_inserted : p.summary.inserted ≡ 0
    present : (id : String) → in_batch id p.batch ≡ true → S.has id table ≡ true

  flush-Stale : (table : S.State) (p : Progress T S) → Stale table p → Stale table (flush T S p)
  unfolding flush
  flush-Stale table p h =
      let q = S.create_many-present p.batch p.table (λ id m. rw h.table_is (h.present id m)) in
      record {
        table_is = rw q h.table_is;
        none_inserted = rw q (omega (arith, h.none_inserted));
        present = λ id m. absurd (cc);
      }

  flush_of-Stale :
      (table : S.State) (b : List TransactionInput) (p : Progress T S)
      → Stale table p
      → Stale table (flush_of T S b p)
  unfolding flush_of
  flush_of-Stale table [] p h = h
  flush_of-Stale table (t ∷ ts) p h = flush-Stale table p h

  mapped-Stale :
      (table : S.State) (o : Option TransactionInput) (p : Progress T S)
      → Stale table p
      → ((id : String) → of_row id o ≡ true → S.has id table ≡ true)
      → Stale table (mapped T S o (counted T S p))
  unfolding mapped
  mapped-Stale table none p h m = record {
    table_is = h.table_is;
    none_inserted = h.none_inserted;
    present = h.present;
  }
  mapped-Stale table (some t) p h m =
      let p' : Progress T S = record (counted T S p) { batch = p.batch ++ (t ∷ []) } in
      let h' : Stale table p' = record {
        table_is = h.table_is;
        none_inserted = h.none_inserted;
        present = λ id e.
            let a = in_batch-append id p.batch (t ∷ []) in
            elim (Bool-cases (in_batch id p.batch)) [
              | inl i ↦ h.present id i
              | inr n ↦ m id (ground (arith, a))
            ];
      } in
      elim (Bool-cases (leb import_batch_size (length (p.batch ++ (t ∷ []))))) [
        | inl full ↦ rw full (flush-Stale table p' h')
        | inr room ↦ rw room h'
      ]

  import_rows-Stale :
      (table : S.State) (user_id : ℕ) (rows : List CsvRow) (p : Progress T S)
      → Stale table p
      → ((id : String) → of_rows T user_id id rows ≡ true → S.has id table ≡ true)
      → Stale table (import_rows T S user_id rows p)
  unfolding import_rows import_row
  import_rows-Stale table user_id [] p h m = h
  import_rows-Stale table user_id (row ∷ rows) p h m =
      let o = map_row_to_transaction T row (some user_id) in
      import_rows-Stale table user_id rows (import_row T S user_id row p)
        (mapped-Stale table o p h (λ id e. m id (rw e))) (λ id e. m id (ground (arith, e)))

  -- Importing a file twice is importing it once: when the first import succeeds, the second inserts no
  -- row and leaves the table as it is.
  pub import_is_idempotent :
      (file : CsvFile) (user_id : ℕ) (audit_up audit_up' : Bool) (table : S.State)
      (log log' : List AuditEntry) (v v' : Summary)
      → (import_transactions_from_csv T S file user_id audit_up table log).0 ≡ ok v
      → (import_transactions_from_csv T S file user_id audit_up'
          (import_transactions_from_csv T S file user_id audit_up table log).1
          log').0
        ≡ ok v'
      → (v'.inserted ≡ 0)
        × ((import_transactions_from_csv T S file user_id audit_up'
              (import_transactions_from_csv T S file user_id audit_up table log).1
              log').1
            ≡ (import_transactions_from_csv T S file user_id audit_up table log).1)
  unfolding imported flush_some
  import_is_idempotent file user_id audit_up audit_up' table log log' v v' h h' =
      let once = (import_transactions_from_csv T S file user_id audit_up table log).1 in
      let a = import-Succeeded T S file user_id audit_up table log v h in
      let b = import-Succeeded T S file user_id audit_up' once log' v' h' in
      let start : Progress T S = record { summary = empty_summary; batch = []; table = once } in
      let fresh : Stale once start = record {
        table_is = refl;
        none_inserted = refl;
        present = λ id m. absurd (cc);
      } in
      let p = import_rows T S user_id file.rows start in
      let st = flush_of-Stale once p.batch p (
        import_rows-Stale once user_id file.rows start fresh
          (λ id m. rw a.table_is (imported_has file user_id table id m))) in
      (ap (λ (x : Summary). x.inserted) b.summary_is ∙ st.none_inserted, b.table_is ∙ st.table_is)
