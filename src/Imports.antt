-- ===== src/Imports.antt =====
-- `importTransactionsFromCsv` of backend/src/modules/transactions/transactions.service.js, with
-- backend/src/modules/transactions/paysim.mapper.js. The CSV parser, the database's bulk insert, the
-- hash and JavaScript's text functions are parameters.
pub mod Upload
use text.Mathlib.Text.{◌==◌ as str_eq}
use transactguard.Prelude.{
  ◌>>=◌, ℕ, suc, ◌+◌, ◌-◌, ◌*◌, ◌≤◌, ◌≡◌, String, Bool, true, false, not, ◌&&◌, ◌||◌, Option, none,
  some, List, [], ◌∷◌, ◌++◌, leb, ltb, ◌==◌, if◌then◌else◌, length, ℤ, is_negative, map,
}
use transactguard.Errors.{Code, ApiError, Result, ok, throw}
use transactguard.Errors.Raise
use transactguard.Schema.{Action, AuditEntry, record_audit}

-- `IMPORT_BATCH_SIZE` and `MAX_REPORTED_ERRORS`
abbrev pub import_batch_size : ℕ
import_batch_size = 1000

abbrev pub max_reported_errors : ℕ
max_reported_errors = 50

-- `REQUIRED_CSV_HEADERS`
abbrev pub required_csv_headers : List String
required_csv_headers =
    "step" ∷ "type" ∷ "amount" ∷ "nameOrig" ∷ "oldbalanceOrg" ∷ "newbalanceOrig" ∷ "nameDest"
    ∷ "oldbalanceDest" ∷ "newbalanceDest" ∷ []

-- `PAYSIM_TXN_TYPES`
abbrev pub paysim_txn_types : List String
paysim_txn_types = "TRANSFER" ∷ "CASH_OUT" ∷ "PAYMENT" ∷ "CASH_IN" ∷ "DEBIT" ∷ []

-- One record of the parser; a column that it lacks is `none`.
pub record CsvRow : Type 0 where
  pub step : Option String
  pub type : Option String
  pub amount : Option String
  pub name_orig : Option String
  pub oldbalance_org : Option String
  pub newbalance_orig : Option String
  pub name_dest : Option String
  pub oldbalance_dest : Option String
  pub newbalance_dest : Option String
  pub txn_id : Option String

-- The fields that `mapRowToTransaction` does not leave null.
pub record TransactionInput : Type 0 where
  pub txn_id : String
  pub txn_type : String
  pub amount : ℤ
  pub currency : String
  pub sender_id : String
  pub receiver_id : String
  pub orig_balance_before : ℤ
  pub orig_balance_after : ℤ
  pub dest_balance_before : ℤ
  pub dest_balance_after : ℤ
  pub txn_timestamp : ℕ
  pub uploaded_by_id : Option ℕ

abbrev pub contains : String → List String → Bool
contains s [] = false
contains s (x ∷ xs) = str_eq s x || contains s xs

-- Does one of the rows have this `txnId`?
abbrev pub in_batch : String → List TransactionInput → Bool
in_batch id [] = false
in_batch id (t ∷ ts) = str_eq id t.txn_id || in_batch id ts

-- `Number(text)`, `trim`, `toUpperCase`, and the hash of a row's natural key. `number` answers with
-- the finite number in hundredths; `whole` with the number where it is an integer of at least one.
pub record Texts : Type 0 where
  pub number : String → Option ℤ
  pub whole : String → Option ℕ
  pub trim : String → String
  pub to_upper_case : String → String
  pub derive_txn_id : List String → String

-- `createMany({ data, skipDuplicates: true })`: how many rows it inserts, and the table afterwards.
-- `txn_id` is unique, and a row whose id is there already is skipped.
pub record Store : Type 1 where
  pub State : Type 0
  pub has : String → State → Bool
  pub create_many : List TransactionInput → State → ℕ × State
  pub create_many-le : (b : List TransactionInput) (s : State) → (create_many b s).0 ≤ length b
  pub has-create_many :
      (id : String) (b : List TransactionInput) (s : State)
      → has id (create_many b s).1 ≡ (has id s || in_batch id b)
  pub create_many-present :
      (b : List TransactionInput) (s : State)
      → ((id : String) → in_batch id b ≡ true → has id s ≡ true)
      → create_many b s ≡ (0, s)

-- `validateCsvHeaders`
unfoldable pub missing_headers : (String → String) → List String → List String → List String
missing_headers trim headers [] = []
missing_headers trim headers (r ∷ required) =
    let rest = missing_headers trim headers required in
    if contains r (map trim headers) then rest else r ∷ rest

-- A value, where the test holds.
abbrev when : {A : Type 0} → (A → Bool) → A → Option A
when p a = if p a then some a else none

-- The text of a column, and "" for one that is missing.
abbrev text_of : Option String → String
text_of none = ""
text_of (some s) = s

non_blank : String → Bool
non_blank s = not (str_eq s "")

module _ (T : Texts) where
  -- `toNumber`
  to_number : Option String → Option ℤ
  unfolding non_blank
  to_number none = none
  to_number (some s) = if non_blank s then T.number s else none

  to_step : Option String → Option ℕ
  unfolding non_blank
  to_step none = none
  to_step (some s) = if non_blank s then T.whole s else none

  -- `stepToTimestamp`, in hours since the epoch of the data set.
  step_to_timestamp : ℕ → ℕ
  step_to_timestamp step = step - 1

  -- `row.txn_id?.trim() || deriveTxnId(...)`
  chosen_id : CsvRow → String → String → String → String
  unfolding non_blank
  chosen_id row type name_orig name_dest =
      let given = T.trim (text_of row.txn_id) in
      if non_blank given
      then given
      else T.derive_txn_id
          (text_of row.step ∷ type ∷ text_of row.amount ∷ name_orig ∷ name_dest ∷ [])

  -- `mapRowToTransaction`; a message that it throws is left out.
  unfoldable pub map_row_to_transaction : CsvRow → Option ℕ → Option TransactionInput
  unfolding to_number to_step step_to_timestamp chosen_id non_blank
  map_row_to_transaction row uploaded_by_id = do
    step ← to_step row.step
    type ← when (λ t. contains t paysim_txn_types) (T.to_upper_case (T.trim (text_of row.type)))
    amount ← to_number row.amount
    amount ← when (λ a. not (is_negative a)) amount
    name_orig ← when non_blank (T.trim (text_of row.name_orig))
    name_dest ← when non_blank (T.trim (text_of row.name_dest))
    orig_before ← to_number row.oldbalance_org
    orig_after ← to_number row.newbalance_orig
    dest_before ← to_number row.oldbalance_dest
    dest_after ← to_number row.newbalance_dest
    some (record {
      txn_id = chosen_id row type name_orig name_dest;
      txn_type = type;
      amount = amount;
      currency = "USD";
      sender_id = name_orig;
      receiver_id = name_dest;
      orig_balance_before = orig_before;
      orig_balance_after = orig_after;
      dest_balance_before = dest_before;
      dest_balance_after = dest_after;
      txn_timestamp = step_to_timestamp step;
      uploaded_by_id = uploaded_by_id;
    })
