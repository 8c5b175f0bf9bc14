-- ===== src/Transactions/Create.antt =====
-- `createTransaction` of backend/src/modules/transactions/transactions.service.js.
pub mod Unique
use text.Mathlib.Text.{◌==◌ as str_eq}
use transactguard.Prelude.{
  ℕ, ℤ, String, Bool, true, false, Option, none, some, List, [], ◌∷◌, or_else, if◌then◌else◌,
}
use transactguard.Errors.{Code, Result, ok, throw}
use transactguard.Errors.Raise
use transactguard.Schema.{Database, World, Ctx, Transaction, Action, record_audit}

-- `createTransactionSchema`; without a `txnId` one is generated.
pub record CreateInput : Type 0 where
  pub txn_id : Option String
  pub txn_type : String
  pub amount : ℤ
  pub currency : String
  pub sender_id : String
  pub receiver_id : String
  pub merchant_category : Option String
  pub orig_balance_before : Option ℤ
  pub orig_balance_after : Option ℤ
  pub dest_balance_before : Option ℤ
  pub dest_balance_after : Option ℤ
  pub txn_timestamp : ℕ
  pub location : Option String
  pub device_id : Option String

-- The row that `create` inserts.
unfoldable pub created_row : CreateInput → String → ℕ → Ctx → Transaction
created_row input txn_id user_id ctx = record {
  id = ctx.new_id;
  txn_id = txn_id;
  txn_type = input.txn_type;
  amount = input.amount;
  currency = input.currency;
  sender_id = input.sender_id;
  receiver_id = input.receiver_id;
  merchant_category = input.merchant_category;
  orig_balance_before = input.orig_balance_before;
  orig_balance_after = input.orig_balance_after;
  dest_balance_before = input.dest_balance_before;
  dest_balance_after = input.dest_balance_after;
  txn_timestamp = input.txn_timestamp;
  location = input.location;
  device_id = input.device_id;
  deleted_at = none;
  created_at = ctx.now;
  uploaded_by_id = some user_id;
}

abbrev pub is_found : List ℕ → Bool
is_found [] = false
is_found (id ∷ ids) = true

module _ (D : Database) where
  -- `findUnique({ where: { txnId } })`, deleted transactions included.
  unfoldable pub is_taken : String → World D → Bool
  is_taken txn_id w =
      is_found (D.transactions.find_ids (λ id t. str_eq t.txn_id txn_id) w.transactions)

  insert_row : Transaction → ℕ → Ctx → World D → World D
  insert_row t user_id ctx w = record w {
    transactions = D.transactions.put t.id t w.transactions;
    audit =
        record_audit ctx.audit_up
          (record {
            user_id = some user_id;
            action = Action.transaction_created t.txn_id;
            resource_id = some t.id;
          })
          w.audit;
  }

  -- `generated` is the `TXN-` id made up for an input without one.
  unfoldable pub create_transaction :
      CreateInput → (generated : String) → ℕ → Ctx → World D → Result Transaction × World D
  unfolding insert_row
  create_transaction input generated user_id ctx w =
      let txn_id = or_else input.txn_id generated in
      let row = created_row input txn_id user_id ctx in
      if is_taken txn_id w
      then (throw (Raise.conflict Code.txn_id_taken), w)
      else (ok row, insert_row row user_id ctx w)
