-- ===== src/Transactions.antt =====
-- `softDeleteTransaction` and `getTransactionById` of
-- backend/src/modules/transactions/transactions.service.js.
pub mod Deleted
pub mod Create
use transactguard.Prelude.{ℕ, Option, none, some, is_some, if◌then◌else◌}
use transactguard.Errors.{Code, Result, ok, throw}
use transactguard.Errors.Raise
use transactguard.Schema.{Database, World, Ctx, Transaction, Action, record_audit}
use transactguard.Predictions.{live}

or_not_found : Option Transaction → Result Transaction
or_not_found none = throw Raise.not_found
or_not_found (some t) = ok t

module _ (D : Database) where
  -- `getTransactionById`
  pub get_transaction_by_id : ℕ → World D → Result Transaction
  unfolding or_not_found
  get_transaction_by_id id w = or_not_found (live (D.transactions.find id w.transactions))

  delete_found : ℕ → ℕ → Ctx → World D → Option Transaction → Result Transaction × World D
  delete_found id user_id ctx w none = (throw Raise.not_found, w)
  delete_found id user_id ctx w (some t) =
      let row : Transaction = record t { deleted_at = some ctx.now } in
      if is_some t.deleted_at then (throw (Raise.conflict Code.already_deleted), w) else (
        ok row,
        record w {
          transactions = D.transactions.put id row w.transactions;
          audit =
              record_audit ctx.audit_up
                (record {
                  user_id = some user_id;
                  action = Action.transaction_deleted t.txn_id;
                  resource_id = some id;
                })
                w.audit;
        },
      )

  -- `softDeleteTransaction`
  unfoldable pub soft_delete_transaction : ℕ → ℕ → Ctx → World D → Result Transaction × World D
  unfolding delete_found
  soft_delete_transaction id user_id ctx w =
      delete_found id user_id ctx w (D.transactions.find id w.transactions)
