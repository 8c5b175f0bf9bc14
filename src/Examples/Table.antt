-- ===== src/Examples/Table.antt =====
-- The table of transactions: a new row, and the prediction that is shown in one.
use transactguard.Prelude.{
  ℕ, pos, ◌≡◌, ◌⊎◌, refl, arith, String, Bool, true, false, none, some, [], ◌∷◌,
}
use text.Mathlib.Text.{◌==◌ as str_eq}
use transactguard.Errors.{Code, throw}
use transactguard.Errors.Raise
use transactguard.Schema.{World}
use transactguard.Frontend.RowPredictions.{
  WellKeyed, OnlyHere, row_prediction, row_prediction_is_its_own,
}
use transactguard.Transactions.Create.{CreateInput, created_row, is_taken, create_transaction}
use transactguard.Transactions.Create.Unique.{UniqueTxnIds, create_transaction-UniqueTxnIds}
use transactguard.Examples.Store.{store}
use transactguard.Examples.Data.{ctx, world, payment}
use transactguard.Examples.Reading.{as_stored, flagged_payment, reviewed}

-- The needle is the whole text.
abbrev whole : String → String → Bool
whole needle text = str_eq needle text

-- What `trim` and `length` come to on the texts here.
abbrev same_text : String → String
same_text text = text

abbrev two_chars : String → ℕ
two_chars text = 2

abbrev page_shown : World store
page_shown = record reviewed { transactions = (1, payment) ∷ [] }

payment-alone :
    OnlyHere store whole same_text two_chars (as_stored store.predictions) 1 "T1" page_shown
payment-alone j t f live here = ground (arith, f, here)

page_shown-WellKeyed :
    WellKeyed store whole same_text two_chars (as_stored store.predictions) page_shown
page_shown-WellKeyed j p f = ground (arith, f)

row_prediction_is_its_own_example :
    row_prediction store whole same_text two_chars (as_stored store.predictions) "T1" page_shown
    ≡ some flagged_payment
row_prediction_is_its_own_example =
    row_prediction_is_its_own store whole same_text two_chars (as_stored store.predictions)
      page_shown 1 payment page_shown-WellKeyed payment-alone refl refl refl refl (omega arith)

abbrev by_hand : CreateInput
by_hand = record {
  txn_id = some "T9";
  txn_type = "TRANSFER";
  amount = pos 100;
  currency = "USD";
  sender_id = "C1";
  receiver_id = "C2";
  merchant_category = none;
  orig_balance_before = none;
  orig_balance_after = none;
  dest_balance_before = none;
  dest_balance_after = none;
  txn_timestamp = 12;
  location = none;
  device_id = none;
}

abbrev single : World store
single = record world { transactions = (1, payment) ∷ [] }

single-UniqueTxnIds : UniqueTxnIds store single
single-UniqueTxnIds i j s t fi fj same = ground (arith, fi, fj)

create_transaction-UniqueTxnIds_example :
    UniqueTxnIds store (create_transaction store by_hand "TXN-1" 4 ctx single).1
    × (((is_taken store "T9" single ≡ true)
          × (create_transaction store by_hand "TXN-1" 4 ctx single
              ≡ (throw (Raise.conflict Code.txn_id_taken), single)))
        ⊎ ((is_taken store "T9" single ≡ false)
            × (store.transactions.find 50
                  (create_transaction store by_hand "TXN-1" 4 ctx single).1.transactions
                ≡ some (created_row by_hand "T9" 4 ctx))))
create_transaction-UniqueTxnIds_example =
    create_transaction-UniqueTxnIds store by_hand "TXN-1" 4 ctx single single-UniqueTxnIds
