-- ===== src/Examples/Data.antt =====
-- Rows and worlds for the examples.
use transactguard.Prelude.{ℕ, String, true, none, some, [], ◌∷◌, pos}
use transactguard.Schema.{
  World, Ctx, Transaction, Case, under_review, BatchJob, partially_completed, User, Role, admin,
  analyst,
}
use transactguard.MlClient.{MlRequest, FetchOutcome, response, unreachable, Payload}
use transactguard.Examples.Store.{store}

abbrev pub payment : Transaction
payment = record {
  id = 1;
  txn_id = "T1";
  txn_type = "PAYMENT";
  amount = pos 500;
  currency = "USD";
  sender_id = "C1";
  receiver_id = "M1";
  merchant_category = none;
  orig_balance_before = some (pos 900);
  orig_balance_after = some (pos 400);
  dest_balance_before = some (pos 0);
  dest_balance_after = some (pos 0);
  txn_timestamp = 10;
  location = none;
  device_id = none;
  deleted_at = none;
  created_at = 10;
  uploaded_by_id = none;
}

abbrev pub without_balances : Transaction
without_balances = record payment { id = 2; txn_id = "T2"; orig_balance_before = none }

abbrev pub removed : Transaction
removed = record payment { id = 3; txn_id = "T3"; deleted_at = some 11 }

abbrev pub score : Payload
score = record {
  txn_id = some "T1";
  risk_score = some (pos 91);
  risk_level = some "CRITICAL";
  explanation_summary = some "drained";
  feature_contributions = some [];
  model_version = some "v1";
  latency_ms = some (pos 4);
}

abbrev pub scoring : MlRequest → FetchOutcome
scoring r = response 200 (some score)

abbrev pub down : MlRequest → FetchOutcome
down r = unreachable

abbrev pub ctx : Ctx
ctx = record { now = 20; audit_up = true; new_id = 50 }

abbrev pub half_done : BatchJob
half_done = record {
  id = 7;
  name = "nightly";
  status = partially_completed;
  total_txns = 2;
  processed_count = 1;
  failed_count = 1;
  total_chunks = 1;
  completed_chunks = 1;
  transaction_ids = 1 ∷ 2 ∷ [];
  started_at = some 12;
  completed_at = some 13;
  created_at = 11;
  created_by_id = some 4;
}

abbrev pub open_case : Case
open_case = record {
  id = 9;
  transaction_id = 1;
  status = under_review;
  notes = none;
  resolved_at = none;
  created_at = 12;
  assigned_to_id = none;
}

abbrev pub user : ℕ → String → Role → User
user id email role = record {
  id = id;
  email = email;
  password_hash = "secret";
  name = email;
  role = role;
  is_active = true;
  created_at = 1;
}

abbrev pub world : World store
world = record {
  transactions = (1, payment) ∷ (2, without_balances) ∷ (3, removed) ∷ [];
  predictions = [];
  jobs = (7, half_done) ∷ [];
  cases = (9, open_case) ∷ [];
  users = (4, user 4 "ann" analyst) ∷ (5, user 5 "root" admin) ∷ [];
  audit = [];
  queue = [];
}
