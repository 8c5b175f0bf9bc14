-- ===== src/Listing/Filters.antt =====
-- The `where` clauses that the listings build from their query: `buildWhere` of transactions.service.js
-- and of cases.service.js, `buildPredictionWhere` of predictions.service.js, and that of `listJobs`.
-- A key of a clause that the query does not set is one that every row passes.
use text.Mathlib.Text.{◌==◌ as str_eq}
use transactguard.Prelude.{
  ℕ, String, Bool, true, false, ◌&&◌, ◌||◌, ◌==◌, Option, none, some, leb, matches, ℤ, pos, negsuc,
}
use transactguard.Schema.{
  Database, World, Transaction, Prediction, Case, CaseStatus, BatchJob, BatchJobStatus, queued,
  processing, completed, partially_completed, failed, RiskLevel, clear, suspicious, critical,
}
use transactguard.Predictions.{is_live}
use transactguard.Cases.{same_status}

-- What a field has to satisfy if the query asks for it.
abbrev pub asked {ℓ} : {A : Type ℓ} → Option A → (A → Bool) → Bool
asked none p = true
asked (some a) p = p a

-- A column that may be null passes no test when it is.
abbrev pub has {ℓ} : {A : Type ℓ} → Option A → (A → Bool) → Bool
has none p = false
has (some a) p = p a

-- `gte` and `lte`
abbrev pub in_range : Option ℕ → Option ℕ → ℕ → Bool
in_range from to n = asked from (λ a. leb a n) && asked to (λ b. leb n b)

-- The same on an amount of money, against bounds that are not negative.
abbrev pub amount_in : Option ℕ → Option ℕ → ℤ → Bool
amount_in min max (pos n) = in_range min max n
amount_in min max (negsuc n) = asked min (λ a. false)

abbrev pub same_risk : RiskLevel → RiskLevel → Bool
same_risk clear clear = true
same_risk suspicious suspicious = true
same_risk critical critical = true
same_risk _ _ = false

abbrev same_job_status : BatchJobStatus → BatchJobStatus → Bool
same_job_status queued queued = true
same_job_status processing processing = true
same_job_status completed completed = true
same_job_status partially_completed partially_completed = true
same_job_status failed failed = true
same_job_status _ _ = false

pub record TransactionQuery : Type 0 where
  pub page : ℕ
  pub page_size : ℕ
  pub txn_type : Option String
  pub merchant_category : Option String
  pub from : Option ℕ
  pub to : Option ℕ
  pub min_amount : Option ℕ
  pub max_amount : Option ℕ
  pub search : Option String
  pub include_deleted : Bool

pub record PredictionQuery : Type 0 where
  pub page : ℕ
  pub page_size : ℕ
  pub risk_level : Option RiskLevel
  pub from : Option ℕ
  pub to : Option ℕ
  pub min_score : Option ℕ
  pub max_score : Option ℕ
  pub search : Option String

pub record CaseQuery : Type 0 where
  pub page : ℕ
  pub page_size : ℕ
  pub status : Option CaseStatus
  pub risk_level : Option RiskLevel
  pub assigned_to_id : Option ℕ
  pub from : Option ℕ
  pub to : Option ℕ
  pub search : Option String

pub record JobQuery : Type 0 where
  pub page : ℕ
  pub page_size : ℕ
  pub status : Option BatchJobStatus
  pub from : Option ℕ
  pub to : Option ℕ

-- `contains` stands for Postgres's `{ contains: _, mode: 'insensitive' }`, the needle first.
module _ (contains : String → String → Bool) where
  -- `where.OR`
  unfoldable pub found_in : String → Transaction → Bool
  found_in needle t =
      contains needle t.txn_id || contains needle t.sender_id || contains needle t.receiver_id

  unfoldable pub transaction_where : TransactionQuery → ℕ → Transaction → Bool
  unfolding found_in
  transaction_where q id t =
      (q.include_deleted || is_live t)
      && asked q.txn_type (λ s. str_eq t.txn_type s)
      && asked q.merchant_category (λ c. has t.merchant_category (λ m. str_eq m c))
      && in_range q.from q.to t.txn_timestamp
      && amount_in q.min_amount q.max_amount t.amount
      && asked q.search (λ s. found_in s t)

  module _ (D : Database) where
    -- The clause on the transaction of a row, of which there is one.
    unfoldable pub joined : World D → (Transaction → Bool) → ℕ → Bool
    joined w p id = matches (λ k t. p t) id (D.transactions.find id w.transactions)

    unfoldable pub prediction_where : PredictionQuery → World D → ℕ → Prediction → Bool
    unfolding joined
    prediction_where q w id p =
        joined w (λ t. is_live t && asked q.search (λ s. contains s t.txn_id)) p.transaction_id
        && asked q.risk_level (same_risk p.risk_level)
        && in_range q.from q.to p.created_at
        && in_range q.min_score q.max_score p.risk_score

    -- `{ isNot: null }`, or the level asked for.
    unfoldable pub scored : World D → Option RiskLevel → ℕ → Bool
    scored w level id =
        matches (λ k p. asked level (same_risk p.risk_level)) id
          (D.predictions.find id w.predictions)

    unfoldable pub case_where : CaseQuery → World D → ℕ → Case → Bool
    unfolding joined scored found_in
    case_where q w id c =
        joined w (λ t. is_live t && asked q.search (λ s. found_in s t)) c.transaction_id
        && scored w q.risk_level c.transaction_id
        && asked q.status (same_status c.status)
        && asked q.assigned_to_id (λ u. has c.assigned_to_id (λ a. a == u))
        && in_range q.from q.to c.created_at

unfoldable pub job_where : JobQuery → ℕ → BatchJob → Bool
job_where q id j = asked q.status (same_job_status j.status) && in_range q.from q.to j.created_at
