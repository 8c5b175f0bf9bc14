-- ===== src/Listing/Endpoints.antt =====
-- `listTransactions`, `listPredictions`, `listCases`, `listJobs` and `getJobById` of the services in
-- backend/src/modules, what each of them reads and whom it answers.
use transactguard.Prelude.{
  ℕ, Bool, false, not, ◌&&◌, Option, none, some, String, List, [], ◌∷◌, map, matches, ◌==◌,
  if◌then◌else◌,
}
use transactguard.Errors.{Result, ok, throw}
use transactguard.Errors.Raise
use transactguard.Schema.{Database, World, Transaction, Prediction, Case, admin, RiskLevel}
use transactguard.Auth.{Principal, same_role}
use transactguard.Predictions.{is_live}
use transactguard.Jobs.{JobView, with_progress}
use transactguard.Listing.{Listed, OrderBy, count, rows_at, list_page}
use transactguard.Listing.Filters.{
  TransactionQuery, PredictionQuery, CaseQuery, JobQuery, transaction_where, prediction_where,
  case_where, job_where,
}

-- `user?.role === 'ADMIN'`
abbrev pub is_admin : Option Principal → Bool
is_admin none = false
is_admin (some u) = elim u.role [ none ↦ false | some r ↦ same_role admin r ]

-- `serialize` of cases.service.js: the case with its transaction, and the risk lifted out of the
-- transaction's prediction.
pub record CaseView : Type 0 where
  pub row : Case
  pub transaction : Option Transaction
  pub risk_score : Option ℕ
  pub risk_level : Option RiskLevel

abbrev pub risk_score_of : Option Prediction → Option ℕ
risk_score_of none = none
risk_score_of (some p) = some p.risk_score

abbrev pub risk_level_of : Option Prediction → Option RiskLevel
risk_level_of none = none
risk_level_of (some p) = some p.risk_level

-- `where: { batchJobId: id }`
abbrev made_by : ℕ → ℕ → Prediction → Bool
made_by job id p = elim p.batch_job_id [ none ↦ false | some j ↦ j == job ]

module _ (D : Database) (contains : String → String → Bool) where
  -- `counted` is the state that the count meets, `w` the one that the query for the page does.
  unfoldable pub list_transactions :
      OrderBy D.transactions
      → TransactionQuery
      → Option Principal
      → World D
      → World D
      → Result (Listed Transaction)
  list_transactions order q user counted w =
      let where_clause = transaction_where contains q in
      if q.include_deleted && not (is_admin user)
      then throw Raise.forbidden
      else ok (
          list_page D.transactions order where_clause q.page q.page_size
            (count D.transactions where_clause counted.transactions) w.transactions)

  unfoldable pub list_predictions :
      OrderBy D.predictions → PredictionQuery → World D → World D → Listed Prediction
  list_predictions order q counted w =
      list_page D.predictions order (prediction_where contains D q w) q.page q.page_size
        (count D.predictions (prediction_where contains D q counted) counted.predictions)
        w.predictions

  -- The transaction comes with its prediction.
  unfoldable pub serialize : World D → Case → CaseView
  serialize w c =
      let prediction = D.predictions.find c.transaction_id w.predictions in
      record {
        row = c;
        transaction = D.transactions.find c.transaction_id w.transactions;
        risk_score = risk_score_of prediction;
        risk_level = risk_level_of prediction;
      }

  unfoldable pub list_cases : OrderBy D.cases → CaseQuery → World D → World D → Listed CaseView
  list_cases order q counted w =
      let listed =
        list_page D.cases order (case_where contains D q w) q.page q.page_size
          (count D.cases (case_where contains D q counted) counted.cases) w.cases in
      record { rows = map (serialize w) listed.rows; pagination = listed.pagination }

  list_jobs : OrderBy D.jobs → JobQuery → World D → World D → Listed JobView
  list_jobs order q counted w =
      let listed =
        list_page D.jobs order (job_where q) q.page q.page_size
          (count D.jobs (job_where q) counted.jobs) w.jobs in
      record { rows = map with_progress listed.rows; pagination = listed.pagination }

  -- The job with the number of the predictions that it has made.
  get_job_by_id : ℕ → World D → Result (JobView × ℕ)
  get_job_by_id id w = elim (D.jobs.find id w.jobs) [
    | none ↦ throw Raise.not_found
    | some job ↦ ok (with_progress job, count D.predictions (made_by id) w.predictions)
  ]

unfoldable pub first_row : List Prediction → Result Prediction
first_row [] = throw Raise.not_found
first_row (p ∷ rest) = ok p

module _ (D : Database) where
  -- `findFirst({ where: { id, transaction: { deletedAt: null } } })`: the keys with that id, of which
  -- there is one at most, the predictions being kept under their transactions.
  abbrev pub of_id : World D → ℕ → ℕ → Prediction → Bool
  of_id w id k p =
      p.id == id
      && matches (λ j t. is_live t) p.transaction_id
          (D.transactions.find p.transaction_id w.transactions)

  unfoldable pub get_prediction_by_id : ℕ → World D → Result Prediction
  unfolding first_row
  get_prediction_by_id id w =
      first_row
        (rows_at D.predictions (D.predictions.find_ids (of_id w id) w.predictions) w.predictions)
