-- ===== src/Predictions.antt =====
-- backend/src/modules/predictions/predictions.service.js: the scoring round trip.
pub mod Atomic
use transactguard.Prelude.{
  ℕ, Bool, true, false, Option, none, some, List, [], ◌∷◌, if◌then◌else◌, is_some, Table,
}
use transactguard.Errors.{Code, ApiError, Result, ok, throw}
use transactguard.Errors.Raise
use transactguard.Schema.{Database, World, Ctx, Transaction, Prediction, Action, record_audit}
use transactguard.MlClient.{MlRequest, FetchOutcome, Scored, predict_single}

-- `{ transaction, prediction, scored, rescored }`; the timings are left out.
pub record Outcome : Type 0 where
  pub transaction : Transaction
  pub prediction : Prediction
  pub scored : Scored
  pub rescored : Bool

-- `where: { deletedAt: null }`
abbrev pub is_live : Transaction → Bool
is_live t = elim t.deleted_at [ none ↦ true | some d ↦ false ]

-- `findFirst({ where: { id, deletedAt: null } })`
abbrev pub live : Option Transaction → Option Transaction
live none = none
live (some t) = if is_live t then some t else none

-- `upsert`: an update keeps the row's key and its creation time, a create gets new ones.
unfoldable pub upserted : Option Prediction → ℕ → Option ℕ → Scored → Ctx → Prediction
upserted existing transaction_id batch_job_id s ctx = record {
  id = elim existing [ none ↦ ctx.new_id | some p ↦ p.id ];
  transaction_id = transaction_id;
  risk_score = s.risk_score;
  risk_level = s.risk_level;
  explanation_summary = s.explanation_summary;
  feature_contributions = s.feature_contributions;
  model_version = s.model_version;
  latency_ms = s.latency_ms;
  created_at = elim existing [ none ↦ ctx.now | some p ↦ p.created_at ];
  batch_job_id = batch_job_id;
}

module _ (D : Database) where
  -- The write, once the model has answered.
  persist : Transaction → ℕ → Option ℕ → Scored → Ctx → World D → Result Outcome × World D
  persist t transaction_id batch_job_id s ctx w =
      let existing = D.predictions.find transaction_id w.predictions in
      let row = upserted existing transaction_id batch_job_id s ctx in
      (
        ok (record { transaction = t; prediction = row; scored = s; rescored = is_some existing }),
        record w { predictions = D.predictions.put transaction_id row w.predictions },
      )

  score_live :
      (MlRequest → FetchOutcome)
      → Option Transaction
      → ℕ
      → Option ℕ
      → Ctx
      → World D
      → Result Outcome × World D
  unfolding persist
  score_live fetch none transaction_id batch_job_id ctx w = (throw Raise.not_found, w)
  score_live fetch (some t) transaction_id batch_job_id ctx w = elim (predict_single fetch t) [
    | throw e ↦ (throw e, w)
    | ok s ↦ persist t transaction_id batch_job_id s ctx w
  ]

  unfoldable pub score_and_persist :
      (MlRequest → FetchOutcome) → ℕ → Option ℕ → Ctx → World D → Result Outcome × World D
  unfolding score_live
  score_and_persist fetch transaction_id batch_job_id ctx w =
      score_live fetch (live (D.transactions.find transaction_id w.transactions)) transaction_id
        batch_job_id ctx w

  -- The audit row of `createPrediction`.
  audited : ℕ → Ctx → Result Outcome × World D → Result Outcome × World D
  audited user_id ctx (throw e, w) = (throw e, w)
  audited user_id ctx (ok o, w) = (
    ok o,
    record w {
      audit =
          record_audit ctx.audit_up
            (record {
              user_id = some user_id;
              action = Action.prediction_created o.scored.risk_score o.scored.risk_level o.rescored;
              resource_id = some o.prediction.id;
            })
            w.audit;
    },
  )

  unfoldable pub create_prediction :
      (MlRequest → FetchOutcome) → ℕ → ℕ → Ctx → World D → Result Outcome × World D
  unfolding audited
  create_prediction fetch transaction_id user_id ctx w =
      audited user_id ctx (score_and_persist fetch transaction_id none ctx w)
