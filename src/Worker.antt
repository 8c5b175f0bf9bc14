-- ===== src/Worker.antt =====
-- backend/src/workers/batchScoring.worker.js: one chunk of a batch job, and what is done when its
-- attempts fail. BullMQ decides when these run; it is not in the repository.
pub mod Chunks
pub mod Scored
use transactguard.Prelude.{
  ℕ, suc, ◌+◌, ◌-◌, Bool, true, false, ◌&&◌, Option, none, some, List, [], ◌∷◌, ltb, leb,
  if◌then◌else◌, or_else, length, elem,
}
use transactguard.Errors.{Code, ApiError, Result, ok, throw}
use transactguard.Queue.{ChunkMessage, attempts}
use transactguard.Schema.{Database, World, Ctx, Prediction, BatchJob, BatchJobStatus}
use transactguard.MlClient.{MlRequest, FetchOutcome}
use transactguard.Predictions.{Outcome, score_and_persist}
use transactguard.Jobs.{scored_by}
use transactguard.Jobs.Counters.{Tally, mark_job_processing, record_chunk_result}

-- `RETRYABLE_ML_CODES`
abbrev pub is_retryable_code : Code → Bool
is_retryable_code Code.ml_service_unavailable = true
is_retryable_code Code.ml_service_timeout = true
is_retryable_code Code.ml_service_unauthorized = true
is_retryable_code Code.ml_service_error = true
is_retryable_code Code.ml_service_invalid_response = true
is_retryable_code _ = false

-- What surrounds the scoring of one transaction: the model's answer, the time, the new key.
pub record Env : Type 0 where
  pub fetch : MlRequest → FetchOutcome
  pub ctx : Ctx

-- What is published to the browsers that watch the job, in order.
pub data Published : Type 0 where
  job_progress : (job : BatchJob) → (status : BatchJobStatus) → Published
  job_completed : (job : BatchJob) → (status : BatchJobStatus) → Published

-- A chunk that is through, whether it was scored or given up.
pub record ChunkDone : Type 0 where
  pub tally : Tally
  pub published : List Published

-- `countScored`'s `where` clause
unfoldable pub scored_among : ℕ → List ℕ → ℕ → Prediction → Bool
scored_among job_id ids id p = elem id ids && scored_by job_id (some p)

-- The two publishing calls that follow `recordChunkResult`.
unfoldable pub publications : BatchJob → Option BatchJobStatus → List Published
publications job none = job_progress job job.status ∷ []
publications job (some final) = job_progress job final ∷ job_completed job final ∷ []

abbrev one_processed : Tally → Tally
one_processed t = record t { processed = t.processed + 1 }

abbrev one_failed : Tally → Tally
one_failed t = record t { failed = t.failed + 1 }

module _ (D : Database) where
  -- The `try` of the loop: how one scoring goes on with the rest of the chunk.
  after_scoring :
      Result Outcome → Tally → World D → (Tally → Result Tally × World D) → Result Tally × World D
  after_scoring (ok o) t w rest = rest (one_processed t)
  after_scoring (throw e) t w rest =
      if is_retryable_code e.code then (throw e, w) else rest (one_failed t)

  -- The `for` loop of `processChunk`.
  unfoldable pub score_all : (ℕ → Env) → ℕ → List ℕ → Tally → World D → Result Tally × World D
  unfolding after_scoring
  score_all env job_id [] t w = (ok t, w)
  score_all env job_id (id ∷ ids) t w =
      let (r, w') = score_and_persist D (env id).fetch id (some job_id) (env id).ctx w in
      after_scoring r t w' (λ t'. score_all env job_id ids t' w')

  -- `recordChunkResult` and the publications that follow it.
  report_chunk : ℕ → Tally → Ctx → World D → Result ChunkDone × World D
  report_chunk job_id t ctx w =
      let (r, w') = record_chunk_result D job_id t ctx w in
      elim r [
        | throw e ↦ (throw e, w')
        | ok (job, final) ↦ (ok (record { tally = t; published = publications job final }), w')
      ]

  report_scored : ℕ → Ctx → Result Tally × World D → Result ChunkDone × World D
  unfolding report_chunk
  report_scored job_id ctx (throw e, w) = (throw e, w)
  report_scored job_id ctx (ok t, w) = report_chunk job_id t ctx w

  unfoldable pub process_chunk :
      (ℕ → Env) → ChunkMessage → Ctx → World D → Result ChunkDone × World D
  unfolding report_scored
  process_chunk env m ctx w = report_scored m.batch_job_id ctx (
      score_all env m.batch_job_id m.transaction_ids (record { processed = 0; failed = 0 })
        (mark_job_processing D m.batch_job_id ctx w))

  unfoldable pub count_scored : ℕ → List ℕ → World D → ℕ
  unfolding scored_among
  count_scored job_id ids w =
      length (D.predictions.find_ids (scored_among job_id ids) w.predictions)

  -- The tally of a chunk that has given up: what has a prediction of this job counts as processed.
  pub salvaged : ChunkMessage → World D → Tally
  unfolding count_scored
  salvaged m w =
      let scored = count_scored m.batch_job_id m.transaction_ids w in
      record { processed = scored; failed = length m.transaction_ids - scored }

  -- The handler of `failed`, after attempt `attempts_made`: only the last attempt reports. An error
  -- of the report is only logged.
  unfoldable pub on_failed : ℕ → ChunkMessage → Ctx → World D → Option (Result ChunkDone) × World D
  unfolding report_chunk salvaged
  on_failed attempts_made m ctx w =
      let (r, w') = report_chunk m.batch_job_id (salvaged m w) ctx w in
      if ltb attempts_made attempts then (none, w) else (some r, w')
