-- ===== src/Jobs.antt =====
-- backend/src/modules/jobs/jobs.service.js: batch jobs as the API creates and retries them. The
-- counters that the worker reports chunk results to are in the child.
pub mod Counters
pub mod Resolve
pub mod Enqueue
pub mod Enqueued
use transactguard.Prelude.{
  ℕ, suc, ◌+◌, ◌-◌, ◌*◌, ◌/◌, min, String, Bool, true, false, not, ◌&&◌, Option, none, some, List,
  [], ◌∷◌, ◌++◌, leb, ◌==◌, if◌then◌else◌, or_else, is_some, length, take, filter, elem, dedup,
}
use transactguard.Errors.{Code, Result, ok, throw}
use transactguard.Errors.Raise
use transactguard.Queue.{ChunkMessage, chunk, chunk_size}
use transactguard.Schema.{
  Database, World, Ctx, Transaction, Prediction, BatchJob, BatchJobStatus, queued, processing,
  completed, partially_completed, failed, Action, record_audit,
}
use transactguard.Predictions.{is_live}

-- `MAX_TRANSACTIONS_PER_JOB` of jobs.schemas.js
abbrev pub max_transactions_per_job : ℕ
max_transactions_per_job = 20000

-- `IN_FLIGHT`
abbrev pub is_in_flight : BatchJobStatus → Bool
is_in_flight queued = true
is_in_flight processing = true
is_in_flight _ = false

-- `RETRYABLE_STATUSES`
abbrev pub is_retryable : BatchJobStatus → Bool
is_retryable failed = true
is_retryable partially_completed = true
is_retryable _ = false

abbrev pub is_queued : BatchJobStatus → Bool
is_queued queued = true
is_queued _ = false

-- What `JOB_SELECT` reads of a job, with its progress.
pub record JobView : Type 0 where
  pub id : ℕ
  pub name : String
  pub status : BatchJobStatus
  pub total_txns : ℕ
  pub processed_count : ℕ
  pub failed_count : ℕ
  pub total_chunks : ℕ
  pub completed_chunks : ℕ
  pub started_at : Option ℕ
  pub completed_at : Option ℕ
  pub created_at : ℕ
  pub created_by_id : Option ℕ
  pub progress_percent : ℕ

-- `Math.round((done / total) * 100)`, in exact arithmetic: half a percent is rounded up.
percent : ℕ → ℕ → ℕ
percent done total = if total == 0 then 100 else (200 * done + total) / (2 * total)

unfoldable pub with_progress : BatchJob → JobView
unfolding percent
with_progress job = record {
  id = job.id;
  name = job.name;
  status = job.status;
  total_txns = job.total_txns;
  processed_count = job.processed_count;
  failed_count = job.failed_count;
  total_chunks = job.total_chunks;
  completed_chunks = job.completed_chunks;
  started_at = job.started_at;
  completed_at = job.completed_at;
  created_at = job.created_at;
  created_by_id = job.created_by_id;
  progress_percent = min 100 (percent (job.processed_count + job.failed_count) job.total_txns);
}

-- The body of `POST /jobs`. `unscored` says that `filter` is given, which has no other value.
pub record CreateBody : Type 0 where
  pub name : String
  pub transaction_ids : List ℕ
  pub unscored : Bool
  pub limit : Option ℕ

-- `chunks.map((transactionIds, index) => ({ name, data }))`, from an index on.
unfoldable pub messages : ℕ → ℕ → Bool → ℕ → List (List ℕ) → List ChunkMessage
messages job_id total retry index [] = []
messages job_id total retry index (ids ∷ rest) =
    record {
      batch_job_id = job_id;
      transaction_ids = ids;
      chunk_index = index;
      total_chunks = total;
      retry = retry;
    }
    ∷ messages job_id total retry (suc index) rest

-- The row that `createJob` writes.
unfoldable pub new_job : CreateBody → List ℕ → ℕ → ℕ → Ctx → BatchJob
new_job body ids chunks user_id ctx = record {
  id = ctx.new_id;
  name = body.name;
  status = queued;
  total_txns = length ids;
  processed_count = 0;
  failed_count = 0;
  total_chunks = chunks;
  completed_chunks = 0;
  transaction_ids = ids;
  started_at = none;
  completed_at = none;
  created_at = ctx.now;
  created_by_id = some user_id;
}

-- The update of `retryJob`.
pub reset : ℕ → BatchJob → BatchJob
reset chunks job = record job {
  status = queued;
  failed_count = 0;
  total_chunks = chunks;
  completed_chunks = 0;
  completed_at = none;
  started_at = none;
}

-- The status that `finalizeJob` decides on.
unfoldable pub outcome : BatchJob → BatchJobStatus
outcome job =
    if job.failed_count == 0
    then completed
    else if job.processed_count == 0
    then failed
    else partially_completed

-- `where: { id: { in: ids }, deletedAt: null }`
pub live_among : List ℕ → ℕ → Transaction → Bool
live_among ids id t = elem id ids && is_live t

-- Does the job have a prediction of this transaction to its name?
pub scored_by : ℕ → Option Prediction → Bool
scored_by job_id none = false
scored_by job_id (some p) = elim p.batch_job_id [ none ↦ false | some j ↦ j == job_id ]

-- `orderBy: { createdAt: 'asc' }`, where `key` is the time of creation; ties may stand in any order.
pub insert_by : (ℕ → ℕ) → ℕ → List ℕ → List ℕ
insert_by key a [] = a ∷ []
insert_by key a (b ∷ ids) = if leb (key a) (key b) then a ∷ b ∷ ids else b ∷ insert_by key a ids

pub sort_by : (ℕ → ℕ) → List ℕ → List ℕ
unfolding insert_by
sort_by key [] = []
sort_by key (a ∷ ids) = insert_by key a (sort_by key ids)

abbrev created_at_of : Option Transaction → ℕ
created_at_of none = 0
created_at_of (some t) = t.created_at

module _ (D : Database) where
  abbrev pub created_at : World D → ℕ → ℕ
  created_at w id = created_at_of (D.transactions.find id w.transactions)

  -- `where: { deletedAt: null, prediction: null }`
  unscored : World D → ℕ → Transaction → Bool
  unscored w id t = is_live t && not (is_some (D.predictions.find id w.predictions))

  -- The ids that a job covers, and how many of those asked for it skips.
  unfoldable pub resolve_transaction_ids : CreateBody → World D → List ℕ × ℕ
  unfolding unscored live_among sort_by
  resolve_transaction_ids body w =
      if body.unscored
      then (
        take (or_else body.limit max_transactions_per_job)
            (sort_by (created_at w) (D.transactions.find_ids (unscored w) w.transactions)),
        0,
      )
      else (let requested = dedup body.transaction_ids in
          let found = D.transactions.find_ids (live_among requested) w.transactions in
          (found, length requested - length found))

  enqueue_new : CreateBody → List ℕ → ℕ → ℕ → Ctx → World D → Result (JobView × ℕ) × World D
  enqueue_new body ids skipped user_id ctx w =
      let chunks = chunk ids chunk_size in
      let n = length chunks in
      let job = new_job body ids n user_id ctx in
      (
        ok (with_progress job, skipped),
        record w {
          jobs = D.jobs.put ctx.new_id job w.jobs;
          queue = w.queue ++ messages ctx.new_id n false 0 chunks;
          audit =
              record_audit ctx.audit_up
                (record {
                  user_id = some user_id;
                  action = Action.batch_job_created (length ids) n skipped;
                  resource_id = some ctx.new_id;
                })
                w.audit;
        },
      )

  create_resolved : CreateBody → List ℕ → ℕ → ℕ → Ctx → World D → Result (JobView × ℕ) × World D
  unfolding enqueue_new
  create_resolved body [] skipped user_id ctx w = (throw Raise.bad_request, w)
  create_resolved body (id ∷ ids) skipped user_id ctx w =
      enqueue_new body (id ∷ ids) skipped user_id ctx w

  unfoldable pub create_job : CreateBody → ℕ → Ctx → World D → Result (JobView × ℕ) × World D
  unfolding create_resolved
  create_job body user_id ctx w =
      let (ids, skipped) = resolve_transaction_ids body w in
      create_resolved body ids skipped user_id ctx w

  -- The ids on the roster that have no prediction of this job.
  pub outstanding : BatchJob → ℕ → World D → List ℕ
  unfolding scored_by
  outstanding job id w =
      filter (λ t. not (scored_by id (D.predictions.find t w.predictions))) job.transaction_ids

  enqueue_retry : ℕ → BatchJob → List ℕ → ℕ → Ctx → World D → Result (JobView × ℕ) × World D
  enqueue_retry id job ids user_id ctx w =
      let chunks = chunk ids chunk_size in
      let n = length chunks in
      let updated = reset n job in
      (
        ok (with_progress updated, length ids),
        record w {
          jobs = D.jobs.put id updated w.jobs;
          queue = w.queue ++ messages id n true 0 chunks;
          audit =
              record_audit ctx.audit_up
                (record {
                  user_id = some user_id;
                  action = Action.batch_job_retried (length ids) n job.status;
                  resource_id = some id;
                })
                w.audit;
        },
      )

  retry_ids : ℕ → BatchJob → List ℕ → ℕ → Ctx → World D → Result (JobView × ℕ) × World D
  unfolding enqueue_retry
  retry_ids id job [] user_id ctx w = (throw (Raise.conflict Code.nothing_to_retry), w)
  retry_ids id job (t ∷ ids) user_id ctx w = enqueue_retry id job (t ∷ ids) user_id ctx w

  retry_found : ℕ → Option BatchJob → ℕ → Ctx → World D → Result (JobView × ℕ) × World D
  unfolding retry_ids outstanding live_among
  retry_found id none user_id ctx w = (throw Raise.not_found, w)
  retry_found id (some job) user_id ctx w =
      let ids = D.transactions.find_ids (live_among (outstanding job id w)) w.transactions in
      if is_retryable job.status
      then retry_ids id job ids user_id ctx w
      else (throw (Raise.conflict Code.job_not_retryable), w)

  unfoldable pub retry_job : ℕ → ℕ → Ctx → World D → Result (JobView × ℕ) × World D
  unfolding retry_found
  retry_job id user_id ctx w = retry_found id (D.jobs.find id w.jobs) user_id ctx w
