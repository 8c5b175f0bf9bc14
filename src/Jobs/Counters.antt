-- ===== src/Jobs/Counters.antt =====
-- The worker's half of backend/src/modules/jobs/jobs.service.js: the counters of a job.
pub mod Run
pub mod Recorded
use transactguard.Prelude.{
  ℕ, suc, ◌+◌, Bool, true, false, not, ◌&&◌, Option, none, some, leb, if◌then◌else◌,
}
use transactguard.Errors.{Code, Result, ok, throw}
use transactguard.Schema.{
  Database, World, Ctx, BatchJob, BatchJobStatus, queued, processing, Action, record_audit,
}
use transactguard.Jobs.{is_in_flight, is_queued, outcome}

-- `{ processed, failed }`
pub record Tally : Type 0 where
  pub processed : ℕ
  pub failed : ℕ

-- The `data` of the three updates.
pub mark : ℕ → BatchJob → BatchJob
mark now job = record job { status = processing; started_at = some now }

pub count : Tally → BatchJob → BatchJob
count r job = record job {
  processed_count = job.processed_count + r.processed;
  failed_count = job.failed_count + r.failed;
  completed_chunks = job.completed_chunks + 1;
}

pub close : BatchJobStatus → ℕ → BatchJob → BatchJob
close status now job = record job { status = status; completed_at = some now }

-- Does the returned row make its caller finalise the job?
unfoldable pub is_last : BatchJob → Bool
is_last job = leb job.total_chunks job.completed_chunks

module _ (D : Database) where
  mark_found : ℕ → Option BatchJob → Ctx → World D → World D
  unfolding mark
  mark_found id none ctx w = w
  mark_found id (some job) ctx w =
      if is_queued job.status
      then record w { jobs = D.jobs.put id (mark ctx.now job) w.jobs }
      else w

  -- `updateMany({ where: { id, status: 'QUEUED' }, data })`
  unfoldable pub mark_job_processing : ℕ → Ctx → World D → World D
  unfolding mark_found
  mark_job_processing id ctx w = mark_found id (D.jobs.find id w.jobs) ctx w

  increment_found : ℕ → Option BatchJob → Tally → World D → Option BatchJob × World D
  unfolding count
  increment_found id none r w = (none, w)
  increment_found id (some job) r w =
      (some (count r job), record w { jobs = D.jobs.put id (count r job) w.jobs })

  -- The one UPDATE of `recordChunkResult`, with the row that it returns; `none` is Prisma's P2025.
  unfoldable pub increment : ℕ → Tally → World D → Option BatchJob × World D
  unfolding increment_found
  increment id r w = increment_found id (D.jobs.find id w.jobs) r w

  finalize_found : BatchJob → Option BatchJob → Ctx → World D → Option BatchJobStatus × World D
  unfolding close
  finalize_found job none ctx w = (none, w)
  finalize_found job (some row) ctx w =
      let status = outcome job in
      if is_in_flight row.status
      then (
        some status,
        record w {
          jobs = D.jobs.put job.id (close status ctx.now row) w.jobs;
          audit =
              record_audit ctx.audit_up
                (record {
                  user_id = job.created_by_id;
                  action =
                      Action.batch_job_completed status job.total_txns job.processed_count
                        job.failed_count;
                  resource_id = some job.id;
                })
                w.audit;
        },
      )
      else (none, w)

  -- `updateMany({ where: { id, status: { in: IN_FLIGHT } }, data })` and the audit row of the one
  -- caller whose update met a row.
  unfoldable pub finalize_job : BatchJob → Ctx → World D → Option BatchJobStatus × World D
  unfolding finalize_found
  finalize_job job ctx w = finalize_found job (D.jobs.find job.id w.jobs) ctx w

  finish_chunk :
      Ctx → Option BatchJob × World D → Result (BatchJob × Option BatchJobStatus) × World D
  unfolding is_last
  finish_chunk ctx (none, w) = (throw (record { status_code = 404; code = Code.p2025 }), w)
  finish_chunk ctx (some job, w) =
      let (final, w') = finalize_job job ctx w in
      if is_last job then (ok (job, final), w') else (ok (job, none), w)

  unfoldable pub record_chunk_result :
      ℕ → Tally → Ctx → World D → Result (BatchJob × Option BatchJobStatus) × World D
  unfolding finish_chunk
  record_chunk_result id r ctx w = finish_chunk ctx (increment id r w)
