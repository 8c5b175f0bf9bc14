-- ===== src/Jobs/Counters/Recorded.antt =====
-- What the report of a chunk does to the counters of its job.
use transactguard.Prelude.{
  ℕ, ◌+◌, ◌≡◌, refl, ◌∙◌, ap, inl, inr, Option, none, some, ==_refl, Bool-cases,
}
use transactguard.Errors.{ok}
use transactguard.Schema.{Database, World, Ctx, BatchJob, BatchJobStatus}
use transactguard.Jobs.{is_in_flight, is_queued, outcome}
use transactguard.Jobs.Counters.{
  Tally, close, mark, mark_found, mark_job_processing, count, increment, increment_found, is_last,
  finalize_job, finalize_found, finish_chunk, record_chunk_result,
}

module _ (D : Database) (id : ℕ) where
  -- The row is there and keeps its key, with these counters.
  pub record Stands (processed failed chunks : ℕ) (w : World D) : Type 0 where
    pub row : BatchJob
    pub found : D.jobs.find id w.jobs ≡ some row
    pub keyed : row.id ≡ id
    pub processed_is : row.processed_count ≡ processed
    pub failed_is : row.failed_count ≡ failed
    pub chunks_is : row.completed_chunks ≡ chunks

  put-Stands :
      (p f c : ℕ) (w v : World D) (row : BatchJob)
      → v.jobs ≡ D.jobs.put id row w.jobs
      → row.id ≡ id
      → row.processed_count ≡ p
      → row.failed_count ≡ f
      → row.completed_chunks ≡ c
      → Stands p f c v
  put-Stands p f c w v row e k hp hf hc = record {
    row = row;
    found = rw e (D.jobs.find-put id id row w.jobs ∙ (rw (==_refl id)));
    keyed = k;
    processed_is = hp;
    failed_is = hf;
    chunks_is = hc;
  }

  pub Stands-jobs : (p f c : ℕ) (w v : World D) → v.jobs ≡ w.jobs → Stands p f c w → Stands p f c v
  Stands-jobs p f c w v e s = record {
    row = s.row;
    found = rw e s.found;
    keyed = s.keyed;
    processed_is = s.processed_is;
    failed_is = s.failed_is;
    chunks_is = s.chunks_is;
  }

  pub mark_job_processing-Stands :
      (p f c : ℕ) (ctx : Ctx) (w : World D)
      → Stands p f c w
      → Stands p f c (mark_job_processing D id ctx w)
  unfolding mark_job_processing mark_found mark
  mark_job_processing-Stands p f c ctx w s = elim (Bool-cases (is_queued s.row.status)) [
    | inl q ↦
        let row = mark ctx.now s.row in
        let at = s.found in
        put-Stands p f c w (mark_job_processing D id ctx w) row (rw at (rw q refl)) s.keyed
          s.processed_is s.failed_is s.chunks_is
    | inr q ↦
        let at = s.found in
        let same : mark_job_processing D id ctx w ≡ w = rw at (rw q refl) in rw same s
  ]

  finalize_job-Stands :
      (p f c : ℕ) (job : BatchJob) (ctx : Ctx) (w : World D)
      → job.id ≡ id
      → Stands p f c w
      → Stands p f c (finalize_job D job ctx w).1
  unfolding finalize_job finalize_found close
  finalize_job-Stands p f c job ctx w k s = elim (Bool-cases (is_in_flight s.row.status)) [
    | inl q ↦
        let row = close (outcome job) ctx.now s.row in
        let at = s.found in
        put-Stands p f c w (finalize_job D job ctx w).1 row (rw (k, at) (rw q refl)) s.keyed
          s.processed_is s.failed_is s.chunks_is
    | inr q ↦
        let at = s.found in
        let same : (finalize_job D job ctx w).1 ≡ w = rw (k, at) (rw q refl) in rw same s
  ]

  finish_chunk-Stands :
      (p f c : ℕ) (job : BatchJob) (ctx : Ctx) (w : World D)
      → job.id ≡ id
      → Stands p f c w
      → Stands p f c (finish_chunk D ctx (some job, w)).1
        × ((x : BatchJob × Option BatchJobStatus) × ((finish_chunk D ctx (some job, w)).0 ≡ ok x))
  unfolding finish_chunk
  finish_chunk-Stands p f c job ctx w k s = elim (Bool-cases (is_last job)) [
    | inl last ↦ (
      rw last (finalize_job-Stands p f c job ctx w k s),
      ((job, (finalize_job D job ctx w).0), rw last refl),
    )
    | inr more ↦ (rw more s, ((job, none), rw more refl))
  ]

  -- A report adds its two numbers and one chunk to the counters of the job, also when it goes on to
  -- finalise it.
  pub record_chunk_result-Stands :
      (p f c : ℕ) (t : Tally) (ctx : Ctx) (w : World D)
      → Stands p f c w
      → Stands (p + t.processed) (f + t.failed) (c + 1) (record_chunk_result D id t ctx w).1
        × ((x : BatchJob × Option BatchJobStatus) × ((record_chunk_result D id t ctx w).0 ≡ ok x))
  unfolding record_chunk_result increment increment_found count
  record_chunk_result-Stands p f c t ctx w s =
      let row = count t s.row in
      let v : World D = record w { jobs = D.jobs.put id row w.jobs } in
      let at = s.found in
      let step : record_chunk_result D id t ctx w ≡ finish_chunk D ctx (some row, v) = rw at refl in
      let stands : Stands (p + t.processed) (f + t.failed) (c + 1) v =
        put-Stands (p + t.processed) (f + t.failed) (c + 1) w v row refl s.keyed
          (ap (λ n. n + t.processed) s.processed_is) (ap (λ n. n + t.failed) s.failed_is)
          (ap (λ n. n + 1) s.chunks_is) in
      rw step
        (finish_chunk-Stands (p + t.processed) (f + t.failed) (c + 1) row ctx v s.keyed stands)
