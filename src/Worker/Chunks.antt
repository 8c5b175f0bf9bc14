-- ===== src/Worker/Chunks.antt =====
-- What a chunk reports, scored or given up.
use transactguard.Prelude.{
  ℕ, ltb, false, ◌-◌, ◌<◌, nodup, ◌+◌, ◌≤◌, ◌≡◌, refl, sym, ◌∙◌, true, Option, none, some, List,
  arith, length, elem, length-le_of_subset,
}
use transactguard.Errors.{ApiError, Result, ok, throw}
use transactguard.Queue.{ChunkMessage, attempts}
use transactguard.Schema.{Database, World, Ctx, BatchJob, BatchJobStatus}
use transactguard.Jobs.Counters.{Tally, mark_job_processing, record_chunk_result}
use transactguard.Jobs.Resolve.{ScoredBy, scored_by-own}
use transactguard.Jobs.Counters.Recorded.{
  Stands, Stands-jobs, mark_job_processing-Stands, record_chunk_result-Stands,
}
use transactguard.Worker.{
  Env, ChunkDone, publications, report_chunk, report_scored, is_retryable_code, scored_among,
  score_all, count_scored, salvaged, process_chunk, on_failed,
}
use transactguard.Worker.Scored.{
  score_all-ok, score_all-throw, score_all-jobs, scored_among-elem, scored_among-ScoredBy,
}

module _ (D : Database) where
  count_scored-le :
      (job_id : ℕ) (ids : List ℕ) (w : World D) → count_scored D job_id ids w ≤ length ids
  unfolding count_scored
  count_scored-le job_id ids w =
      length-le_of_subset (D.predictions.find_ids (scored_among job_id ids) w.predictions) ids
        (D.predictions.nodup-find_ids (scored_among job_id ids) w.predictions)
        λ a m.
          scored_among-elem job_id ids a (D.predictions.find a w.predictions)
            (sym (D.predictions.elem-find_ids (scored_among job_id ids) w.predictions a) ∙ m)

  report_chunk-made :
      (job_id : ℕ) (t : Tally) (ctx : Ctx) (w : World D) (x : BatchJob × Option BatchJobStatus)
      → (record_chunk_result D job_id t ctx w).0 ≡ ok x
      → report_chunk D job_id t ctx w ≡ (
        ok (record { tally = t; published = publications x.0 x.1 }),
        (record_chunk_result D job_id t ctx w).1,
      )
  unfolding report_chunk
  report_chunk-made job_id t ctx w x made = ground (arith, made)

  report_scored-ok :
      (job_id : ℕ) (ctx : Ctx) (p f c : ℕ) (x : Result Tally × World D)
      → Stands D job_id p f c x.1
      → ((done : ChunkDone)
          → (report_scored D job_id ctx x).0 ≡ ok done
          → (t : Tally) × (x.0 ≡ ok t)
            × Stands D job_id
                (p + t.processed)
                (f + t.failed)
                (c + 1)
                (report_scored D job_id ctx x).1)
        × ((e : ApiError)
            → (report_scored D job_id ctx x).0 ≡ throw e
            → (x.0 ≡ throw e) × Stands D job_id p f c (report_scored D job_id ctx x).1)
  unfolding report_scored
  report_scored-ok job_id ctx p f c (throw e, w) s = (λ done h. absurd (cc), λ e' h. (cc, s))
  report_scored-ok job_id ctx p f c (ok t, w) s =
      let (stands, (x, made)) = record_chunk_result-Stands D job_id p f c t ctx w s in
      rw (report_chunk-made job_id t ctx w x made) (λ done h. (t, refl, stands), λ e h. absurd (cc))

  -- A chunk of a job whose row is there: when its handler is through, the row has one chunk more, and
  -- its two counters have grown by the number of the chunk's transactions together; when the handler
  -- throws, a retryable code is the reason and no counter has changed.
  pub process_chunk_accounts :
      (env : ℕ → Env) (m : ChunkMessage) (ctx : Ctx) (w : World D) (p f c : ℕ)
      → Stands D m.batch_job_id p f c w
      → ((done : ChunkDone)
          → (process_chunk D env m ctx w).0 ≡ ok done
          → (t : Tally) × (t.processed + t.failed ≡ length m.transaction_ids)
            × Stands D m.batch_job_id
                (p + t.processed)
                (f + t.failed)
                (c + 1)
                (process_chunk D env m ctx w).1)
        × ((e : ApiError)
            → (process_chunk D env m ctx w).0 ≡ throw e
            → (is_retryable_code e.code ≡ true)
              × Stands D m.batch_job_id p f c (process_chunk D env m ctx w).1)
  unfolding process_chunk
  process_chunk_accounts env m ctx w p f c s =
      let start : Tally = record { processed = 0; failed = 0 } in
      let w' = mark_job_processing D m.batch_job_id ctx w in
      let x = score_all D env m.batch_job_id m.transaction_ids start w' in
      let marked = mark_job_processing-Stands D m.batch_job_id p f c ctx w s in
      let kept = score_all-jobs D env m.batch_job_id m.transaction_ids start w' in
      let (fine, failing) =
        report_scored-ok m.batch_job_id ctx p f c x
          (Stands-jobs D m.batch_job_id p f c w' x.1 kept marked) in
      (
        λ done h.
            let (t, scored, stands) = fine done h in
            let total = score_all-ok D env m.batch_job_id m.transaction_ids start t w' scored in
            (t, omega (arith, total), stands),
        λ e h.
            let (thrown, stands) = failing e h in
            (score_all-throw D env m.batch_job_id m.transaction_ids start w' e thrown, stands),
      )

  -- The transactions of the chunk that the job has scored, each once.
  pub record Salvage (job_id : ℕ) (ids : List ℕ) (w : World D) (scored : List ℕ) : Type 0 where
    pub once : nodup scored ≡ true
    pub fits : length scored ≤ length ids
    pub are : (a : ℕ) → elem a scored ≡ true → (elem a ids ≡ true) × ScoredBy D w job_id a
    pub all : (a : ℕ) → elem a ids ≡ true → ScoredBy D w job_id a → elem a scored ≡ true

  scored-Salvage :
      (job_id : ℕ) (ids : List ℕ) (w : World D)
      → Salvage job_id ids w (D.predictions.find_ids (scored_among job_id ids) w.predictions)
  unfolding scored_among count_scored
  scored-Salvage job_id ids w =
      let scored = D.predictions.find_ids (scored_among job_id ids) w.predictions in
      let listed = D.predictions.elem-find_ids (scored_among job_id ids) w.predictions in
      record {
        once = D.predictions.nodup-find_ids (scored_among job_id ids) w.predictions;
        fits = count_scored-le job_id ids w;
        are = λ a m.
            scored_among-ScoredBy job_id ids a (D.predictions.find a w.predictions)
              (sym (listed a) ∙ m);
        all = λ a m (p, found, own).
            listed a ∙ rw found (ground (arith, m, scored_by-own job_id (some p) p refl own));
      }

  -- The handler of a failed chunk of a job whose row is there. Before the last attempt it changes
  -- nothing. After it, the row has one chunk more; those of the chunk's transactions that the job has
  -- scored are counted as processed and the others as failed, so that with the counts before every
  -- transaction of the chunk is accounted for.
  pub on_failed_accounts :
      (attempts_made : ℕ) (m : ChunkMessage) (ctx : Ctx) (w : World D) (p f c : ℕ)
      → Stands D m.batch_job_id p f c w
      → (attempts_made < attempts → on_failed D attempts_made m ctx w ≡ (none, w))
        × (attempts ≤ attempts_made
            → (scored : List ℕ) × Salvage m.batch_job_id m.transaction_ids w scored
              × Stands D m.batch_job_id
                  (p + length scored)
                  (f + (length m.transaction_ids - length scored))
                  (c + 1)
                  (on_failed D attempts_made m ctx w).1)
  unfolding on_failed salvaged count_scored
  on_failed_accounts attempts_made m ctx w p f c s = (
    λ early. let b : ltb attempts_made attempts ≡ true = ground (arith, early) in rw b refl,
    λ last.
        let b : ltb attempts_made attempts ≡ false = ground (arith, last) in
        let t = salvaged D m w in
        let (stands, (x, made)) = record_chunk_result-Stands D m.batch_job_id p f c t ctx w s in
        (
          D.predictions.find_ids (scored_among m.batch_job_id m.transaction_ids) w.predictions,
          scored-Salvage m.batch_job_id m.transaction_ids w,
          rw b (rw (report_chunk-made m.batch_job_id t ctx w x made) stands),
        ),
  )
