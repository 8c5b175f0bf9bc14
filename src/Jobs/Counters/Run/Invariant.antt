-- ===== src/Jobs/Counters/Run/Invariant.antt =====
-- The invariant of a run of a batch job, call by call.
use transactguard.Prelude.{
  ℕ, ◌+◌, ◌≡◌, sym, ap, ◌∙◌, inl, inr, true, some, List, [], ◌∷◌, ◌++◌, arith, length, Bool-cases,
}
use transactguard.Schema.{Database, World, Ctx, BatchJob}
use transactguard.Jobs.{is_queued, is_in_flight, outcome}
use transactguard.Jobs.Counters.{
  Tally, mark, count, close, mark_job_processing, increment, finalize_job, increment_found,
}
use transactguard.Jobs.Counters.Run.{
  Run, land, land_row, settle, Step, start, report, finalise, Reach, here, next, chosen, txns,
}
use transactguard.Jobs.Counters.Run.Phases.{
  Phase, working, closing, closed, length-remove, single_of_split, txns-append, mark-Phase,
  report-Phase,
}

module _ (D : Database) (id total : ℕ) where
  -- `total` transactions are counted or still to be counted.
  pub record Inv (r : Run D) : Type 0 where
    pub row : BatchJob
    pub found : D.jobs.find id r.world.jobs ≡ some row
    pub keyed : row.id ≡ id
    pub chunks : row.completed_chunks + length r.waiting ≡ row.total_chunks
    pub counted : row.processed_count + row.failed_count + txns r.waiting ≡ total
    pub phase : Phase row r.waiting r.finalizing r.finals

  start-Inv :
      (ctx : Ctx) (r : Run D)
      → Inv r
      → Inv (record r { world = mark_job_processing D id ctx r.world })
  unfolding mark_job_processing
  start-Inv ctx r v = elim (Bool-cases (is_queued v.row.status)) [
    | inl q ↦
        let w = D.jobs.put id (mark ctx.now v.row) r.world.jobs in
        record {
          row = mark ctx.now v.row;
          found = ground (arith, D.jobs.find-put id id (mark ctx.now v.row) r.world.jobs);
          keyed = v.keyed;
          chunks = v.chunks;
          counted = v.counted;
          phase = mark-Phase D ctx v.row r.waiting r.finalizing r.finals (ground arith) v.phase;
        }
    | inr n ↦ record {
      row = v.row;
      found = ground arith;
      keyed = v.keyed;
      chunks = v.chunks;
      counted = v.counted;
      phase = v.phase;
    }
  ]

  -- What the UPDATE of a chunk does to the row that is there.
  land_lem :
      (t : Tally) (rest : List Tally) (r : Run D) (row : BatchJob)
      → D.jobs.find id r.world.jobs ≡ some row
      → land D id t rest r
        ≡ land_row D
            (some (count t row))
            (record r.world { jobs = D.jobs.put id (count t row) r.world.jobs })
            rest
            r
  unfolding land increment
  land_lem t rest r row found = rw (found, increment_found)

  land_row-world :
      (job : BatchJob) (w : World D) (rest : List Tally) (r : Run D)
      → (land_row D (some job) w rest r).world ≡ w
  unfolding land_row
  land_row-world job w rest r = ground arith

  land_row-waiting :
      (job : BatchJob) (w : World D) (rest : List Tally) (r : Run D)
      → (land_row D (some job) w rest r).waiting ≡ rest
  unfolding land_row
  land_row-waiting job w rest r = ground arith

  report-Inv :
      (before : List Tally) (t : Tally) (after : List Tally) (r : Run D)
      → r.waiting ≡ before ++ (t ∷ after)
      → Inv r
      → Inv (land D id t (before ++ after) r)
  report-Inv before t after r e v =
      let w = record r.world { jobs = D.jobs.put id (count t v.row) r.world.jobs } in
      let at_world = land_row-world (count t v.row) w (before ++ after) r in
      let at_waiting = land_row-waiting (count t v.row) w (before ++ after) r in
      let one_less = length-remove before t after in
      let n = ap length e in
      let m = ap txns e in
      let fewer = txns-append before (t ∷ after) in
      rw (land_lem t (before ++ after) r v.row v.found) (record {
        row = count t v.row;
        found = rw at_world (ground (arith, D.jobs.find-put id id (count t v.row) r.world.jobs));
        keyed = unfold count in v.keyed;
        chunks = rw at_waiting (unfold count in omega (arith, v.chunks, n, one_less));
        counted =
            rw at_waiting
              (unfold count in omega (arith, v.counted, m, fewer, txns-append before after));
        phase = rw at_waiting (report-Phase D before t after r v.row w e v.chunks v.phase);
      })

  -- The call that finds the job in flight closes it.
  settle_lem :
      (job : BatchJob) (rest : List BatchJob) (ctx : Ctx) (r : Run D) (row : BatchJob)
      → D.jobs.find id r.world.jobs ≡ some row
      → job.id ≡ id
      → is_in_flight row.status ≡ true
      → let u = settle D job rest ctx r in
        (D.jobs.find id u.world.jobs ≡ some (close (outcome job) ctx.now row))
        × (u.finals ≡ some (outcome job) ∷ r.finals)
        × (u.waiting ≡ r.waiting)
        × (u.finalizing ≡ rest)
  unfolding settle finalize_job
  settle_lem job rest ctx r row found same flying =
      let here' : D.jobs.find job.id r.world.jobs ≡ some row = rw same found in
      let law = D.jobs.find-put job.id id (close (outcome job) ctx.now row) r.world.jobs in
      (ground (arith, law), ground arith, ground arith, ground arith)

  -- The one call that may finalise does so by the outcome of the counters.
  closing-Inv :
      (job : BatchJob) (rest : List BatchJob) (ctx : Ctx) (r : Run D) (v : Inv r)
      → rest ≡ []
      → r.waiting ≡ []
      → chosen r.finals ≡ []
      → is_in_flight v.row.status ≡ true
      → job.id ≡ v.row.id
      → job.processed_count ≡ v.row.processed_count
      → job.failed_count ≡ v.row.failed_count
      → Inv (settle D job rest ctx r)
  closing-Inv job rest ctx r v alone wt ch i k a b =
      let (at, told, still, left) = settle_lem job rest ctx r v.row v.found (k ∙ v.keyed) i in
      let row = close (outcome job) ctx.now v.row in
      let same : outcome job ≡ outcome row = unfold outcome close in ground arith in
      record {
        row = row;
        found = at;
        keyed = unfold close in v.keyed;
        chunks = rw still (unfold close in v.chunks);
        counted = rw still (unfold close in v.counted);
        phase =
            closed (still ∙ wt) (left ∙ alone) (ap chosen told ∙ ground (arith, same))
              (unfold close in same);
      }

  finalise-Inv :
      (before : List BatchJob) (job : BatchJob) (after : List BatchJob) (ctx : Ctx) (r : Run D)
      (v : Inv r)
      → r.finalizing ≡ before ++ (job ∷ after)
      → Phase v.row r.waiting r.finalizing r.finals
      → Inv (settle D job (before ++ after) ctx r)
  finalise-Inv before job after ctx r v e (working p f ch i) =
      absurd (omega (arith, ap length e, ap length f, length-remove before job after))
  finalise-Inv before job after ctx r v e (closing held wt f ch i k a b) =
      let (same, alone) = single_of_split before job after held (sym f ∙ e) in
      closing-Inv job (before ++ after) ctx r v alone wt ch i (ap (λ (j : BatchJob). j.id) same ∙ k)
        (ap (λ (j : BatchJob). j.processed_count) same ∙ a)
        (ap (λ (j : BatchJob). j.failed_count) same ∙ b)
  finalise-Inv before job after ctx r v e (closed wt f ch s) =
      absurd (omega (arith, ap length e, ap length f, length-remove before job after))

  pub Step-Inv : {r u : Run D} → Step D id r u → Inv r → Inv u
  Step-Inv {r = r} (start ctx e) v = rw e (start-Inv ctx r v)
  Step-Inv {r = r} (report before t after h e) v = rw e (report-Inv before t after r h v)
  Step-Inv {r = r} (finalise before job after ctx h e) v =
      rw e (finalise-Inv before job after ctx r v h v.phase)

  pub Reach-Inv : {r u : Run D} → Inv r → Reach D id r u → Inv u
  Reach-Inv v here = v
  Reach-Inv v (next path step) = Step-Inv step (Reach-Inv v path)
