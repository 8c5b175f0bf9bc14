-- ===== src/Jobs/Counters/Run/Finalised.antt =====
-- When and how a run finalises its batch job.
use transactguard.Prelude.{ℕ, ◌+◌, ◌<◌, ◌≡◌, true, some, List, [], ◌∷◌, arith, length}
use transactguard.Schema.{Database, BatchJob, BatchJobStatus}
use transactguard.Jobs.{is_in_flight, outcome}
use transactguard.Jobs.Counters.Run.{Run, Reach, chosen, txns}
use transactguard.Jobs.Counters.Run.Phases.{Phase, working, closing, closed}
use transactguard.Jobs.Counters.Run.Invariant.{Inv, Reach-Inv}

module _ (D : Database) (id total : ℕ) where
  -- A job that was just put on the queue, with at least one chunk and none reported.
  pub record Fresh (r : Run D) : Type 0 where
    pub row : BatchJob
    pub found : D.jobs.find id r.world.jobs ≡ some row
    pub keyed : row.id ≡ id
    pub flying : is_in_flight row.status ≡ true
    pub none_done : row.completed_chunks ≡ 0
    pub chunks : row.total_chunks ≡ length r.waiting
    pub some_chunk : 0 < length r.waiting
    pub counted : row.processed_count + row.failed_count + txns r.waiting ≡ total
    pub none_finalizing : r.finalizing ≡ []
    pub none_told : r.finals ≡ []

  Fresh-Inv : (r : Run D) → Fresh r → Inv D id total r
  Fresh-Inv r f = record {
    row = f.row;
    found = f.found;
    keyed = f.keyed;
    chunks = omega (arith, f.none_done, f.chunks);
    counted = f.counted;
    phase = working f.some_chunk f.none_finalizing (let e = f.none_told in rw e) f.flying;
  }

  -- The job as it stands, and the status that its calls were told.
  pub record Finished (u : Run D) : Type 0 where
    pub row : BatchJob
    pub found : D.jobs.find id u.world.jobs ≡ some row
    pub told_once : chosen u.finals ≡ row.status ∷ []
    pub by_counters : row.status ≡ outcome row
    pub all_chunks : row.completed_chunks ≡ row.total_chunks
    pub all_counted : row.processed_count + row.failed_count ≡ total

  Phase-done :
      (u : Run D) (v : Inv D id total u)
      → u.waiting ≡ []
      → u.finalizing ≡ []
      → Phase v.row u.waiting u.finalizing u.finals
      → Finished u
  Phase-done u v w f (working p _ _ _) = absurd (let q = rw w at p in omega arith)
  Phase-done u v w f (closing job _ g _ _ _ _ _) = absurd (ground arith)
  Phase-done u v w f (closed _ _ ch s) = record {
    row = v.row;
    found = v.found;
    told_once = rw s ch;
    by_counters = s;
    all_chunks = let c = rw w at v.chunks in omega arith;
    all_counted = let c = rw w at v.counted in omega arith;
  }

  -- Once every chunk of a fresh job has made its calls, in whatever order, exactly one of them was
  -- told a final status; it is the status of the row and the one that the counters call for, and
  -- the counters account for every chunk and every transaction.
  pub run_finalises :
      (r u : Run D) → Fresh r → Reach D id r u → u.waiting ≡ [] → u.finalizing ≡ [] → Finished u
  run_finalises r u f path w g =
      let v = Reach-Inv D id total (Fresh-Inv r f) path in Phase-done u v w g v.phase

  Phase-told :
      (u : Run D) (row : BatchJob)
      → Phase row u.waiting u.finalizing u.finals
      → (s : BatchJobStatus) (rest : List BatchJobStatus) → chosen u.finals ≡ s ∷ rest
      → (u.waiting ≡ []) × (u.finalizing ≡ []) × (rest ≡ []) × (row.status ≡ s)
  Phase-told u row (working _ _ n _) s rest e = absurd (cc)
  Phase-told u row (closing _ _ _ n _ _ _ _) s rest e = absurd (cc)
  Phase-told u row (closed w f ch st) s rest e = (w, f, cc, cc)

  -- Whenever, in a run of a fresh job, some call has been told a final status, every chunk has
  -- reported, no call is still to finalise, no other call was told one, and it is the row's status.
  pub run_never_early :
      (r u : Run D)
      → Fresh r
      → Reach D id r u
      → (s : BatchJobStatus) (rest : List BatchJobStatus) → chosen u.finals ≡ s ∷ rest
      → (u.waiting ≡ [])
        × (u.finalizing ≡ [])
        × (rest ≡ [])
        × (row : BatchJob) × (D.jobs.find id u.world.jobs ≡ some row)
        × (row.status ≡ s)
  run_never_early r u f path s rest e =
      let v = Reach-Inv D id total (Fresh-Inv r f) path in
      let (w, g, alone, st) = Phase-told u v.row v.phase s rest e in
      (w, g, alone, v.row, v.found, st)

  -- A way from `r` to a run with nothing left to do, whose job is finalised.
  pub record CanFinish (r : Run D) : Type 0 where
    pub last : Run D
    pub path : Reach D id r last
    pub no_chunk : last.waiting ≡ []
    pub no_call : last.finalizing ≡ []
    pub finished : Finished last
