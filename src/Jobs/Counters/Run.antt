-- ===== src/Jobs/Counters/Run.antt =====
-- One run of a batch job: the database calls of all its chunks, in any order. A chunk marks the job
-- when it starts; when it is through it makes the one UPDATE of its counters, and later, if it was
-- the last, the guarded update that finalises the job. Between two calls of a chunk any call of
-- another chunk may come.
pub mod Phases
pub mod Invariant
pub mod Finalised
use transactguard.Prelude.{
  ℕ, ◌+◌, ◌≡◌, Bool, Option, none, some, List, [], ◌∷◌, ◌++◌, if◌then◌else◌,
}
use transactguard.Schema.{Database, World, Ctx, BatchJob, BatchJobStatus}
use transactguard.Jobs.Counters.{Tally, mark_job_processing, increment, finalize_job, is_last}

module _ (D : Database) where
  -- `waiting`: the outcomes of the chunks that have not reported; `finalizing`: the rows that the
  -- calls between their two updates hold; `finals`: the final status that each finished call saw.
  pub record Run : Type 0 where
    pub world : World D
    pub waiting : List Tally
    pub finalizing : List BatchJob
    pub finals : List (Option BatchJobStatus)

  pub land_row : Option BatchJob → World D → List Tally → Run → Run
  land_row none w rest r = record r { world = w; waiting = rest }
  land_row (some job) w rest r =
      if is_last job
      then record r { world = w; waiting = rest; finalizing = job ∷ r.finalizing }
      else record r { world = w; waiting = rest; finals = none ∷ r.finals }

  -- The UPDATE of one chunk.
  unfoldable pub land : ℕ → Tally → List Tally → Run → Run
  unfolding land_row
  land id t rest r = let (row, w) = increment D id t r.world in land_row row w rest r

  -- The finalisation by the call that holds `job`.
  unfoldable pub settle : BatchJob → List BatchJob → Ctx → Run → Run
  settle job rest ctx r =
      let (final, w) = finalize_job D job ctx r.world in
      record r { world = w; finalizing = rest; finals = final ∷ r.finals }

  pub data Step (id : ℕ) (r : Run) (u : Run) : Type 0 where
    start :
        (ctx : Ctx) → u ≡ record r { world = mark_job_processing D id ctx r.world } → Step id r u
    report :
        (before : List Tally) (t : Tally) (after : List Tally)
        → r.waiting ≡ before ++ (t ∷ after)
        → u ≡ land id t (before ++ after) r
        → Step id r u
    finalise :
        (before : List BatchJob) (job : BatchJob) (after : List BatchJob) (ctx : Ctx)
        → r.finalizing ≡ before ++ (job ∷ after)
        → u ≡ settle job (before ++ after) ctx r
        → Step id r u

  pub data Reach (id : ℕ) (r : Run) : Run → Type 0 where
    here : Reach id r r
    next : {t u : Run} → Reach id r t → Step id t u → Reach id r u

-- The calls that were told a final status.
abbrev pub chosen : List (Option BatchJobStatus) → List BatchJobStatus
chosen [] = []
chosen (none ∷ finals) = chosen finals
chosen (some s ∷ finals) = s ∷ chosen finals

-- The transactions that these outcomes account for.
abbrev pub txns : List Tally → ℕ
txns [] = 0
txns (t ∷ rest) = t.processed + t.failed + txns rest
