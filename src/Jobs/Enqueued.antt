-- ===== src/Jobs/Enqueued.antt =====
-- What a job has on the queue, and that its counters are fresh for the outcomes.
use transactguard.Prelude.{
  ℕ, suc, ◌+◌, ◌<◌, ◌≡◌, refl, sym, ap, ◌∙◌, Bool, false, some, List, [], ◌∷◌, ◌++◌, arith, ◌==◌,
  length, concat, length-append,
}
use transactguard.Queue.{ChunkMessage, chunk, chunk_size}
use transactguard.Queue.Chunks.{chunk_partitions}
use transactguard.Schema.{Database, World, BatchJob, queued}
use transactguard.Jobs.{messages}
use transactguard.Jobs.Counters.{Tally}
use transactguard.Jobs.Counters.Run.{Run, txns}
use transactguard.Jobs.Counters.Run.Finalised.{Fresh}

-- One outcome for each message, which counts the message's transactions.
abbrev pub Accounts : List Tally → List ChunkMessage → Type 0
Accounts [] [] = Unit
Accounts (t ∷ ts) (m ∷ ms) = (t.processed + t.failed ≡ length m.transaction_ids) × Accounts ts ms
Accounts _ _ = ⊥

Accounts-length :
    (job_id n : ℕ) (retry : Bool) (i : ℕ) (ts : List Tally) (cs : List (List ℕ))
    → Accounts ts (messages job_id n retry i cs)
    → (length ts ≡ length cs) × (txns ts ≡ length (concat cs))
unfolding messages
Accounts-length job_id n retry i [] [] h = (refl, refl)
Accounts-length job_id n retry i [] (c ∷ cs) h = absurd h
Accounts-length job_id n retry i (t ∷ ts) [] h = absurd h
Accounts-length job_id n retry i (t ∷ ts) (c ∷ cs) h =
    let (l, x) = Accounts-length job_id n retry (suc i) ts cs h.1 in
    (ap suc l, omega (arith, h.0, length-append c (concat cs)))

-- The calls of a run whose chunks are to come to these outcomes.
abbrev pub run_of : (D : Database) → World D → List Tally → Run D
run_of D w tallies = record { world = w; waiting = tallies; finalizing = []; finals = [] }

-- The messages that are put on the queue for these transactions.
abbrev pub enqueued : ℕ → Bool → List ℕ → List ChunkMessage
enqueued job_id retry ids =
    messages job_id (length (chunk ids chunk_size)) retry 0 (chunk ids chunk_size)

pub some_chunk : (ids : List ℕ) → 0 < length ids → 0 < length (chunk ids chunk_size)
some_chunk ids h =
    let (_, _, enough, _) = chunk_partitions ids chunk_size (omega arith) in omega (arith, enough)

-- A job in flight whose counters stand at `done` is fresh for the outcomes of its messages.
pub enqueued-Fresh :
    (D : Database) (w : World D) (id : ℕ) (retry : Bool) (ids : List ℕ) (row : BatchJob)
    → D.jobs.find id w.jobs ≡ some row
    → row.id ≡ id
    → row.status ≡ queued
    → row.completed_chunks ≡ 0
    → row.total_chunks ≡ length (chunk ids chunk_size)
    → row.failed_count ≡ 0
    → 0 < length ids
    → (tallies : List Tally) → Accounts tallies (enqueued id retry ids)
    → Fresh D id (row.processed_count + length ids) (run_of D w tallies)
enqueued-Fresh D w id retry ids row found keyed q none_done chunks clean some' tallies acc =
    let cs = chunk ids chunk_size in
    let (l, x) = Accounts-length id (length cs) retry 0 tallies cs acc in
    let (whole, _, _, _) = chunk_partitions ids chunk_size (omega arith) in
    let total : length (concat cs) ≡ length ids = ap length whole in
    record {
      row = row;
      found = found;
      keyed = keyed;
      flying = ground arith;
      none_done = none_done;
      chunks = chunks ∙ sym l;
      some_chunk = omega (arith, l, some_chunk ids some');
      counted = omega (arith, x, total, clean);
      none_finalizing = refl;
      none_told = refl;
    }

-- What a job that was enqueued in `w` for these transactions leaves in `w'`.
pub record Enqueued (D : Database) (id : ℕ) (retry : Bool) (done : ℕ) (ids : List ℕ)
    (w w' : World D) : Type 0 where
  pub some_id : 0 < length ids
  pub queue_is : w'.queue ≡ w.queue ++ enqueued id retry ids
  pub others : (j : ℕ) → (id == j) ≡ false → D.jobs.find j w'.jobs ≡ D.jobs.find j w.jobs
  pub untouched : w' ≡ record w { jobs = w'.jobs; queue = w'.queue; audit = w'.audit }
  pub fresh :
      (tallies : List Tally)
      → Accounts tallies (enqueued id retry ids)
      → Fresh D id (done + length ids) (run_of D w' tallies)
