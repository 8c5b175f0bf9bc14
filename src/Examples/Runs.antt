-- ===== src/Examples/Runs.antt =====
-- A run of a job of two chunks, the second of which reports first.
use transactguard.Prelude.{◌≡◌, refl, some, List, [], ◌∷◌, arith}
use transactguard.Schema.{BatchJob, BatchJobStatus, queued, partially_completed}
use transactguard.Jobs.Counters.{Tally, increment, finalize_job, is_last}
use transactguard.Jobs.{outcome}
use transactguard.Jobs.Counters.Run.{Run, Reach, here, next, report, finalise, land, settle}
use transactguard.Jobs.Counters.Run.Finalised.{Fresh, Finished, run_finalises, run_never_early}
use transactguard.Examples.Store.{store}
use transactguard.Examples.Data.{ctx, world, half_done}

abbrev job : BatchJob
job = record half_done {
  status = queued;
  total_txns = 3;
  processed_count = 0;
  failed_count = 0;
  total_chunks = 2;
  completed_chunks = 0;
}

abbrev one : Tally
one = record { processed = 1; failed = 1 }

abbrev two : Tally
two = record { processed = 1; failed = 0 }

abbrev start_run : Run store
start_run = record {
  world = record world { jobs = (7, job) ∷ [] };
  waiting = one ∷ two ∷ [];
  finalizing = [];
  finals = [];
}

start-Fresh : Fresh store 7 3 start_run
start-Fresh = record {
  row = job;
  found = refl;
  keyed = refl;
  flying = refl;
  none_done = refl;
  chunks = refl;
  some_chunk = omega arith;
  counted = refl;
  none_finalizing = refl;
  none_told = refl;
}

abbrev after_two : Run store
after_two = land store 7 two (one ∷ []) start_run

abbrev after_one : Run store
after_one = land store 7 one [] after_two

abbrev last_row : BatchJob
last_row = record job { processed_count = 2; failed_count = 1; completed_chunks = 2 }

abbrev finished : Run store
finished = settle store last_row [] ctx after_one

path : Reach store 7 start_run finished
unfolding land settle increment finalize_job is_last outcome
path =
    next (next (next here (report (one ∷ []) two [] refl refl)) (report [] one [] refl refl))
      (finalise [] last_row [] ctx refl refl)

run_finalises_example : Finished store 7 3 finished
unfolding land settle increment finalize_job is_last outcome
run_finalises_example = run_finalises store 7 3 start_run finished start-Fresh path refl refl

abbrev no_more : List BatchJobStatus
no_more = []

run_never_early_example :
    (finished.waiting ≡ [])
    × (finished.finalizing ≡ [])
    × (no_more ≡ [])
    × (row : BatchJob) × (store.jobs.find 7 finished.world.jobs ≡ some row)
    × (row.status ≡ partially_completed)
unfolding land settle increment finalize_job is_last outcome
run_never_early_example =
    run_never_early store 7 3 start_run finished start-Fresh path partially_completed no_more refl
