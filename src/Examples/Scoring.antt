-- ===== src/Examples/Scoring.antt =====
-- Scoring one transaction and a chunk of them, and the queue that carries the chunks.
use transactguard.Prelude.{
  ℕ, ◌-◌, ◌<◌, ◌+◌, ◌≤◌, ◌≡◌, refl, ◌⊎◌, true, false, none, some, List, [], ◌∷◌, length, ◌==◌,
  if◌then◌else◌,
}
use transactguard.Errors.{Code, ApiError, ok, throw}
use transactguard.Errors.Raise
use transactguard.Queue.{ChunkMessage, attempts}
use transactguard.Schema.{Transaction, Prediction, RiskLevel}
use transactguard.MlClient.{Scored, to_ml_request, safe_parse, predict_single}
use transactguard.MlClient.Codes.{Unscorable, Upstream, has_balances}
use transactguard.Predictions.{Outcome, live, score_and_persist, upserted}
use transactguard.Predictions.Atomic.{Stores, score_and_persist-throw, score_and_persist-ok}
use transactguard.Jobs.Counters.{Tally}
use transactguard.Jobs.Counters.Recorded.{Stands}
use transactguard.Worker.{ChunkDone, is_retryable_code, Env, process_chunk, on_failed}
use transactguard.Worker.Chunks.{Salvage, process_chunk_accounts, on_failed_accounts}
use transactguard.Examples.Store.{store}
use transactguard.Examples.Data.{ctx, world, half_done, payment, scoring, down}

abbrev ids : List ℕ
ids = 1 ∷ 2 ∷ 3 ∷ []

abbrev unavailable : ApiError
unavailable = Raise.make 502 Code.ml_service_unavailable

abbrev scored : Scored
scored = record {
  txn_id = "T1";
  risk_score = 91;
  risk_level = RiskLevel.critical;
  explanation_summary = "drained";
  feature_contributions = [];
  model_version = "v1";
  latency_ms = 4;
}

abbrev gone : ApiError
gone = Raise.not_found

score_and_persist-throw_example :
    ((score_and_persist store scoring 3 none ctx world).1 ≡ world)
    × (((live (store.transactions.find 3 world.transactions) ≡ none) × (gone.status_code ≡ 404))
        ⊎ ((t : Transaction) × (live (store.transactions.find 3 world.transactions) ≡ some t)
            × (Unscorable t gone ⊎ ((has_balances t ≡ true) × Upstream gone))))
unfolding score_and_persist
score_and_persist-throw_example = score_and_persist-throw store scoring 3 none ctx world gone refl

abbrev prediction : Prediction
prediction = record {
  id = 50;
  transaction_id = 1;
  risk_score = 91;
  risk_level = RiskLevel.critical;
  explanation_summary = "drained";
  feature_contributions = [];
  model_version = "v1";
  latency_ms = 4;
  created_at = 20;
  batch_job_id = some 7;
}

abbrev first_score : Outcome
first_score = record {
  transaction = payment;
  prediction = prediction;
  scored = scored;
  rescored = false;
}

score_and_persist-ok_example :
    let w' = (score_and_persist store scoring 1 (some 7) ctx world).1 in
    (live (store.transactions.find 1 world.transactions) ≡ some payment)
    × (predict_single scoring payment ≡ ok scored)
    × Stores first_score 1 (some 7)
    × ((j : ℕ)
        → store.predictions.find j w'.predictions
          ≡ (if 1 == j then some prediction else store.predictions.find j world.predictions))
    × (w' ≡ record world { predictions = w'.predictions })
    × ((old : Prediction)
        → store.predictions.find 1 world.predictions ≡ some old
        → (false ≡ true) × (50 ≡ old.id) × (20 ≡ old.created_at))
unfolding score_and_persist upserted predict_single to_ml_request safe_parse
score_and_persist-ok_example =
    score_and_persist-ok store scoring 1 (some 7) ctx world first_score refl

abbrev env : ℕ → Env
env id = record { fetch = scoring; ctx = ctx }

abbrev env_down : ℕ → Env
env_down id = record { fetch = down; ctx = ctx }

abbrev zero_tally : Tally
zero_tally = record { processed = 0; failed = 0 }

abbrev tally : Tally
tally = record { processed = 1; failed = 2 }

abbrev message : ChunkMessage
message = record {
  batch_job_id = 7;
  transaction_ids = ids;
  chunk_index = 0;
  total_chunks = 1;
  retry = false;
}

half_done-Stands :
    Stands store 7 half_done.processed_count half_done.failed_count half_done.completed_chunks world
half_done-Stands = record {
  row = half_done;
  found = refl;
  keyed = refl;
  processed_is = refl;
  failed_is = refl;
  chunks_is = refl;
}

process_chunk_accounts_example :
    ((done : ChunkDone)
      → (process_chunk store env message ctx world).0 ≡ ok done
      → (t : Tally) × (t.processed + t.failed ≡ 3)
        × Stands store 7
            (half_done.processed_count + t.processed)
            (half_done.failed_count + t.failed)
            (half_done.completed_chunks + 1)
            (process_chunk store env message ctx world).1)
    × ((e : ApiError)
        → (process_chunk store env message ctx world).0 ≡ throw e
        → (is_retryable_code e.code ≡ true)
          × Stands store 7 half_done.processed_count half_done.failed_count
              half_done.completed_chunks
              (process_chunk store env message ctx world).1)
process_chunk_accounts_example =
    process_chunk_accounts store env message ctx world half_done.processed_count
      half_done.failed_count half_done.completed_chunks half_done-Stands

on_failed_accounts_example :
    (3 < attempts → on_failed store 3 message ctx world ≡ (none, world))
    × (attempts ≤ 3
        → (scored' : List ℕ) × Salvage store 7 ids world scored'
          × Stands store 7
              (half_done.processed_count + length scored')
              (half_done.failed_count + (3 - length scored'))
              (half_done.completed_chunks + 1)
              (on_failed store 3 message ctx world).1)
on_failed_accounts_example =
    on_failed_accounts store 3 message ctx world half_done.processed_count half_done.failed_count
      half_done.completed_chunks half_done-Stands
