-- ===== src/Examples/Jobs.antt =====
-- Batch jobs.
use transactguard.Prelude.{◌≡◌, refl, true, false, none, some, [], ◌∷◌}
use transactguard.Jobs.{CreateBody, create_job, resolve_transaction_ids}
use transactguard.Jobs.Enqueued.{Enqueued}
use transactguard.Jobs.Enqueue.{Lists, create_job-ok}
use transactguard.Examples.Store.{store}
use transactguard.Examples.Data.{ctx, world}

abbrev body : CreateBody
body = record { name = "first"; transaction_ids = 1 ∷ 3 ∷ 1 ∷ []; unscored = false; limit = none }

abbrev of_removed : CreateBody
of_removed = record body { transaction_ids = 3 ∷ [] }

abbrev of_unscored : CreateBody
of_unscored = record body { unscored = true; limit = some 1 }

create_job-ok_example :
    Enqueued store 50 false 0
      (resolve_transaction_ids store body world).0
      world
      (create_job store body 4 ctx world).1
    × Lists store 50
        (resolve_transaction_ids store body world).0
        (create_job store body 4 ctx world).1
    × (1 ≡ (resolve_transaction_ids store body world).1)
unfolding create_job resolve_transaction_ids
create_job-ok_example = create_job-ok store 4 ctx world body _ refl
