-- ===== src/Examples/Review.antt =====
-- A decision on a case, and what the error handler shows.
use transactguard.Prelude.{none, ℕ, ◌≡◌, ◌==◌, arith, refl, false, some}
use transactguard.Errors.{Code, throw}
use transactguard.Errors.Raise
use transactguard.Schema.{Case, confirmed_fraud}
use transactguard.Cases.{
  undefined, value, Patch, update_data, is_empty, apply, find_case, update_case,
}
use transactguard.Cases.Resolution.{Updated, IsConsistent, update_case-ok, update_case-IsConsistent}
use transactguard.Predictions.{score_and_persist}
use transactguard.Transactions.{get_transaction_by_id, soft_delete_transaction}
use transactguard.Transactions.Deleted.{deleted_is_gone}
use transactguard.Examples.Store.{store}
use transactguard.Examples.Data.{scoring, ctx, world, open_case}

abbrev patch : Patch
patch = record { status = some confirmed_fraud; notes = value "seen"; assigned_to_id = undefined }

abbrev decided_case : Case
decided_case = record open_case {
  status = confirmed_fraud;
  resolved_at = some 20;
  notes = some "seen";
  assigned_to_id = some 4;
}

update_case-ok_example :
    (old : Case) × (find_case store 9 world ≡ some old)
    × Updated patch 4 ctx old decided_case
    × (store.cases.find 9 (update_case store 9 patch 4 ctx world).1.cases ≡ some decided_case)
    × ((j : ℕ)
        → (9 == j) ≡ false
        → store.cases.find j (update_case store 9 patch 4 ctx world).1.cases
          ≡ store.cases.find j world.cases)
unfolding update_case find_case update_data is_empty apply
update_case-ok_example = update_case-ok store 9 patch 4 ctx world decided_case refl

open_case-IsConsistent : (old : Case) → find_case store 9 world ≡ some old → IsConsistent old
unfolding find_case
open_case-IsConsistent old h = ground arith

update_case-IsConsistent_example : IsConsistent decided_case
unfolding update_case find_case update_data is_empty apply
update_case-IsConsistent_example =
    update_case-IsConsistent store 9 patch 4 ctx world decided_case open_case-IsConsistent refl

deleted_is_gone_example :
    let w' = (soft_delete_transaction store 1 4 ctx world).1 in
    (get_transaction_by_id store 1 w' ≡ throw Raise.not_found)
    × (score_and_persist store scoring 1 none ctx w' ≡ (throw Raise.not_found, w'))
    × (soft_delete_transaction store 1 5 ctx w' ≡ (throw (Raise.conflict Code.already_deleted), w'))
unfolding soft_delete_transaction
deleted_is_gone_example = deleted_is_gone store 1 4 ctx world _ scoring none ctx 5 refl
