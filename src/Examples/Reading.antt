-- ===== src/Examples/Reading.antt =====
-- The export, the listings, the cases to be made and the figures of the dashboard.
use transactguard.Prelude.{
  ℕ, ◌*◌, ◌≤◌, ◌+◌, ◌<◌, min, ◌≡◌, refl, arith, String, Bool, true, false, none, some, List, [],
  ◌∷◌, ltb, length, concat, filter, take, All, Table, matches,
}
use transactguard.Errors.Raise
use transactguard.Schema.{World, Prediction, viewer, critical}
use transactguard.Auth.{Principal}
use transactguard.Cases.Backfill.{missing, missing_case, has_no_case, flagged, backfill_cases}
use transactguard.Cases.Backfill.Inserted.{Fresh}
use transactguard.Cases.Backfill.Once.{backfill_cases_progress, backfill_cases_idempotent}
use transactguard.Analytics.{Row}
use transactguard.Analytics.Network.{is_flagged, repeated, touches, ids, get_network}
use transactguard.Analytics.Network.Closed.{distinct, EndsIn, Marked, get_network_is_a_graph}
use transactguard.Listing.Filters.{TransactionQuery, CaseQuery}
use transactguard.Listing.Endpoints.{list_cases}
use transactguard.Listing.Visible.{ShowsRisk, list_cases-ShowsRisk}
use transactguard.Listing.{OrderBy, list_page}
use transactguard.Listing.Export.{
  from_cursor, matching, export_page, after_batch, stream_predictions,
}
use transactguard.Listing.Export.Complete.{Covers, stream_predictions-Covers}
use transactguard.Listing.Export.Finish.{stream_predictions_returns}
use transactguard.Listing.Pages.{list_page_bounds}
use transactguard.Examples.Store.{rows, store}
use transactguard.Examples.Data.{world, payment, without_balances}

abbrev table : Table ℕ
table = rows

abbrev three : List (ℕ × ℕ)
three = (5, 0) ∷ (2, 0) ∷ (9, 0) ∷ []

abbrev every : ℕ → ℕ → Bool
every id r = true

stream_predictions-Covers_example :
    Covers table every 2 none three
      (concat (stream_predictions table every 2 none (three ∷ three ∷ [])).batches)
unfolding stream_predictions export_page from_cursor matching after_batch
stream_predictions-Covers_example =
    stream_predictions-Covers table every 2 none three (three ∷ []) (omega arith) (λ id h. h, tt) tt
      refl

abbrev one : List (ℕ × ℕ)
one = (1, 0) ∷ []

one-below : (id : ℕ) → matches every id (table.find id one) ≡ true → id < 2
one-below id h = ground (arith, h)

stream_predictions_returns_example :
    (stream_predictions table every 1 none (one ∷ one ∷ one ∷ [])).finished ≡ true
stream_predictions_returns_example =
    stream_predictions_returns table every 1 2 (one ∷ one ∷ one ∷ [])
      (one-below, (one-below, (one-below, tt))) (omega arith)

abbrev pub as_stored : {R : Type 0} → (T : Table R) → OrderBy T
as_stored T = record {
  arrange = λ s ids. ids;
  length-arrange = λ s ids. refl;
  elem-arrange = λ s id ids. refl;
}

list_page_bounds_example :
    ((list_page table (as_stored table) every 2 2 3 three).pagination.has_next_page ≡ ltb (2 * 2) 3)
    × (3 ≤ (list_page table (as_stored table) every 2 2 3 three).pagination.total_pages * 2)
    × (length (list_page table (as_stored table) every 2 2 3 three).rows ≤ 2)
list_page_bounds_example = list_page_bounds table (as_stored table) every 2 2 3 three (omega arith)

abbrev anything : String → String → Bool
anything needle text = true

abbrev bare_query : TransactionQuery
bare_query = record {
  page = 1;
  page_size = 2;
  txn_type = none;
  merchant_category = none;
  from = none;
  to = none;
  min_amount = none;
  max_amount = some 600;
  search = none;
  include_deleted = false;
}

abbrev watcher : Principal
watcher = record { id = 4; email = none; role = some viewer; jti = 1; exp = 900 }

abbrev asking : TransactionQuery
asking = record bare_query { include_deleted = true }

abbrev pub flagged_payment : Prediction
flagged_payment = record {
  id = 30;
  transaction_id = 1;
  risk_score = 91;
  risk_level = critical;
  explanation_summary = "drained";
  feature_contributions = [];
  model_version = "v1";
  latency_ms = 4;
  created_at = 15;
  batch_job_id = none;
}

-- Two flagged transactions, of which the first has a case.
abbrev pub reviewed : World store
reviewed = record world {
  predictions = (1, flagged_payment) ∷ (2, record flagged_payment { transaction_id = 2 }) ∷ [];
}

abbrev case_query : CaseQuery
case_query = record {
  page = 1;
  page_size = 50;
  status = none;
  risk_level = some critical;
  assigned_to_id = none;
  from = none;
  to = none;
  search = none;
}

list_cases-ShowsRisk_example :
    All
      (ShowsRisk store anything reviewed)
      (list_cases store anything (as_stored store.cases) case_query reviewed reviewed).rows
list_cases-ShowsRisk_example =
    list_cases-ShowsRisk store anything (as_stored store.cases) case_query reviewed reviewed

abbrev new_key : ℕ → ℕ
new_key k = 100 + k

new_key-Fresh : Fresh store new_key 0 reviewed.cases
new_key-Fresh = (λ i le. ground (arith, le), λ i j lt. ground (arith, lt))

backfill_cases_progress_example :
    ((backfill_cases store 5 new_key 20 reviewed).0.created
      ≡ min 5 (length (missing store reviewed)))
    × ((backfill_cases store 5 new_key 20 reviewed).0.created
          + (backfill_cases store 5 new_key 20 reviewed).0.remaining
        ≡ length (missing store reviewed))
    × (length (missing store (backfill_cases store 5 new_key 20 reviewed).1)
        ≡ (backfill_cases store 5 new_key 20 reviewed).0.remaining)
backfill_cases_progress_example =
    backfill_cases_progress store new_key 20 reviewed 5 (omega arith) new_key-Fresh

one_missing : length (missing store reviewed) ≡ 1
unfolding missing missing_case has_no_case flagged
one_missing = refl

backfill_cases_idempotent_example :
    backfill_cases store 5 new_key 21 (backfill_cases store 5 new_key 20 reviewed).1
    ≡ (record { created = 0; remaining = 0 }, (backfill_cases store 5 new_key 20 reviewed).1)
backfill_cases_idempotent_example =
    backfill_cases_idempotent store new_key new_key 20 21 5 5 reviewed (omega arith)
      (omega (arith, one_missing)) new_key-Fresh

abbrev shown_rows : List Row
shown_rows =
    record { t = payment; p = some flagged_payment }
    ∷ record { t = without_balances; p = some (record flagged_payment { transaction_id = 2 }) }
    ∷ []

get_network_is_a_graph_example :
    let flagged_rows = filter is_flagged shown_rows in
    let hubs = take 60 (repeated flagged_rows) in
    let network = get_network (λ l. l) 60 shown_rows in
    (distinct (ids network.nodes) ≡ true)
    × All (EndsIn flagged_rows hubs network.nodes) network.edges
    × All (λ e. touches hubs e ≡ true) network.edges
    × All (Marked flagged_rows hubs) network.nodes
get_network_is_a_graph_example = get_network_is_a_graph (λ l. l) 60 shown_rows
