-- ===== src/Simulator.antt =====
-- backend/src/modules/simulator/simulator.service.js: the replay of transactions on a timer. The timer,
-- which calls `tick` again and again, is Node's. `tick` and `startSimulator` are cut at each `await`:
-- between two parts other ticks and requests may come.
pub mod Runs
use transactguard.Prelude.{
  ℕ, suc, ◌+◌, ◌-◌, String, Bool, true, false, not, ◌&&◌, ◌||◌, Option, none, some, List, [], ◌∷◌,
  leb, ltb, ◌==◌, if◌then◌else◌, length, get_elem?, or_else,
}
use transactguard.Errors.{Code, ApiError, Result, ok, throw}
use transactguard.Errors.Raise

-- `DEFAULT_TPS` and `DEFAULT_COUNT`
abbrev pub default_tps : ℕ
default_tps = 5

abbrev pub default_count : ℕ
default_count = 100

pub data RunStatus : Type 0 where
  running completed stopped : RunStatus

abbrev pub is_running : RunStatus → Bool
is_running running = true
is_running _ = false

-- The `await` at which the tick in flight stands, if there is one.
pub data Wait : Type 0 where
  no_tick for_score for_publication : Wait

-- The object that `startSimulator` builds, with the place of its tick. `timer` says whether the interval is set.
pub record SimRun : Type 0 where
  pub id : ℕ
  pub status : RunStatus
  pub tps : ℕ
  pub total : ℕ
  pub transaction_ids : List ℕ
  pub cursor : ℕ
  pub sent : ℕ
  pub scored : ℕ
  pub failed : ℕ
  pub in_flight : Bool
  pub waits : Wait
  pub timer : Bool
  pub started_at : ℕ
  pub finished_at : Option ℕ
  pub started_by : ℕ

-- `publicView`
pub record RunView : Type 0 where
  pub simulator_run_id : ℕ
  pub status : RunStatus
  pub transactions_per_second : ℕ
  pub total : ℕ
  pub sent : ℕ
  pub scored : ℕ
  pub failed : ℕ
  pub remaining : ℕ
  pub started_at : ℕ
  pub finished_at : Option ℕ
  pub started_by : ℕ

unfoldable pub public_view : SimRun → RunView
public_view run = record {
  simulator_run_id = run.id;
  status = run.status;
  transactions_per_second = run.tps;
  total = run.total;
  sent = run.sent;
  scored = run.scored;
  failed = run.failed;
  remaining = run.total - run.sent;
  started_at = run.started_at;
  finished_at = run.finished_at;
  started_by = run.started_by;
}

-- `finish`, but for the assignment of `activeRun`.
unfoldable pub finish : RunStatus → ℕ → SimRun → SimRun
finish status now run = record run { timer = false; status = status; finished_at = some now }

-- `run.cursor >= run.transactionIds.length`
abbrev pub exhausted : SimRun → Bool
exhausted run = leb (length run.transaction_ids) run.cursor

-- `tick` up to `scoreAndPersist`: the transaction that is to be scored, if any.
unfoldable pub tick_start : ℕ → SimRun → Option ℕ × SimRun
unfolding finish
tick_start now run =
    if run.in_flight
    then (none, run)
    else (if exhausted run then (none, finish completed now run) else (
      get_elem? run.transaction_ids run.cursor,
      record run {
        in_flight = true;
        waits = for_score;
        cursor = run.cursor + 1;
        sent = run.sent + 1;
      },
    ))

-- From a score that succeeds up to `publishFeedPrediction`, which does not throw.
unfoldable pub tick_scored : SimRun → SimRun
tick_scored run = record run { scored = run.scored + 1; waits = for_publication }

-- The `finally`.
unfoldable pub tick_settled : ℕ → SimRun → SimRun
unfolding finish
tick_settled now run =
    let free : SimRun = record run { in_flight = false; waits = no_tick } in
    if exhausted free && is_running free.status then finish completed now free else free

-- From a score that fails to the end.
unfoldable pub tick_failed : ℕ → SimRun → SimRun
unfolding tick_settled
tick_failed now run = tick_settled now (record run { failed = run.failed + 1 })

-- `activeRun?.status === 'RUNNING'`
abbrev pub is_active : Option SimRun → Bool
is_active none = false
is_active (some run) = is_running run.status

-- The body of `POST /simulator/start`.
pub record StartBody : Type 0 where
  pub transactions_per_second : Option ℕ
  pub count : Option ℕ

pub new_run : StartBody → List ℕ → ℕ → ℕ → ℕ → SimRun
new_run body ids id user_id now = record {
  id = id;
  status = running;
  tps = or_else body.transactions_per_second default_tps;
  total = length ids;
  transaction_ids = ids;
  cursor = 0;
  sent = 0;
  scored = 0;
  failed = 0;
  in_flight = false;
  waits = no_tick;
  timer = true;
  started_at = now;
  finished_at = none;
  started_by = user_id;
}

-- The limit of the query.
abbrev pub query_limit : StartBody → ℕ
query_limit body = or_else body.count default_count

-- `startSimulator` up to its query: refused while the active run is running.
unfoldable pub start_check : Option SimRun → Result (Option SimRun)
start_check active =
    if is_active active then throw (Raise.conflict Code.simulator_already_running) else ok active

-- From the result of the query on: the view of the run, and the run that is assigned to `activeRun`.
unfoldable pub start_with : StartBody → List ℕ → ℕ → ℕ → ℕ → Result RunView × Option SimRun
unfolding new_run public_view
start_with body [] id user_id now = (throw Raise.bad_request, none)
start_with body (t ∷ ids) id user_id now =
    let run = new_run body (t ∷ ids) id user_id now in (ok (public_view run), some run)

-- `stopSimulator`, where there is an active run.
unfoldable pub stop_active : ℕ → ℕ → SimRun → Result RunView × SimRun
unfolding finish public_view
stop_active id now run =
    if not (is_running run.status)
    then (throw (Raise.conflict Code.simulator_not_running), run)
    else (if not (id == run.id)
        then (throw Raise.bad_request, run)
        else (let run' = finish stopped now run in (ok (public_view run'), run')))

unfoldable pub stop_simulator : ℕ → ℕ → Option SimRun → Result RunView × Option SimRun
unfolding stop_active
stop_simulator id now none = (throw (Raise.conflict Code.simulator_not_running), none)
stop_simulator id now (some run) = let (r, run') = stop_active id now run in (r, some run')
