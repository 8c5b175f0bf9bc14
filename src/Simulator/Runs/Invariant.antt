-- ===== src/Simulator/Runs/Invariant.antt =====
-- What holds of the simulator's runs at any time.
use transactguard.Prelude.{
  ℕ, ◌+◌, ◌≤◌, ◌<◌, ◌≡◌, refl, Bool, true, false, some, List, arith, length, All,
}
use transactguard.Simulator.{
  SimRun, Wait, no_tick, for_score, for_publication, RunStatus, completed, is_running, finish,
  tick_start, tick_scored, tick_failed, tick_settled, StartBody, new_run,
}
use transactguard.Simulator.Runs.{Sim, scored, failed}

abbrev pub is_completed : RunStatus → Bool
is_completed completed = true
is_completed _ = false

-- The transaction that is out at the model, if one is.
abbrev pub being_scored : Wait → ℕ
being_scored for_score = 1
being_scored _ = 0

abbrev pub is_waiting : Wait → Bool
is_waiting no_tick = false
is_waiting _ = true

-- The counters of a run account for each transaction that it has taken, the one that is being scored
-- included; one tick at a time is under way; the timer is set just while the run is running; and it
-- is completed only when all are scored and no tick is under way.
pub record IsSound (run : SimRun) : Type 0 where
  pub cursor_is : run.cursor ≡ run.sent
  pub total_is : run.total ≡ length run.transaction_ids
  pub bounded : run.sent ≤ run.total
  pub accounts : run.sent ≡ run.scored + run.failed + being_scored run.waits
  pub flying : run.in_flight ≡ is_waiting run.waits
  pub timed : run.timer ≡ is_running run.status
  pub through : is_completed run.status ≡ true → (run.sent ≡ run.total) × (run.waits ≡ no_tick)

-- Every run is sound, and `activeRun` is one of them.
pub record Inv (s : Sim) : Type 0 where
  pub sound : All IsSound s.runs
  pub there : (i : ℕ) → s.active ≡ some i → i < length s.runs

pub tick_start-IsSound :
    (now : ℕ) (run : SimRun) → run.timer ≡ true → IsSound run → IsSound (tick_start now run).1
unfolding tick_start finish
tick_start-IsSound now run t h = record {
  cursor_is = ground (arith, h.cursor_is);
  total_is = ground (arith, h.total_is);
  bounded = ground (arith, h.cursor_is, h.total_is, h.bounded);
  accounts = ground (arith, h.accounts, h.flying);
  flying = ground (arith, h.flying);
  timed = ground (arith, h.timed);
  through = λ c. ground (arith, h.cursor_is, h.total_is, h.bounded, h.timed, h.flying, h.through);
}

pub tick_scored-IsSound :
    (run : SimRun) → run.waits ≡ for_score → IsSound run → IsSound (tick_scored run)
unfolding tick_scored
tick_scored-IsSound run f h = record {
  cursor_is = h.cursor_is;
  total_is = h.total_is;
  bounded = h.bounded;
  accounts = ground (arith, h.accounts);
  flying = ground (arith, h.flying);
  timed = h.timed;
  through = λ c. ground (arith, h.through);
}

-- The end of a tick, of a run whose counters already have its transaction.
pub tick_settled-IsSound :
    (now : ℕ) (run : SimRun)
    → run.cursor ≡ run.sent
    → run.total ≡ length run.transaction_ids
    → run.sent ≤ run.total
    → run.sent ≡ run.scored + run.failed
    → run.timer ≡ is_running run.status
    → (is_completed run.status ≡ true → run.sent ≡ run.total)
    → IsSound (tick_settled now run)
unfolding tick_settled finish
tick_settled-IsSound now run c t b a ti th = record {
  cursor_is = ground arith;
  total_is = ground arith;
  bounded = ground arith;
  accounts = ground arith;
  flying = ground arith;
  timed = ground arith;
  through = λ d. (ground arith, ground arith);
}

pub tick_published-IsSound :
    (now : ℕ) (run : SimRun)
    → run.waits ≡ for_publication
    → IsSound run
    → IsSound (tick_settled now run)
tick_published-IsSound now run f h =
    tick_settled-IsSound now run h.cursor_is h.total_is h.bounded (ground (arith, h.accounts))
      h.timed (λ c. (h.through c).0)

pub tick_failed-IsSound :
    (now : ℕ) (run : SimRun) → run.waits ≡ for_score → IsSound run → IsSound (tick_failed now run)
unfolding tick_failed
tick_failed-IsSound now run f h =
    tick_settled-IsSound now (record run { failed = run.failed + 1 }) h.cursor_is h.total_is
      h.bounded (ground (arith, h.accounts)) h.timed (λ c. (h.through c).0)

pub new_run-IsSound :
    (body : StartBody) (ids : List ℕ) (id user_id now : ℕ)
    → IsSound (new_run body ids id user_id now)
unfolding new_run
new_run-IsSound body ids id user_id now = record {
  cursor_is = refl;
  total_is = refl;
  bounded = omega arith;
  accounts = refl;
  flying = refl;
  timed = refl;
  through = λ c. absurd (cc);
}
