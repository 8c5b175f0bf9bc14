-- ===== src/Simulator/Runs.antt =====
-- The simulator's runs as sequences of events: all the runs of the process, of which one may be
-- `activeRun`, and the starts that wait for their query. A run that has been replaced keeps its timer
-- and its tick.
pub mod Invariant
pub mod Replay
pub mod Overlap
use transactguard.Prelude.{
  ℕ, ◌≤◌, ◌≡◌, Bool, true, false, not, ◌&&◌, Option, none, some, List, [], ◌∷◌, ◌++◌, if◌then◌else◌,
  length, get_elem?,
}
use transactguard.Errors.{Result, ok}
use transactguard.Simulator.{
  SimRun, Wait, for_score, for_publication, is_running, exhausted, tick_start, tick_scored,
  tick_failed, tick_settled, StartBody, query_limit, start_check, start_with, stop_active,
}

-- The runs in the order of their start; `active` is the place of the one that `activeRun` names.
pub record Sim : Type 0 where
  pub runs : List SimRun
  pub active : Option ℕ
  pub starting : List StartBody

abbrev at : List SimRun → Option ℕ → Option SimRun
at runs none = none
at runs (some i) = get_elem? runs i

-- `activeRun`
abbrev pub active_run : Sim → Option SimRun
active_run s = at s.runs s.active

-- Does `finish` make a run that is in this place the active one?
abbrev pub taken_over : Bool → ℕ → Option ℕ → Option ℕ
taken_over finishes i active = if finishes then some i else active

-- Does a tick call `finish`, at its start or at its end?
abbrev pub starts_over : SimRun → Bool
starts_over run = not run.in_flight && exhausted run

abbrev pub ends_over : SimRun → Bool
ends_over run = exhausted run && is_running run.status

abbrev pub begun : List SimRun → Option SimRun → Option ℕ → List SimRun × Option ℕ
begun runs none active = (runs, active)
begun runs (some run) active = (runs ++ (run ∷ []), some (length runs))

pub data Step (s : Sim) (u : Sim) : Type 0 where
  -- A start that passes the check, before its query.
  check :
      (body : StartBody) (o : Option SimRun)
      → start_check (active_run s) ≡ ok o
      → u ≡ record s { starting = body ∷ s.starting }
      → Step s u
  -- The rest of a start, whatever came in between.
  begin :
      (before : List StartBody) (body : StartBody) (after : List StartBody) (ids : List ℕ)
      (id user_id now : ℕ)
      → s.starting ≡ before ++ (body ∷ after)
      → length ids ≤ query_limit body
      → u ≡ (
          let (runs, active) = begun s.runs (start_with body ids id user_id now).1 s.active in
          record { runs = runs; active = active; starting = before ++ after })
      → Step s u
  stop :
      (before : List SimRun) (run : SimRun) (after : List SimRun) (id now : ℕ)
      → s.runs ≡ before ++ (run ∷ after)
      → s.active ≡ some (length before)
      → u ≡ record s { runs = before ++ ((stop_active id now run).1 ∷ after) }
      → Step s u
  -- The interval fires only while it is set.
  tick :
      (before : List SimRun) (run : SimRun) (after : List SimRun) (now : ℕ)
      → s.runs ≡ before ++ (run ∷ after)
      → run.timer ≡ true
      → u ≡ record s {
        runs = before ++ ((tick_start now run).1 ∷ after);
        active = taken_over (starts_over run) (length before) s.active;
      }
      → Step s u
  scored :
      (before : List SimRun) (run : SimRun) (after : List SimRun)
      → s.runs ≡ before ++ (run ∷ after)
      → run.waits ≡ for_score
      → u ≡ record s { runs = before ++ (tick_scored run ∷ after) }
      → Step s u
  failed :
      (before : List SimRun) (run : SimRun) (after : List SimRun) (now : ℕ)
      → s.runs ≡ before ++ (run ∷ after)
      → run.waits ≡ for_score
      → u ≡ record s {
        runs = before ++ (tick_failed now run ∷ after);
        active = taken_over (ends_over run) (length before) s.active;
      }
      → Step s u
  published :
      (before : List SimRun) (run : SimRun) (after : List SimRun) (now : ℕ)
      → s.runs ≡ before ++ (run ∷ after)
      → run.waits ≡ for_publication
      → u ≡ record s {
        runs = before ++ (tick_settled now run ∷ after);
        active = taken_over (ends_over run) (length before) s.active;
      }
      → Step s u

-- The server starts without a run.
pub data Reach : Sim → Type 0 where
  here : Reach (record { runs = []; active = none; starting = [] })
  next : {s u : Sim} → Reach s → Step s u → Reach u
