-- ===== src/Simulator/Runs/Replay.antt =====
-- A run of the simulator that nobody stops.
use transactguard.Prelude.{
  ℕ, ◌+◌, ◌<◌, ◌≡◌, refl, ◌∙◌, Bool, true, false, some, List, [], ◌∷◌, arith, length, leb,
  if◌then◌else◌,
}
use transactguard.Errors.{ok}
use transactguard.Simulator.{
  SimRun, for_score, no_tick, running, completed, finish, tick_start, tick_scored, tick_failed,
  tick_settled, StartBody, RunView, new_run, start_with,
}
use transactguard.Simulator.Runs.Invariant.{
  IsSound, tick_start-IsSound, tick_scored-IsSound, tick_failed-IsSound, tick_published-IsSound,
  new_run-IsSound,
}

-- The rest of a tick, by whether the score succeeds.
abbrev pub tick_end : Bool → ℕ → SimRun → SimRun
tick_end true now run = tick_settled now (tick_scored run)
tick_end false now run = tick_failed now run

-- One tick after the other, each through before the next; `outcomes` says which scores succeed.
abbrev pub replay : List Bool → ℕ → SimRun → SimRun
replay [] now run = run
replay (b ∷ outcomes) now run = replay outcomes now (tick_end b now (tick_start now run).1)

module _ (now : ℕ) where
  waits-tick_start :
      (run : SimRun)
      → IsSound run
      → run.waits ≡ no_tick
      → run.sent < run.total
      → (tick_start now run).1.waits ≡ for_score
  unfolding tick_start finish
  waits-tick_start run h f l = ground (arith, h.cursor_is, h.total_is, h.flying)

  tick_end-IsSound :
      (b : Bool) (run : SimRun) → run.waits ≡ for_score → IsSound run → IsSound (tick_end b now run)
  unfolding tick_scored
  tick_end-IsSound true run f h =
      tick_published-IsSound now (tick_scored run) refl (tick_scored-IsSound run f h)
  tick_end-IsSound false run f h = tick_failed-IsSound now run f h

  -- A tick of a run that has transactions left takes one.
  tick_takes :
      (b : Bool) (run : SimRun)
      → IsSound run
      → run.status ≡ running
      → run.waits ≡ no_tick
      → run.sent < run.total
      → let u = tick_end b now (tick_start now run).1 in
        IsSound u
        × (u.waits ≡ no_tick)
        × (u.sent ≡ run.sent + 1)
        × (u.total ≡ run.total)
        × (u.status ≡ (if leb run.total (run.sent + 1) then completed else running))
  unfolding tick_start tick_scored tick_failed tick_settled finish
  tick_takes b run h r f l =
      let t = (tick_start now run).1 in
      let timer : run.timer ≡ true = h.timed ∙ (rw r) in
      (
        tick_end-IsSound b t (waits-tick_start run h f l) (tick_start-IsSound now run timer h),
        ground (arith, h.cursor_is, h.total_is, h.flying),
        ground (arith, h.cursor_is, h.total_is, h.flying),
        ground (arith, h.cursor_is, h.total_is, h.flying),
        ground (arith, h.cursor_is, h.total_is, h.flying),
      )

  replay-completed :
      (outcomes : List Bool) (run : SimRun)
      → IsSound run
      → run.status ≡ running
      → run.waits ≡ no_tick
      → 0 < length outcomes
      → run.sent + length outcomes ≡ run.total
      → let u = replay outcomes now run in
        (u.status ≡ completed) × (u.scored + u.failed ≡ run.total)
  replay-completed [] run h r f p e = elim p [ ]
  replay-completed (b ∷ []) run h r f p e =
      let (s, f', sent, total, st) = tick_takes b run h r f (omega (arith, e)) in
      let last : leb run.total (run.sent + 1) ≡ true = ground arith in
      (st ∙ (rw last), ground (arith, s.accounts))
  replay-completed (b ∷ c ∷ outcomes) run h r f p e =
      let (s, f', sent, total, st) = tick_takes b run h r f (omega (arith, e)) in
      let more : leb run.total (run.sent + 1) ≡ false = ground arith in
      let (done, all) =
        replay-completed (c ∷ outcomes) (tick_end b now (tick_start now run).1) s (st ∙ (rw more))
          f' (omega arith) (omega (arith, sent, total, e)) in
      (done, all ∙ total)

  start_with-ok :
      (body : StartBody) (ids : List ℕ) (id user_id : ℕ) (v : RunView)
      → (start_with body ids id user_id now).0 ≡ ok v
      → ((start_with body ids id user_id now).1 ≡ some (new_run body ids id user_id now))
        × (0 < length ids)
  unfolding start_with
  start_with-ok body [] id user_id v h = absurd (cc)
  start_with-ok body (t ∷ ids) id user_id v h = (refl, omega arith)

  -- A start whose query found transactions makes a run that, ticked as often as it has transactions,
  -- each tick being through before the next and nobody stopping it, is completed whatever the outcomes
  -- of the scores are, and has scored or failed each of them.
  pub started_run_completes :
      (body : StartBody) (ids : List ℕ) (id user_id : ℕ) (v : RunView) (outcomes : List Bool)
      → (start_with body ids id user_id now).0 ≡ ok v
      → length outcomes ≡ length ids
      → (run : SimRun) × ((start_with body ids id user_id now).1 ≡ some run)
        × ((replay outcomes now run).status ≡ completed)
        × ((replay outcomes now run).scored + (replay outcomes now run).failed ≡ length ids)
  unfolding new_run
  started_run_completes body ids id user_id v outcomes h len =
      let run = new_run body ids id user_id now in
      let (made, pos) = start_with-ok body ids id user_id v h in
      let (done, all) =
        replay-completed outcomes run (new_run-IsSound body ids id user_id now) refl refl
          (omega (arith, len, pos)) (omega (arith, len)) in
      (run, made, done, all)
