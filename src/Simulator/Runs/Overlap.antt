-- ===== src/Simulator/Runs/Overlap.antt =====
-- Two starts whose queries overlap.
use transactguard.Prelude.{ℕ, ◌≤◌, ◌≡◌, refl, true, none, some, List, [], ◌∷◌, length}
use transactguard.Simulator.{
  SimRun, is_running, StartBody, query_limit, new_run, start_check, start_with,
}
use transactguard.Simulator.Runs.{Sim, check, begin, Reach, here, next}

module _ (first second : StartBody) (x y : ℕ) (xs ys : List ℕ) (id id' user user' now : ℕ) where
  abbrev one : SimRun
  one = new_run first (x ∷ xs) id user now

  abbrev two : SimRun
  two = new_run second (y ∷ ys) id' user' now

  abbrev both : Sim
  both = record { runs = one ∷ two ∷ []; active = some 1; starting = [] }

  -- Both pass the check before either assigns `activeRun`: then two runs are running, and the first of
  -- them is not the active one.
  overlapping_starts :
      length (x ∷ xs) ≤ query_limit first
      → length (y ∷ ys) ≤ query_limit second
      → Reach both × (is_running one.status ≡ true) × (is_running two.status ≡ true)
  unfolding start_check start_with new_run
  overlapping_starts short short' = (
    next
        (next (next (next here (check first none refl refl)) (check second none refl refl))
          (begin (second ∷ []) first [] (x ∷ xs) id user now refl short refl))
        (begin [] second [] (y ∷ ys) id' user' now refl short' refl),
    refl,
    refl,
  )
