-- ===== src/Prelude/Tables.antt =====
-- One Postgres table as the services see it through Prisma, whose code is not in the repository:
-- a state, the row under a primary key, and the write of a row. A call of the source with `where`
-- and `data` is spelled out by the operation that makes it, over these two.
use Prim.Native.Nat.{ℕ}
use mathlib.Core.Path.{◌≡◌}
use mathlib.Core.Bool.{Bool, true, false}
use mathlib.Core.Option.{Option, none, some}
use mathlib.Core.List.{List}
use transactguard.Prelude.Tests.{◌==◌, if◌then◌else◌}
use transactguard.Prelude.Sets.{elem, nodup}

-- Does the row under this key satisfy the `where` clause?
abbrev pub matches : {R : Type 0} → (ℕ → R → Bool) → ℕ → Option R → Bool
matches p id none = false
matches p id (some r) = p id r

pub record Table (R : Type 0) : Type 1 where
  pub State : Type 0
  -- `findUnique({ where: { id } })`
  pub find : ℕ → State → Option R
  -- The row that `create` or `update` leaves under the key.
  pub put : ℕ → R → State → State
  -- `findMany({ where, select: { id: true } })`: the keys of the rows that satisfy the clause, in
  -- an order of the database's own.
  pub find_ids : (ℕ → R → Bool) → State → List ℕ
  pub find-put :
      (id j : ℕ) (r : R) (s : State) → find j (put id r s) ≡ (if id == j then some r else find j s)
  pub elem-find_ids :
      (p : ℕ → R → Bool) (s : State) (id : ℕ) → elem id (find_ids p s) ≡ matches p id (find id s)
  pub nodup-find_ids : (p : ℕ → R → Bool) (s : State) → nodup (find_ids p s) ≡ true
