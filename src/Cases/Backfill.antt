-- ===== src/Cases/Backfill.antt =====
-- `backfillCases` of backend/src/modules/cases/cases.service.js: a case for every flagged transaction
-- that has none.
pub mod Inserted
pub mod Once
use transactguard.Prelude.{
  ℕ, suc, Bool, true, false, not, ◌&&◌, Option, none, some, List, [], ◌∷◌, ◌==◌, length, take,
  Table, matches,
}
use transactguard.Schema.{
  Database, World, Transaction, Prediction, Case, under_review, RiskLevel, clear, suspicious,
  critical,
}
use transactguard.Predictions.{is_live}

-- `FLAGGED`
abbrev pub is_flagged : RiskLevel → Bool
is_flagged clear = false
is_flagged suspicious = true
is_flagged critical = true

abbrev pub is_empty : List ℕ → Bool
is_empty [] = true
is_empty (x ∷ xs) = false

-- A row that `createMany` inserts: the database gives it its key and its time.
unfoldable pub new_case : ℕ → ℕ → ℕ → Case
new_case key transaction_id now = record {
  id = key;
  transaction_id = transaction_id;
  status = under_review;
  notes = none;
  resolved_at = none;
  created_at = now;
  assigned_to_id = none;
}

pub record Backfilled : Type 0 where
  pub created : ℕ
  pub remaining : ℕ

module _ (D : Database) where
  -- `cases: { none: {} }`
  unfoldable pub has_no_case : D.cases.State → ℕ → Bool
  has_no_case s id = is_empty (D.cases.find_ids (λ k c. c.transaction_id == id) s)

  -- `prediction: { riskLevel: { in: FLAGGED } }`
  unfoldable pub flagged : World D → ℕ → Bool
  flagged w id = matches (λ k p. is_flagged p.risk_level) id (D.predictions.find id w.predictions)

  unfoldable pub missing_case : World D → ℕ → Transaction → Bool
  unfolding has_no_case flagged
  missing_case w id t = is_live t && has_no_case w.cases id && flagged w id

  -- The transactions without a case, in the database's order.
  unfoldable pub missing : World D → List ℕ
  missing w = D.transactions.find_ids (missing_case w) w.transactions

  -- `createMany`. Nothing but its key is unique about a case, and the keys, `fresh k` and the ones
  -- after it, are new: `skipDuplicates` has nothing to skip.
  unfoldable pub create_many : (ℕ → ℕ) → ℕ → ℕ → List ℕ → D.cases.State → D.cases.State
  create_many fresh k now [] s = s
  create_many fresh k now (id ∷ ids) s =
      create_many fresh (suc k) now ids (D.cases.put (fresh k) (new_case (fresh k) id now) s)

  created_for : (ℕ → ℕ) → ℕ → List ℕ → World D → Backfilled × World D
  unfolding create_many missing
  created_for fresh now [] w = (record { created = 0; remaining = 0 }, w)
  created_for fresh now (id ∷ ids) w =
      let w' = record w { cases = create_many fresh 0 now (id ∷ ids) w.cases } in
      (record { created = length (id ∷ ids); remaining = length (missing w') }, w')

  unfoldable pub backfill_cases : ℕ → (ℕ → ℕ) → ℕ → World D → Backfilled × World D
  unfolding created_for missing
  backfill_cases limit fresh now w = created_for fresh now (take limit (missing w)) w
