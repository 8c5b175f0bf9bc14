-- ===== src/Analytics/Agreement.antt =====
-- The figures of the dashboard add up, and the endpoints agree on them.
use transactguard.Prelude.{
  ℕ, ◌+◌, ◌≤◌, ◌≡◌, refl, ◌∙◌, inl, inr, arith, Bool, true, false, Option, none, some, List, [],
  ◌∷◌, ltb, is_some, length, filter, length-filter-le, map, Bool-cases,
}
use transactguard.Schema.{Prediction, RiskLevel, clear, suspicious, critical}
use transactguard.Analytics.{
  Row, is_scored, level_of, has_level, count, totals, newest, in_current, in_previous, current_rows,
  previous_rows, comparison, get_summary, Level, level_row, level_groups, sum_counts, count_of,
  get_distribution, get_public_stats,
}

abbrev one_if : Bool → ℕ
one_if true = 1
one_if false = 0

count-cons :
    (p : Row → Bool) (r : Row) (rows : List Row) → count p (r ∷ rows) ≡ one_if (p r) + count p rows
count-cons p r rows = elim (Bool-cases (p r)) [
  | inl t ↦ rw t (omega arith)
  | inr f ↦ rw f (omega arith)
]

-- A prediction has one of the three levels.
one_level :
    (o : Option Prediction)
    → one_if (level_of critical o) + one_if (level_of suspicious o) + one_if (level_of clear o)
      ≡ one_if (is_some o)
one_level none = refl
one_level (some p) = ground arith

levels_add_up :
    (rows : List Row)
    → count (has_level critical) rows
        + count (has_level suspicious) rows
        + count (has_level clear) rows
      ≡ count is_scored rows
levels_add_up [] = refl
levels_add_up (r ∷ rows) = omega (
  arith,
  count-cons (has_level critical) r rows,
  count-cons (has_level suspicious) r rows,
  count-cons (has_level clear) r rows,
  count-cons is_scored r rows,
  one_level r.p,
  levels_add_up rows,
)

windows-le :
    (days a : ℕ) (rows : List Row)
    → length (filter (in_current days a) rows) + length (filter (in_previous days a) rows)
      ≤ length rows
windows-le days a [] = omega arith
windows-le days a (r ∷ rows) = elim (Bool-cases (in_current days a r)) [
  | inl now ↦ ground (arith, windows-le days a rows)
  | inr then' ↦ ground (arith, windows-le days a rows)
]

windows_within :
    (days : ℕ) (o : Option ℕ) (rows : List Row)
    → length (current_rows days o rows) + length (previous_rows days o rows) ≤ length rows
windows_within days none rows = omega arith
windows_within days (some a) rows = windows-le days a rows

-- The counters of the summary add up: every scored transaction has one of the three levels, every
-- transaction is scored or not, and no transaction is in both of the windows that are compared.
get_summary_adds_up :
    (days : ℕ) (rows : List Row)
    → ((get_summary days rows).0.critical
          + (get_summary days rows).0.suspicious
          + (get_summary days rows).0.clear
        ≡ (get_summary days rows).0.scored)
      × ((get_summary days rows).0.scored + (get_summary days rows).0.unscored
          ≡ (get_summary days rows).0.transactions)
      × ((get_summary days rows).1.current_volume + (get_summary days rows).1.previous_volume
          ≤ (get_summary days rows).0.transactions)
unfolding get_summary totals comparison
get_summary_adds_up days rows = (
  levels_add_up rows,
  omega (arith, length-filter-le is_scored rows),
  windows_within days (newest rows) rows,
)

sum_counts-present :
    (groups : List Level) → sum_counts (filter (λ g. ltb 0 g.count) groups) ≡ sum_counts groups
sum_counts-present [] = refl
sum_counts-present (g ∷ groups) = ground (arith, sum_counts-present groups)

-- Leaving out the empty groups changes no count.
count_of-present :
    (level : RiskLevel) (rows : List Row)
    → count_of level (level_groups rows) ≡ count (has_level level) rows
count_of-present clear rows = ground arith
count_of-present suspicious rows = ground arith
count_of-present critical rows = ground arith

-- Three endpoints count the same: the distribution has the summary's count for each level, its total
-- is the summary's count of scored transactions, and the public figures are the summary's.
counts_agree :
    (days : ℕ) (rows : List Row)
    → ((get_distribution rows).levels
        ≡ (clear, (get_summary days rows).0.clear)
          ∷ (suspicious, (get_summary days rows).0.suspicious)
          ∷ (critical, (get_summary days rows).0.critical)
          ∷ [])
      × ((get_distribution rows).total ≡ (get_summary days rows).0.scored)
      × ((get_public_stats rows).transactions ≡ (get_summary days rows).0.transactions)
      × ((get_public_stats rows).scored ≡ (get_summary days rows).0.scored)
      × ((get_public_stats rows).critical ≡ (get_summary days rows).0.critical)
unfolding get_summary totals get_distribution get_public_stats
counts_agree days rows = (
  rw (count_of-present clear rows, count_of-present suspicious rows, count_of-present critical rows)
      refl,
  sum_counts-present (map (level_row rows) (clear ∷ suspicious ∷ critical ∷ []))
      ∙ omega (arith, levels_add_up rows),
  refl,
  refl,
  refl,
)
