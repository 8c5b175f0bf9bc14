-- ===== src/Analytics.antt =====
-- backend/src/modules/analytics/analytics.service.js: the figures of the dashboard. The queries are
-- read as what they select from the rows of their joins; a figure that `float` rounds for the reader
-- is kept exact here, as a sum or a share over a count. The sums of money, the countries and the
-- version of the model are left out, and of the distribution the shares and averages of its levels.
-- Buckets has `getTrend` and `getHourlyRisk`, Network `getNetwork`, Scatter `getScatter` and Geo
-- `getGeoRisk`; the queries of one call are read
-- in one state of the tables.
pub mod Agreement
pub mod Buckets
pub mod Network
pub mod Scatter
pub mod Geo
use transactguard.Prelude.{
  ℕ, ◌+◌, ◌-◌, ◌*◌, ◌/◌, ◌%◌, max, String, Bool, true, false, not, ◌&&◌, Option, none, some, List,
  [], ◌∷◌, ◌++◌, map, ltb, ◌==◌, if◌then◌else◌, is_some, length, take, filter, dedup,
}
use transactguard.Schema.{
  Database, World, Transaction, Prediction, RiskLevel, clear, suspicious, critical,
}
use transactguard.Predictions.{is_live}
use transactguard.Listing.{rows_at}
use transactguard.Listing.Filters.{same_risk, asked, in_range}
use transactguard.Listing.Export.{sort_ids}

-- A row of `transactions t LEFT JOIN predictions p`.
pub record Row : Type 0 where
  pub t : Transaction
  pub p : Option Prediction

module _ (D : Database) where
  abbrev with_prediction : World D → Transaction → Row
  with_prediction w t = record { t = t; p = D.predictions.find t.id w.predictions }

  -- `WHERE t.deleted_at IS NULL`, in the order of the database.
  live_rows : World D → List Row
  live_rows w = map (with_prediction w) (
      rows_at D.transactions (D.transactions.find_ids (λ id t. is_live t) w.transactions)
        w.transactions)

abbrev pub is_scored : Row → Bool
is_scored r = is_some r.p

-- `p.risk_level = level`, which is not true of a row without a prediction.
abbrev pub level_of : RiskLevel → Option Prediction → Bool
level_of level none = false
level_of level (some p) = same_risk p.risk_level level

abbrev pub has_level : RiskLevel → Row → Bool
has_level level r = level_of level r.p

-- `COUNT(*) FILTER (WHERE ...)`
abbrev pub count : (Row → Bool) → List Row → ℕ
count p rows = length (filter p rows)

-- `AVG(p.risk_score)`: the sum and the number of the scores, unless there are none.
abbrev score_sum : List Row → ℕ
score_sum [] = 0
score_sum (r ∷ rows) = (elim r.p [ none ↦ 0 | some p ↦ p.risk_score ]) + score_sum rows

pub average : List Row → Option (ℕ × ℕ)
average rows = let n = count is_scored rows in if n == 0 then none else some (score_sum rows, n)

pub record Totals : Type 0 where
  pub transactions : ℕ
  pub scored : ℕ
  pub unscored : ℕ
  pub critical : ℕ
  pub suspicious : ℕ
  pub clear : ℕ
  pub average_score : Option (ℕ × ℕ)

unfoldable pub totals : List Row → Totals
totals rows = record {
  transactions = length rows;
  scored = count is_scored rows;
  unscored = length rows - count is_scored rows;
  critical = count (has_level RiskLevel.critical) rows;
  suspicious = count (has_level RiskLevel.suspicious) rows;
  clear = count (has_level RiskLevel.clear) rows;
  average_score = average rows;
}

-- `MAX(txn_timestamp)`
abbrev pub newest : List Row → Option ℕ
newest [] = none
newest (r ∷ rows) = elim (newest rows) [
  | none ↦ some r.t.txn_timestamp
  | some a ↦ some (max r.t.txn_timestamp a)
]

-- A time is a number of milliseconds.
abbrev pub day : ℕ
day = 86400000

-- `t.txn_timestamp > current_start`
abbrev pub in_current : ℕ → ℕ → Row → Bool
in_current days anchor r = ltb anchor (r.t.txn_timestamp + days * day)

abbrev pub in_previous : ℕ → ℕ → Row → Bool
in_previous days anchor r =
    not (in_current days anchor r) && ltb anchor (r.t.txn_timestamp + 2 * days * day)

pub data Direction : Type 0 where
  unknown up down flat : Direction

-- A share, where there is something to take it of.
abbrev pub rate : ℕ → ℕ → Option (ℕ × ℕ)
rate part whole = if ltb 0 whole then some (part, whole) else none

-- `currentRate > previousRate`, and so on: `a / b` against `c / d`.
abbrev direction : Option (ℕ × ℕ) → Option (ℕ × ℕ) → Direction
direction none previous = unknown
direction (some r) none = unknown
direction (some (a, b)) (some (c, d)) =
    if ltb (c * b) (a * d) then up else (if ltb (a * d) (c * b) then down else flat)

-- `currentRate - previousRate`, kept as the two.
abbrev pub both : Option (ℕ × ℕ) → Option (ℕ × ℕ) → Option ((ℕ × ℕ) × (ℕ × ℕ))
both (some a) (some b) = some (a, b)
both _ _ = none

pub record Comparison : Type 0 where
  pub anchor : Option ℕ
  pub current_rate : Option (ℕ × ℕ)
  pub previous_rate : Option (ℕ × ℕ)
  pub delta_points : Option ((ℕ × ℕ) × (ℕ × ℕ))
  pub direction : Direction
  pub current_average : Option (ℕ × ℕ)
  pub previous_average : Option (ℕ × ℕ)
  pub current_volume : ℕ
  pub previous_volume : ℕ

-- The rows of the two windows, of which there are none without an anchor.
abbrev pub current_rows : ℕ → Option ℕ → List Row → List Row
current_rows days none rows = []
current_rows days (some a) rows = filter (in_current days a) rows

abbrev pub previous_rows : ℕ → Option ℕ → List Row → List Row
previous_rows days none rows = []
previous_rows days (some a) rows = filter (in_previous days a) rows

unfoldable pub comparison : ℕ → List Row → Comparison
comparison days rows =
    let current = current_rows days (newest rows) rows in
    let previous = previous_rows days (newest rows) rows in
    let now = rate (count (has_level RiskLevel.critical) current) (length current) in
    let before = rate (count (has_level RiskLevel.critical) previous) (length previous) in
    record {
      anchor = newest rows;
      current_rate = now;
      previous_rate = before;
      delta_points = both now before;
      direction = direction now before;
      current_average = average current;
      previous_average = average previous;
      current_volume = length current;
      previous_volume = length previous;
    }

unfoldable pub get_summary : ℕ → List Row → Totals × Comparison
get_summary window_days rows = (totals rows, comparison window_days rows)

-- A row of `GROUP BY` on the risk level.
pub record Level : Type 0 where
  pub level : RiskLevel
  pub count : ℕ
  pub average_score : Option (ℕ × ℕ)

abbrev pub level_row : List Row → RiskLevel → Level
level_row rows level = record {
  level = level;
  count = count (has_level level) rows;
  average_score = average (filter (has_level level) rows);
}

-- The groups that have a row, in some order.
abbrev pub level_groups : List Row → List Level
level_groups rows =
    filter (λ g. ltb 0 g.count) (map (level_row rows) (clear ∷ suspicious ∷ critical ∷ []))

-- `rows.reduce((sum, r) => sum + int(r.count), 0)`
abbrev pub sum_counts : List Level → ℕ
sum_counts [] = 0
sum_counts (g ∷ groups) = g.count + sum_counts groups

-- `rows.find((r) => r.level === level)?.count`, through `int`.
abbrev pub count_of : RiskLevel → List Level → ℕ
count_of level [] = 0
count_of level (g ∷ groups) = if same_risk g.level level then g.count else count_of level groups

pub record Distribution : Type 0 where
  pub total : ℕ
  pub levels : List (RiskLevel × ℕ)

unfoldable pub get_distribution : List Row → Distribution
get_distribution rows =
    let groups = level_groups rows in
    record {
      total = sum_counts groups;
      levels = map (λ level. (level, count_of level groups)) (clear ∷ suspicious ∷ critical ∷ []);
    }

pub record PublicStats : Type 0 where
  pub transactions : ℕ
  pub scored : ℕ
  pub critical : ℕ

unfoldable pub get_public_stats : List Row → PublicStats
get_public_stats rows = record {
  transactions = length rows;
  scored = count is_scored rows;
  critical = count (has_level RiskLevel.critical) rows;
}
