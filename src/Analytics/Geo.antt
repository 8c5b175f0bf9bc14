-- ===== src/Analytics/Geo.antt =====
-- `getGeoRisk` of backend/src/modules/analytics/analytics.service.js: the figures of each country, and
-- the extent of the map's scales.
use text.Mathlib.Text.{◌==◌ as str_eq}
use transactguard.Prelude.{
  ℕ, ◌≤◌, max, arith, String, Bool, false, Option, none, some, List, [], ◌∷◌, map, length, filter,
  All,
}
use transactguard.Schema.{RiskLevel}
use transactguard.Analytics.{Row, is_scored, has_level, count, average, rate}
use transactguard.Analytics.Network.{accounts}

pub record Country : Type 0 where
  pub code : String
  pub transactions : ℕ
  pub scored : ℕ
  pub critical : ℕ
  pub suspicious : ℕ
  pub average_score : Option (ℕ × ℕ)
  pub critical_rate : Option (ℕ × ℕ)

-- `t.location = code`, which is not true of a row without one.
abbrev at_place : String → Option String → Bool
at_place code none = false
at_place code (some l) = str_eq l code

-- `WHERE t.location IS NOT NULL`, of the locations.
abbrev locations : List Row → List String
locations [] = []
locations (r ∷ rows) = elim r.t.location [ none ↦ locations rows | some l ↦ l ∷ locations rows ]

country : List Row → String → Country
country rows code =
    let group = filter (λ r. at_place code r.t.location) rows in
    let critical = count (has_level RiskLevel.critical) group in
    record {
      code = code;
      transactions = length group;
      scored = count is_scored group;
      critical = critical;
      suspicious = count (has_level RiskLevel.suspicious) group;
      average_score = average group;
      critical_rate = rate critical (count is_scored group);
    }

-- `Math.max(...countries.map(f), 0)`
abbrev greatest : (Country → ℕ) → List Country → ℕ
greatest f [] = 0
greatest f (c ∷ cs) = max (f c) (greatest f cs)

pub record GeoRisk : Type 0 where
  pub countries : List Country
  pub max_transactions : ℕ
  pub max_critical : ℕ

-- `arrange` is `ORDER BY 2 DESC`; the extremes of the averages are left out.
get_geo_risk : (List String → List String) → List Row → GeoRisk
get_geo_risk arrange rows =
    let countries = map (country rows) (arrange (accounts (locations rows))) in
    record {
      countries = countries;
      max_transactions = greatest (λ c. c.transactions) countries;
      max_critical = greatest (λ c. c.critical) countries;
    }

greatest-All : (f : Country → ℕ) (cs : List Country) → All (λ c. f c ≤ greatest f cs) cs
greatest-All f cs = at_most f cs (greatest f cs) (omega arith)
  where
    at_most :
        (f : Country → ℕ) (cs : List Country) (n : ℕ) → greatest f cs ≤ n → All (λ c. f c ≤ n) cs
    at_most f [] n h = tt
    at_most f (c ∷ cs) n h = (omega (arith, h), at_most f cs n (omega (arith, h)))

-- The scales of the map fit: no country has more transactions, or more critical ones, than the extent
-- says.
get_geo_risk_extent :
    (arrange : List String → List String) (rows : List Row)
    → All
        (λ c. c.transactions ≤ (get_geo_risk arrange rows).max_transactions)
        (get_geo_risk arrange rows).countries
      × All
          (λ c. c.critical ≤ (get_geo_risk arrange rows).max_critical)
          (get_geo_risk arrange rows).countries
unfolding get_geo_risk
get_geo_risk_extent arrange rows =
    let countries = map (country rows) (arrange (accounts (locations rows))) in
    (greatest-All (λ c. c.transactions) countries, greatest-All (λ c. c.critical) countries)
