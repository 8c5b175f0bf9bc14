-- ===== src/Analytics/Network.antt =====
-- `getNetwork` of backend/src/modules/analytics/analytics.service.js: the accounts that appear in more
-- than one flagged transaction, and the transactions around them.
pub mod Closed
use text.Mathlib.Text.{◌==◌ as str_eq}
use transactguard.Prelude.{
  ℕ, String, Bool, true, false, ◌&&◌, ◌||◌, Option, none, some, List, [], ◌∷◌, ◌++◌, map, ltb,
  if◌then◌else◌, length, take, filter,
}
use transactguard.Schema.{Transaction, suspicious, critical}
use transactguard.Analytics.{Row, has_level}

-- `nodes.has(id)`, on the keys.
abbrev pub has : String → List String → Bool
has a [] = false
has a (b ∷ bs) = str_eq a b || has a bs

-- `p.risk_level IN ('CRITICAL','SUSPICIOUS')`
abbrev pub is_flagged : Row → Bool
is_flagged r = has_level critical r || has_level suspicious r

-- `SELECT sender_id UNION ALL SELECT receiver_id`
parties : List Row → List String
parties rows = map (λ r. r.t.sender_id) rows ++ map (λ r. r.t.receiver_id) rows

pub degree : String → List Row → ℕ
unfolding parties
degree a rows = length (filter (str_eq a) (parties rows))

-- `GROUP BY acct`
abbrev pub accounts : List String → List String
accounts [] = []
accounts (a ∷ rest) = a ∷ filter (λ b. if str_eq b a then false else true) (accounts rest)

-- `HAVING COUNT(*) > 1`
pub repeated : List Row → List String
unfolding degree parties
repeated flagged = filter (λ a. ltb 1 (degree a flagged)) (accounts (parties flagged))

pub touches : List String → Row → Bool
touches hubs r = has r.t.sender_id hubs || has r.t.receiver_id hubs

pub record Node : Type 0 where
  pub id : String
  pub degree : ℕ
  pub hub : Bool

pub record Network : Type 0 where
  pub nodes : List Node
  pub edges : List Row
  pub hubs_shown : ℕ
  pub hubs_total : ℕ
  pub max_degree : ℕ
  pub inter_hub_edges : ℕ

abbrev pub ids : List Node → List String
ids nodes = map (λ n. n.id) nodes

module _ (flagged : List Row) (hubs : List String) where
  -- The entry of `degreeByAccount`, or one.
  unfoldable pub new_node : String → Node
  unfolding degree
  new_node a = record {
    id = a;
    degree = if has a hubs then degree a flagged else 1;
    hub = has a hubs;
  }

  unfoldable pub touch : String → List Node → List Node
  unfolding new_node
  touch a nodes = if has a (ids nodes) then nodes else nodes ++ (new_node a ∷ [])

  unfoldable pub touch_all : List Row → List Node → List Node
  unfolding touch
  touch_all [] nodes = nodes
  touch_all (e ∷ edges) nodes = touch_all edges (touch e.t.receiver_id (touch e.t.sender_id nodes))

-- The second query, which is not made without hubs.
unfoldable pub edges_of : List Row → List String → List Row
unfolding touches
edges_of flagged [] = []
edges_of flagged (a ∷ rest) = filter (touches (a ∷ rest)) flagged

-- `hubs[0]?.degree ?? 0`
first_degree : List Row → List String → ℕ
unfolding degree
first_degree flagged [] = 0
first_degree flagged (a ∷ rest) = degree a flagged

-- `arrange` is `ORDER BY COUNT(*) DESC, acct ASC`.
unfoldable pub get_network : (List String → List String) → ℕ → List Row → Network
unfolding repeated edges_of touch_all first_degree
get_network arrange limit rows =
    let flagged = filter is_flagged rows in
    let hubs = take limit (arrange (repeated flagged)) in
    let edges = edges_of flagged hubs in
    record {
      nodes = touch_all flagged hubs edges [];
      edges = edges;
      hubs_shown = length hubs;
      hubs_total = length (repeated flagged);
      max_degree = first_degree flagged hubs;
      inter_hub_edges = 0;
    }
