-- ===== src/Analytics/Scatter.antt =====
-- `getScatter` of backend/src/modules/analytics/analytics.service.js: the points of the risk radar.
use text.Mathlib.Text.{◌==◌ as str_eq}
use transactguard.Prelude.{
  ℕ, min, ◌≡◌, refl, arith, String, Bool, true, false, ◌&&◌, ◌||◌, Option, none, some, List, ltb,
  length, take, length-take, filter,
}
use transactguard.Schema.{Transaction, RiskLevel}
use transactguard.Predictions.{is_live}
use transactguard.Listing.Filters.{
  asked, in_range, found_in, amount_in, TransactionQuery, transaction_where,
}
use transactguard.Analytics.{Row, is_scored, level_of}

pub record ScatterQuery : Type 0 where
  pub txn_type : Option String
  pub risk_level : Option RiskLevel
  pub from : Option ℕ
  pub to : Option ℕ
  pub search : Option String
  pub limit : ℕ

-- `conditions`, on the rows of the inner join: a prediction has to be there. `ilike` is Postgres's,
-- of a text between two `%`.
module _ (ilike : String → String → Bool) where
  scatter_where : ScatterQuery → Row → Bool
  scatter_where q r =
      is_scored r
      && is_live r.t
      && asked q.txn_type (λ s. str_eq r.t.txn_type s)
      && asked q.risk_level (λ l. level_of l r.p)
      && in_range q.from q.to r.t.txn_timestamp
      && asked q.search
          (λ s. ilike s r.t.txn_id || ilike s r.t.sender_id || ilike s r.t.receiver_id)

pub record Scatter : Type 0 where
  pub points : List Row
  pub total : ℕ
  pub returned : ℕ
  pub sampled : Bool

-- `shuffle` is `ORDER BY random()`.
get_scatter : (String → String → Bool) → (List Row → List Row) → ScatterQuery → List Row → Scatter
get_scatter ilike shuffle q rows =
    let found = filter (scatter_where ilike q) rows in
    let points = take q.limit (shuffle found) in
    record {
      points = points;
      total = length found;
      returned = length points;
      sampled = ltb (length points) (length found);
    }

-- The query of the list of transactions with the same filters.
abbrev as_list_query : ScatterQuery → TransactionQuery
as_list_query q = record {
  page = 1;
  page_size = 25;
  txn_type = q.txn_type;
  merchant_category = none;
  from = q.from;
  to = q.to;
  min_amount = none;
  max_amount = none;
  search = q.search;
  include_deleted = false;
}

same_search :
    (ilike contains : String → String → Bool) (o : Option String) (t : Transaction)
    → ((needle text : String) → ilike needle text ≡ contains needle text)
    → asked o (λ s. ilike s t.txn_id || ilike s t.sender_id || ilike s t.receiver_id)
      ≡ asked o (λ s. found_in contains s t)
unfolding found_in
same_search ilike contains none t h = refl
same_search ilike contains (some s) t h = rw (h s t.txn_id, h s t.sender_id, h s t.receiver_id) refl

no_amount : (t : Transaction) → amount_in none none t.amount ≡ true
no_amount t = ground arith

-- The radar shows the scored ones, with the risk asked for, of the transactions that the list shows
-- under the same filters, if the two searches of the database agree.
scatter_where_in_list :
    (ilike contains : String → String → Bool) (q : ScatterQuery) (id : ℕ) (r : Row)
    → ((needle text : String) → ilike needle text ≡ contains needle text)
    → scatter_where ilike q r ≡ (
        is_scored r
        && asked q.risk_level (λ l. level_of l r.p)
        && transaction_where contains (as_list_query q) id r.t)
unfolding scatter_where transaction_where
scatter_where_in_list ilike contains q id r h =
    ground (arith, same_search ilike contains q.search r.t h, no_amount r.t)

-- What is returned is the whole population or a sample as large as the limit, and the answer says
-- which.
get_scatter_sample :
    (ilike : String → String → Bool) (shuffle : List Row → List Row) (q : ScatterQuery)
    (rows : List Row)
    → ((l : List Row) → length (shuffle l) ≡ length l)
    → ((get_scatter ilike shuffle q rows).returned
        ≡ min q.limit (get_scatter ilike shuffle q rows).total)
      × ((get_scatter ilike shuffle q rows).sampled
          ≡ ltb q.limit (get_scatter ilike shuffle q rows).total)
unfolding get_scatter
get_scatter_sample ilike shuffle q rows h =
    let found = filter (scatter_where ilike q) rows in
    let n = length-take q.limit (shuffle found) in
    let e = h found in (omega (arith, n, e), ground (arith, n, e))
