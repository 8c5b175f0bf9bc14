-- ===== src/Analytics/Buckets.antt =====
-- `getTrend` and `getHourlyRisk`: the rows by the day and by the hour of their time.
use transactguard.Prelude.{
  ℕ, zero, suc, ◌+◌, ◌/◌, ◌%◌, ◌≤◌, ◌≡◌, refl, sym, ◌∙◌, ap, inl, inr, arith, true, false, Option,
  none, some, List, length-filter-le, ◌<◌, [], ◌∷◌, map, ◌==◌, ==_iff, length, take, take_all,
  filter, elem, nodup, dedup, elem-dedup, nodup-dedup, Bool-cases,
}
use transactguard.Schema.{RiskLevel}
use transactguard.Listing.Export.{sort_ids}
use transactguard.Listing.Export.Ascending.{
  Above, Above-elem, Above-take, Above-sort_ids, elem-sort_ids,
}
use transactguard.Analytics.{Row, is_scored, has_level, count, average, day}

pub record Bucket : Type 0 where
  pub bucket : ℕ
  pub transactions : ℕ
  pub scored : ℕ
  pub average_score : Option (ℕ × ℕ)
  pub critical : ℕ
  pub suspicious : ℕ
  pub clear : ℕ

-- `date_trunc('day', ...)` and `EXTRACT(HOUR FROM ...)` of a time.
abbrev day_of : Row → ℕ
day_of r = r.t.txn_timestamp / day

abbrev hour_of : Row → ℕ
hour_of r = r.t.txn_timestamp / 3600000 % 24

-- The rows of a group.
abbrev pub among : (Row → ℕ) → ℕ → List Row → List Row
among key b rows = filter (λ r. key r == b) rows

-- `GROUP BY 1 ORDER BY 1`: the keys that occur, ascending.
abbrev buckets : (Row → ℕ) → List Row → List ℕ
buckets key rows = sort_ids (dedup (map key rows))

-- The hours show only some of these figures.
bucket_row : (Row → ℕ) → List Row → ℕ → Bucket
bucket_row key rows b =
    let group = among key b rows in
    record {
      bucket = b;
      transactions = length group;
      scored = count is_scored group;
      average_score = average group;
      critical = count (has_level RiskLevel.critical) group;
      suspicious = count (has_level RiskLevel.suspicious) group;
      clear = count (has_level RiskLevel.clear) group;
    }

-- `LIMIT ${days}`, from the first day on.
get_trend : ℕ → List Row → List Bucket
get_trend days rows = map (bucket_row day_of rows) (take days (buckets day_of rows))

get_hourly_risk : List Row → List Bucket
get_hourly_risk rows = map (bucket_row hour_of rows) (buckets hour_of rows)

abbrev sum_transactions : List Bucket → ℕ
sum_transactions [] = 0
sum_transactions (b ∷ bs) = b.transactions + sum_transactions bs

Above-nodup : (o : Option ℕ) (xs : List ℕ) → Above o xs → nodup xs ≡ true
Above-nodup o [] h = refl
Above-nodup o (x ∷ xs) h = elim (Bool-cases (elem x xs)) [
  | inl again ↦ absurd (let k = Above-elem (some x) x xs h.1 again in ground (arith, k))
  | inr once ↦ ground (arith, once, Above-nodup (some x) xs h.1)
]

Above-take_before :
    (o : Option ℕ) (n b d : ℕ) (xs : List ℕ)
    → Above o xs
    → elem b (take n xs) ≡ true
    → elem d xs ≡ true
    → elem d (take n xs) ≡ false
    → b < d
Above-take_before o zero b d xs h m k out = absurd (cc)
Above-take_before o (suc n) b d [] h m k out = absurd (cc)
Above-take_before o (suc n) b d (x ∷ xs) h m k out =
    let later : elem d xs ≡ true = ground (arith, k, out) in
    let lt = Above-elem (some x) d xs h.1 later in
    elim (Bool-cases (b == x)) [
      | inl same ↦ let e = (==_iff b x).0 same in ground (arith, lt, e)
      | inr other ↦
          Above-take_before (some x) n b d xs h.1 (ground (arith, m, other)) later
            (ground (arith, out))
    ]

map-bucket :
    (key : Row → ℕ) (rows : List Row) (keys : List ℕ)
    → map (λ k. k.bucket) (map (bucket_row key rows) keys) ≡ keys
unfolding bucket_row
map-bucket key rows [] = refl
map-bucket key rows (b ∷ keys) = ap (λ l. b ∷ l) (map-bucket key rows keys)

module _ (key : Row → ℕ) where
  -- How many rows have one of the keys.
  abbrev among_any : List ℕ → List Row → ℕ
  among_any keys rows = length (filter (λ r. elem (key r) keys) rows)

  -- A key more is that key's rows more.
  among_any-cons :
      (b : ℕ) (keys : List ℕ) (rows : List Row)
      → elem b keys ≡ false
      → among_any (b ∷ keys) rows ≡ length (among key b rows) + among_any keys rows
  among_any-cons b keys [] h = refl
  among_any-cons b keys (r ∷ rows) h = elim (Bool-cases (key r == b)) [
    | inl same ↦
        let e = (==_iff (key r) b).0 same in
        let far : elem (key r) keys ≡ false = rw e h in ground (arith, among_any-cons b keys rows h)
    | inr other ↦ ground (arith, among_any-cons b keys rows h)
  ]

  among_any-none : (rows : List Row) → among_any [] rows ≡ 0
  among_any-none [] = refl
  among_any-none (r ∷ rows) = among_any-none rows

  among_any-all :
      (keys : List ℕ) (rows : List Row)
      → ((a : ℕ) → elem a (map key rows) ≡ true → elem a keys ≡ true)
      → among_any keys rows ≡ length rows
  among_any-all keys [] h = refl
  among_any-all keys (r ∷ rows) h =
      let here = h (key r) (ground arith) in
      let rest = among_any-all keys rows (λ a m. h a (ground (arith, m))) in
      ground (arith, here, rest)

  -- The groups of different keys have the rows with these keys, each once.
  sum_transactions-keys :
      (rows : List Row) (keys : List ℕ)
      → nodup keys ≡ true
      → sum_transactions (map (bucket_row key rows) keys) ≡ among_any keys rows
  unfolding bucket_row
  sum_transactions-keys rows [] h = sym (among_any-none rows)
  sum_transactions-keys rows (b ∷ keys) h =
      let rest = sum_transactions-keys rows keys (ground (arith, h)) in
      let one = among_any-cons b keys rows (ground (arith, h)) in omega (arith, rest, one)

  buckets-Above : (rows : List Row) → Above none (buckets key rows)
  buckets-Above rows = Above-sort_ids (dedup (map key rows)) (nodup-dedup (map key rows))

  elem-buckets : (a : ℕ) (rows : List Row) → elem a (buckets key rows) ≡ elem a (map key rows)
  elem-buckets a rows = elem-sort_ids a (dedup (map key rows)) ∙ elem-dedup a (map key rows)

  sum_transactions-take :
      (n : ℕ) (rows : List Row)
      → sum_transactions (map (bucket_row key rows) (take n (buckets key rows)))
        ≡ among_any (take n (buckets key rows)) rows
  sum_transactions-take n rows = sum_transactions-keys rows (take n (buckets key rows)) (
      Above-nodup none (take n (buckets key rows))
        (Above-take none n (buckets key rows) (buckets-Above rows)))

-- The trend counts a transaction at most once, and every one when there are no more days than it was
-- asked for; the hours count every transaction exactly once.
buckets_add_up :
    (days : ℕ) (rows : List Row)
    → (sum_transactions (get_trend days rows) ≤ length rows)
      × ((length (buckets day_of rows) ≤ days)
          → sum_transactions (get_trend days rows) ≡ length rows)
      × (sum_transactions (get_hourly_risk rows) ≡ length rows)
unfolding get_trend get_hourly_risk
buckets_add_up days rows = (
  rw (sum_transactions-take day_of days rows)
      (length-filter-le (λ r. elem (day_of r) (take days (buckets day_of rows))) rows),
  λ few.
      sum_transactions-take day_of days rows
      ∙ ap (λ keys. among_any day_of keys rows) (take_all days (buckets day_of rows) few)
      ∙ among_any-all day_of (buckets day_of rows) rows (λ a m. elem-buckets day_of a rows ∙ m),
  sum_transactions-keys hour_of rows (buckets hour_of rows)
        (Above-nodup none (buckets hour_of rows) (buckets-Above hour_of rows))
      ∙ among_any-all hour_of (buckets hour_of rows) rows (λ a m. elem-buckets hour_of a rows ∙ m),
)

-- Where there are more days, those that the trend leaves out are the latest: every day in it comes
-- before every day that is not.
get_trend_keeps_the_oldest :
    (days b d : ℕ) (rows : List Row)
    → elem b (map (λ k. k.bucket) (get_trend days rows)) ≡ true
    → elem d (map day_of rows) ≡ true
    → elem d (map (λ k. k.bucket) (get_trend days rows)) ≡ false
    → b < d
unfolding get_trend bucket_row
get_trend_keeps_the_oldest days b d rows hb hd out =
    let bs = buckets day_of rows in
    let e = map-bucket day_of rows (take days bs) in
    let m : elem b (take days bs) ≡ true = ap (elem b) (sym e) ∙ hb in
    let o : elem d (take days bs) ≡ false = ap (elem d) (sym e) ∙ out in
    Above-take_before none days b d bs (buckets-Above day_of rows) m
      (elem-buckets day_of d rows ∙ hd) o
