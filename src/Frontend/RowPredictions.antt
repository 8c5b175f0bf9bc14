-- ===== src/Frontend/RowPredictions.antt =====
-- `useRowPredictions` of frontend/src/hooks/useRowPredictions.js: the prediction that the table of
-- transactions shows in a row, looked up by a search for the row's `txnId` in the listing of
-- predictions (backend/src/modules/predictions/predictions.service.js).
use transactguard.Prelude.{
  ℕ, ◌≤◌, ◌≡◌, refl, sym, ◌∙◌, ap, arith, String, Bool, true, false, ◌&&◌, Option, none, some, List,
  [], ◌∷◌, ◌<◌, inl, inr, ltb, leb, Bool-cases, length, if◌then◌else◌, take, elem,
  length-le_of_subset, Table, matches,
}
use transactguard.Schema.{Database, World, Transaction, Prediction}
use transactguard.Predictions.{is_live}
use transactguard.Listing.{OrderBy, page_of, with_row, rows_at, list_page}
use transactguard.Listing.Filters.{PredictionQuery, prediction_where, joined}
use transactguard.Listing.Endpoints.{list_predictions}
use transactguard.Listing.Visible.{joined-some}

-- `qs({ search: row.txnId, pageSize: 1 })`, with the defaults of the schema.
abbrev row_query : String → PredictionQuery
row_query txn_id = record {
  page = 1;
  page_size = 1;
  risk_level = none;
  from = none;
  to = none;
  min_score = none;
  max_score = none;
  search = some txn_id;
}

-- What listPredictionsQuerySchema lets through, `z.string().trim().min(1).max(120)`; `none` is its 400.
unfoldable pub checked_search : (String → String) → (String → ℕ) → String → Option String
checked_search trim chars text =
    let s = trim text in if ltb 0 (chars s) && leb (chars s) 120 then some s else none

-- `data.predictions?.[0] ?? null`
abbrev pub first : {R : Type 0} → List R → Option R
first [] = none
first (r ∷ rows) = some r

first-with_row : {R : Type 0} (o : Option R) → first (with_row o []) ≡ o
first-with_row none = refl
first-with_row (some r) = refl

-- Of at most one row, the first is that row.
first-rows_at :
    {R : Type 0} (T : Table R) (id : ℕ) (ids : List ℕ) (s : T.State)
    → length ids ≤ 1
    → ((j : ℕ) → elem j ids ≡ true → j ≡ id)
    → first (rows_at T (take 1 ids) s) ≡ (if elem id ids then T.find id s else none)
first-rows_at T id [] s le own = refl
first-rows_at T id (x ∷ []) s le own =
    let e = own x (ground arith) in
    let there : elem id (x ∷ []) ≡ true = ground (arith, e) in
    rw there (first-with_row (T.find x s) ∙ ap (λ i. T.find i s) e)
first-rows_at T id (x ∷ y ∷ ids) s le own = absurd (omega (arith, le))

same_none : {R : Type 0} (b : Bool) (o : Option R) → o ≡ none → (if b then o else none) ≡ o
same_none true o e = refl
same_none false o e = sym e

alone : (a id : ℕ) → a ≡ id → elem a (id ∷ []) ≡ true
alone a id e = ground (arith, e)

-- `trim` and `chars` are the `trim()` and the `length` of a text.
module _ (D : Database) (contains : String → String → Bool) (trim : String → String)
    (chars : String → ℕ) (order : OrderBy D.predictions) where
  -- The rows of the answer; a request that the schema refuses leaves the row without data.
  unfoldable pub answer_rows : Option String → World D → List Prediction
  answer_rows none w = []
  answer_rows (some search) w = (list_predictions D contains order (row_query search) w w).rows

  -- What a request for the row brings, which the hook then keeps for a minute.
  unfoldable pub row_prediction : String → World D → Option Prediction
  unfolding answer_rows
  row_prediction txn_id w = first (answer_rows (checked_search trim chars txn_id) w)

  -- The rows of predictions are kept under their transactions.
  abbrev pub WellKeyed : World D → Type 0
  WellKeyed w =
      (j : ℕ) (p : Prediction) → D.predictions.find j w.predictions ≡ some p → p.transaction_id ≡ j

  -- No other live transaction has the text in its `txnId`.
  abbrev pub OnlyHere : ℕ → String → World D → Type 0
  OnlyHere id txn_id w =
      (j : ℕ) (t : Transaction)
      → D.transactions.find j w.transactions ≡ some t
      → is_live t ≡ true
      → contains txn_id t.txn_id ≡ true
      → j ≡ id

  module _ (w : World D) (id : ℕ) (t : Transaction) where
    found : List ℕ
    found =
        D.predictions.find_ids (prediction_where contains D (row_query t.txn_id) w) w.predictions

    -- What is found is the row's own.
    matches-own :
        (j : ℕ) (o : Option Prediction)
        → D.predictions.find j w.predictions ≡ o
        → WellKeyed w
        → OnlyHere id t.txn_id w
        → matches (prediction_where contains D (row_query t.txn_id) w) j o ≡ true
        → j ≡ id
    unfolding prediction_where
    matches-own j none e keyed only m = absurd (cc)
    matches-own j (some p) e keyed only m =
        let (u, f, both) =
          joined-some D contains w (λ u. is_live u && contains t.txn_id u.txn_id) p.transaction_id
            (ground (arith, m)) in
        sym (keyed j p e) ∙ only p.transaction_id u f (ground (arith, both)) (ground (arith, both))

    -- And it is found, if it is there.
    matches-there :
        (p : Prediction)
        → D.transactions.find id w.transactions ≡ some t
        → is_live t ≡ true
        → contains t.txn_id t.txn_id ≡ true
        → p.transaction_id ≡ id
        → prediction_where contains D (row_query t.txn_id) w id p ≡ true
    unfolding prediction_where joined
    matches-there p f live own e = rw e (rw f (ground (arith, live, own)))

    elem-found :
        (j : ℕ)
        → elem j (order.arrange w.predictions found)
          ≡ matches
              (prediction_where contains D (row_query t.txn_id) w)
              j
              (D.predictions.find j w.predictions)
    unfolding found
    elem-found j =
        order.elem-arrange w.predictions j found
        ∙ D.predictions.elem-find_ids (prediction_where contains D (row_query t.txn_id) w)
            w.predictions j

    found-own :
        WellKeyed w
        → OnlyHere id t.txn_id w
        → (j : ℕ) → elem j (order.arrange w.predictions found) ≡ true
        → j ≡ id
    found-own keyed only j m =
        matches-own j (D.predictions.find j w.predictions) refl keyed only (sym (elem-found j) ∙ m)

    length-found :
        WellKeyed w → OnlyHere id t.txn_id w → length (order.arrange w.predictions found) ≤ 1
    unfolding found
    length-found keyed only =
        let le =
          length-le_of_subset found (id ∷ [])
            (D.predictions.nodup-find_ids (prediction_where contains D (row_query t.txn_id) w)
              w.predictions)
            (λ a m.
              alone a id (found-own keyed only a (order.elem-arrange w.predictions a found ∙ m))) in
        omega (arith, le, order.length-arrange w.predictions found)

    shown_or_none :
        (o : Option Prediction)
        → D.predictions.find id w.predictions ≡ o
        → WellKeyed w
        → D.transactions.find id w.transactions ≡ some t
        → is_live t ≡ true
        → contains t.txn_id t.txn_id ≡ true
        → (if elem id (order.arrange w.predictions found) then o else none) ≡ o
    shown_or_none none e keyed f live own =
        same_none (elem id (order.arrange w.predictions found)) none refl
    shown_or_none (some p) e keyed f live own =
        let there : elem id (order.arrange w.predictions found) ≡ true =
          elem-found id
          ∙ ap (matches (prediction_where contains D (row_query t.txn_id) w) id) e
          ∙ matches-there p f live own (keyed id p e) in
        rw there refl

    own_search :
        WellKeyed w
        → OnlyHere id t.txn_id w
        → D.transactions.find id w.transactions ≡ some t
        → is_live t ≡ true
        → contains t.txn_id t.txn_id ≡ true
        → first (answer_rows (some t.txn_id) w) ≡ D.predictions.find id w.predictions
    unfolding answer_rows list_predictions list_page page_of found
    own_search keyed only f live own =
        first-rows_at D.predictions id (order.arrange w.predictions found) w.predictions
          (length-found keyed only) (found-own keyed only)
        ∙ shown_or_none (D.predictions.find id w.predictions) refl keyed f live own

    -- Where no other live transaction has the row's `txnId` inside its own, and that text is not empty
    -- and has no spaces at its ends, the request for the row brings the stored prediction of its
    -- transaction, and none where there is none, if the text has at most 120 characters; if it has
    -- more, the request brings no prediction, whatever is stored.
    pub row_prediction_is_its_own :
        WellKeyed w
        → OnlyHere id t.txn_id w
        → D.transactions.find id w.transactions ≡ some t
        → is_live t ≡ true
        → contains t.txn_id t.txn_id ≡ true
        → trim t.txn_id ≡ t.txn_id
        → 0 < chars t.txn_id
        → row_prediction t.txn_id w
          ≡ (if leb (chars t.txn_id) 120 then D.predictions.find id w.predictions else none)
    unfolding row_prediction checked_search answer_rows
    row_prediction_is_its_own keyed only f live own plain pos =
        let some' : ltb 0 (chars t.txn_id) ≡ true = ground (arith, pos) in
        elim (Bool-cases (leb (chars t.txn_id) 120)) [
          | inl short ↦ rw (plain, some', short) (own_search keyed only f live own)
          | inr long ↦ rw (plain, some', long) refl
        ]
