-- ===== src/Listing/Visible.antt =====
-- What the listings let a caller see.
use transactguard.Prelude.{
  ◌==◌, sym, ◌∙◌, ℕ, ◌≡◌, ◌⊎◌, inl, inr, refl, arith, Bool, true, false, ◌&&◌, Option, none, some,
  List, [], ◌∷◌, String, All, map, ap, matches,
}
use transactguard.Errors.{ok, throw}
use transactguard.Errors.Raise
use transactguard.Schema.{Database, World, Transaction, Prediction, Case, RiskLevel}
use transactguard.Predictions.{is_live}
use transactguard.Listing.{OrderBy, count, rows_at, list_page}
use transactguard.Listing.Filters.{
  TransactionQuery, PredictionQuery, CaseQuery, prediction_where, case_where, joined, scored, asked,
  same_risk, found_in,
}
use transactguard.Listing.Pages.{list_page-All, rows_at-All}
use transactguard.Listing.Endpoints.{
  CaseView, risk_score_of, risk_level_of, list_predictions, serialize, list_cases, of_id, first_row,
  get_prediction_by_id,
}

All-map :
    {A B : Type 0} (P : B → Type 0) (f : A → B) (xs : List A)
    → All (λ a. P (f a)) xs
    → All P (map f xs)
All-map P f [] h = tt
All-map P f (x ∷ xs) h = (h.0, All-map P f xs h.1)

matches-some :
    {R : Type 0} (p : ℕ → R → Bool) (id : ℕ) (o : Option R)
    → matches p id o ≡ true
    → (r : R) × (o ≡ some r) × (p id r ≡ true)
matches-some p id none h = absurd (cc)
matches-some p id (some r) h = (r, refl, h)

module _ (D : Database) (contains : String → String → Bool) where
  -- The transaction that a row belongs to is there and has not been deleted.
  abbrev LiveTransaction : ℕ → World D → Type 0
  LiveTransaction id w =
      (t : Transaction) × (D.transactions.find id w.transactions ≡ some t) × (is_live t ≡ true)

  pub joined-some :
      (w : World D) (p : Transaction → Bool) (id : ℕ)
      → joined contains D w p id ≡ true
      → (t : Transaction) × (D.transactions.find id w.transactions ≡ some t) × (p t ≡ true)
  unfolding joined
  joined-some w p id h = matches-some (λ k t. p t) id (D.transactions.find id w.transactions) h

  joined-LiveTransaction :
      (w : World D) (p : Transaction → Bool) (id : ℕ)
      → joined contains D w (λ t. is_live t && p t) id ≡ true
      → LiveTransaction id w
  joined-LiveTransaction w p id h =
      let (t, e, k) = joined-some w (λ t. is_live t && p t) id h in (t, e, ground (arith, k))

  abbrev without : TransactionQuery → TransactionQuery
  without q = record q { include_deleted = false }

  -- The predictions that are listed, to whomever, are those of live transactions.
  list_predictions_hides_deleted :
      (order : OrderBy D.predictions) (q : PredictionQuery) (counted w : World D)
      → All
          (λ p. LiveTransaction p.transaction_id w)
          (list_predictions D contains order q counted w).rows
  unfolding list_predictions prediction_where
  list_predictions_hides_deleted order q counted w =
      list_page-All D.predictions order (prediction_where contains D q w) q.page_size
        (λ p. LiveTransaction p.transaction_id w) q.page
        (count D.predictions (prediction_where contains D q counted) counted.predictions)
        w.predictions
        (λ id p m.
          joined-LiveTransaction w (λ t. asked q.search (λ s. contains s t.txn_id)) p.transaction_id
            (ground (arith, m)))

  -- What a listing of cases says of each: that its transaction is live and has been scored, and that
  -- the risk shown is that of the prediction stored.
  abbrev pub ShowsRisk : World D → CaseView → Type 0
  ShowsRisk w v =
      LiveTransaction v.row.transaction_id w
      × ((p : Prediction) × (D.predictions.find v.row.transaction_id w.predictions ≡ some p)
          × (v.risk_score ≡ some p.risk_score)
          × (v.risk_level ≡ some p.risk_level))

  scored-some :
      (w : World D) (level : Option RiskLevel) (id : ℕ)
      → scored contains D w level id ≡ true
      → (p : Prediction) × (D.predictions.find id w.predictions ≡ some p)
  unfolding scored
  scored-some w level id h =
      let (p, e, k) =
        matches-some (λ k p. asked level (same_risk p.risk_level)) id
          (D.predictions.find id w.predictions) h in
      (p, e)

  case_where-ShowsRisk :
      (q : CaseQuery) (w : World D) (id : ℕ) (c : Case)
      → case_where contains D q w id c ≡ true
      → ShowsRisk w (serialize D contains w c)
  unfolding case_where serialize
  case_where-ShowsRisk q w id c m =
      let (p, e) = scored-some w q.risk_level c.transaction_id (ground (arith, m)) in
      (
        joined-LiveTransaction w (λ t. asked q.search (λ s. found_in contains s t)) c.transaction_id
            (ground (arith, m)),
        (p, e, ap risk_score_of e, ap risk_level_of e),
      )

  -- The queue of cases holds only cases of live transactions that have been scored, each shown with
  -- the risk of its prediction.
  pub list_cases-ShowsRisk :
      (order : OrderBy D.cases) (q : CaseQuery) (counted w : World D)
      → All (ShowsRisk w) (list_cases D contains order q counted w).rows
  unfolding list_cases
  list_cases-ShowsRisk order q counted w =
      let total = count D.cases (case_where contains D q counted) counted.cases in
      All-map (ShowsRisk w) (serialize D contains w)
        (list_page D.cases order (case_where contains D q w) q.page q.page_size total w.cases).rows
        (list_page-All D.cases order (case_where contains D q w) q.page_size
          (λ c. ShowsRisk w (serialize D contains w c)) q.page total w.cases
          (case_where-ShowsRisk q w))

module _ (D : Database) where
  -- What a prediction that is read by its id is.
  abbrev Readable : World D → ℕ → Prediction → Type 0
  Readable w id p =
      ((p.id == id) ≡ true)
      × ((t : Transaction) × (D.transactions.find p.transaction_id w.transactions ≡ some t)
          × (is_live t ≡ true))

  of_id-Readable :
      (w : World D) (id k : ℕ) (p : Prediction) → of_id D w id k p ≡ true → Readable w id p
  of_id-Readable w id k p h = (
    ground (arith, h),
    matches-some (λ j t. is_live t) p.transaction_id
        (D.transactions.find p.transaction_id w.transactions) (ground (arith, h)),
  )

  first_row-cases :
      (P : Prediction → Type 0) (rows : List Prediction)
      → All P rows
      → (first_row rows ≡ throw Raise.not_found)
        ⊎ ((p : Prediction) × (first_row rows ≡ ok p) × P p)
  unfolding first_row
  first_row-cases P [] h = inl refl
  first_row-cases P (p ∷ rows) h = inr (p, refl, h.0)

  -- Reading a prediction gives the one with that id, and only while its transaction is live; any other
  -- id is answered with a 404.
  get_prediction_by_id-Readable :
      (id : ℕ) (w : World D)
      → (get_prediction_by_id D id w ≡ throw Raise.not_found)
        ⊎ ((p : Prediction) × (get_prediction_by_id D id w ≡ ok p) × Readable w id p)
  unfolding get_prediction_by_id
  get_prediction_by_id-Readable id w =
      let ids = D.predictions.find_ids (of_id D w id) w.predictions in
      first_row-cases (Readable w id) (rows_at D.predictions ids w.predictions) (
        rows_at-All D.predictions (Readable w id) ids w.predictions (λ k p m e.
          of_id-Readable w id k p (
            ap (matches (of_id D w id) k) (sym e)
            ∙ sym (D.predictions.elem-find_ids (of_id D w id) w.predictions k)
            ∙ m)))
