-- ===== src/Predictions/Atomic.antt =====
-- What a scoring round trip writes, on success and on failure.
use transactguard.Prelude.{
  ℕ, ◌≡◌, refl, ◌⊎◌, inl, inr, true, Option, none, some, Option-cases, arith, ◌==◌, if◌then◌else◌,
}
use transactguard.Errors.{ApiError, Result, ok, throw, Result-cases}
use transactguard.Schema.{Database, World, Ctx, Transaction, Prediction, Action, record_audit}
use transactguard.MlClient.{MlRequest, FetchOutcome, predict_single}
use transactguard.MlClient.Codes.{Unscorable, Upstream, has_balances, predict_single-throw}
use transactguard.Predictions.{
  Outcome, live, upserted, score_live, score_and_persist, audited, create_prediction,
}

-- The row that an accepted score leaves behind.
pub record Stores (o : Outcome) (transaction_id : ℕ) (job : Option ℕ) : Type 0 where
  pub owner : o.prediction.transaction_id ≡ transaction_id
  pub score : o.prediction.risk_score ≡ o.scored.risk_score
  pub level : o.prediction.risk_level ≡ o.scored.risk_level
  pub model : o.prediction.model_version ≡ o.scored.model_version
  pub attributed : o.prediction.batch_job_id ≡ job

module _ (D : Database) (fetch : MlRequest → FetchOutcome) (id : ℕ) (job : Option ℕ) (ctx : Ctx)
    (w : World D) where
  abbrev stored : Option Prediction
  stored = D.predictions.find id w.predictions

  -- A failed round trip leaves the whole world as it was, and fails in one of three ways: there is
  -- no live transaction (404), it lacks a balance (422), or the service failed (502).
  pub score_and_persist-throw :
      (e : ApiError)
      → (score_and_persist D fetch id job ctx w).0 ≡ throw e
      → ((score_and_persist D fetch id job ctx w).1 ≡ w)
        × (((live (D.transactions.find id w.transactions) ≡ none) × (e.status_code ≡ 404))
            ⊎ ((t : Transaction) × (live (D.transactions.find id w.transactions) ≡ some t)
                × (Unscorable t e ⊎ ((has_balances t ≡ true) × Upstream e))))
  unfolding score_and_persist
  score_and_persist-throw e h = elim (Option-cases (live (D.transactions.find id w.transactions))) [
    | inl absent ↦ (rw (absent, score_live), inl (absent, ground arith))
    | inr (t, present) ↦ elim (Result-cases (predict_single fetch t)) [
      | inl (e', refused) ↦
          (ground arith, inr (t, present, predict_single-throw fetch t e (ground arith)))
      | inr (s, scored) ↦ absurd (ground arith)
    ]
  ]

  -- A round trip that succeeds scores a live transaction through the model, stores the score under
  -- the transaction for the job that asked, leaves every other prediction and everything else in
  -- the world as it was, and keeps the key and the creation time of a prediction that it replaces.
  pub score_and_persist-ok :
      (o : Outcome)
      → (score_and_persist D fetch id job ctx w).0 ≡ ok o
      → let w' = (score_and_persist D fetch id job ctx w).1 in
        (live (D.transactions.find id w.transactions) ≡ some o.transaction)
        × (predict_single fetch o.transaction ≡ ok o.scored)
        × Stores o id job
        × ((j : ℕ)
            → D.predictions.find j w'.predictions
              ≡ (if id == j then some o.prediction else D.predictions.find j w.predictions))
        × (w' ≡ record w { predictions = w'.predictions })
        × ((old : Prediction)
            → stored ≡ some old
            → (o.rescored ≡ true)
              × (o.prediction.id ≡ old.id)
              × (o.prediction.created_at ≡ old.created_at))
  unfolding score_and_persist upserted
  score_and_persist-ok o h = elim (Option-cases (live (D.transactions.find id w.transactions))) [
    | inl absent ↦ absurd (ground arith)
    | inr (t, present) ↦ elim (Result-cases (predict_single fetch t)) [
      | inl (e', refused) ↦ absurd (ground arith)
      | inr (s, scored) ↦
          let row = upserted stored id job s ctx in
          let is_t : o.transaction ≡ t = ground arith in
          let is_s : o.scored ≡ s = ground arith in
          let is_row : o.prediction ≡ row = ground arith in
          (
            rw is_t present,
            rw (is_t, is_s) scored,
            record {
              owner = ground arith;
              score = ground arith;
              level = ground arith;
              model = ground arith;
              attributed = ground arith;
            },
            (λ j. ground (arith, D.predictions.find-put id j row w.predictions)),
            ground arith,
            (λ old e. ground arith),
          )
    ]
  ]

module _ (D : Database) (user_id : ℕ) (ctx : Ctx) where
  audited-ok :
      (x : Result Outcome × World D) (o : Outcome)
      → (audited D user_id ctx x).0 ≡ ok o
      → (x.0 ≡ ok o)
        × ((audited D user_id ctx x).1 ≡ record x.1 { audit = (audited D user_id ctx x).1.audit })
        × ((audited D user_id ctx x).1.audit
            ≡ record_audit ctx.audit_up
                (record {
                  user_id = some user_id;
                  action =
                      Action.prediction_created o.scored.risk_score o.scored.risk_level o.rescored;
                  resource_id = some o.prediction.id;
                })
                x.1.audit)
  unfolding audited
  audited-ok (throw e, w) o h = absurd (cc)
  audited-ok (ok a, w) o h = let same : a ≡ o = cc in (h, refl, rw same)

  -- A prediction that the API makes is the one of the round trip, stored for no job; one audit row of
  -- the caller's, with the score, is added where the audit log can be written, and nothing else.
  pub create_prediction-ok :
      (fetch : MlRequest → FetchOutcome) (id : ℕ) (w : World D) (o : Outcome)
      → (create_prediction D fetch id user_id ctx w).0 ≡ ok o
      → let r = score_and_persist D fetch id none ctx w in
        let w' = (create_prediction D fetch id user_id ctx w).1 in
        (r.0 ≡ ok o)
        × (w' ≡ record r.1 { audit = w'.audit })
        × (w'.audit
            ≡ record_audit ctx.audit_up
                (record {
                  user_id = some user_id;
                  action =
                      Action.prediction_created o.scored.risk_score o.scored.risk_level o.rescored;
                  resource_id = some o.prediction.id;
                })
                r.1.audit)
  unfolding create_prediction
  create_prediction-ok fetch id w o h = audited-ok (score_and_persist D fetch id none ctx w) o h
