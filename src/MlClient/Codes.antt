-- ===== src/MlClient/Codes.antt =====
-- The errors of the scoring client, and what it accepts.
use transactguard.Prelude.{
  ℕ, ◌≤◌, ◌≡◌, refl, ◌⊎◌, inl, inr, Bool, true, false, ◌&&◌, Option, none, some, arith, is_some, ℤ,
  pos, negsuc, String,
}
use transactguard.Errors.{Code, ApiError, ok, throw, Result-cases}
use transactguard.Schema.{Transaction}
use transactguard.MlClient.{
  MlRequest, FetchOutcome, timed_out, unreachable, response, Payload, Scored, to_ml_request,
  safe_parse, non_empty, nonnegative, up_to_100, read_response, predict_single,
}

-- A code of `ML_ERROR_CODES`.
abbrev pub is_ml_code : Code → Bool
is_ml_code Code.ml_service_unavailable = true
is_ml_code Code.ml_service_timeout = true
is_ml_code Code.ml_service_unauthorized = true
is_ml_code Code.ml_service_error = true
is_ml_code Code.ml_service_invalid_response = true
is_ml_code _ = false

abbrev pub has_balances : Transaction → Bool
has_balances t =
    is_some t.orig_balance_before
    && is_some t.orig_balance_after
    && is_some t.dest_balance_before
    && is_some t.dest_balance_after

-- The row cannot be scored.
abbrev pub Unscorable : Transaction → ApiError → Type 0
Unscorable t e =
    (has_balances t ≡ false) × (e.status_code ≡ 422) × (e.code ≡ Code.transaction_not_scorable)

-- The service failed.
abbrev pub Upstream : ApiError → Type 0
Upstream e = (e.status_code ≡ 502) × (is_ml_code e.code ≡ true)

to_ml_request-throw : (t : Transaction) (e : ApiError) → to_ml_request t ≡ throw e → Unscorable t e
unfolding to_ml_request
to_ml_request-throw t e h = ground arith

to_ml_request-ok :
    (t : Transaction) (r : MlRequest) → to_ml_request t ≡ ok r → has_balances t ≡ true
unfolding to_ml_request
to_ml_request-ok t r h = ground arith

read_response-throw : (o : FetchOutcome) (e : ApiError) → read_response o ≡ throw e → Upstream e
unfolding read_response
read_response-throw timed_out e h = ground arith
read_response-throw unreachable e h = ground arith
read_response-throw (response n body) e h = ground arith

-- Whatever `predict_single` throws is one of two: a 422 for a row that lacks a balance, or a 502
-- with a code of the scoring service for a row that has them all.
pub predict_single-throw :
    (fetch : MlRequest → FetchOutcome) (t : Transaction) (e : ApiError)
    → predict_single fetch t ≡ throw e
    → Unscorable t e ⊎ ((has_balances t ≡ true) × Upstream e)
unfolding predict_single
predict_single-throw fetch t e h = elim (Result-cases (to_ml_request t)) [
  | inl (e', refused) ↦ inl (to_ml_request-throw t e (ground arith))
  | inr (body, built) ↦
      inr (to_ml_request-ok t body built, read_response-throw (fetch body) e (ground arith))
]

-- An accepted payload: the fields of the result are those of the JSON, within their bounds.
pub record Accepts (p : Payload) (s : Scored) : Type 0 where
  pub score_is : p.risk_score ≡ some (pos s.risk_score)
  pub score_bounded : s.risk_score ≤ 100
  pub txn_id_is : p.txn_id ≡ some s.txn_id
  pub summary_is : p.explanation_summary ≡ some s.explanation_summary
  pub features_are : p.feature_contributions ≡ some s.feature_contributions
  pub version_is : p.model_version ≡ some s.model_version
  pub latency_is : p.latency_ms ≡ some (pos s.latency_ms)

non_empty-some : (o : Option String) (s : String) → non_empty o ≡ some s → o ≡ some s
unfolding non_empty
non_empty-some none s h = cc
non_empty-some (some t) s h = ground arith

score-some :
    (o : Option ℤ) (n : ℕ) → up_to_100 (nonnegative o) ≡ some n → (o ≡ some (pos n)) × (n ≤ 100)
unfolding up_to_100 nonnegative
score-some none n h = cc
score-some (some (pos m)) n h = ground arith
score-some (some (negsuc m)) n h = cc

nonnegative-some : (o : Option ℤ) (n : ℕ) → nonnegative o ≡ some n → o ≡ some (pos n)
unfolding nonnegative
nonnegative-some none n h = cc
nonnegative-some (some (pos m)) n h = ground arith
nonnegative-some (some (negsuc m)) n h = cc

safe_parse-Accepts : (p : Payload) (s : Scored) → safe_parse p ≡ some s → Accepts p s
unfolding safe_parse
safe_parse-Accepts p s h = ground (
  arith,
  non_empty-some p.txn_id s.txn_id,
  score-some p.risk_score s.risk_score,
  non_empty-some p.model_version s.model_version,
  nonnegative-some p.latency_ms s.latency_ms,
)

-- The answer that a score rests on: a response in the 200s whose JSON the schema accepts.
pub record Answered (o : FetchOutcome) (s : Scored) : Type 0 where
  pub status : ℕ
  pub payload : Payload
  pub outcome_is : o ≡ response status (some payload)
  pub status_ok : (200 ≤ status) × (status ≤ 299)
  pub accepted : Accepts payload s

read_response-ok : (o : FetchOutcome) (s : Scored) → read_response o ≡ ok s → Answered o s
unfolding read_response
read_response-ok timed_out s h = cc
read_response-ok unreachable s h = cc
read_response-ok (response n none) s h = ground arith
read_response-ok (response n (some p)) s h = record {
  status = n;
  payload = p;
  outcome_is = refl;
  status_ok = ground arith;
  accepted = safe_parse-Accepts p s (ground arith);
}

-- A score is given only for a row that has its four balances, by a response in the 200s to the
-- request that is built from the row; its fields are those of the response, and it is at most 100.
pub predict_single-ok :
    (fetch : MlRequest → FetchOutcome) (t : Transaction) (s : Scored)
    → predict_single fetch t ≡ ok s
    → (has_balances t ≡ true) × (r : MlRequest) × (to_ml_request t ≡ ok r) × Answered (fetch r) s
unfolding predict_single
predict_single-ok fetch t s h = elim (Result-cases (to_ml_request t)) [
  | inl (e, refused) ↦ absurd (ground arith)
  | inr (body, built) ↦
      (to_ml_request-ok t body built, body, built, read_response-ok (fetch body) s (ground arith))
]
