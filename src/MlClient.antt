-- ===== src/MlClient.antt =====
-- backend/src/modules/predictions/mlClient.js, with the response schema of predictions.schemas.js.
-- `fetch` is Node's: what it comes to is an argument.
pub mod Codes
use text.Mathlib.Text.{◌==◌ as str_eq}
use transactguard.Prelude.{
  ℕ, String, Bool, true, false, not, ◌&&◌, Option, none, some, List, [], ◌∷◌, ◌++◌, ℤ, pos, negsuc,
  leb, ◌==◌, if◌then◌else◌, is_some,
}
use transactguard.Errors.{Code, ApiError, Result, ok, throw}
use transactguard.Errors.Raise
use transactguard.Schema.{Transaction, RiskLevel, clear, suspicious, critical, FeatureContribution}

pub record MlRequest : Type 0 where
  pub txn_id : String
  pub txn_type : String
  pub amount : ℤ
  pub sender_id : String
  pub receiver_id : String
  pub orig_balance_before : ℤ
  pub orig_balance_after : ℤ
  pub dest_balance_before : ℤ
  pub dest_balance_after : ℤ
  pub txn_timestamp : ℕ

-- The request, if no balance is null. The error's list of the missing fields is left out.
balances : Transaction → Option ℤ → Option ℤ → Option ℤ → Option ℤ → Option MlRequest
balances t (some a) (some b) (some c) (some d) = some (record {
  txn_id = t.txn_id;
  txn_type = t.txn_type;
  amount = t.amount;
  sender_id = t.sender_id;
  receiver_id = t.receiver_id;
  orig_balance_before = a;
  orig_balance_after = b;
  dest_balance_before = c;
  dest_balance_after = d;
  txn_timestamp = t.txn_timestamp;
})
balances t a b c d = none

not_scorable : ApiError
not_scorable = Raise.make 422 Code.transaction_not_scorable

or_not_scorable : Option MlRequest → Result MlRequest
unfolding not_scorable
or_not_scorable none = throw not_scorable
or_not_scorable (some r) = ok r

unfoldable pub to_ml_request : Transaction → Result MlRequest
unfolding balances or_not_scorable
to_ml_request t = or_not_scorable (
    balances t t.orig_balance_before t.orig_balance_after t.dest_balance_before
      t.dest_balance_after)

-- The JSON of an answer, field by field: `none` where the field is absent or of another type than
-- the schema asks for.
pub record Payload : Type 0 where
  pub txn_id : Option String
  pub risk_score : Option ℤ
  pub risk_level : Option String
  pub explanation_summary : Option String
  pub feature_contributions : Option (List FeatureContribution)
  pub model_version : Option String
  pub latency_ms : Option ℤ

-- A payload that the schema accepts.
pub record Scored : Type 0 where
  pub txn_id : String
  pub risk_score : ℕ
  pub risk_level : RiskLevel
  pub explanation_summary : String
  pub feature_contributions : List FeatureContribution
  pub model_version : String
  pub latency_ms : ℕ

-- `z.string().min(1)`
non_empty : Option String → Option String
non_empty none = none
non_empty (some s) = if str_eq s "" then none else some s

-- `z.number().int().nonnegative()`
nonnegative : Option ℤ → Option ℕ
nonnegative (some (pos n)) = some n
nonnegative _ = none

-- `z.number().int().min(0).max(100)`
up_to_100 : Option ℕ → Option ℕ
up_to_100 none = none
up_to_100 (some n) = if leb n 100 then some n else none

-- `z.enum(RISK_LEVELS)`
risk_level : Option String → Option RiskLevel
risk_level none = none
risk_level (some s) =
    if str_eq s "CLEAR"
    then some clear
    else if str_eq s "SUSPICIOUS"
    then some suspicious
    else if str_eq s "CRITICAL"
    then some critical
    else none

infixl 5 ◌>>=◌
abbrev ◌>>=◌ {ℓ κ} : {A : Type ℓ} {B : Type κ} → Option A → (A → Option B) → Option B
none >>= f = none
some a >>= f = f a

-- `mlPredictionResponseSchema.safeParse`
unfoldable pub safe_parse : Payload → Option Scored
unfolding non_empty up_to_100 nonnegative risk_level
safe_parse p = do
  txn_id ← non_empty p.txn_id
  score ← up_to_100 (nonnegative p.risk_score)
  level ← risk_level p.risk_level
  summary ← p.explanation_summary
  features ← p.feature_contributions
  version ← non_empty p.model_version
  latency ← nonnegative p.latency_ms
  some (record {
    txn_id = txn_id;
    risk_score = score;
    risk_level = level;
    explanation_summary = summary;
    feature_contributions = features;
    model_version = version;
    latency_ms = latency;
  })

-- What `fetch` comes to: a timeout or an abort, another failure to connect, or a status with a
-- body, `none` where the body is no JSON.
pub data FetchOutcome : Type 0 where
  timed_out unreachable : FetchOutcome
  response : (status : ℕ) (body : Option Payload) → FetchOutcome

-- `mlError`
abbrev ml_error : Code → ApiError
ml_error c = Raise.make 502 c

-- `response.ok`
abbrev is_ok_status : ℕ → Bool
is_ok_status n = leb 200 n && leb n 299

parsed : Option Payload → Result Scored
parsed none = throw (ml_error Code.ml_service_invalid_response)
parsed (some p) = elim (safe_parse p) [
  | none ↦ throw (ml_error Code.ml_service_invalid_response)
  | some s ↦ ok s
]

read_response : FetchOutcome → Result Scored
unfolding parsed
read_response timed_out = throw (ml_error Code.ml_service_timeout)
read_response unreachable = throw (ml_error Code.ml_service_unavailable)
read_response (response status body) =
    if is_ok_status status
    then parsed body
    else if status == 401
    then throw (ml_error Code.ml_service_unauthorized)
    else throw (ml_error Code.ml_service_error)

-- The request is built first, so that a row that cannot be scored makes no call.
unfoldable pub predict_single : (MlRequest → FetchOutcome) → Transaction → Result Scored
unfolding read_response
predict_single fetch t = elim (to_ml_request t) [
  | throw e ↦ throw e
  | ok body ↦ read_response (fetch body)
]
