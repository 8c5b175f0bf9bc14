-- ===== src/Schema/Rows.antt =====
-- The models and enums of backend/prisma/schema.prisma.
use transactguard.Prelude.{ℕ, String, Bool, Option, List, ℤ, ◌++◌, [], ◌∷◌, if◌then◌else◌}

pub data Role : Type 0 where
  admin analyst viewer : Role

pub data CaseStatus : Type 0 where
  under_review confirmed_fraud false_positive : CaseStatus

pub data BatchJobStatus : Type 0 where
  queued processing completed partially_completed failed : BatchJobStatus

pub data RiskLevel : Type 0 where
  clear suspicious critical : RiskLevel

pub record User : Type 0 where
  pub id : ℕ
  pub email : String
  pub password_hash : String
  pub name : String
  pub role : Role
  pub is_active : Bool
  pub created_at : ℕ

-- Money is in hundredths, as `Decimal(18, 2)` keeps it.
pub record Transaction : Type 0 where
  pub id : ℕ
  pub txn_id : String
  pub txn_type : String
  pub amount : ℤ
  pub currency : String
  pub sender_id : String
  pub receiver_id : String
  pub merchant_category : Option String
  pub orig_balance_before : Option ℤ
  pub orig_balance_after : Option ℤ
  pub dest_balance_before : Option ℤ
  pub dest_balance_after : Option ℤ
  pub txn_timestamp : ℕ
  pub location : Option String
  pub device_id : Option String
  pub deleted_at : Option ℕ
  pub created_at : ℕ
  pub uploaded_by_id : Option ℕ

pub record FeatureContribution : Type 0 where
  pub factor : String
  pub description : String
  pub magnitude : ℤ

pub record Prediction : Type 0 where
  pub id : ℕ
  pub transaction_id : ℕ
  pub risk_score : ℕ
  pub risk_level : RiskLevel
  pub explanation_summary : String
  pub feature_contributions : List FeatureContribution
  pub model_version : String
  pub latency_ms : ℕ
  pub created_at : ℕ
  pub batch_job_id : Option ℕ

pub record Case : Type 0 where
  pub id : ℕ
  pub transaction_id : ℕ
  pub status : CaseStatus
  pub notes : Option String
  pub resolved_at : Option ℕ
  pub created_at : ℕ
  pub assigned_to_id : Option ℕ

pub record BatchJob : Type 0 where
  pub id : ℕ
  pub name : String
  pub status : BatchJobStatus
  pub total_txns : ℕ
  pub processed_count : ℕ
  pub failed_count : ℕ
  pub total_chunks : ℕ
  pub completed_chunks : ℕ
  pub transaction_ids : List ℕ
  pub started_at : Option ℕ
  pub completed_at : Option ℕ
  pub created_at : ℕ
  pub created_by_id : Option ℕ

-- The `action` of an audit row, with the metadata that the code attaches to it.
pub data Action : Type 0 where
  batch_job_created : (total_txns total_chunks skipped : ℕ) → Action
  batch_job_retried : (retrying chunks : ℕ) (previous : BatchJobStatus) → Action
  batch_job_completed : (status : BatchJobStatus) (total processed failed : ℕ) → Action
  prediction_created : (risk_score : ℕ) (risk_level : RiskLevel) (rescored : Bool) → Action
  case_status_changed : (from to : CaseStatus) (note_changed : Bool) → Action
  transaction_created transaction_deleted : (txn_id : String) → Action
  transaction_uploaded : (total inserted skipped failed : ℕ) → Action
  user_registered : Role → Action
  login_failed user_login token_refreshed user_logout : Action
  user_role_changed : (from to : Role) → Action

pub record AuditEntry : Type 0 where
  pub user_id : Option ℕ
  pub action : Action
  pub resource_id : Option ℕ

-- `recordAudit`, which every service has in the same words: a write that fails is only logged.
abbrev pub record_audit : Bool → AuditEntry → List AuditEntry → List AuditEntry
record_audit up entry log = if up then log ++ (entry ∷ []) else log
