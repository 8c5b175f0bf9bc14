-- ===== src/Errors.antt =====
-- backend/src/utils/response.js: the error type that the services throw.
-- Messages are text for a reader and are left out; a code stands for the text that names it.
pub mod Raise
pub mod Handler
use transactguard.Prelude.{ℕ, ◌≡◌, refl, ◌⊎◌, inl, inr}

-- The codes of the errors that the application and the database driver raise.
pub data Code : Type 0 where
  bad_request validation_error unauthorized forbidden not_found conflict rate_limited : Code
  internal_server_error service_unavailable : Code
  email_taken invalid_credentials account_inactive : Code
  token_missing token_expired token_invalid token_wrong_type token_revoked : Code
  txn_id_taken already_deleted transaction_not_scorable : Code
  ml_service_unavailable ml_service_timeout ml_service_unauthorized ml_service_error : Code
  ml_service_invalid_response : Code
  job_not_retryable nothing_to_retry : Code
  simulator_already_running simulator_not_running : Code
  malformed_json payload_too_large unique_constraint foreign_key_constraint : Code
  p2002 p2003 p2025 econnrefused : Code

pub record ApiError : Type 0 where
  pub status_code : ℕ
  pub code : Code

-- What an operation of a service comes to: its result, or the error that it throws.
pub data Result {ℓ} (A : Type ℓ) : Type ℓ where
  ok : A → Result A
  throw : ApiError → Result A

pub Result-cases {ℓ} :
    {A : Type ℓ} (r : Result A) → ((e : ApiError) × (r ≡ throw e)) ⊎ ((a : A) × (r ≡ ok a))
Result-cases (throw e) = inl (e, refl)
Result-cases (ok a) = inr (a, refl)
