-- ===== src/Errors/Handler.antt =====
-- backend/src/middleware/errorHandler.js: every error becomes one HTTP answer.
use transactguard.Prelude.{
  ℕ, ◌≡◌, refl, Bool, true, false, not, ◌&&◌, Option, none, some, arith, leb, if◌then◌else◌,
}
use transactguard.Errors.{Code, ApiError}

-- `err.type` of the errors that express.json() raises.
pub data ParseType : Type 0 where
  parse_failed too_large : ParseType

-- What reaches the handler: an `ApiError`, an escaped `ZodError`, or any other thrown value with
-- the fields that the handler reads. A `code` that it does not know is `none`.
pub data Thrown : Type 0 where
  api : ApiError → Thrown
  zod : Thrown
  other : (type : Option ParseType) (code : Option Code) (init_error : Bool) → Thrown

-- `{ statusCode, code }`, and whether the message is a text that the error brought along itself.
pub record Answer : Type 0 where
  pub status_code : ℕ
  pub code : Code
  pub own_message : Bool

abbrev answer : ℕ → Code → Answer
answer n c = record { status_code = n; code = c; own_message = false }

-- The last two tests of `normalise`.
normalise_rest : Option Code → Bool → Answer
normalise_rest (some Code.econnrefused) init_error = answer 503 Code.service_unavailable
normalise_rest c true = answer 503 Code.service_unavailable
normalise_rest c false = answer 500 Code.internal_server_error

-- The `switch` over Prisma's codes.
normalise_code : Option Code → Bool → Answer
unfolding normalise_rest
normalise_code (some Code.p2002) init_error = answer 409 Code.unique_constraint
normalise_code (some Code.p2025) init_error = answer 404 Code.not_found
normalise_code (some Code.p2003) init_error = answer 400 Code.foreign_key_constraint
normalise_code c init_error = normalise_rest c init_error

pub normalise : Thrown → Answer
unfolding normalise_code
normalise (api e) = record { status_code = e.status_code; code = e.code; own_message = true }
normalise zod = answer 400 Code.validation_error
normalise (other (some parse_failed) c init_error) = answer 400 Code.malformed_json
normalise (other (some too_large) c init_error) = answer 413 Code.payload_too_large
normalise (other none c init_error) = normalise_code c init_error

-- What `errorHandler` sends: `clientMessage` is the thrown value's own message only outside
-- production or where `normalise` took it over.
pub record Sent : Type 0 where
  pub status_code : ℕ
  pub code : Code
  pub shows_own_message : Bool

pub error_handler : Bool → Thrown → Sent
unfolding normalise
error_handler is_production err =
    let a = normalise err in
    record {
      status_code = a.status_code;
      code = a.code;
      shows_own_message =
          if leb 500 a.status_code && not is_production then true else a.own_message;
    }

abbrev pub is_api : Thrown → Bool
is_api (api e) = true
is_api _ = false

-- In production the handler shows a client the thrown value's own message exactly when the value
-- is an `ApiError`.
pub error_handler_reveals_only_api :
    (err : Thrown) → (error_handler true err).shows_own_message ≡ is_api err
unfolding error_handler
error_handler_reveals_only_api (api e) = ground arith
error_handler_reveals_only_api zod = refl
error_handler_reveals_only_api (other t c i) = ground arith
