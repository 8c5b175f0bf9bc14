-- ===== src/Middleware.antt =====
-- What stands before the handlers of the routes: backend/src/middleware/validate.js and upload.js,
-- and backend/src/modules/health/health.routes.js. zod and multer are not in the repository: a schema
-- and the outcome of an upload are arguments.
use text.Mathlib.Text.{◌==◌ as str_eq}
use transactguard.Prelude.{
  ℕ, ◌≡◌, ◌⊎◌, inl, inr, refl, String, Bool, true, false, not, ◌&&◌, ◌||◌, Option, none, some,
  if◌then◌else◌,
}
use transactguard.Errors.{ApiError, Result, ok, throw}
use transactguard.Errors.Raise

-- The parts of a request that a schema may be for, of a type of inputs with the empty object in it.
pub data Source : Type 0 where
  body_source query_source params_source : Source

pub record Request (I : Type 0) : Type 0 where
  pub body : Option I
  pub query : I
  pub params : I
  pub validated : Option I

module _ {I : Type 0} (empty : I) where
  -- A request without a body is one with an empty body.
  input_of : Source → Request I → I
  input_of body_source r = elim r.body [ none ↦ empty | some b ↦ b ]
  input_of query_source r = r.query
  input_of params_source r = r.params

  -- Only `req.body` can be replaced in place.
  pub replaced : Source → I → Request I → Request I
  replaced body_source parsed r = record r { body = some parsed; validated = some parsed }
  replaced _ parsed r = record r { validated = some parsed }

  validated_by : Source → Option I → Request I → Result (Request I)
  unfolding replaced
  validated_by source none r = throw Raise.validation
  validated_by source (some parsed) r = ok (replaced source parsed r)

  -- `validate(schema, source)`
  validate : (I → Option I) → Source → Request I → Result (Request I)
  unfolding input_of validated_by
  validate schema source r = validated_by source (schema (input_of source r)) r

  replaced-validated :
      (source : Source) (parsed : I) (r : Request I)
      → (replaced source parsed r).validated ≡ some parsed
  unfolding replaced
  replaced-validated body_source parsed r = refl
  replaced-validated query_source parsed r = refl
  replaced-validated params_source parsed r = refl

  -- A handler behind the middleware finds what the schema made of its input, and is not reached
  -- (400) where the schema refuses it.
  validate_admits :
      (schema : I → Option I) (source : Source) (r : Request I)
      → ((schema (input_of source r) ≡ none) × (validate schema source r ≡ throw Raise.validation))
        ⊎ ((r' : Request I) × (validate schema source r ≡ ok r')
            × (r'.validated ≡ schema (input_of source r)))
  unfolding validate validated_by
  validate_admits schema source r = by_outcome (schema (input_of source r))
    where
      by_outcome :
          (o : Option I)
          → ((o ≡ none) × (validated_by source o r ≡ throw Raise.validation))
            ⊎ ((r' : Request I) × (validated_by source o r ≡ ok r') × (r'.validated ≡ o))
      by_outcome none = inl (refl, refl)
      by_outcome (some parsed) =
          inr (replaced source parsed r, refl, replaced-validated source parsed r)

-- `fileFilter`: the type that the client claims, and the extension, in lower case.
file_filter : (mimetype extension : String) → Result Bool
file_filter mimetype extension =
    if str_eq mimetype "text/csv"
      || str_eq mimetype "application/vnd.ms-excel"
      || str_eq mimetype "application/octet-stream"
      || str_eq extension ".csv"
    then ok true
    else throw Raise.bad_request

-- What multer comes to: a request with or without its file, an error of its own, or another's.
pub data Upload : Type 0 where
  uploaded : (file : Option String) → Upload
  multer_error : (code : String) → Upload
  other_error : ApiError → Upload

-- `uploadCsv`: the file that the handler is given. Its three messages for errors of multer are one
-- error here.
unfoldable pub upload_csv : Upload → Result String
upload_csv (uploaded none) = throw Raise.bad_request
upload_csv (uploaded (some file)) = ok file
upload_csv (multer_error code) = throw Raise.bad_request
upload_csv (other_error e) = throw e

pub data ServiceStatus : Type 0 where
  service_ok service_error : ServiceStatus

pub record Health : Type 0 where
  pub http_status : ℕ
  pub degraded : Bool
  pub database : ServiceStatus
  pub redis : ServiceStatus

-- `statusOf`, of a probe that was answered or not.
abbrev status_of : Bool → ServiceStatus
status_of true = service_ok
status_of false = service_error

abbrev is_service_ok : ServiceStatus → Bool
is_service_ok service_ok = true
is_service_ok service_error = false

-- `GET /health`
health : (database_answers redis_answers : Bool) → Health
health database_answers redis_answers =
    let database = status_of database_answers in
    let redis = status_of redis_answers in
    let healthy = is_service_ok database && is_service_ok redis in
    record {
      http_status = if healthy then 200 else 503;
      degraded = not healthy;
      database = database;
      redis = redis;
    }
