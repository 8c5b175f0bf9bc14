-- ===== src/Errors/Raise.antt =====
-- The constructor of `ApiError` and its static helpers (backend/src/utils/response.js).
use transactguard.Prelude.{ℕ}
use transactguard.Errors.{Code, ApiError}

abbrev pub make : ℕ → Code → ApiError
make n c = record { status_code = n; code = c }

abbrev pub bad_request : ApiError
bad_request = make 400 Code.bad_request

abbrev pub validation : ApiError
validation = make 400 Code.validation_error

abbrev pub unauthorized : Code → ApiError
unauthorized c = make 401 c

abbrev pub forbidden : ApiError
forbidden = make 403 Code.forbidden

abbrev pub not_found : ApiError
not_found = make 404 Code.not_found

abbrev pub conflict : Code → ApiError
conflict c = make 409 c

abbrev pub too_many_requests : ApiError
too_many_requests = make 429 Code.rate_limited

abbrev pub internal : ApiError
internal = make 500 Code.internal_server_error

abbrev pub service_unavailable : ApiError
service_unavailable = make 503 Code.service_unavailable
