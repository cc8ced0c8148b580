-- ===== src/Errors.antt =====
-- The errors of the HTTP API (src/error.rs). A message is its format string with the numbers that
-- it shows; the detail of a database or an internal error is left out.
use badminton_be_rust.Prelude.{ℕ, List, Text}

pub record Message : Type 0 where
  pub format : Text
  pub shown : List ℕ

pub data ApiError : Type 0 where
  not_found : ApiError
  bad_request : Message → ApiError
  unauthorized forbidden too_many_requests : ApiError
  rate_limited : Message → ApiError
  email_delivery : ApiError
  conflict payload_too_large : Message → ApiError
  db : ApiError
  internal upstream : Message → ApiError

-- The status of the response.
unfoldable pub status_code : ApiError → ℕ
status_code not_found = 404
status_code (bad_request m) = 400
status_code unauthorized = 401
status_code forbidden = 403
status_code too_many_requests = 429
status_code (rate_limited m) = 429
status_code email_delivery = 502
status_code (conflict m) = 409
status_code (payload_too_large m) = 413
status_code db = 500
status_code (internal m) = 500
status_code (upstream m) = 502
