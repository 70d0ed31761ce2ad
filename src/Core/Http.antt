-- ===== src/Core/Http.antt =====
-- app/core/exceptions.py and `build_error` of app/core/errors.py: what a client gets for a result of a
-- handler. FastAPI calls the handler that is registered for the exception's type.
use Prim.Native.String
use relays.Prelude.{ℕ, String, Bool, Option, none, some, str_eq, Uuid, ◌==◌, if◌then◌else◌}
use relays.Core.ErrorCode.{ErrorCode}
use relays.Core.Result.{
  Exception, Result, ok, err, api_exception, http_exception, request_validation_error,
}

-- `ErrorBody`
pub record ErrorBody : Type 0 where
  pub code : ErrorCode
  pub message : String
  pub request_id : Option Uuid

pub record ErrorAnswer : Type 0 where
  pub status_code : ℕ
  pub error : ErrorBody

abbrev pub build_error : ErrorCode → String → Option Uuid → ErrorBody
build_error code message request_id = record {
  code = code;
  message = message;
  request_id = request_id;
}

-- The mode, the identifier that the middleware drew for the request, and Python's `str` of an exception.
pub record Handling : Type 0 where
  pub debug : Bool
  pub request_id : Option Uuid
  pub str : Exception → String

-- The first error's location, its parts joined by dots, and its message.
unfoldable pub request_validation_exception_handler :
    Handling → (location message : String) → ErrorAnswer
request_validation_exception_handler h location message = record {
  status_code = 400;
  error =
      build_error ErrorCode.invalid_request
        (if h.debug then String.◌++◌ location (String.◌++◌ ": " message) else message) h.request_id;
}

unfoldable pub api_exception_handler : Handling → ℕ → ErrorCode → String → ErrorAnswer
api_exception_handler h status_code code message = record {
  status_code = status_code;
  error = build_error code message h.request_id;
}

abbrev pub detail_or : Option String → String → String
detail_or none fallback = fallback
detail_or (some detail) fallback = detail

-- `exc.detail if exc.detail else …`: the empty text is false.
abbrev pub full_detail_or : Option String → String → String
full_detail_or none fallback = fallback
full_detail_or (some detail) fallback = if str_eq detail "" then fallback else detail

abbrev pub http_error : ℕ → Option String → ErrorCode × String
http_error status_code detail =
    if status_code == 404
    then (ErrorCode.not_found, detail_or detail "Resource not found")
    else if status_code == 401
    then (ErrorCode.unauthorized, detail_or detail "Unauthorized")
    else if status_code == 403
    then (ErrorCode.forbidden, detail_or detail "Forbidden")
    else if status_code == 409
    then (ErrorCode.conflict, detail_or detail "Resource conflict")
    else (ErrorCode.internal_error, full_detail_or detail "HTTP error")

unfoldable pub http_exception_handler : Handling → ℕ → Option String → ErrorAnswer
http_exception_handler h status_code detail =
    let (code, message) = http_error status_code detail in
    record { status_code = status_code; error = build_error code message h.request_id }

unfoldable pub global_exception_handler : Handling → Exception → ErrorAnswer
global_exception_handler h e = record {
  status_code = 500;
  error =
      build_error ErrorCode.internal_error (if h.debug then h.str e else "Unexpected error")
        h.request_id;
}

-- `register_exception_handlers`
unfoldable pub handle : Handling → Exception → ErrorAnswer
handle h (request_validation_error location message) =
    request_validation_exception_handler h location message
handle h (api_exception status_code code message) = api_exception_handler h status_code code message
handle h (http_exception status_code detail) = http_exception_handler h status_code detail
handle h e = global_exception_handler h e

-- The answer to a request: the route's status and body, or an error.
pub data Answer (B : Type 0) : Type 0 where
  success : (status_code : ℕ) → (body : B) → Answer B
  failure : ErrorAnswer → Answer B

module _ {B : Type 0} where
  unfoldable pub respond : Handling → (status_code : ℕ) → Result B → Answer B
  respond h status_code (ok body) = success status_code body
  respond h status_code (err e) = failure (handle h e)

  abbrev pub status_of : Answer B → ℕ
  status_of (success status_code body) = status_code
  status_of (failure answer) = answer.status_code
