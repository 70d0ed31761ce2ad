-- ===== src/Core/ErrorCode.antt =====
-- app/core/error_codes.py: the codes of an error answer.

pub data ErrorCode : Type 0 where
  invalid_request not_found unauthorized forbidden conflict internal_error bad_request : ErrorCode
  invalid_access_token access_token_expired invalid_credentials invalid_otp : ErrorCode
  refresh_token_expired invalid_refresh_token rate_limit_exceeded : ErrorCode
