-- ===== src/Notification/Provider/MailRelay.antt =====
-- app/modules/notifications/providers/email/mailrelay: mapper.py, client.py and provider.py, with
-- channels/email/validators.py. The HTTP exchange is httpx's: a parameter `post` gives what comes back for a request.
use relays.Prelude.{
  ℕ, String, Bool, true, false, ◌&&◌, ◌||◌, Option, none, some, List, [], ◌∷◌, str_eq, ltb, leb,
  ◌==◌, if◌then◌else◌,
}
use relays.Notification.Model.{
  EmailPayload, ProviderResult, DeliveryStatus, EmailNotificationProviders, ProviderErrorCode,
  label, status_text, mailrelay_id, mailrelay_response, MailRelaySendResponse,
}

pub record MailRelaySender : Type 0 where
  pub email : String
  pub name : String

pub record MailRelayRecipient : Type 0 where
  pub email : String
  pub name : Option String

pub record MailRelaySendRequest : Type 0 where
  pub from_ : MailRelaySender
  pub to : List MailRelayRecipient
  pub subject : String
  pub html_part : Option String
  pub text_part : Option String
  pub text_part_auto : Bool

-- The sender of the configuration, and whether Python's `re` finds that a text is a full match of the
-- pattern `EMAIL_REGEX`.
pub record MailRelayConfig : Type 0 where
  pub sender_email : String
  pub sender_name : String
  pub is_email : String → Bool

-- The fields of the type `Email`: a text that does not match raises.
unfoldable pub validate_email : MailRelayConfig → String → Option String
validate_email config value = if config.is_email value then some value else none

abbrev pub request_with :
    MailRelayConfig → EmailPayload → Option String → Option String → Option MailRelaySendRequest
request_with config payload (some sender) (some recipient) = some (record {
  from_ = record { email = sender; name = config.sender_name };
  to = record { email = recipient; name = none } ∷ [];
  subject = payload.subject;
  html_part = some payload.html_body;
  text_part = none;
  text_part_auto = true;
})
request_with config payload _ _ = none

-- `none` is a validation error of the sender or of the recipient.
unfoldable pub build_mailrelay_request :
    MailRelayConfig → EmailPayload → Option MailRelaySendRequest
build_mailrelay_request config payload =
    request_with config payload (validate_email config config.sender_email)
      (validate_email config payload.to)

-- The body of an answer: a list of items, of which some validate as `MailRelaySendResponse`, an
-- object that validates as `MailRelayErrorResponse`, other JSON, or no JSON.
pub data Body : Type 0 where
  items : List (Option MailRelaySendResponse) → Body
  error_object : String → Body
  other_json not_json : Body

pub record HttpResponse : Type 0 where
  pub status_code : ℕ
  pub body : Body
  pub text : String

pub data HttpFailure : Type 0 where
  timeout network remote_protocol other : HttpFailure

pub data HttpOutcome : Type 0 where
  response : HttpResponse → HttpOutcome
  failure : HttpFailure → HttpOutcome

-- What `MailRelayClient.send` raises.
pub data ClientError : Type 0 where
  api_error : (status_code : ℕ) → (message : String) → ClientError
  http_failure : HttpFailure → ClientError
  unexpected_format unexpected_count decode_error validation : ClientError

pub data ClientResult : Type 0 where
  accepted : MailRelaySendResponse → ClientResult
  raised : ClientError → ClientResult

-- httpx: a response is an error if its status is 4xx or 5xx.
unfoldable pub is_error : HttpResponse → Bool
is_error r = leb 400 r.status_code && ltb r.status_code 600

-- `_raise_mailrelay_error`
unfoldable pub error_message : HttpResponse → String
error_message r = elim r.body [
  | error_object message ↦ message
  | _ ↦ if str_eq r.text "" then "Unknown MailRelay error." else r.text
]

unfoldable pub read_body : Body → ClientResult
read_body (items (some answer ∷ [])) = accepted answer
read_body (items (none ∷ [])) = raised validation
read_body (items []) = raised unexpected_count
read_body (items (_ ∷ _ ∷ _)) = raised unexpected_count
read_body (error_object message) = raised unexpected_format
read_body other_json = raised unexpected_format
read_body not_json = raised decode_error

-- `MailRelayClient.send`
unfoldable pub client_send :
    (MailRelaySendRequest → HttpOutcome) → MailRelaySendRequest → ClientResult
unfolding read_body
client_send post request = elim (post request) [
  | failure f ↦ raised (http_failure f)
  | response r ↦
      if is_error r then raised (api_error r.status_code (error_message r)) else read_body r.body
]

-- MAILRELAY_RETRYABLE_STATUS_CODES
unfoldable pub is_retryable : ℕ → Bool
is_retryable status_code =
    status_code == 429
    || status_code == 500
    || status_code == 502
    || status_code == 503
    || status_code == 504

abbrev failed_result : DeliveryStatus → ProviderErrorCode → String → ProviderResult
failed_result status code message = record {
  status = status;
  provider = EmailNotificationProviders.mailrelay;
  provider_message_id = none;
  provider_error_code = some code;
  error_message = some message;
  raw_provider_response = none;
}

-- The `except` clauses of `MailRelayProvider.send`.
unfoldable pub handle_error : ClientError → ProviderResult
handle_error (api_error status_code message) =
    failed_result
      (if is_retryable status_code
        then DeliveryStatus.temporary_failure
        else DeliveryStatus.permanent_failure)
      (status_text status_code) message
handle_error (http_failure timeout) =
    failed_result DeliveryStatus.temporary_failure (label "TIMEOUT")
      "Connection to MailRelay timed out."
handle_error (http_failure network) =
    failed_result DeliveryStatus.temporary_failure (label "NETWORK_ERROR")
      "Unable to connect to MailRelay."
handle_error (http_failure remote_protocol) =
    failed_result DeliveryStatus.temporary_failure (label "PROTOCOL_ERROR")
      "MailRelay returned an invalid protocol response."
handle_error _ =
    failed_result DeliveryStatus.temporary_failure (label "INTERNAL_PROVIDER_ERROR")
      "Unexpected MailRelay provider failure."

abbrev pub is_filled : Option (List String) → Bool
is_filled none = false
is_filled (some []) = false
is_filled (some (_ ∷ _)) = true

abbrev finish : ClientResult → ProviderResult
finish (accepted answer) = record {
  status = DeliveryStatus.success;
  provider = EmailNotificationProviders.mailrelay;
  provider_message_id = some (mailrelay_id answer.id);
  provider_error_code = none;
  error_message = none;
  raw_provider_response = some (mailrelay_response answer);
}
finish (raised e) = handle_error e

abbrev send_request :
    (MailRelaySendRequest → HttpOutcome) → Option MailRelaySendRequest → ClientResult
send_request post none = raised validation
send_request post (some request) = client_send post request

-- `MailRelayProvider.send`
unfoldable pub send :
    MailRelayConfig → (MailRelaySendRequest → HttpOutcome) → EmailPayload → ProviderResult
unfolding handle_error
send config post payload =
    if is_filled payload.cc
    then failed_result DeliveryStatus.permanent_failure (label "UNSUPPORTED_CC")
        "MailRelay REST API does not support CC recipients."
    else if is_filled payload.bcc
    then failed_result DeliveryStatus.permanent_failure (label "UNSUPPORTED_BCC")
        "MailRelay REST API does not support BCC recipients."
    else finish (send_request post (build_mailrelay_request config payload))
