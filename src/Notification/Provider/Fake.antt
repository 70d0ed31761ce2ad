-- ===== src/Notification/Provider/Fake.antt =====
-- app/modules/notifications/providers/email/fake/provider.py: outcomes scripted by the metadata of
-- the notification that the provider was configured with.
use relays.Prelude.{ℕ, String, str_eq, Option, none, some, List, [], ◌∷◌, zero, suc, if◌then◌else◌}
use relays.Core.Result.{Result, ok, err, runtime_error, timeout_exception, connect_error}
use relays.Notification.Model.{
  EmailPayload, Metadata, Notification, ProviderResult, DeliveryStatus, EmailNotificationProviders,
  fake_id, fake_response,
}

-- `self._notification`
pub record FakeProvider : Type 0 where
  pub notification : Option Notification

unfoldable pub configure : FakeProvider → Notification → FakeProvider
configure provider notification = record { notification = some notification }

-- `sequence[attempt]`, or "success" past its end.
unfoldable pub scripted : List String → ℕ → String
scripted [] attempt = "success"
scripted (outcome ∷ rest) zero = outcome
scripted (outcome ∷ rest) (suc attempt) = scripted rest attempt

-- `(metadata.get("testing") or {}).get("sequence", [])`
abbrev pub test_sequence : Option Metadata → List String
test_sequence none = []
test_sequence (some metadata) = elim metadata.testing [
  | none ↦ []
  | some testing ↦ elim testing.sequence [ none ↦ [] | some outcomes ↦ outcomes ]
]

abbrev failure : DeliveryStatus → String → ProviderResult
failure status message = record {
  status = status;
  provider = EmailNotificationProviders.fake;
  provider_message_id = none;
  provider_error_code = none;
  error_message = some message;
  raw_provider_response = none;
}

-- The `match` on the outcome.
unfoldable pub outcome_result : ℕ → String → Result ProviderResult
outcome_result attempt outcome =
    if str_eq outcome "success"
    then ok (record {
      status = DeliveryStatus.success;
      provider = EmailNotificationProviders.fake;
      provider_message_id = some (fake_id attempt);
      provider_error_code = none;
      error_message = none;
      raw_provider_response = some (fake_response attempt outcome);
    })
    else if str_eq outcome "temporary_failure"
    then ok (failure DeliveryStatus.temporary_failure "Simulated temporary failure.")
    else if str_eq outcome "permanent_failure"
    then ok (failure DeliveryStatus.permanent_failure "Simulated permanent failure.")
    else if str_eq outcome "timeout"
    then err (timeout_exception "Simulated timeout.")
    else if str_eq outcome "network_error"
    then err (connect_error "Simulated network failure.")
    else err (runtime_error "Unknown fake provider outcome")

unfoldable pub send : FakeProvider → EmailPayload → Result ProviderResult
send provider payload = elim provider.notification [
  | none ↦ err (runtime_error "FakeProvider was not configured.")
  | some n ↦ outcome_result n.attempt_count (scripted (test_sequence n.metadata) n.attempt_count)
]
