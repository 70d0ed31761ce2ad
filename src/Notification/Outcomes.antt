-- ===== src/Notification/Outcomes.antt =====
-- What the providers make of each outcome.
use relays.Prelude.{true, ◌&&◌, ◌||◌, Option, none, some, [], ◌∷◌, leb, ◌==◌, if◌then◌else◌}
use relays.Notification.Model.{EmailPayload, DeliveryStatus}
use relays.Notification.Provider.MailRelay.{
  MailRelayConfig, MailRelaySendRequest, HttpOutcome, response, failure, items, Body,
}

-- The verdict on the body of an answer that is no error.
abbrev pub verdict_of_body : Body → DeliveryStatus
verdict_of_body (items (some _ ∷ [])) = DeliveryStatus.success
verdict_of_body _ = DeliveryStatus.temporary_failure

-- The verdict on an outcome of the exchange, with its statuses written out.
abbrev pub verdict : HttpOutcome → DeliveryStatus
verdict (failure _) = DeliveryStatus.temporary_failure
verdict (response r) =
    let code = r.status_code in
    if leb 400 code && leb code 599
    then (if code == 429 || code == 500 || code == 502 || code == 503 || code == 504
        then DeliveryStatus.temporary_failure
        else DeliveryStatus.permanent_failure)
    else verdict_of_body r.body

abbrev pub verdict_of_request :
    (MailRelaySendRequest → HttpOutcome) → Option MailRelaySendRequest → DeliveryStatus
verdict_of_request post none = DeliveryStatus.temporary_failure
verdict_of_request post (some request) = verdict (post request)

-- The mail of a payload, if the addresses of the sender and the recipient are valid.
abbrev pub mail : MailRelayConfig → EmailPayload → Option MailRelaySendRequest
mail config payload =
    if config.is_email config.sender_email && config.is_email payload.to
    then some (record {
      from_ = record { email = config.sender_email; name = config.sender_name };
      to = record { email = payload.to; name = none } ∷ [];
      subject = payload.subject;
      html_part = some payload.html_body;
      text_part = none;
      text_part_auto = true;
    })
    else none
