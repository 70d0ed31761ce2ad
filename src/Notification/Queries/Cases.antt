-- ===== src/Notification/Queries/Cases.antt =====
-- What the statements of app/modules/notifications/db give, case by case.
use relays.Prelude.{
  ℕ, ◌+◌, ◌≡◌, refl, ◌∙◌, ◌⊎◌, inl, inr, Uuid, Time, false, some, List, [], ◌∷◌, ◌++◌, Option-cases,
}
use relays.Core.Result.{Exception, ok, err, check_violation, runtime_error}
use relays.Core.Triple.{bind_ok, bind_err}
use relays.Table.{find_first, exists_row, update_where, update_returning, insert_returning}
use relays.Table.Laws.{update_returning_cases, insert_returning_cases}
use relays.Notification.Model.{Notification, DeliveryAttempt, ProviderResult}
use relays.Notification.Queries.{
  has_id, notification_check, attempted_row, counted_row, ignore_row, attempt_check, same_attempt,
  new_attempt, increment_attempt_count, record_delivery_attempt,
}

-- The counter is raised on the rows of the identifier, or the statement raises.
pub increment_attempt_count_cases :
    (now : Time) (id : Uuid) (t : List Notification)
    → ((e : Exception) × (u : List Notification) × (increment_attempt_count now id t ≡ (err e, u)))
      ⊎ ((r : Notification) × (find_first (has_id id) t ≡ some r)
          × (increment_attempt_count now id t
              ≡ (ok (r.attempt_count + 1), update_where (has_id id) (attempted_row now) t)))
unfolding increment_attempt_count
increment_attempt_count_cases now id t =
    let m = update_returning notification_check (has_id id) (attempted_row now) in
    elim (update_returning_cases notification_check (has_id id) (attempted_row now) t) [
      | inl broken ↦ inl (check_violation, t, bind_err m counted_row broken)
      | inr fine ↦ elim (Option-cases (find_first (has_id id) t)) [
        | inl missing ↦ inl (
          runtime_error "Notification not found.",
          update_where (has_id id) (attempted_row now) t,
          bind_ok m counted_row fine ∙ rw missing refl,
        )
        | inr (r, found) ↦ inr (r, found, bind_ok m counted_row fine ∙ rw found refl)
      ]
    ]

-- The attempt is added at the end, or the statement raises and adds nothing.
pub record_delivery_attempt_cases :
    (id : Uuid) (now : Time) (notification_id : Uuid) (number : ℕ) (result : ProviderResult)
    (t : List DeliveryAttempt)
    → let a = new_attempt id now notification_id number result in
      ((e : Exception) × (record_delivery_attempt id now notification_id number result t
          ≡ (err e, t)))
      ⊎ ((exists_row (same_attempt a) t ≡ false)
          × (record_delivery_attempt id now notification_id number result t ≡ (ok tt, t ++ a ∷ [])))
unfolding record_delivery_attempt
record_delivery_attempt_cases id now notification_id number result t =
    let m =
      insert_returning attempt_check same_attempt
        (new_attempt id now notification_id number result) in
    elim (insert_returning_cases attempt_check same_attempt
      (new_attempt id now notification_id number result) t) [
        | inl (e, refused) ↦ inl (e, bind_err m ignore_row refused)
        | inr (fits, free, done) ↦ inr (free, bind_ok m ignore_row done)
      ]
