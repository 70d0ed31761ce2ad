-- ===== src/Notification/Delivery/Cases.antt =====
-- What one write of notification_delivery.py does to the database, case by case.
use relays.Prelude.{◌≡◌, refl, ◌⊎◌, inl, inr, Bool}
use relays.Core.Result.{Result, ok, err, Exception, check_violation}
use relays.Core.Triple.{bind_ok, bind_err}
use relays.Table.{update_where, update_returning}
use relays.Table.Laws.{update_returning_cases}
use relays.Notification.Model.{Notification, Database}
use relays.Notification.Queries.{notification_check}
use relays.Notification.Delivery.{on_notifications, on_notifications_lem, execute, skip_row}

-- An update breaks a constraint and changes nothing, or is made on every row that it selects.
pub execute_cases :
    (p : Notification → Bool) (f : Notification → Notification) (db : Database)
    → (execute (update_returning notification_check p f) db ≡ (err check_violation, db))
      ⊎ (execute (update_returning notification_check p f) db
          ≡ (ok tt, record db { notifications = update_where p f db.notifications }))
unfolding execute
execute_cases p f db =
    let m = update_returning notification_check p f in
    elim (update_returning_cases notification_check p f db.notifications) [
      | inl broken ↦ inl (bind_err (on_notifications m) skip_row (on_notifications_lem m db broken))
      | inr fine ↦ inr (bind_ok (on_notifications m) skip_row (on_notifications_lem m db fine))
    ]

pub Result-cases {ℓ} :
    {A : Type ℓ} (r : Result A) → ((e : Exception) × (r ≡ err e)) ⊎ ((a : A) × (r ≡ ok a))
Result-cases (ok a) = inr (a, refl)
Result-cases (err e) = inl (e, refl)
