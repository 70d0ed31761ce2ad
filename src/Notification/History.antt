-- ===== src/Notification/History.antt =====
-- The history of a notification: the attempts that notification_delivery.py records for it, against
-- the counter that it keeps on the row.
use relays.Prelude.{
  ℕ, zero, suc, ◌+◌, ◌≡◌, refl, sym, ap, ◌∙◌, inl, inr, Uuid, Time, Bool, true, false, List, [],
  ◌∷◌, ◌++◌, arith, ◌==◌, if◌then◌else◌, length, All, All-map, All-append, leb, Bool-cases,
}
use native.Mathlib.Numerals.{add-one}
use relays.Core.Result.{◌>>=◌}
use relays.Core.Triple.{OnOk, OnOk-bind, transaction-keeps}
use relays.Table.{exists_row, update_where, update_returning}
use relays.Table.Laws.{
  All-update_where, All-update_split, All-find_first, find_first_sound, exists_row-update_where,
  exists_row-find_first,
}
use relays.Notification.Model.{
  Notification, DeliveryAttempt, DeliveryStatus, ProviderResult, Database,
}
use relays.Notification.Queries.{
  has_id, notification_check, attempted_row, new_attempt, increment_attempt_count,
  record_delivery_attempt, mark_sent, mark_failed, schedule_retry,
}
use relays.Notification.Queries.Cases.{increment_attempt_count_cases, record_delivery_attempt_cases}
use relays.Notification.RetryPolicy.{calculate_next_retry_time}
use relays.Notification.Delivery.Cases.{execute_cases, Result-cases}
use relays.Notification.Delivery.{
  retry_or_fail, execute, settle, persist_attempt, persist_delivery_result, on_notifications_lem,
  on_attempts_lem, Env, on_notifications, on_attempts, execute, settle, persist_attempt,
  persist_delivery_result,
}

-- The attempt numbers recorded for a notification, in the order of recording.
unfoldable pub numbers : Uuid → List DeliveryAttempt → List ℕ
numbers id [] = []
numbers id (a ∷ attempts) =
    let rest = numbers id attempts in
    if a.notification_id == id then a.attempt_number ∷ rest else rest

-- 1, 2, …, n
unfoldable pub one_to : ℕ → List ℕ
one_to zero = []
one_to (suc n) = one_to n ++ suc n ∷ []

-- The recorded attempts of a notification are 1, …, attempt_count.
abbrev pub HasHistory : List DeliveryAttempt → Notification → Type 0
HasHistory attempts n = numbers n.id attempts ≡ one_to n.attempt_count

-- An attempt is of a notification that is there.
abbrev pub IsOwned : List Notification → DeliveryAttempt → Type 0
IsOwned t a = exists_row (has_id a.notification_id) t ≡ true

pub record IsRecorded (db : Database) : Type 0 where
  pub histories : All (HasHistory db.delivery_attempts) db.notifications
  pub owned : All (IsOwned db.notifications) db.delivery_attempts

-- An update of the rows that changes neither an identifier nor a counter.
pub update_where-IsRecorded :
    (p : Notification → Bool) (f : Notification → Notification) (u : Database)
    → ((r : Notification) → (f r).id ≡ r.id)
    → ((r : Notification) → (f r).attempt_count ≡ r.attempt_count)
    → IsRecorded u
    → IsRecorded (record u { notifications = update_where p f u.notifications })
update_where-IsRecorded p f u same_id same_count h = record {
  histories =
      All-update_where (HasHistory u.delivery_attempts) p f u.notifications
        (λ r _ x. rw (same_id r, same_count r) x) h.histories;
  owned =
      All-map (IsOwned u.notifications) (IsOwned (update_where p f u.notifications))
        u.delivery_attempts
        (λ a e.
          exists_row-update_where (has_id a.notification_id) p f u.notifications
            (λ r. rw (same_id r) refl)
          ∙ e)
        h.owned;
}

numbers-append :
    (id : Uuid) (attempts : List DeliveryAttempt) (a : DeliveryAttempt)
    → numbers id (attempts ++ a ∷ []) ≡ (
        if a.notification_id == id
        then numbers id attempts ++ a.attempt_number ∷ []
        else numbers id attempts)
unfolding numbers
numbers-append id [] a = ground arith
numbers-append id (b ∷ attempts) a = ground (arith, numbers-append id attempts a)

length-append-one : (xs : List ℕ) (x : ℕ) → length (xs ++ x ∷ []) ≡ suc (length xs)
length-append-one [] x = refl
length-append-one (y ∷ xs) x = ap suc (length-append-one xs x)

length-one_to : (n : ℕ) → length (one_to n) ≡ n
unfolding one_to
length-one_to zero = refl
length-one_to (suc n) = length-append-one (one_to n) (suc n) ∙ ap suc (length-one_to n)

one_to-add-one : (n : ℕ) → one_to (n + 1) ≡ one_to n ++ suc n ∷ []
unfolding one_to
one_to-add-one n = rw add-one

one_to-injective : (m n : ℕ) → one_to m ≡ one_to n → m ≡ n
one_to-injective m n e = sym (length-one_to m) ∙ ap length e ∙ length-one_to n

module _ (attempts : List DeliveryAttempt) (a : DeliveryAttempt) (k : ℕ) (now : Time)
    (next : a.attempt_number ≡ suc k) (before : numbers a.notification_id attempts ≡ one_to k) where
  -- The counted row has one attempt more.
  touched_history :
      (n : Notification)
      → has_id a.notification_id n ≡ true
      → HasHistory attempts n
      → HasHistory (attempts ++ a ∷ []) (attempted_row now n)
  touched_history n hit h =
      let same : n.id ≡ a.notification_id = ground arith in
      let counted : k ≡ n.attempt_count =
        one_to-injective k n.attempt_count
          (sym before ∙ ap (λ id. numbers id attempts) (sym same) ∙ h) in
      rw (numbers-append n.id attempts a, one_to-add-one) (ground (arith, ap suc counted))

  other_history :
      (n : Notification)
      → has_id a.notification_id n ≡ false
      → HasHistory attempts n
      → HasHistory (attempts ++ a ∷ []) n
  other_history n miss h = rw (numbers-append n.id attempts a) (ground arith)

-- The attempt is recorded under the number that the counter has reached.
module _ (env : Env) (result : ProviderResult) (id : Uuid) where
  -- What holds once the counter has been raised.
  abbrev Counted : Database → ℕ → Database → Type 0
  Counted db number u =
      (u.delivery_attempts ≡ db.delivery_attempts)
      × (u.notifications ≡ update_where (has_id id) (attempted_row env.now) db.notifications)
      × ((k : ℕ) × (number ≡ suc k) × (numbers id db.delivery_attempts ≡ one_to k))
      × (exists_row (has_id id) db.notifications ≡ true)

  increment_Counted :
      (db : Database)
      → IsRecorded db
      → OnOk (Counted db) (on_notifications (increment_attempt_count env.now id) db)
  increment_Counted db h =
      let t = db.notifications in
      elim (increment_attempt_count_cases env.now id t) [
        | inl (e, u, refused) ↦ rw (on_notifications_lem _ db refused) tt
        | inr (r, found, done) ↦
            let same : r.id ≡ id = ground (arith, find_first_sound (has_id id) t r found) in
            let history =
              All-find_first (HasHistory db.delivery_attempts) (has_id id) t r h.histories found in
            rw (on_notifications_lem _ db done) (
              refl,
              refl,
              (r.attempt_count, add-one r.attempt_count, rw (← same) history),
              exists_row-find_first (has_id id) t r found,
            )
      ]

  record_Recorded :
      (db : Database) (number : ℕ) (u : Database)
      → IsRecorded db
      → Counted db number u
      → OnOk
          (λ _ v. IsRecorded v)
          (on_attempts (record_delivery_attempt env.attempt_id env.now id number result) u)
  record_Recorded db number u h (same_attempts, counted, (k, next, before), there) =
      let a = new_attempt env.attempt_id env.now id number result in
      let still_there = λ (x : Uuid) (e : exists_row (has_id x) db.notifications ≡ true).
        exists_row-update_where (has_id x) (has_id id) (attempted_row env.now) db.notifications
          (λ r. refl)
        ∙ e in
      elim (record_delivery_attempt_cases env.attempt_id env.now id number result
        u.delivery_attempts) [
          | inl (e, refused) ↦ rw (on_attempts_lem _ u refused) tt
          | inr (free, done) ↦ rw (on_attempts_lem _ u done) (record {
            histories =
                rw (same_attempts, counted)
                  (All-update_split (HasHistory db.delivery_attempts)
                    (HasHistory (db.delivery_attempts ++ a ∷ [])) (has_id id)
                    (attempted_row env.now) db.notifications
                    (touched_history db.delivery_attempts a k env.now next before)
                    (other_history db.delivery_attempts a k env.now next before) h.histories);
            owned =
                rw (same_attempts, counted)
                  (All-append
                    (IsOwned (update_where (has_id id) (attempted_row env.now) db.notifications))
                    db.delivery_attempts (a ∷ [])
                    (All-map (IsOwned db.notifications) _ db.delivery_attempts
                      (λ b. still_there b.notification_id) h.owned)
                    (still_there id there, tt));
          })
        ]

  update_Recorded :
      (p : Notification → Bool) (f : Notification → Notification) (u : Database)
      → ((r : Notification) → (f r).id ≡ r.id)
      → ((r : Notification) → (f r).attempt_count ≡ r.attempt_count)
      → IsRecorded u
      → OnOk (λ _ v. IsRecorded v) (execute (update_returning notification_check p f) u)
  update_Recorded p f u same_id same_count h = elim (execute_cases p f u) [
    | inl broken ↦ rw broken tt
    | inr done ↦ rw done (update_where-IsRecorded p f u same_id same_count h)
  ]

  settle_Recorded :
      (status : DeliveryStatus) (notification : Notification) (number : ℕ) (u : Database)
      → IsRecorded u
      → OnOk (λ _ v. IsRecorded v) (settle status env notification result number u)
  unfolding settle retry_or_fail mark_sent mark_failed schedule_retry
  settle_Recorded DeliveryStatus.success notification number u h =
      update_Recorded _ _ u (λ r. refl) (λ r. refl) h
  settle_Recorded DeliveryStatus.permanent_failure notification number u h =
      update_Recorded _ _ u (λ r. refl) (λ r. refl) h
  settle_Recorded DeliveryStatus.temporary_failure notification number u h =
      elim (Bool-cases (leb notification.max_attempts number)) [
        | inl spent ↦ rw spent (update_Recorded _ _ u (λ r. refl) (λ r. refl) h)
        | inr left ↦
            rw left
              (elim (Result-cases
                (calculate_next_retry_time env.config env.clock env.draw number)) [
                  | inl (e, refused) ↦ rw (refused, OnOk) tt
                  | inr (at, planned) ↦ rw planned (update_Recorded _ _ u (λ r. refl) (λ r. refl) h)
                ])
      ]

  persist_attempt_Recorded :
      (notification : Notification) (db : Database) (number : ℕ) (u : Database)
      → notification.id ≡ id
      → IsRecorded db
      → Counted db number u
      → OnOk (λ _ v. IsRecorded v) (persist_attempt env notification result number u)
  unfolding persist_attempt
  persist_attempt_Recorded notification db number u same h c =
      OnOk-bind (λ _ v. IsRecorded v) (λ _ v. IsRecorded v)
        (on_attempts (record_delivery_attempt env.attempt_id env.now notification.id number result))
        (λ _. settle result.status env notification result number) u
        (rw same (record_Recorded db number u h c))
        λ _ v r. settle_Recorded result.status notification number v r

-- Whatever the provider answered, and whether the write succeeds or raises, after a delivery's
-- write-back the attempts recorded for each notification are still 1, …, attempt_count.
pub persist_delivery_result-IsRecorded :
    (env : Env) (notification : Notification) (result : ProviderResult) (db : Database)
    → IsRecorded db
    → IsRecorded (persist_delivery_result env notification result db).1
unfolding persist_delivery_result
persist_delivery_result-IsRecorded env notification result db h =
    let increment = on_notifications (increment_attempt_count env.now notification.id) in
    let rest = persist_attempt env notification result in
    transaction-keeps {A = Unit {0}} IsRecorded (increment >>= rest) db h (
      OnOk-bind (Counted env result notification.id db) (λ _ v. IsRecorded v) increment rest db
        (increment_Counted env result notification.id db h)
        λ number u c.
          persist_attempt_Recorded env result notification.id notification db number u refl h c)
