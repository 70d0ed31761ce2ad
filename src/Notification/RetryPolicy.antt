-- ===== src/Notification/RetryPolicy.antt =====
-- app/modules/notifications/retry/policy.py: exponential backoff with full jitter. The two delays of
-- the configuration are parameters; `draw` is the value of `random.randint(0, capped_delay)`, a
-- function of the bound, and `clock` the value of `datetime.now(UTC)`.
use relays.Prelude.{ℕ, ◌+◌, ◌-◌, ◌*◌, ◌^◌, min, Time, ltb, if◌then◌else◌}
use relays.Core.Result.{Result, ok, err, value_error}

pub record RetryConfig : Type 0 where
  pub initial_retry_delay_seconds : ℕ
  pub max_retry_delay_seconds : ℕ

unfoldable pub capped_delay : RetryConfig → (attempt_number : ℕ) → ℕ
capped_delay config attempt_number =
    min (config.initial_retry_delay_seconds * 2 ^ (attempt_number - 1))
      config.max_retry_delay_seconds

unfoldable pub calculate_next_retry_time :
    RetryConfig → (clock : Time) → (draw : ℕ → ℕ) → (attempt_number : ℕ) → Result Time
calculate_next_retry_time config clock draw attempt_number =
    if ltb attempt_number 1
    then err (value_error "Attempt Number must be greater than or equal to 1")
    else ok (clock + draw (capped_delay config attempt_number))
