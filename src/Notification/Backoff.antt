-- ===== src/Notification/Backoff.antt =====
-- The bounds of the retry policy.
use relays.Prelude.{ℕ, suc, ◌+◌, ◌-◌, ◌*◌, ◌^◌, ◌≤◌, min, ◌≡◌, arith, Time}
use native.Mathlib.Nat.{pow-suc}
use relays.Core.Result.{ok}
use relays.Notification.RetryPolicy.{RetryConfig, capped_delay, calculate_next_retry_time}

-- The delay before jitter doubles from one attempt to the next, and is cut at the maximum.
pub capped_delay-doubles :
    (config : RetryConfig) (k : ℕ)
    → capped_delay config (suc (suc k))
      ≡ min (2 * capped_delay config (suc k)) config.max_retry_delay_seconds
unfolding capped_delay
capped_delay-doubles config k =
    let above : suc (suc k) - 1 ≡ suc k = omega arith in
    let below : suc k - 1 ≡ k = omega arith in rw (above, below, pow-suc) (omega arith)

-- For an attempt number of one or more and a draw within its bound, a next retry time is given; it
-- lies between the clock and the clock plus the smaller of the exponential delay and the maximum.
pub next_retry_bounds :
    (config : RetryConfig) (clock : Time) (draw : ℕ → ℕ) (k : ℕ)
    → ((bound : ℕ) → draw bound ≤ bound)
    → (at : Time) × (calculate_next_retry_time config clock draw (suc k) ≡ ok at)
      × (clock ≤ at)
      × (at ≤ clock + config.initial_retry_delay_seconds * 2 ^ k)
      × (at ≤ clock + config.max_retry_delay_seconds)
unfolding calculate_next_retry_time capped_delay
next_retry_bounds config clock draw k within =
    let bound =
      min (config.initial_retry_delay_seconds * 2 ^ (suc k - 1)) config.max_retry_delay_seconds in
    let below : suc k - 1 ≡ k = omega arith in
    let exponential : bound ≤ config.initial_retry_delay_seconds * 2 ^ k = rw below (omega arith) in
    let draw_bound : draw bound ≤ bound = within bound in
    (
      clock + draw bound,
      ground arith,
      omega arith,
      omega (arith, exponential, draw_bound),
      omega (arith, draw_bound),
    )
