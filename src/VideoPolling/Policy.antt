-- ===== src/VideoPolling/Policy.antt =====
-- What the policy of polls promises: its delays are bounded and grow.
use ange_media_gateway.VideoPolling.{VideoPipelinePolicy, delay}
use ange_media_gateway.Base.{min, ◌≤◌, ◌+◌, ◌-◌, ℕ, arith}
use ange_media_gateway.Dispatcher.Backoff.{doubling_order}

-- A delay is never above the limit of the policy, never below the interval (or the limit, where that
-- is smaller), and a later attempt never waits less than an earlier one.
pub delay_bounds :
    (p : VideoPipelinePolicy) (attempt more : ℕ)
    → (delay p attempt ≤ p.max_backoff)
      × (min p.max_backoff p.poll_interval ≤ delay p attempt)
      × (delay p attempt ≤ delay p (attempt + more))
unfolding delay
delay_bounds p attempt more =
    let first = doubling_order p.poll_interval 0 (min (attempt - 1) 6) (omega arith) in
    let later =
      doubling_order p.poll_interval (min (attempt - 1) 6) (min (attempt + more - 1) 6)
        (omega arith) in
    (omega arith, omega arith, omega arith)
