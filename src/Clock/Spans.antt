-- ===== src/Clock/Spans.antt =====
-- What a comparison of `t.Sub(u)` with a duration says of the instants, since Sub is cut off.
use kubernetes_cost_analyzer.Common.{◌-◌, ◌^◌, ◌≡◌, false, arith}
use kubernetes_cost_analyzer.Common.Int.{ℤ, pos, ◌≤ℤ◌, ◌<ℤ◌, ◌+ℤ◌, ◌-ℤ◌, lt_ℤ}
use kubernetes_cost_analyzer.Clock.{sub_time}

-- Two instants are within a duration that is not the longest.
pub sub_time_bound :
    (a b t : ℤ) → pos 0 ≤ℤ t → t <ℤ pos (2 ^ 63 - 1) → lt_ℤ t (sub_time a b) ≡ false → a ≤ℤ b +ℤ t
unfolding sub_time ◌-ℤ◌ ◌+ℤ◌
sub_time_bound a b t h k e = ground arith

-- The difference of instants that are less than the longest duration apart is exact, and so is its
-- negative.
pub sub_time_exact : (a b : ℤ) → b ≤ℤ a → a ≤ℤ b +ℤ pos (2 ^ 62) → sub_time a b ≡ a -ℤ b
unfolding sub_time ◌-ℤ◌ ◌+ℤ◌
sub_time_exact a b h k = ground arith
