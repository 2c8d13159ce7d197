-- ===== src/Clock.antt =====
-- Go's time.Time as the integer number of nanoseconds since the zero Time (year 1), so that IsZero is a
-- test for 0; `UTC()` leaves the instant alone. A time.Duration is an int64 of nanoseconds.
pub mod Floor
pub mod Spans
use kubernetes_cost_analyzer.Common.{ℕ, Bool, if◌then◌else◌, ◌*◌}
use kubernetes_cost_analyzer.Common.Int.{ℤ, pos, pos_part, ◌+ℤ◌, ◌-ℤ◌, quot, le_ℤ, lt_ℤ, eq_ℤ, ◌*ℤ◌}
use kubernetes_cost_analyzer.Common.Word.{saturate64}
use kubernetes_cost_analyzer.Numeric.Float.{Float64}
use kubernetes_cost_analyzer.Clock.Floor.{floor_mod}

abbrev pub Time : Type 0
Time = ℤ

abbrev pub Duration : Type 0
Duration = ℤ

abbrev pub is_zero : Time → Bool
is_zero t = eq_ℤ t (pos 0)

abbrev pub after : Time → Time → Bool
after t u = lt_ℤ u t

-- `t.Sub(u)` stops at the ends of the int64 range.
unfoldable pub sub_time : Time → Time → Duration
sub_time t u = saturate64 (t -ℤ u)

abbrev pub add_time : Time → Duration → Time
add_time t d = t +ℤ d

-- `t.Truncate(d)`: down to a multiple of d since the zero Time.
unfoldable pub truncate : Time → Duration → Time
truncate t d = if le_ℤ d (pos 0) then t else t -ℤ pos (floor_mod t (pos_part d))

abbrev pub second : ℕ
second = 1_000_000_000

abbrev pub minute : ℕ
minute = 60 * second

abbrev pub hour : ℕ
hour = 60 * minute

abbrev pub day_span : ℕ
day_span = 24 * hour

-- `d.Hours()`: the whole hours, and the rest as a fraction of an hour.
unfoldable pub hours : {F : Type 0} ⦃f : Float64 F⦄ → Duration → F
hours ⦃f⦄ d =
    let whole = quot d hour in
    let rest = d -ℤ (quot d hour *ℤ pos hour) in
    f.fadd (f.of_int whole) (f.fdiv (f.of_int rest) (f.lit (60 * 60 * second) 0))
