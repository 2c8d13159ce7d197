-- ===== src/Rollup/Dates.antt =====
-- internal/store/postgres/rollup_repo.go: calendar dates without a time or a zone, by Go's `time.Date`
-- in UTC. A month is the instant of its first midnight.
use Prim.Native.Char.{Char}
use Prim.Native.String.{String}
use kubernetes_cost_analyzer.Common.{
  ℕ, zero, suc, ◌+◌, ◌*◌, ◌/◌, ◌%◌, ◌==◌, not, Bool, ◌&&◌, ◌||◌, List, [], ◌∷◌, ◌++◌, if◌then◌else◌,
}
use kubernetes_cost_analyzer.Common.Int.{ℤ, pos, pos_part, ◌+ℤ◌, ◌-ℤ◌, ◌*ℤ◌, lt_ℤ}
use kubernetes_cost_analyzer.Common.Text.{chars, of_chars}
use kubernetes_cost_analyzer.Clock.{Time, hour}
use kubernetes_cost_analyzer.Clock.Floor.{floor_div, floor_mod}

pub record Date : Type 0 where
  pub year : ℤ
  pub month : ℤ
  pub day : ℤ

pub record Month : Type 0 where
  pub start : Time

unfoldable pub is_leap : ℤ → Bool
is_leap y = floor_mod y 4 == 0 && (not (floor_mod y 100 == 0) || floor_mod y 400 == 0)

-- The lengths of the months.
unfoldable pub month_days : Bool → List ℕ
month_days leap =
    31 ∷ (if leap then 29 else 28) ∷ 31 ∷ 30 ∷ 31 ∷ 30 ∷ 31 ∷ 31 ∷ 30 ∷ 31 ∷ 30 ∷ 31 ∷ []

unfoldable pub sum_first : ℕ → List ℕ → ℕ
sum_first zero ns = 0
sum_first (suc k) [] = 0
sum_first (suc k) (n ∷ ns) = n + sum_first k ns

-- The days from the first of January of year 1; a month outside the year counts on into other years.
unfoldable pub day_number : Date → ℤ
unfolding is_leap month_days sum_first
day_number d =
    let months = d.month -ℤ pos 1 in
    let year = d.year +ℤ floor_div months 12 in
    let past = year -ℤ pos 1 in
    let leap_days = floor_div past 4 -ℤ floor_div past 100 +ℤ floor_div past 400 in
    let in_year = pos (sum_first (floor_mod months 12) (month_days (is_leap year))) in
    pos 365 *ℤ past +ℤ leap_days +ℤ in_year +ℤ (d.day -ℤ pos 1)

-- `d.Time()`: midnight.
unfoldable pub date_time : Date → Time
unfolding day_number
date_time d = day_number d *ℤ pos (24 * hour)

unfoldable pub before : Date → Date → Bool
before d other = lt_ℤ (date_time d) (date_time other)

nth_char : ℕ → List Char → List Char
nth_char n [] = []
nth_char zero (c ∷ cs) = c ∷ []
nth_char (suc n) (c ∷ cs) = nth_char n cs

digit : ℕ → List Char
unfolding nth_char
digit n = nth_char (n % 10) (chars "0123456789")

-- `d.String()` of a date whose month and day lie in their ranges and whose year has four digits.
unfoldable pub date_string : Date → String
unfolding digit
date_string d =
    let y = pos_part d.year in
    let m = pos_part d.month in
    let n = pos_part d.day in
    of_chars (
      digit (y / 1000)
      ++ digit (y / 100)
      ++ digit (y / 10)
      ++ digit y
      ++ chars "-"
      ++ digit (m / 10)
      ++ digit m
      ++ chars "-"
      ++ digit (n / 10)
      ++ digit n)
