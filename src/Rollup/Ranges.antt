-- ===== src/Rollup/Ranges.antt =====
-- `resolveRange` of cmd/rollup/main.go: the days that the flags ask for, with the arithmetic of dates and
-- months of internal/store/postgres.
use Prim.Native.String.{String}
use text.Mathlib.Text.{◌==◌ as str_eq}
use kubernetes_cost_analyzer.Common.{
  Bool, not, Option, none, some, Result, ok, err, ◌>>=◌, if◌then◌else◌,
}
use kubernetes_cost_analyzer.Common.Int.{ℤ, pos, negsuc, ◌+ℤ◌, lt_ℤ}
use kubernetes_cost_analyzer.Common.Text.{trim_space}
use kubernetes_cost_analyzer.Clock.{Time, day_span}
use kubernetes_cost_analyzer.Clock.Floor.{floor_div, floor_mod}
use kubernetes_cost_analyzer.Rollup.Dates.{Date, Month, date_time}
use kubernetes_cost_analyzer.Rollup.Calendar.{civil}

-- `DayOf`.
unfoldable pub day_of : Time → Date
day_of t = civil (floor_div t day_span)

-- `t.AddDate(years, months, days)`.
unfoldable pub add_date : Time → ℤ → ℤ → ℤ → Time
add_date t years months days =
    let d = day_of t in
    date_time (record { year = d.year +ℤ years; month = d.month +ℤ months; day = d.day +ℤ days })
    +ℤ pos (floor_mod t day_span)

unfoldable pub add_days : Date → ℤ → Date
add_days d n = day_of (add_date (date_time d) (pos 0) (pos 0) n)

unfoldable pub new_month : ℤ → ℤ → Month
new_month y m = record { start = date_time (record { year = y; month = m; day = pos 1 }) }

unfoldable pub month_of : Time → Month
month_of t = let d = day_of t in new_month d.year d.month

unfoldable pub next : Month → Month
next m = record { start = add_date m.start (pos 0) (pos 1) (pos 0) }

unfoldable pub previous : Month → Month
previous m = record { start = add_date m.start (pos 0) (negsuc 0) (pos 0) }

unfoldable pub is_complete : Month → Time → Bool
is_complete m now = not (lt_ℤ now (next m).start)

-- Go's `time.Parse(layout, s)`, in UTC.
abbrev pub ParseLayout : Type 0
ParseLayout = String → String → Option Time

pub data FlagError : Type 0 where
  earliest_malformed : FlagError
  not_a_month : String → FlagError
  not_a_day : String → String → FlagError
  to_without_from : FlagError

-- The flags of the command that choose a range.
pub record Flags : Type 0 where
  pub all : Bool
  pub month : String
  pub from : String
  pub to : String

abbrev pub earliest_backfill : String
earliest_backfill = "2020-01-01"

module _ (parse : ParseLayout) where
  unfoldable pub parse_month : String → Result FlagError Month
  parse_month s = elim (parse "2006-01" (trim_space s)) [
    | none ↦ err (not_a_month s)
    | some t ↦ let d = day_of t in ok (new_month d.year d.month)
  ]

  unfoldable pub parse_day : String → String → Result FlagError Date
  parse_day s flag_name = elim (parse "2006-01-02" s) [
    | none ↦ err (not_a_day flag_name s)
    | some t ↦ ok (day_of t)
  ]

  unfoldable pub resolve_range : Flags → Time → Result FlagError (Date × Date)
  resolve_range opts now =
      if opts.all
      then elim (parse "2006-01-02" earliest_backfill) [
        | none ↦ err earliest_malformed
        | some earliest ↦ ok (day_of earliest, day_of now)
      ]
      else if not (str_eq opts.month "")
      then (do
        month ← parse_month opts.month
        ok (day_of month.start, add_days (day_of (next month).start) (negsuc 0)))
      else if not (str_eq opts.from "")
      then (do
        from ← parse_day opts.from "from"
        if str_eq opts.to ""
            then ok (from, from)
            else (do to ← parse_day opts.to "to"; ok (from, to)))
      else if not (str_eq opts.to "")
      then err to_without_from
      else (let y = add_days (day_of now) (negsuc 0) in ok (y, y))
