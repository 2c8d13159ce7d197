-- ===== src/Http/Tests.antt =====
-- Queries, accepted and refused, and the theorems at them. A timestamp is written as a number here.
use Prim.Native.String.{String}
use text.Mathlib.Text.{◌==◌ as str_eq}
use kubernetes_cost_analyzer.Common.{
  ◌+◌, ◌*◌, ◌≡◌, ◌≢◌, ◌↔◌, ◌⊎◌, refl, true, false, some, [], ◌∷◌, ok, err, if◌then◌else◌,
}
use kubernetes_cost_analyzer.Common.Int.{pos, ◌≤ℤ◌, ◌-ℤ◌}
use kubernetes_cost_analyzer.Common.Text.{trim_space, to_lower}
use kubernetes_cost_analyzer.Common.Numerals.{parse_int}
use kubernetes_cost_analyzer.Clock.{Time, sub_time}
use kubernetes_cost_analyzer.Http.{
  Query, not_after_from, above_max, not_a_capacity, hourly_too_long,
}
use kubernetes_cost_analyzer.Http.Params.{
  parse_bound, chosen_range, checked_range, time_range_default, get_name, get_flag,
  checked_capacity, filters, limit_param, Filters, day_span,
}
use kubernetes_cost_analyzer.Http.Requests.{
  is_option, choice, descending_order, read_summary, summary_params, read_allocations, read_cursor,
  allocations_params, comparison, read_trend, checked_buckets, trend_params, CostSummaryParams,
  TrendParams, AllocationsParams,
}
use kubernetes_cost_analyzer.Common.{none}
use kubernetes_cost_analyzer.Common.Int.{◌+ℤ◌, ◌*ℤ◌}
use kubernetes_cost_analyzer.Clock.Floor.{floor_div, floor_mod}
use kubernetes_cost_analyzer.Rollup.Dates.{day_number, date_time}
use kubernetes_cost_analyzer.Rollup.Calendar.{civil}
use kubernetes_cost_analyzer.Rollup.Ranges.{ParseLayout, day_of, new_month, month_of, add_date}
use kubernetes_cost_analyzer.Http.Months.{
  MonthlyReportParams, month_param, checked_months, chosen_months, months_range, scope_param,
  scope_value_param, read_months, monthly_report_params,
}
use kubernetes_cost_analyzer.Http.Statements.{IsStatements, monthly_params-IsStatements}
use kubernetes_cost_analyzer.Http.Limits.{limit_param_iff}
use kubernetes_cost_analyzer.Http.Bounds.{
  IsSummary, IsPage, IsTrend, summary_params-IsSummary, allocations_params-IsPage,
  trend_params-IsTrend,
}

query_code : Unit {0}
unfolding parse_bound chosen_range checked_range time_range_default get_name get_flag
    checked_capacity filters limit_param is_option choice descending_order read_summary
    summary_params read_allocations read_cursor allocations_params comparison read_trend
    checked_buckets trend_params parse_int trim_space to_lower sub_time ◌-ℤ◌
query_code = tt

abbrev now : Time
now = pos (1000 * day_span)

abbrev bare : Query
bare key = ""

abbrev any : Filters
any = record {
  cluster = "";
  namespace = "";
  team = "";
  environment = "";
  cost_centre = "";
  workload_kind = "";
  workload_name = "";
  node = "";
  instance_type = "";
  capacity_type = "";
  estimated_only = false;
}

abbrev by_namespace : CostSummaryParams
by_namespace = record {
  from = pos (999 * day_span);
  to = now;
  group_by = "namespace";
  filters = any;
  sort_by = "total_cost";
  descending = true;
  limit = pos 100;
}

summarises : summary_params parse_int now bare ≡ ok by_namespace
unfolding query_code
summarises = refl

-- Three mistakes in one query, all of them reported.
abbrev wrong : Query
wrong key =
    if str_eq key "to"
    then "0"
    else if str_eq key "limit"
    then " 501 "
    else if str_eq key "capacity_type"
    then "Spot"
    else if str_eq key "from"
    then "7"
    else ""

refuses :
    allocations_params parse_int now wrong (λ s. some s)
    ≡ err (
        record { field = "to"; reason = not_after_from }
        ∷ record { field = "limit"; reason = above_max (pos 500) }
        ∷ record { field = "capacity_type"; reason = not_a_capacity }
        ∷ [])
unfolding query_code
refuses = refl

abbrev paged : Query
paged key = if str_eq key "limit" then "+500" else if str_eq key "cursor" then "abc" else ""

abbrev page : AllocationsParams String
page = record {
  from = pos (999 * day_span);
  to = now;
  filters = any;
  limit = pos 500;
  cursor = some "abc";
}

pages : allocations_params parse_int now paged (λ s. some s) ≡ ok page
unfolding query_code
pages = refl

-- Hours over thirty days are too many buckets, and the default are days.
abbrev by_hour : Query
by_hour key = if str_eq key "interval" then "hour" else ""

hours_refused :
    trend_params parse_int now by_hour
    ≡ err (record { field = "interval"; reason = hourly_too_long (pos (30 * day_span)) } ∷ [])
unfolding query_code
hours_refused = refl

abbrev by_day : TrendParams
by_day = record {
  from = pos (970 * day_span);
  to = now;
  interval = "day";
  group_by = "namespace";
  filters = any;
  limit = pos 20;
}

trends : trend_params parse_int now bare ≡ ok (by_day, false)
unfolding query_code
trends = refl

by_namespace_holds : IsSummary by_namespace
by_namespace_holds = summary_params-IsSummary parse_int now bare by_namespace summarises

page_holds : IsPage page
page_holds = allocations_params-IsPage parse_int now paged (λ s. some s) page pages

trend_params-IsTrend_example : IsTrend by_day
trend_params-IsTrend_example = trend_params-IsTrend parse_int now bare (by_day, false) trends

limit_param_iff_holds : (limit_param paged "limit" (pos 100) (pos 500) ≡ (pos 500, [])) ↔ (
    ((trim_space (paged "limit") ≡ "") × (pos 500 ≡ pos 100))
    ⊎ ((trim_space (paged "limit") ≢ "")
        × (parse_int (trim_space (paged "limit")) ≡ some (pos 500))
        × (pos 1 ≤ℤ pos 500)
        × (pos 500 ≤ℤ pos 500)))
limit_param_iff_holds = limit_param_iff paged "limit" (pos 100) (pos 500) (pos 500)

-- The last day of January 2026, at noon.
abbrev january_31 : Time
january_31 = pos (739_646 * day_span + 12 * 3_600_000_000_000)

month_code : Unit {0}
unfolding query_code month_param checked_months chosen_months months_range scope_param
    scope_value_param read_months monthly_report_params day_of new_month month_of add_date civil
    day_number date_time floor_div floor_mod ◌+ℤ◌ ◌*ℤ◌
month_code = tt

january_date : day_of january_31 ≡ record { year = pos 2026; month = pos 1; day = pos 31 }
unfolding month_code
january_date = refl

abbrev unread : ParseLayout
unread layout s = none

-- Eleven months before that day there is no such day, and the default is eleven months, from March on.
abbrev eleven_months : MonthlyReportParams
eleven_months = record {
  from = new_month (pos 2025) (pos 3);
  to = new_month (pos 2026) (pos 1);
  scope_kind = "";
  scope_value = "";
  limit = pos 100;
}

default_months : monthly_report_params unread january_31 bare ≡ ok eleven_months
unfolding month_code
default_months = refl

eleven_months_hold : IsStatements eleven_months
eleven_months_hold = monthly_params-IsStatements unread january_31 bare eleven_months default_months
