-- ===== src/Handlers/Tests.antt =====
-- A fleet with two currencies, a summary of two rows, and a trend with its comparison.
use Prim.Native.String.{String}
use text.Mathlib.Text.{◌==◌ as str_eq}
use kubernetes_cost_analyzer.Common.{
  ◌*◌, ◌≡◌, ◌↔◌, refl, Bool, true, false, Option, none, some, List, [], ◌∷◌, Result, ok, err,
  if◌then◌else◌,
}
use kubernetes_cost_analyzer.Common.Int.{ℤ, pos, ◌+ℤ◌, ◌-ℤ◌}
use kubernetes_cost_analyzer.Common.Maps.{insert}
use kubernetes_cost_analyzer.Common.Numerals.{parse_int}
use kubernetes_cost_analyzer.Common.Sort.{sort_stable}
use kubernetes_cost_analyzer.Common.Text.{trim_space, to_lower}
use kubernetes_cost_analyzer.Numeric.Fixed.{Fixed, Nano, fixed_decimal, nano_float, nano_to_fixed}
use kubernetes_cost_analyzer.Clock.{Time, sub_time}
use kubernetes_cost_analyzer.Http.{Query}
use kubernetes_cost_analyzer.Http.Params.{
  parse_bound, chosen_range, checked_range, time_range_default, get_name, get_flag,
  checked_capacity, filters, limit_param, day_span,
}
use kubernetes_cost_analyzer.Http.Requests.{
  is_option, choice, comparison, read_trend, checked_buckets, trend_params, TrendParams,
  summary_params, allocations_params, stats_params, CostSummaryParams, AllocationsParams,
  ContainerStatsParams,
}
use kubernetes_cost_analyzer.Trends.{TrendSeries, TrendSource, daily_rollup}
use kubernetes_cost_analyzer.Handlers.{
  ClusterRow, chars_less, seen_from, distinct_currencies, guard_currency, mixed,
}
use kubernetes_cost_analyzer.Handlers.Costs.{
  CostSummaryRow, totals, handle_cost_summary, handle_allocations,
}
use kubernetes_cost_analyzer.Handlers.Currency.{is_sent, Succeeds, cost_answers-IsOneCurrency}
use kubernetes_cost_analyzer.Pages.{Cursor, AllocationsPage}
use kubernetes_cost_analyzer.Recommend.{ContainerStats}
use kubernetes_cost_analyzer.Recommend.Engine.{Engine, default_thresholds}
use kubernetes_cost_analyzer.Handlers.Advice.{handle_recommendations}
use kubernetes_cost_analyzer.Handlers.History.{
  TrendComparison, no_note, verdict, compared, compare_previous_period, comparison_of,
  previous_period, handle_trend,
}
use kubernetes_cost_analyzer.Handlers.Totals.{sum_of, totals-sums}
use kubernetes_cost_analyzer.Handlers.Comparing.{IsComparison, previous_period-IsComparison}

abbrev cluster : String → String → ClusterRow
cluster name currency = record {
  name = name;
  provider = "aws";
  region = "";
  account = "";
  currency = currency;
  first_seen = pos 1;
  last_seen = pos 2;
}

abbrev fleet : Result String (List ClusterRow)
fleet = ok (cluster "a" "USD" ∷ cluster "b" "" ∷ cluster "c" "EUR" ∷ cluster "d" "USD" ∷ [])

refuses : guard_currency fleet "" ≡ some (mixed ("EUR" ∷ "USD" ∷ []))
unfolding guard_currency distinct_currencies seen_from insert sort_stable chars_less
refuses = refl

abbrev summary_row : ℤ → Bool → CostSummaryRow Fixed
summary_row cost estimated = record {
  namespace = "shop";
  team = "";
  environment = "";
  cost_centre = "";
  workload_kind = "";
  workload_name = "";
  node = "";
  instance_type = "";
  capacity_type = "";
  pod_name = "";
  container = "";
  cpu_requested_core_hours = pos 0;
  cpu_used_core_hours = pos 0;
  cpu_core_hours = pos 0;
  mem_requested_gib_hours = pos 0;
  mem_used_gib_hours = pos 0;
  mem_gib_hours = pos 0;
  wasted_cpu_core_hours = pos 0;
  wasted_mem_gib_hours = pos 0;
  cpu_cost = cost;
  memory_cost = cost;
  total_cost = cost +ℤ cost;
  containers = pos 1;
  estimated_rates = estimated;
}

abbrev summary_rows : List (CostSummaryRow Fixed)
summary_rows = summary_row (pos 3) false ∷ summary_row (pos 4) true ∷ []

totals-sums_example : totals summary_rows (pos 2) ≡ record {
  total_cost = fixed_decimal.to_string (sum_of (λ r. r.total_cost) summary_rows);
  cpu_cost = fixed_decimal.to_string (sum_of (λ r. r.cpu_cost) summary_rows);
  mem_cost = fixed_decimal.to_string (sum_of (λ r. r.memory_cost) summary_rows);
  estimated_rates = true;
  truncated = true;
  cpu_core_hours = fixed_decimal.to_string (sum_of (λ r. r.cpu_core_hours) summary_rows);
  mem_gib_hours = fixed_decimal.to_string (sum_of (λ r. r.mem_gib_hours) summary_rows);
  wasted_cpu_core_hours =
      fixed_decimal.to_string (sum_of (λ r. r.wasted_cpu_core_hours) summary_rows);
  wasted_mem_gib_hours =
      fixed_decimal.to_string (sum_of (λ r. r.wasted_mem_gib_hours) summary_rows);
}
totals-sums_example = totals-sums summary_rows (pos 2)

abbrev now : Time
now = pos (1000 * day_span)

abbrev compared_query : Query
compared_query key = if str_eq key "compare" then "previous_period" else ""

abbrev params : TrendParams
params = record {
  from = pos (970 * day_span);
  to = now;
  interval = "day";
  group_by = "namespace";
  filters = record {
    cluster = "";
    namespace = "";
    team = "";
    environment = "";
    cost_centre = "";
    workload_kind = "";
    workload_name = "";
    node = "";
    instance_type = "";
    capacity_type = "";
    estimated_only = false;
  };
  limit = pos 20;
}

accepted : trend_params parse_int now compared_query ≡ ok (params, true)
unfolding parse_bound chosen_range checked_range time_range_default get_name get_flag
    checked_capacity filters limit_param is_option choice comparison read_trend checked_buckets
    trend_params parse_int trim_space to_lower sub_time ◌-ℤ◌
accepted = refl

abbrev one_series : List (TrendSeries Fixed)
one_series =
    record { group = ("namespace_name", "shop") ∷ []; points = []; total_cost = pos 7 } ∷ []

abbrev trends : TrendParams → Result String (List (TrendSeries Fixed) × TrendSource)
trends p = ok (one_series, daily_rollup)

abbrev result : TrendComparison
result = compared Nano (previous_period params) one_series one_series

compares : comparison_of Nano trends params true one_series ≡ some result
unfolding comparison_of compare_previous_period
compares = refl

previous_period-IsComparison_example :
    (before : List (TrendSeries Fixed)) × (source : TrendSource) × (trends
        (record params { from = params.from -ℤ (params.to -ℤ params.from); to = params.from })
      ≡ ok (before, source))
    × IsComparison Nano params before one_series result
previous_period-IsComparison_example =
    previous_period-IsComparison Nano parse_int now compared_query trends params one_series result
      accepted compares

-- A period without any window passes for comparable with one that has some.
nothing_now : verdict Nano true (pos 0) (pos 5) ≡ (true, no_note)
unfolding verdict
nothing_now = refl

abbrev summaries : CostSummaryParams → Result String (List (CostSummaryRow Fixed))
summaries p = ok summary_rows

abbrev pages : AllocationsParams Cursor → Result String (AllocationsPage Fixed)
pages p = err "no connection"

abbrev statistics : ContainerStatsParams → Result String (List (ContainerStats Fixed Nano))
statistics p = ok []

abbrev no_cursor : String → Option Cursor
no_cursor s = none

abbrev advisor : Engine Nano
advisor = record { thresholds = default_thresholds }

cost_answers-IsOneCurrency_example :
    ((is_sent (handle_cost_summary parse_int now fleet summaries compared_query) ≡ true)
      ↔ Succeeds (summary_params parse_int now compared_query) (λ p. p.filters) summaries fleet)
    × ((is_sent (handle_allocations parse_int now fleet no_cursor pages compared_query) ≡ true)
        ↔ Succeeds
            (allocations_params parse_int now compared_query no_cursor)
            (λ p. p.filters)
            pages
            fleet)
    × ((is_sent (handle_recommendations parse_int now fleet advisor statistics compared_query)
          ≡ true)
        ↔ Succeeds (stats_params parse_int now compared_query) (λ p. p.filters) statistics fleet)
    × ((is_sent (handle_trend Nano parse_int now fleet trends compared_query) ≡ true)
        ↔ Succeeds
            (trend_params parse_int now compared_query)
            (λ p. p.0.filters)
            (λ p. trends p.0)
            fleet)
cost_answers-IsOneCurrency_example =
    cost_answers-IsOneCurrency parse_int now fleet summaries no_cursor pages advisor statistics
      trends compared_query
