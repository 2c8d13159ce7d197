-- ===== src/Summaries/Tests.antt =====
-- A summary by workload, which the database answers with one row.
use Prim.Native.String.{String}
use kubernetes_cost_analyzer.Common.{◌*◌, ◌≡◌, refl, false, true, List, [], ◌∷◌, Result, ok, err}
use kubernetes_cost_analyzer.Common.Int.{pos, ◌-ℤ◌}
use kubernetes_cost_analyzer.Common.Numerals.{parse_int}
use kubernetes_cost_analyzer.Common.Text.{trim_space, to_lower}
use kubernetes_cost_analyzer.Numeric.Fixed.{Fixed}
use kubernetes_cost_analyzer.Clock.{Time, sub_time}
use kubernetes_cost_analyzer.Http.{Query}
use kubernetes_cost_analyzer.Http.Params.{
  parse_bound, chosen_range, checked_range, time_range_default, get_name, get_flag,
  checked_capacity, filters, limit_param, Filters, day_span,
}
use kubernetes_cost_analyzer.Http.Requests.{
  is_option, choice, descending_order, comparison, read_summary, summary_params, read_trend,
  checked_buckets, trend_params, CostSummaryParams, TrendParams,
}
use kubernetes_cost_analyzer.Pages.Fetching.{filter_values}
use kubernetes_cost_analyzer.Trends.{TrendQuery, trend_query}
use kubernetes_cost_analyzer.Handlers.Costs.{CostSummaryRow}
use kubernetes_cost_analyzer.Summaries.{
  SummaryQuery, Scanned, unknown_sort_field, summary_filters, summary_query, assign_group_values,
  cost_summary,
}
use kubernetes_cost_analyzer.Summaries.Accepted.{valid_params-accepted}

abbrev bare : Query
bare key = ""

abbrev now : Time
now = pos (1000 * day_span)

abbrev unfiltered : Filters
unfiltered = record {
  cluster = "";
  namespace = "";
  team = "";
  environment = "";
  cost_centre = "";
  workload_kind = "";
  workload_name = "";
  node = "";
  instance_type = "";
  capacity_type = "";
  estimated_only = false;
}

abbrev summary : CostSummaryParams
summary = record {
  from = pos (999 * day_span);
  to = now;
  group_by = "namespace";
  filters = unfiltered;
  sort_by = "total_cost";
  descending = true;
  limit = pos 100;
}

abbrev history : TrendParams
history = record {
  from = pos (970 * day_span);
  to = now;
  interval = "day";
  group_by = "namespace";
  filters = unfiltered;
  limit = pos 20;
}

summarises : summary_params parse_int now bare ≡ ok summary
unfolding parse_bound chosen_range checked_range time_range_default get_name get_flag
    checked_capacity filters limit_param is_option choice descending_order read_summary
    summary_params parse_int trim_space to_lower sub_time ◌-ℤ◌
summarises = refl

plots : trend_params parse_int now bare ≡ ok (history, false)
unfolding parse_bound chosen_range checked_range time_range_default get_name get_flag
    checked_capacity filters limit_param is_option choice comparison read_trend checked_buckets
    trend_params parse_int trim_space to_lower sub_time ◌-ℤ◌
plots = refl

valid_params-accepted_example :
    ((s : SummaryQuery) × (summary_query {E = String} summary ≡ ok s) × (s.limit ≡ pos 100))
    × ((s : TrendQuery) × (trend_query {E = String} history ≡ ok s))
valid_params-accepted_example =
    valid_params-accepted parse_int now bare bare summary history false summarises plots

abbrev blank : CostSummaryRow Fixed
blank = record {
  namespace = "";
  team = "";
  environment = "";
  cost_centre = "";
  workload_kind = "";
  workload_name = "";
  node = "";
  instance_type = "";
  capacity_type = "";
  pod_name = "";
  container = "";
  cpu_requested_core_hours = pos 0;
  cpu_used_core_hours = pos 0;
  cpu_core_hours = pos 0;
  mem_requested_gib_hours = pos 0;
  mem_used_gib_hours = pos 0;
  mem_gib_hours = pos 0;
  wasted_cpu_core_hours = pos 0;
  wasted_mem_gib_hours = pos 0;
  cpu_cost = pos 1;
  memory_cost = pos 2;
  total_cost = pos 3;
  containers = pos 1;
  estimated_rates = false;
}

abbrev database : SummaryQuery → Result String (List (Scanned Fixed))
database q = ok (record { group_values = "shop" ∷ "Deployment" ∷ "web" ∷ []; row = blank } ∷ [])

by_workload :
    cost_summary database (record summary { group_by = "workload" })
    ≡ ok (
        record blank { namespace = "shop"; workload_kind = "Deployment"; workload_name = "web" }
        ∷ [])
unfolding cost_summary summary_query summary_filters filter_values assign_group_values
by_workload = refl

refused_order :
    cost_summary database (record summary { sort_by = "name" }) ≡ err (unknown_sort_field "name")
unfolding cost_summary summary_query
refused_order = refl
