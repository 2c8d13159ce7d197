-- ===== src/Trends/Tests.antt =====
-- Three days of two namespaces, of which only the first fits the limit.
use Prim.Native.String.{String}
use kubernetes_cost_analyzer.Common.{◌≡◌, refl, false, List, [], ◌∷◌, Result, ok}
use kubernetes_cost_analyzer.Common.Int.{ℤ, pos, ◌+ℤ◌}
use kubernetes_cost_analyzer.Common.Maps.{insert}
use kubernetes_cost_analyzer.Numeric.Fixed.{Fixed, fixed_decimal}
use kubernetes_cost_analyzer.Http.Requests.{TrendParams, is_option}
use kubernetes_cost_analyzer.Pages.Fetching.{filter_values}
use kubernetes_cost_analyzer.Trends.{
  TrendPoint, TrendSeries, TrendRow, TrendQuery, daily_rollup, trend_filters, trend_source,
  trend_query, scan_from, scan_trend, trend,
}
use kubernetes_cost_analyzer.Trends.Series.{Scanned, trend-Scanned}

abbrev point : ℤ → ℤ → TrendPoint Fixed
point bucket cost = record {
  bucket_start = bucket;
  total_cost = cost;
  cpu_cost = cost;
  memory_cost = pos 0;
  cpu_core_hours = pos 0;
  mem_gib_hours = pos 0;
  wasted_cpu_core_hours = pos 0;
  wasted_mem_gib_hours = pos 0;
  windows = pos 1;
  estimated_rates = false;
}

abbrev day_row : String → ℤ → ℤ → TrendRow Fixed
day_row name bucket cost = record { group_values = name ∷ []; point = point bucket cost }

abbrev answer : List (TrendRow Fixed)
answer =
    day_row "shop" (pos 1) (pos 5)
    ∷ day_row "shop" (pos 2) (pos 6)
    ∷ day_row "tools" (pos 1) (pos 9)
    ∷ []

abbrev database : TrendQuery → Result (Unit {0}) (List (TrendRow Fixed))
database q = ok answer

abbrev params : TrendParams
params = record {
  from = pos 0;
  to = pos 10;
  interval = "day";
  group_by = "namespace";
  filters = record {
    cluster = "";
    namespace = "";
    team = "web";
    environment = "";
    cost_centre = "";
    workload_kind = "";
    workload_name = "";
    node = "";
    instance_type = "";
    capacity_type = "";
    estimated_only = false;
  };
  limit = pos 1;
}

abbrev shop : TrendSeries Fixed
shop = record {
  group = ("namespace_name", "shop") ∷ [];
  points = point (pos 1) (pos 5) ∷ point (pos 2) (pos 6) ∷ [];
  total_cost = pos 11;
}

first_group : trend database params ≡ ok (shop ∷ [], daily_rollup)
unfolding trend_filters trend_source trend_query scan_from scan_trend trend is_option filter_values
    insert ◌+ℤ◌
first_group = refl

trend-Scanned_example :
    (q : TrendQuery) × (rows : List (TrendRow Fixed)) × (trend_query {E = Unit {0}} params ≡ ok q)
    × (database q ≡ ok rows)
    × (q.source ≡ daily_rollup)
    × Scanned q.columns (pos 1) rows (shop ∷ [])
trend-Scanned_example = trend-Scanned database params (shop ∷ []) daily_rollup first_group
