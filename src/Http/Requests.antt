-- ===== src/Http/Requests.antt =====
-- The requests of internal/httpapi/params.go: what each handler asks of the store, or every problem of
-- the query. The allow-lists are those of internal/store/postgres/report_repo.go and rollup_repo.go.
use Prim.Native.String.{String}
use text.Mathlib.Text.{◌==◌ as str_eq}
use kubernetes_cost_analyzer.Common.{
  ◌*◌, Bool, true, false, ◌&&◌, ◌||◌, Option, none, some, List, [], ◌∷◌, Result, joined,
  if◌then◌else◌,
}
use kubernetes_cost_analyzer.Common.Int.{ℤ, pos, lt_ℤ}
use kubernetes_cost_analyzer.Common.Text.{trim_space, to_lower}
use kubernetes_cost_analyzer.Clock.{Time, sub_time}
use kubernetes_cost_analyzer.Http.{
  Query, FieldError, Checked, ◌>>=◌, pure, complain, not_one_of, not_an_order, not_a_cursor,
  not_a_comparison, hourly_too_long,
}
use kubernetes_cost_analyzer.Http.Params.{
  ParseTime, Filters, time_range, time_range_default, filters, limit_param, day_span,
}

-- `groupByColumns`, whose keys are sorted for messages.
abbrev pub group_options : List String
group_options =
    "capacity_type" ∷ "container" ∷ "cost_centre" ∷ "environment" ∷ "instance_type" ∷ "namespace"
    ∷ "node" ∷ "pod" ∷ "team" ∷ "workload" ∷ []

abbrev pub sort_options : List String
sort_options =
    "cpu_core_hours" ∷ "cpu_cost" ∷ "dimension" ∷ "memory_cost" ∷ "total_cost"
    ∷ "wasted_cpu_core_hours" ∷ []

abbrev pub interval_options : List String
interval_options = "hour" ∷ "day" ∷ "week" ∷ "month" ∷ []

-- A key of an allow-list.
unfoldable pub is_option : String → List String → Bool
is_option s [] = false
is_option s (o ∷ os) = str_eq o s || is_option s os

-- A symbolic name, or the default where it is blank; a name outside the list is a problem.
unfoldable pub choice : Query → String → String → List String → Checked String
choice q key default options =
    let raw = trim_space (q key) in
    let name = if str_eq raw "" then default else raw in
    if is_option name options then pure name else complain key (not_one_of options) name

unfoldable pub descending_order : Query → Checked Bool
descending_order q =
    let raw = trim_space (q "order") in
    if str_eq raw ""
    then pure true
    else if str_eq (to_lower raw) "asc"
    then pure false
    else if str_eq (to_lower raw) "desc"
    then pure true
    else complain "order" not_an_order true

pub record CostSummaryParams : Type 0 where
  pub from : Time
  pub to : Time
  pub group_by : String
  pub filters : Filters
  pub sort_by : String
  pub descending : Bool
  pub limit : ℤ

pub record ContainerStatsParams : Type 0 where
  pub from : Time
  pub to : Time
  pub filters : Filters
  pub limit : ℤ

pub record AllocationsParams (C : Type 0) : Type 0 where
  pub from : Time
  pub to : Time
  pub filters : Filters
  pub limit : ℤ
  pub cursor : Option C

pub record TrendParams : Type 0 where
  pub from : Time
  pub to : Time
  pub interval : String
  pub group_by : String
  pub filters : Filters
  pub limit : ℤ

-- `if !v.empty() { return ..., v }`.
abbrev pub answered : {A : Type 0} → Checked A → Result (List FieldError) A
answered (a, es) = joined a es

-- The cursor is decoded by `decode`.
unfoldable pub read_cursor : {C : Type 0} → Query → (String → Option C) → Checked (Option C)
read_cursor q decode =
    let raw = trim_space (q "cursor") in
    if str_eq raw ""
    then pure none
    else elim (decode raw) [ none ↦ complain "cursor" not_a_cursor none | some c ↦ pure (some c) ]

unfoldable pub comparison : Query → Checked Bool
comparison q =
    let raw = trim_space (q "compare") in
    if str_eq raw ""
    then pure false
    else if str_eq raw "previous_period"
    then pure true
    else if str_eq raw "none"
    then pure false
    else complain "compare" not_a_comparison false

-- Hourly buckets are checked only where nothing else is wrong.
unfoldable pub checked_buckets :
    Checked (TrendParams × Bool) → Result (List FieldError) (TrendParams × Bool)
checked_buckets ((p, compared), []) = answered (
    if str_eq p.interval "hour" && lt_ℤ (pos (14 * day_span)) (sub_time p.to p.from)
    then complain "interval" (hourly_too_long (sub_time p.to p.from)) (p, compared)
    else pure (p, compared))
checked_buckets (a, e ∷ es) = answered (a, e ∷ es)

module _ (parse : ParseTime) (now : Time) (q : Query) where
  unfoldable pub read_summary : Checked CostSummaryParams
  read_summary = do
    range ← time_range parse now q
    group_by ← choice q "group_by" "namespace" group_options
    sort_by ← choice q "sort" "total_cost" sort_options
    descending ← descending_order q
    limit ← limit_param q "limit" (pos 100) (pos 1000)
    f ← filters q
    pure (record {
      from = range.0;
      to = range.1;
      group_by = group_by;
      filters = f;
      sort_by = sort_by;
      descending = descending;
      limit = limit;
    })

  unfoldable pub summary_params : Result (List FieldError) CostSummaryParams
  summary_params = answered read_summary

  unfoldable pub read_stats : Checked ContainerStatsParams
  read_stats = do
    range ← time_range_default parse now q (pos (7 * day_span))
    limit ← limit_param q "limit" (pos 200) (pos 1000)
    f ← filters q
    pure (record { from = range.0; to = range.1; filters = f; limit = limit })

  unfoldable pub stats_params : Result (List FieldError) ContainerStatsParams
  stats_params = answered read_stats

  unfoldable pub read_allocations :
      {C : Type 0} → (String → Option C) → Checked (AllocationsParams C)
  read_allocations decode = do
    range ← time_range parse now q
    limit ← limit_param q "limit" (pos 100) (pos 500)
    f ← filters q
    cursor ← read_cursor q decode
    pure (record { from = range.0; to = range.1; filters = f; limit = limit; cursor = cursor })

  unfoldable pub allocations_params :
      {C : Type 0} → (String → Option C) → Result (List FieldError) (AllocationsParams C)
  allocations_params decode = answered (read_allocations decode)

  unfoldable pub read_trend : Checked (TrendParams × Bool)
  read_trend = do
    range ← time_range_default parse now q (pos (30 * day_span))
    interval ← choice q "interval" "day" interval_options
    group_by ← choice q "group_by" "namespace" group_options
    limit ← limit_param q "limit" (pos 20) (pos 100)
    compared ← comparison q
    f ← filters q
    pure (
      record {
        from = range.0;
        to = range.1;
        interval = interval;
        group_by = group_by;
        filters = f;
        limit = limit;
      },
      compared,
    )

  unfoldable pub trend_params : Result (List FieldError) (TrendParams × Bool)
  trend_params = checked_buckets read_trend
