-- ===== src/Trends.antt =====
-- `Trend` of internal/store/postgres/rollup_repo.go: which table answers, what is asked of it, and the
-- rows folded into one series for each group.
pub mod Series
mod Tests
use Prim.Native.String.{String}
use Prim.Native.String.{◌++◌ as str_append}
use text.Mathlib.Text.{◌==◌ as str_eq}
use kubernetes_cost_analyzer.Common.{
  ℕ, suc, Bool, true, false, not, ◌&&◌, ◌||◌, Option, none, some, List, [], ◌∷◌, ◌++◌, length, leb,
  Result, ok, err, ◌>>=◌, map_err, if◌then◌else◌,
}
use kubernetes_cost_analyzer.Common.Int.{ℤ, pos, lt_ℤ, le_ℤ}
use kubernetes_cost_analyzer.Common.Maps.{Entries, lookup, insert}
use kubernetes_cost_analyzer.Common.Word.{add64}
use kubernetes_cost_analyzer.Numeric.Decimal.{Decimal}
use kubernetes_cost_analyzer.Clock.{Time}
use kubernetes_cost_analyzer.Http.Requests.{TrendParams}
use kubernetes_cost_analyzer.Http.Requests
use kubernetes_cost_analyzer.Pages.Fetching.{filter_columns, filter_values}

pub data TrendSource : Type 0 where
  daily_rollup raw_facts : TrendSource

pub record TrendPoint (D : Type 0) : Type 0 where
  pub bucket_start : Time
  pub total_cost : D
  pub cpu_cost : D
  pub memory_cost : D
  pub cpu_core_hours : D
  pub mem_gib_hours : D
  pub wasted_cpu_core_hours : D
  pub wasted_mem_gib_hours : D
  pub windows : ℤ
  pub estimated_rates : Bool

pub record TrendSeries (D : Type 0) : Type 0 where
  pub group : Entries String
  pub points : List (TrendPoint D)
  pub total_cost : D

-- A row: the values of the grouping columns and the point.
pub record TrendRow (D : Type 0) : Type 0 where
  pub group_values : List String
  pub point : TrendPoint D

-- `groupByColumns`.
abbrev pub group_by_columns : Entries (List String)
group_by_columns =
    ("namespace", "namespace_name" ∷ [])
    ∷ ("team", "team" ∷ [])
    ∷ ("environment", "environment" ∷ [])
    ∷ ("cost_centre", "cost_centre" ∷ [])
    ∷ ("workload", "namespace_name" ∷ "workload_kind" ∷ "workload_name" ∷ [])
    ∷ ("node", "node_name" ∷ [])
    ∷ ("instance_type", "instance_type" ∷ [])
    ∷ ("capacity_type", "capacity_type" ∷ [])
    ∷ ("pod", "namespace_name" ∷ "pod_name" ∷ [])
    ∷ ("container", "namespace_name" ∷ "pod_name" ∷ "container_name" ∷ [])
    ∷ []

-- What a query selects: the buckets of the rows between two instants that pass the filters, of the
-- `top` groups with the highest costs where that is set.
pub record TrendQuery : Type 0 where
  pub source : TrendSource
  pub bucket : String
  pub columns : List String
  pub from : Time
  pub to : Time
  pub filters : Entries String
  pub estimated_only : Bool
  pub top : Option ℤ

pub data TrendError (E : Type 0) : Type 0 where
  unsupported_interval : String → TrendError E
  unsupported_grouping : String → TrendError E
  unknown_filter : String → TrendError E
  querying : TrendSource → E → TrendError E

-- The loop over the filters: columns with their values.
unfoldable pub trend_filters :
    {E : Type 0} → Entries String → Result (TrendError E) (Entries String)
trend_filters [] = ok []
trend_filters (p ∷ ps) = elim (lookup p.0 filter_columns) [
  | none ↦ err (unknown_filter p.0)
  | some column ↦ trend_filters ps >>= λ rest. ok ((column, p.1) ∷ rest)
]

-- `topGroups`: no restriction without a limit.
abbrev pub top_groups : ℤ → Option ℤ
top_groups limit = if le_ℤ limit (pos 0) then none else some limit

-- The finest grain of the rollup is a day, and it does not keep pods.
unfoldable pub trend_source : String → String → TrendSource
trend_source interval group_by =
    if str_eq interval "hour"
    then raw_facts
    else if str_eq group_by "pod" || str_eq group_by "container"
    then raw_facts
    else daily_rollup

-- The query of `trendFromRollup` or `trendFromFacts`.
unfoldable pub trend_query : {E : Type 0} → TrendParams → Result (TrendError E) TrendQuery
trend_query p =
    if not (Requests.is_option p.interval Requests.interval_options)
    then err (unsupported_interval p.interval)
    else elim (lookup p.group_by group_by_columns) [
      | none ↦ err (unsupported_grouping p.group_by)
      | some columns ↦ do
        pairs ← trend_filters (filter_values p.filters)
        ok (record {
          source = trend_source p.interval p.group_by;
          bucket = p.interval;
          columns = columns;
          from = p.from;
          to = p.to;
          filters = pairs;
          estimated_only = p.filters.estimated_only;
          top = top_groups p.limit;
        })
    ]

-- `strings.Join(values, "\x00")`.
abbrev pub joined_values : List String → String
joined_values [] = ""
joined_values (v ∷ []) = v
joined_values (v ∷ w ∷ ws) = str_append v (str_append "\0" (joined_values (w ∷ ws)))

-- The map from columns to values.
abbrev pub group_map : List String → List String → Entries String
group_map (c ∷ cs) (v ∷ vs) = insert c v (group_map cs vs)
group_map _ _ = []

module _ {D : Type 0} ⦃d : Decimal D⦄ where
  -- A point appended to a series.
  abbrev pub add_point : TrendPoint D → TrendSeries D → TrendSeries D
  add_point pt s = record s {
    points = s.points ++ (pt ∷ []);
    total_cost = d.add s.total_cost pt.total_cost;
  }

  abbrev pub new_series : List String → TrendRow D → TrendSeries D
  new_series columns row = record {
    group = group_map columns row.group_values;
    points = [];
    total_cost = d.nought;
  }

  -- The loop over the rows, given the finished series, and the current one with its key, if any. It
  -- stops where a new group would be one more than the limit.
  unfoldable pub scan_from :
      List String
      → ℤ
      → List (TrendSeries D)
      → Option (String × TrendSeries D)
      → List (TrendRow D)
      → List (TrendSeries D)
  scan_from columns limit out none [] = out
  scan_from columns limit out (some (key, s)) [] = out ++ (s ∷ [])
  scan_from columns limit out none (row ∷ rows) =
      scan_from columns limit out
        (some (joined_values row.group_values, add_point row.point (new_series columns row))) rows
  scan_from columns limit out (some (key, s)) (row ∷ rows) =
      let same = scan_from columns limit out (some (key, add_point row.point s)) rows in
      let fresh =
        scan_from columns limit (out ++ (s ∷ []))
          (some (joined_values row.group_values, add_point row.point (new_series columns row)))
          rows in
      if str_eq (joined_values row.group_values) key
      then same
      else if lt_ℤ (pos 0) limit && le_ℤ limit (pos (length (out ++ (s ∷ []))))
      then out ++ (s ∷ [])
      else fresh

  unfoldable pub scan_trend : List String → ℤ → List (TrendRow D) → List (TrendSeries D)
  scan_trend columns limit rows = scan_from columns limit [] none rows

  -- The database answers a query with its rows, by group and then by bucket.
  unfoldable pub trend :
      {E : Type 0}
      → (TrendQuery → Result E (List (TrendRow D)))
      → TrendParams
      → Result (TrendError E) (List (TrendSeries D) × TrendSource)
  trend run p = do
    q ← trend_query p
    rows ← map_err (querying q.source) (run q)
    ok (scan_trend q.columns p.limit rows, q.source)
