-- ===== src/Summaries.antt =====
-- `CostSummary` of internal/store/postgres/report_repo.go: what is asked of the table of facts, and the
-- rows with their grouping columns put in place.
pub mod Accepted
mod Tests
use Prim.Native.String.{String}
use text.Mathlib.Text.{◌==◌ as str_eq}
use kubernetes_cost_analyzer.Common.{
  Bool, ◌||◌, Option, none, some, List, [], ◌∷◌, map, Result, ok, err, ◌>>=◌, map_err,
  if◌then◌else◌,
}
use kubernetes_cost_analyzer.Common.Int.{ℤ, pos, lt_ℤ, le_ℤ}
use kubernetes_cost_analyzer.Common.Maps.{Entries, lookup}
use kubernetes_cost_analyzer.Clock.{Time}
use kubernetes_cost_analyzer.Http.Requests.{CostSummaryParams}
use kubernetes_cost_analyzer.Pages.Fetching.{filter_columns, filter_values}
use kubernetes_cost_analyzer.Trends.{group_by_columns}
use kubernetes_cost_analyzer.Handlers.Costs.{CostSummaryRow}

-- `sortExpressions`.
abbrev pub sort_expressions : Entries String
sort_expressions =
    ("total_cost", "total_cost")
    ∷ ("cpu_cost", "cpu_cost")
    ∷ ("memory_cost", "memory_cost")
    ∷ ("cpu_core_hours", "cpu_core_hours")
    ∷ ("wasted_cpu_core_hours", "wasted_cpu_core_hours")
    ∷ ("dimension", "")
    ∷ []

abbrev pub max_summary_rows : ℤ
max_summary_rows = pos 1000

-- What the query selects: the groups of the facts from an instant to before another that pass the filters,
-- by the order's expressions and then by the columns, the first `limit` of them.
pub record SummaryQuery : Type 0 where
  pub columns : List String
  pub from : Time
  pub to : Time
  pub filters : Entries String
  pub estimated_only : Bool
  pub order : List String
  pub descending : Bool
  pub limit : ℤ

pub data SummaryError (E : Type 0) : Type 0 where
  unknown_group_by : String → SummaryError E
  unknown_sort_field : String → SummaryError E
  unknown_filter : String → SummaryError E
  querying : E → SummaryError E

-- The loop over the filters.
unfoldable pub summary_filters :
    {E : Type 0} → Entries String → Result (SummaryError E) (Entries String)
summary_filters [] = ok []
summary_filters (p ∷ ps) = elim (lookup p.0 filter_columns) [
  | none ↦ err (unknown_filter p.0)
  | some column ↦ summary_filters ps >>= λ rest. ok ((column, p.1) ∷ rest)
]

abbrev pub summary_limit : ℤ → ℤ
summary_limit limit =
    if le_ℤ limit (pos 0) || lt_ℤ max_summary_rows limit then max_summary_rows else limit

-- The dimension sorts by the grouping columns.
abbrev pub order_of : String → String → List String → List String
order_of sort_by expression columns =
    if str_eq sort_by "dimension" then columns else expression ∷ []

unfoldable pub summary_query :
    {E : Type 0} → CostSummaryParams → Result (SummaryError E) SummaryQuery
summary_query p = elim (lookup p.group_by group_by_columns) [
  | none ↦ err (unknown_group_by p.group_by)
  | some columns ↦ elim (lookup p.sort_by sort_expressions) [
    | none ↦ err (unknown_sort_field p.sort_by)
    | some expression ↦ do
      pairs ← summary_filters (filter_values p.filters)
      ok (record {
        columns = columns;
        from = p.from;
        to = p.to;
        filters = pairs;
        estimated_only = p.filters.estimated_only;
        order = order_of p.sort_by expression columns;
        descending = p.descending;
        limit = summary_limit p.limit;
      })
  ]
]

-- A row as it is scanned: the values of the grouping columns, and the row without them.
pub record Scanned (D : Type 0) : Type 0 where
  pub group_values : List String
  pub row : CostSummaryRow D

module _ {D : Type 0} where
  abbrev pub assign_group_value : String → String → CostSummaryRow D → CostSummaryRow D
  assign_group_value column value row =
      if str_eq column "namespace_name"
      then record row { namespace = value }
      else if str_eq column "team"
      then record row { team = value }
      else if str_eq column "environment"
      then record row { environment = value }
      else if str_eq column "cost_centre"
      then record row { cost_centre = value }
      else if str_eq column "workload_kind"
      then record row { workload_kind = value }
      else if str_eq column "workload_name"
      then record row { workload_name = value }
      else if str_eq column "node_name"
      then record row { node = value }
      else if str_eq column "instance_type"
      then record row { instance_type = value }
      else if str_eq column "capacity_type"
      then record row { capacity_type = value }
      else if str_eq column "pod_name"
      then record row { pod_name = value }
      else if str_eq column "container_name"
      then record row { container = value }
      else row

  unfoldable pub assign_group_values :
      List String → List String → CostSummaryRow D → CostSummaryRow D
  assign_group_values (c ∷ cs) (v ∷ vs) row = assign_group_values cs vs (assign_group_value c v row)
  assign_group_values _ _ row = row

  -- The database answers a query with its rows.
  unfoldable pub cost_summary :
      {E : Type 0}
      → (SummaryQuery → Result E (List (Scanned D)))
      → CostSummaryParams
      → Result (SummaryError E) (List (CostSummaryRow D))
  cost_summary run p = do
    q ← summary_query p
    rows ← map_err querying (run q)
    ok (map (λ s. assign_group_values q.columns s.group_values s.row) rows)
