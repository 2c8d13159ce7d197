-- ===== src/Handlers/Costs.antt =====
-- internal/httpapi/costs.go: the summary with its totals, and the page of allocations. Both are the
-- store's answers.
use Prim.Native.String.{String}
use kubernetes_cost_analyzer.Common.{
  Bool, true, false, ◌&&◌, Option, List, [], ◌∷◌, length, Result, if◌then◌else◌,
}
use kubernetes_cost_analyzer.Common.Int.{ℤ, pos, lt_ℤ, le_ℤ}
use kubernetes_cost_analyzer.Numeric.Decimal.{Decimal}
use kubernetes_cost_analyzer.Clock.{Time}
use kubernetes_cost_analyzer.Http.{Query}
use kubernetes_cost_analyzer.Http.Params.{ParseTime}
use kubernetes_cost_analyzer.Http.Requests.{
  CostSummaryParams, AllocationsParams, summary_params, allocations_params,
}
use kubernetes_cost_analyzer.Pages.{Cursor, AllocationRow, AllocationsPage}
use kubernetes_cost_analyzer.Handlers.{Response, sent, ClusterRow, validated, queried, guarded}

pub record CostSummaryRow (D : Type 0) : Type 0 where
  pub namespace : String
  pub team : String
  pub environment : String
  pub cost_centre : String
  pub workload_kind : String
  pub workload_name : String
  pub node : String
  pub instance_type : String
  pub capacity_type : String
  pub pod_name : String
  pub container : String
  pub cpu_requested_core_hours : D
  pub cpu_used_core_hours : D
  pub cpu_core_hours : D
  pub mem_requested_gib_hours : D
  pub mem_used_gib_hours : D
  pub mem_gib_hours : D
  pub wasted_cpu_core_hours : D
  pub wasted_mem_gib_hours : D
  pub cpu_cost : D
  pub memory_cost : D
  pub total_cost : D
  pub containers : ℤ
  pub estimated_rates : Bool

pub record SummaryTotals : Type 0 where
  pub total_cost : String
  pub cpu_cost : String
  pub mem_cost : String
  pub estimated_rates : Bool
  pub truncated : Bool
  pub cpu_core_hours : String
  pub mem_gib_hours : String
  pub wasted_cpu_core_hours : String
  pub wasted_mem_gib_hours : String

-- The running totals of the loop.
pub record Sums (D : Type 0) : Type 0 where
  pub total : D
  pub cpu : D
  pub mem : D
  pub cpu_hours : D
  pub mem_hours : D
  pub wasted_cpu : D
  pub wasted_mem : D
  pub estimated : Bool

pub record SummaryResponse (D : Type 0) : Type 0 where
  pub from : Time
  pub to : Time
  pub group_by : String
  pub items : List (CostSummaryRow D)
  pub count : ℤ
  pub totals : SummaryTotals

pub record AllocationsResponse (D : Type 0) : Type 0 where
  pub from : Time
  pub to : Time
  pub items : List (AllocationRow D)
  pub count : ℤ
  pub next_cursor : String

module _ {D : Type 0} ⦃d : Decimal D⦄ where
  abbrev pub no_sums : Sums D
  no_sums = record {
    total = d.nought;
    cpu = d.nought;
    mem = d.nought;
    cpu_hours = d.nought;
    mem_hours = d.nought;
    wasted_cpu = d.nought;
    wasted_mem = d.nought;
    estimated = false;
  }

  abbrev pub add_row : Sums D → CostSummaryRow D → Sums D
  add_row s row = record {
    total = d.add s.total row.total_cost;
    cpu = d.add s.cpu row.cpu_cost;
    mem = d.add s.mem row.memory_cost;
    cpu_hours = d.add s.cpu_hours row.cpu_core_hours;
    mem_hours = d.add s.mem_hours row.mem_gib_hours;
    wasted_cpu = d.add s.wasted_cpu row.wasted_cpu_core_hours;
    wasted_mem = d.add s.wasted_mem row.wasted_mem_gib_hours;
    estimated = if row.estimated_rates then true else s.estimated;
  }

  unfoldable pub sums_from : Sums D → List (CostSummaryRow D) → Sums D
  sums_from s [] = s
  sums_from s (row ∷ rows) = sums_from (add_row s row) rows

  -- The sums as texts.
  abbrev pub rendered : Bool → Sums D → SummaryTotals
  rendered truncated s = record {
    total_cost = d.to_string s.total;
    cpu_cost = d.to_string s.cpu;
    mem_cost = d.to_string s.mem;
    estimated_rates = s.estimated;
    truncated = truncated;
    cpu_core_hours = d.to_string s.cpu_hours;
    mem_gib_hours = d.to_string s.mem_hours;
    wasted_cpu_core_hours = d.to_string s.wasted_cpu;
    wasted_mem_gib_hours = d.to_string s.wasted_mem;
  }

  unfoldable pub totals : List (CostSummaryRow D) → ℤ → SummaryTotals
  totals rows limit =
      rendered (lt_ℤ (pos 0) limit && le_ℤ limit (pos (length rows))) (sums_from no_sums rows)

  module _ {E : Type 0} (parse : ParseTime) (now : Time) (fleet : Result E (List ClusterRow)) where
    unfoldable pub handle_cost_summary :
        (CostSummaryParams → Result E (List (CostSummaryRow D)))
        → Query
        → Response (SummaryResponse D)
    handle_cost_summary reports q = validated (summary_params parse now q) (λ p.
        guarded fleet p.filters.cluster (
          queried (reports p) "could not compute cost summary" (λ rows. sent 200 true (record {
            from = p.from;
            to = p.to;
            group_by = p.group_by;
            items = rows;
            count = pos (length rows);
            totals = totals rows p.limit;
          }))))

    unfoldable pub handle_allocations :
        (String → Option Cursor)
        → (AllocationsParams Cursor → Result E (AllocationsPage D))
        → Query
        → Response (AllocationsResponse D)
    handle_allocations decode reports q = validated (allocations_params parse now q decode) (λ p.
        guarded fleet p.filters.cluster (
          queried (reports p) "could not list allocations" (λ page. sent 200 true (record {
            from = p.from;
            to = p.to;
            items = page.rows;
            count = pos (length page.rows);
            next_cursor = page.next_cursor;
          }))))
