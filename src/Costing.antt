-- ===== src/Costing.antt =====
-- internal/costing: topology, usage and rates joined into cost. Here the window, the engine and what
-- it needs of others; the children have the collection, its theorems and the tests.
pub mod Collect
pub mod Windows
pub mod Coverage
pub mod Billing
pub mod Interleaving
pub mod Tests
use Prim.Native.String.{String}
use text.Mathlib.Text.{◌==◌ as str_eq}
use kubernetes_cost_analyzer.Common.{
  report_if, ℕ, ◌*◌, Bool, true, false, not, ◌&&◌, Option, none, some, List, [], ◌∷◌, ◌++◌, Result,
  ok, err, joined, if◌then◌else◌,
}
use kubernetes_cost_analyzer.Common.Int.{ℤ, pos, negsuc, ◌-ℤ◌, le_ℤ}
use kubernetes_cost_analyzer.Clock.{
  Time, Duration, is_zero, after, sub_time, add_time, truncate, minute,
}
use kubernetes_cost_analyzer.Domain.{Node, Namespace, Pod, ContainerKey, Usage}
use kubernetes_cost_analyzer.Pricing.{Rates}

-- [start, end)
pub record Window : Type 0 where
  pub start : Time
  pub end : Time

unfoldable pub duration : Window → Duration
unfolding sub_time
duration w = sub_time w.end w.start

unfoldable pub valid : Window → Bool
valid w = not (is_zero w.start) && not (is_zero w.end) && after w.end w.start

-- An interval that is not positive is replaced by five minutes.
abbrev pub step_of : Duration → Duration
step_of interval = if le_ℤ interval (pos 0) then pos (5 * minute) else interval

unfoldable pub aligned_window : Time → Duration → Window
aligned_window now interval =
    let step = step_of interval in
    let end = truncate now step in record { start = end -ℤ step; end = end }

-- What the engine asks of others, for one cycle: the informer cache (internal/kube), Prometheus
-- (internal/prom) and the pricing provider. `E` is the type of their errors.
pub record Sources (D E : Type 0) : Type 0 where
  pub nodes : Result E (List Node)
  pub namespaces : Result E (List Namespace)
  pub pods : String → Result E (List Pod)
  pub container_usage : String → Time → Time → Result E (ContainerKey → Option Usage)
  pub rates_for : Node → Result E (Rates D)

pub record Engine (D E : Type 0) : Type 0 where
  pub cluster_name : String
  pub sources : Sources D E
  pub workers : ℤ

-- `Options` of `NewEngine`: each dependency may be nil. The logger is only checked.
pub record Options (D E : Type 0) : Type 0 where
  pub cluster_name : String
  pub inventory : Bool
  pub usage : Bool
  pub pricer : Bool
  pub log : Bool
  pub sources : Sources D E
  pub workers : ℤ

pub data OptionError : Type 0 where
  cluster_name_required inventory_required usage_required pricer_required log_required : OptionError

module _ {D E : Type 0} where
  option_errors : Options D E → List OptionError
  option_errors o =
      report_if (str_eq o.cluster_name "") cluster_name_required
      ++ (report_if (not o.inventory) inventory_required
          ++ (report_if (not o.usage) usage_required
              ++ (report_if (not o.pricer) pricer_required ++ report_if (not o.log) log_required)))

  unfoldable pub new_engine : Options D E → Result (List OptionError) (Engine D E)
  unfolding option_errors
  new_engine o =
      joined
        (record {
          cluster_name = o.cluster_name;
          sources = o.sources;
          workers = if le_ℤ o.workers (pos 0) then pos 4 else o.workers;
        })
        (option_errors o)
