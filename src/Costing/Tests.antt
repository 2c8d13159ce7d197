-- ===== src/Costing/Tests.antt =====
-- A cluster of two nodes, one of which cannot be priced, and the theorems at it.
use Prim.Native.String.{String}
use text.Mathlib.Text.{◌==◌ as str_eq}
use mathlib.Core.List.{◌++◌, Perm, perm_append_comm}
use mathlib.Core.List.Perm
use kubernetes_cost_analyzer.Common.{
  ◌*◌, ◌≡◌, refl, ◌⊎◌, Option, none, some, List, [], ◌∷◌, concat_map, ok, err, arith, if◌then◌else◌,
}
use kubernetes_cost_analyzer.Common.Int.{ℤ, ◌*ℤ◌, pos, ◌+ℤ◌, ◌-ℤ◌, ◌≤ℤ◌, ◌<ℤ◌}
use kubernetes_cost_analyzer.Common.Word.{wrap64}
use kubernetes_cost_analyzer.Common.Maps.{insert}
use kubernetes_cost_analyzer.Numeric.Fixed.{Fixed, fixed_decimal, Fixed-laws}
use kubernetes_cost_analyzer.Clock.{minute, sub_time, truncate}
use kubernetes_cost_analyzer.Clock.Floor.{floor_mod}
use kubernetes_cost_analyzer.Domain.{
  Namespace, Container, Pod, ContainerKey, Usage, regular, initial, billable_kind,
}
use kubernetes_cost_analyzer.Domain.Allocation.{ContainerAllocation, billable, validate}
use kubernetes_cost_analyzer.Pricing.{cost, source_string}
use kubernetes_cost_analyzer.Pricing.Tests.{node, large_rates, pricing_code}
use kubernetes_cost_analyzer.Costing.{Window, Sources, Engine, duration, valid, aligned_window}
use kubernetes_cost_analyzer.Costing.Collect.{
  PricedNode, RateMap, no_stats, scope, row, allocation, unpriced_row, visit_containers, visit_pod,
  visit_pods, collect_pods, collect_namespace, price_nodes, merge, merge_all, collect,
}
use kubernetes_cost_analyzer.Costing.Windows.{aligned_window_complete, aligned_window_agree}
use kubernetes_cost_analyzer.Costing.Coverage.{rows_of, expected_stats, collect_namespace-covers}
use kubernetes_cost_analyzer.Costing.Billing.{allocation_bills_max, allocation_validates}
use kubernetes_cost_analyzer.Costing.Interleaving.{SameOutcome, collect_schedules}

abbrev container : String → Container
container name = record {
  name = name;
  kind = regular;
  requests_cpu_millicores = pos 500;
  requests_memory_bytes = pos 1_073_741_824;
  limits_cpu_millicores = pos 0;
  limits_memory_bytes = pos 0;
}

abbrev pod_on : String → String → Pod
pod_on name node_name = record {
  uid = name;
  name = name;
  namespace = "shop";
  node_name = node_name;
  phase = "Running";
  qos_class = "Burstable";
  workload = record { kind = "Deployment"; name = "web" };
  requests_cpu_millicores = pos 500;
  requests_memory_bytes = pos 1_073_741_824;
  limits_cpu_millicores = pos 0;
  limits_memory_bytes = pos 0;
  container_count = pos 2;
  containers = container "app" ∷ record (container "migrate") { kind = initial } ∷ [];
  labels = [];
  started_at = none;
  created_at = pos 1;
}

abbrev namespace_of : String → Namespace
namespace_of name = record {
  name = name;
  team = "payments";
  cost_centre = "cc-1";
  environment = "prod";
  labels = [];
  phase = "Active";
  created_at = pos 1;
}

abbrev shop_pods : List Pod
shop_pods = pod_on "web-1" "a" ∷ pod_on "web-2" "" ∷ pod_on "web-3" "b" ∷ []

abbrev observed : Usage
observed = record {
  cpu_millicores = pos 800;
  memory_bytes = pos 1000;
  cpu_millicores_max = pos 900;
  memory_bytes_max = pos 2000;
}

abbrev usage : ContainerKey → Option Usage
usage key = if str_eq key.container "app" then some observed else none

-- Node "b" has no price, and the namespace "dark" has no usage.
abbrev sources : Sources Fixed String
sources = record {
  nodes = ok (node "a" "m5.large" ∷ node "b" "unknown" ∷ []);
  namespaces = ok (namespace_of "shop" ∷ namespace_of "dark" ∷ []);
  pods = λ name. ok shop_pods;
  container_usage = λ name start end. if str_eq name "dark" then err "timeout" else ok usage;
  rates_for = λ n. if str_eq n.name "b" then err "no price" else ok large_rates;
}

abbrev engine : Engine Fixed String
engine = record { cluster_name = "dev"; sources = sources; workers = pos 4 }

abbrev window : Window
window = record { start = pos (5 * minute); end = pos (10 * minute) }

abbrev node_rates : RateMap Fixed
node_rates = ("a", record { node = node "a" "m5.large"; rates = large_rates }) ∷ []

-- What a collection computes with.
costing_code : Unit {0}
unfolding pricing_code insert sub_time duration valid row allocation unpriced_row billable
    billable_kind source_string visit_containers visit_pod visit_pods collect_pods collect_namespace
    price_nodes merge merge_all collect
costing_code = tt

one_row :
    (r : ContainerAllocation Fixed) × (collect_namespace engine window node_rates
        (namespace_of "shop")
      ≡ ok (
        r ∷ [],
        record {
          pods_unscheduled = pos 1;
          pods_on_unpriced_node = pos 1;
          containers_skipped = pos 1;
        },
      ))
    × (r.cpu_cost ≡ pos 2_240_000_000_000_000)
unfolding costing_code wrap64 ◌-ℤ◌
one_row = (_, refl, refl)

aligned_at : aligned_window (pos (13 * minute)) (pos (5 * minute)) ≡ window
unfolding aligned_window truncate floor_mod ◌-ℤ◌
aligned_at = refl

aligned_window_complete_example :
    let w = aligned_window (pos (13 * minute)) (pos (5 * minute)) in
    (w.end -ℤ w.start ≡ pos (5 * minute))
    × ((q : ℤ) × (w.end ≡ q *ℤ pos (5 * minute)))
    × (w.end ≤ℤ pos (13 * minute))
    × (pos (13 * minute) <ℤ w.end +ℤ pos (5 * minute))
aligned_window_complete_example = aligned_window_complete (pos (13 * minute)) (pos (5 * minute))

aligned_window_agree_example :
    aligned_window (pos (11 * minute)) (pos (5 * minute))
    ≡ aligned_window (pos (13 * minute)) (pos (5 * minute))
unfolding aligned_window truncate floor_mod ◌-ℤ◌ ◌+ℤ◌
aligned_window_agree_example =
    aligned_window_agree (pos (13 * minute)) (pos (11 * minute)) (pos (5 * minute)) (omega arith)
      (omega arith)

collect_namespace-covers_example :
    let x = scope engine window node_rates (namespace_of "shop") usage in
    collect_namespace engine window node_rates (namespace_of "shop")
    ≡ ok (concat_map (rows_of x) shop_pods, expected_stats x shop_pods no_stats)
collect_namespace-covers_example =
    collect_namespace-covers engine window node_rates (namespace_of "shop") shop_pods usage refl
      refl

abbrev priced : PricedNode Fixed
priced = record { node = node "a" "m5.large"; rates = large_rates }

abbrev shop_row : ContainerAllocation Fixed
shop_row =
    allocation "dev" window (duration window) (namespace_of "shop") (pod_on "web-1" "a")
      (container "app") observed priced

allocation_bills_max_example :
    let (cpu, memory) = billable shop_row in
    (pos 500 ≤ℤ cpu)
    × (pos 800 ≤ℤ cpu)
    × (pos 1_073_741_824 ≤ℤ memory)
    × (pos 1000 ≤ℤ memory)
    × ((cpu ≡ pos 500) ⊎ (cpu ≡ pos 800))
    × ((memory ≡ pos 1_073_741_824) ⊎ (memory ≡ pos 1000))
    × (shop_row.cpu_cost ≡ (cost large_rates cpu memory (duration window)).cpu)
    × (shop_row.memory_cost ≡ (cost large_rates cpu memory (duration window)).memory)
allocation_bills_max_example =
    allocation_bills_max "dev" window (duration window) (namespace_of "shop") (pod_on "web-1" "a")
      (container "app") observed priced

allocation_validates_example : validate (record shop_row { pod_id = pos 7 }) ≡ []
unfolding valid
allocation_validates_example =
    allocation_validates "dev" window (duration window) (namespace_of "shop") (pod_on "web-1" "a")
      (container "app") observed priced Fixed-laws (pos 7) refl refl refl refl refl refl refl
      (omega arith) (omega arith) (omega arith) (omega arith)

-- The first namespace merges last.
first_last : List Namespace → List Namespace
first_last [] = []
first_last (n ∷ ns) = ns ++ n ∷ []

first_last-perm : (ns : List Namespace) → Perm ns (first_last ns)
unfolding first_last
first_last-perm [] = Perm.refl []
first_last-perm (n ∷ ns) = perm_append_comm (n ∷ []) ns

collect_schedules_example :
    SameOutcome (collect (λ ns. ns) none engine window) (collect first_last none engine window)
collect_schedules_example =
    collect_schedules engine window (λ ns. ns) first_last none first_last-perm
