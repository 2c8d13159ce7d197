-- ===== src/Domain/Tests.antt =====
-- Two nodes of one provider, an allocation, and the theorems at them.
use Prim.Native.String.{String}
use text.Mathlib.TextEquality.{eq_iff}
use kubernetes_cost_analyzer.Common.{
  ◌*◌, ◌≢◌, ◌≡◌, ◌↔◌, refl, false, true, List, [], ◌∷◌, map, arith,
}
use kubernetes_cost_analyzer.Common.Int.{pos}
use kubernetes_cost_analyzer.Common.Text.{trim_space}
use kubernetes_cost_analyzer.Numeric.Fixed.{Fixed, fixed_decimal}
use kubernetes_cost_analyzer.Clock.{minute}
use kubernetes_cost_analyzer.Domain.{Node}
use kubernetes_cost_analyzer.Domain.Allocation.{
  ContainerAllocation, window_reversed, pod_id_unset, validate, IsValid, validate_iff,
}
use kubernetes_cost_analyzer.Domain.Cluster.{
  sole_value, describe_cluster, Agrees, Occurs, sole_value_iff,
}

abbrev node : String → String → Node
node name region = record {
  name = name;
  instance_type = "m5.large";
  region = region;
  zone = "";
  capacity_type = "spot";
  provider_id = " AWS ://i-0";
  capacity_cpu_millicores = pos 2000;
  capacity_memory_bytes = pos 8_000_000_000;
  allocatable_cpu_millicores = pos 1900;
  allocatable_memory_bytes = pos 7_000_000_000;
  ready = true;
  unschedulable = false;
  kubelet_version = "v1.30.0";
  created_at = pos 1;
}

-- A node without a region does not hide the region of the others.
abbrev nodes : List Node
nodes = node "a" " us-east-1" ∷ node "b" "" ∷ []

described : describe_cluster nodes ≡ record { provider = "aws"; region = "us-east-1" }
unfolding describe_cluster
described = refl

region_set : ◌≢◌ {A = String} "us-east-1" ""
region_set = ground (arith, eq_iff "us-east-1" "")

sole_value_iff_holds : (sole_value nodes (λ n. n.region) ≡ "us-east-1") ↔ (
    Agrees "us-east-1" (map (λ n. trim_space n.region) nodes)
    × Occurs "us-east-1" (map (λ n. trim_space n.region) nodes))
sole_value_iff_holds = sole_value_iff "us-east-1" nodes (λ n. n.region) region_set

abbrev allocation : ContainerAllocation Fixed
allocation = record {
  window_start = pos minute;
  window_end = pos (6 * minute);
  pod_id = pos 7;
  container_name = "app";
  cluster_name = "dev";
  namespace_name = "shop";
  pod_name = "web-1";
  workload_kind = "Deployment";
  workload_name = "web";
  node_name = "a";
  team = "payments";
  cost_centre = "cc-1";
  environment = "prod";
  instance_type = "m5.large";
  capacity_type = "spot";
  zone = "";
  qos_class = "Burstable";
  rate_source = "catalogue";
  cpu_millicores_requested = pos 500;
  memory_bytes_requested = pos 1000;
  cpu_millicores_used = pos 800;
  memory_bytes_used = pos 900;
  cpu_millicores_max = pos 900;
  memory_bytes_max = pos 900;
  cpu_cost_per_core_hour = pos 5;
  memory_cost_per_gib_hour = pos 5;
  cpu_cost = pos 2;
  memory_cost = pos 3;
}

-- A reversed window and a missing pod are both reported.
reports_both :
    validate (record allocation { window_end = pos 1; pod_id = pos 0 })
    ≡ window_reversed (pos 1) (pos minute) ∷ pod_id_unset ∷ []
unfolding validate
reports_both = refl

validate_iff_example : (validate allocation ≡ []) ↔ IsValid allocation
validate_iff_example = validate_iff allocation
