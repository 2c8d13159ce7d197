-- ===== src/Writer/Tests.antt =====
-- A database that logs its statements and numbers its rows, a cycle of three containers, and the theorem
-- at them.
use Prim.Native.String.{String}
use kubernetes_cost_analyzer.Common.{
  ◌*◌, ◌≡◌, refl, suc, false, true, Option, none, some, List, [], ◌∷◌, ok, Result,
}
use kubernetes_cost_analyzer.Common.Int.{ℤ, pos, negsuc}
use kubernetes_cost_analyzer.Numeric.Fixed.{Fixed, fixed_decimal}
use kubernetes_cost_analyzer.Clock.{minute}
use kubernetes_cost_analyzer.Domain.{Node}
use kubernetes_cost_analyzer.Domain.Allocation.{ContainerAllocation}
use kubernetes_cost_analyzer.Common.Maps.{insert}
use kubernetes_cost_analyzer.Domain.Cluster.{describe_cluster}
use kubernetes_cost_analyzer.Domain.Allocation.{validate}
use kubernetes_cost_analyzer.Writer.{Statements, ◌>>=◌, first_invalid, insert_batch, in_tx}
use kubernetes_cost_analyzer.Writer.Persist.{
  Writer, cached, upsert_nodes, upsert_namespaces, namespace_id, node_id, workload_id, resolve_row,
  resolve_rows, listed, persist_all, write,
}
use kubernetes_cost_analyzer.Writer.Atomicity.{Outcome, write-Outcome}

-- What was executed, the latest last.
data Entry : Type 0 where
  cluster : String → Entry
  node : String → Entry
  namespace : String → Entry
  workload : String → String → Entry
  pod : String → ℤ → Option ℤ → Entry
  facts : List ℤ → Entry

abbrev then_logged : List Entry → Entry → List Entry
then_logged [] e = e ∷ []
then_logged (x ∷ xs) e = x ∷ then_logged xs e

abbrev pods_of : List (ContainerAllocation Fixed) → List ℤ
pods_of [] = []
pods_of (a ∷ rest) = a.pod_id ∷ pods_of rest

-- The id of a row is the number of entries before it, from one.
abbrev next_id : List Entry → ℤ
next_id [] = pos 1
next_id (e ∷ es) = elim (next_id es) [ pos n ↦ pos (suc n) | negsuc n ↦ pos 0 ]

abbrev logged : Entry → List Entry → Result String ℤ × List Entry
logged e log = (ok (next_id log), then_logged log e)

abbrev db : Statements Fixed (List Entry) String
db = record {
  upsert_cluster = λ c. logged (cluster c.provider);
  upsert_node = λ _ n. logged (node n.name);
  upsert_namespace = λ _ n. logged (namespace n.name);
  upsert_workload = λ _ _ w. logged (workload w.kind w.name);
  upsert_pod = λ p. logged (pod p.pod.uid p.namespace_id p.node_id);
  send_batch = λ rows log. (ok tt, then_logged log (facts (pods_of rows)));
  begin = λ log. none;
  commit = λ before log. (none, log);
}

abbrev live_node : Node
live_node = record {
  name = "a";
  instance_type = "m5.large";
  region = "eu-west-1";
  zone = "";
  capacity_type = "spot";
  provider_id = "aws:///i-0";
  capacity_cpu_millicores = pos 2000;
  capacity_memory_bytes = pos 8000;
  allocatable_cpu_millicores = pos 1900;
  allocatable_memory_bytes = pos 7000;
  ready = true;
  unschedulable = false;
  kubelet_version = "";
  created_at = pos 1;
}

abbrev w : Writer String
w = record {
  cluster_name = "dev";
  cluster_account = "1";
  currency = "EUR";
  nodes = ok (live_node ∷ []);
  namespaces = ok [];
}

abbrev row : String → String → String → ContainerAllocation Fixed
row pod_name container node_name = record {
  window_start = pos minute;
  window_end = pos (6 * minute);
  pod_id = pos 0;
  container_name = container;
  cluster_name = "dev";
  namespace_name = "shop";
  pod_name = pod_name;
  workload_kind = "Deployment";
  workload_name = "web";
  node_name = node_name;
  team = "payments";
  cost_centre = "cc-1";
  environment = "prod";
  instance_type = "m5.large";
  capacity_type = "spot";
  zone = "";
  qos_class = "Burstable";
  rate_source = "catalogue";
  cpu_millicores_requested = pos 500;
  memory_bytes_requested = pos 1000;
  cpu_millicores_used = pos 800;
  memory_bytes_used = pos 900;
  cpu_millicores_max = pos 900;
  memory_bytes_max = pos 900;
  cpu_cost_per_core_hour = pos 5;
  memory_cost_per_gib_hour = pos 5;
  cpu_cost = pos 2;
  memory_cost = pos 3;
}

abbrev rows : List (ContainerAllocation Fixed)
rows = row "web-1" "app" "a" ∷ row "web-1" "proxy" "a" ∷ row "web-2" "app" "gone" ∷ []

-- The namespace and the second node have vanished; the two containers of the first pod share its id.
writes : write db w rows [] ≡ (
  ok tt,
  cluster "aws"
      ∷ node "a"
      ∷ namespace "shop"
      ∷ workload "Deployment" "web"
      ∷ pod "shop/web-1" (pos 3) (some (pos 2))
      ∷ node "gone"
      ∷ pod "shop/web-2" (pos 3) (some (pos 6))
      ∷ facts (pos 5 ∷ pos 5 ∷ pos 7 ∷ [])
      ∷ [],
)
unfolding ◌>>=◌ first_invalid insert_batch in_tx cached upsert_nodes upsert_namespaces namespace_id
    node_id workload_id resolve_row resolve_rows listed persist_all write insert validate
    describe_cluster
writes = refl

write-Outcome_example : Outcome db w rows [] (write db w rows [])
write-Outcome_example = write-Outcome db w rows []
