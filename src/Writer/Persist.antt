-- ===== src/Writer/Persist.antt =====
-- `write` of cmd/collector/writer.go: the dimension rows, the ids of the pods, and the batch.
use Prim.Native.String.{String}
use Prim.Native.String.{◌++◌ as str_append}
use text.Mathlib.Text.{◌==◌ as str_eq}
use kubernetes_cost_analyzer.Common.{
  false, Option, none, some, List, [], ◌∷◌, Result, ok, err, if◌then◌else◌,
}
use kubernetes_cost_analyzer.Common.Int.{ℤ, pos}
use kubernetes_cost_analyzer.Common.Maps.{Entries, lookup, insert}
use kubernetes_cost_analyzer.Numeric.Decimal.{Decimal}
use kubernetes_cost_analyzer.Domain.{Node, Namespace, Pod}
use kubernetes_cost_analyzer.Domain.Allocation.{ContainerAllocation}
use kubernetes_cost_analyzer.Domain.Cluster.{ClusterProfile, describe_cluster}
use kubernetes_cost_analyzer.Writer.{
  Statements, WriteError, Tx, ◌>>=◌, pure, fail, wrapped, insert_batch, in_tx, upserting_cluster,
  listing_nodes, upserting_node, listing_namespaces, upserting_namespace, vanished_namespace,
  vanished_node, upserting_workload, upserting_pod,
}

-- The writer, with what the live inventory answers during one call.
pub record Writer (E : Type 0) : Type 0 where
  pub cluster_name : String
  pub cluster_account : String
  pub currency : String
  pub nodes : Result E (List Node)
  pub namespaces : Result E (List Namespace)

-- The ids that are known so far in the cycle.
pub record Caches : Type 0 where
  pub node_ids : Entries ℤ
  pub namespace_ids : Entries ℤ
  pub workload_ids : Entries ℤ
  pub pod_ids : Entries ℤ

-- `a + "/" + b`.
abbrev pub joined_key : String → String → String
joined_key a b = str_append a (str_append "/" b)

abbrev pub pod_key : {D : Type 0} → ContainerAllocation D → String
pod_key a = joined_key a.namespace_name a.pod_name

abbrev pub workload_key : {D : Type 0} → ContainerAllocation D → String
workload_key a = joined_key a.namespace_name (joined_key a.workload_kind a.workload_name)

-- The dimension rows that can be made of a fact row.
abbrev pub bare_namespace : {D : Type 0} → ContainerAllocation D → Namespace
bare_namespace a = record {
  name = a.namespace_name;
  team = a.team;
  cost_centre = a.cost_centre;
  environment = a.environment;
  labels = [];
  phase = "";
  created_at = pos 0;
}

abbrev pub bare_node : {D : Type 0} → ContainerAllocation D → Node
bare_node a = record {
  name = a.node_name;
  instance_type = a.instance_type;
  region = "";
  zone = a.zone;
  capacity_type = a.capacity_type;
  provider_id = "";
  capacity_cpu_millicores = pos 0;
  capacity_memory_bytes = pos 0;
  allocatable_cpu_millicores = pos 0;
  allocatable_memory_bytes = pos 0;
  ready = false;
  unschedulable = false;
  kubelet_version = "";
  created_at = pos 0;
}

-- The pod's identity is its key, since a fact row has no UID.
abbrev pub bare_pod : {D : Type 0} → ContainerAllocation D → Pod
bare_pod a = record {
  uid = pod_key a;
  name = a.pod_name;
  namespace = "";
  node_name = "";
  phase = "";
  qos_class = a.qos_class;
  workload = record { kind = ""; name = "" };
  requests_cpu_millicores = pos 0;
  requests_memory_bytes = pos 0;
  limits_cpu_millicores = pos 0;
  limits_memory_bytes = pos 0;
  container_count = pos 0;
  containers = [];
  labels = [];
  started_at = none;
  created_at = pos 0;
}

-- A failure to list the nodes leaves the profile empty.
abbrev pub profile_of : {E : Type 0} → Result E (List Node) → ClusterProfile
profile_of (ok nodes) = describe_cluster nodes
profile_of (err e) = record { provider = ""; region = "" }

module _ {D S E : Type 0} ⦃d : Decimal D⦄ (db : Statements D S E) (w : Writer E) where
  -- An id from a cache, or else that of an upsert, which is then remembered.
  unfoldable pub cached : String → Entries ℤ → Tx S E ℤ → Tx S E (ℤ × Entries ℤ)
  cached name ids upsert = elim (lookup name ids) [
    | some id ↦ pure (id, ids)
    | none ↦ upsert >>= λ id. pure (id, insert name id ids)
  ]

  -- The loops over the live objects.
  unfoldable pub upsert_nodes : ℤ → List Node → Entries ℤ → Tx S E (Entries ℤ)
  upsert_nodes cluster_id [] ids = pure ids
  upsert_nodes cluster_id (n ∷ ns) ids = do
    id ← wrapped (upserting_node n.name) (db.upsert_node cluster_id n)
    upsert_nodes cluster_id ns (insert n.name id ids)

  unfoldable pub upsert_namespaces : ℤ → List Namespace → Entries ℤ → Tx S E (Entries ℤ)
  upsert_namespaces cluster_id [] ids = pure ids
  upsert_namespaces cluster_id (ns ∷ rest) ids = do
    id ← wrapped (upserting_namespace ns.name) (db.upsert_namespace cluster_id ns)
    upsert_namespaces cluster_id rest (insert ns.name id ids)

  unfoldable pub namespace_id : ℤ → ContainerAllocation D → Entries ℤ → Tx S E (ℤ × Entries ℤ)
  namespace_id cluster_id a ids = cached a.namespace_name ids (
      wrapped (vanished_namespace a.namespace_name)
        (db.upsert_namespace cluster_id (bare_namespace a)))

  -- Of a row that names no node or workload there is none.
  unfoldable pub node_id : ℤ → ContainerAllocation D → Entries ℤ → Tx S E (Option ℤ × Entries ℤ)
  node_id cluster_id a ids =
      if str_eq a.node_name ""
      then pure (none, ids)
      else (cached a.node_name ids
            (wrapped (vanished_node a.node_name) (db.upsert_node cluster_id (bare_node a)))
          >>= λ r. pure (some r.0, r.1))

  unfoldable pub workload_id :
      ℤ → ℤ → ContainerAllocation D → Entries ℤ → Tx S E (Option ℤ × Entries ℤ)
  workload_id cluster_id ns_id a ids =
      if str_eq a.workload_name ""
      then pure (none, ids)
      else (cached (workload_key a) ids (
            wrapped (upserting_workload (workload_key a)) (
              db.upsert_workload cluster_id ns_id
                (record { kind = a.workload_kind; name = a.workload_name })))
          >>= λ r. pure (some r.0, r.1))

  -- One turn of the loop over the rows: the pod's id, and the caches.
  unfoldable pub resolve_row : ℤ → ContainerAllocation D → Caches → Tx S E (ℤ × Caches)
  resolve_row cluster_id a c = do
    ns ← namespace_id cluster_id a c.namespace_ids
    node ← node_id cluster_id a c.node_ids
    workload ← workload_id cluster_id ns.0 a c.workload_ids
    pod ← cached (pod_key a) c.pod_ids (
        wrapped (upserting_pod (pod_key a)) (
          db.upsert_pod (record {
            cluster_id = cluster_id;
            pod = bare_pod a;
            namespace_id = ns.0;
            workload_id = workload.0;
            node_id = node.0;
          })))
    pure (
      pod.0,
      record {
        node_ids = node.1;
        namespace_ids = ns.1;
        workload_ids = workload.1;
        pod_ids = pod.1;
      },
    )

  -- The rows with their pods' ids, and the caches.
  unfoldable pub resolve_rows :
      ℤ → List (ContainerAllocation D) → Caches → Tx S E (List (ContainerAllocation D) × Caches)
  resolve_rows cluster_id [] c = pure ([], c)
  resolve_rows cluster_id (a ∷ rest) c = do
    one ← resolve_row cluster_id a c
    more ← resolve_rows cluster_id rest one.1
    pure (record a { pod_id = one.0 } ∷ more.0, more.1)

  unfoldable pub listed : {A : Type 0} → (E → WriteError E) → Result E A → Tx S E A
  listed wrap (ok a) = pure a
  listed wrap (err e) = fail (wrap e)

  -- What runs within the transaction.
  unfoldable pub persist_all : List (ContainerAllocation D) → Tx S E (Unit {0})
  persist_all rows = do
    let profile = profile_of w.nodes
    cluster_id ← wrapped upserting_cluster (
        db.upsert_cluster (record {
          name = w.cluster_name;
          provider = profile.provider;
          region = profile.region;
          account = w.cluster_account;
          currency = w.currency;
        }))
    nodes ← listed listing_nodes w.nodes
    node_ids ← upsert_nodes cluster_id nodes []
    namespaces ← listed listing_namespaces w.namespaces
    namespace_ids ← upsert_namespaces cluster_id namespaces []
    resolved ← resolve_rows cluster_id rows (record {
      node_ids = node_ids;
      namespace_ids = namespace_ids;
      workload_ids = [];
      pod_ids = [];
    })
    insert_batch db resolved.0

  unfoldable pub write : List (ContainerAllocation D) → Tx S E (Unit {0})
  write [] = pure tt
  write (a ∷ rest) = in_tx db (persist_all (a ∷ rest))
