-- ===== src/Kube.antt =====
-- internal/kube/convert.go: Kubernetes objects into the types of internal/domain. Of an object the fields
-- that are read are modelled; quantities, the controller among the owners, and the effective resources
-- of a pod are the Kubernetes libraries': parameters.
pub mod Attribution
mod Tests
use Prim.Native.String.{String}
use text.Mathlib.Text.{◌==◌ as str_eq}
use kubernetes_cost_analyzer.Common.{
  Bool, false, ◌||◌, ◌&&◌, Option, none, some, List, [], ◌∷◌, ◌++◌, map, length, if◌then◌else◌,
}
use kubernetes_cost_analyzer.Common.Int.{ℤ, pos}
use kubernetes_cost_analyzer.Common.Maps.{Entries, lookup, insert}
use kubernetes_cost_analyzer.Clock.{Time}
use kubernetes_cost_analyzer.Domain.{
  Node, Namespace, ContainerKind, regular, sidecar, initial, Container, Workload, Pod,
}

-- `resource.Quantity`.
pub record Quantity (Q : Type 0) : Type 0 where
  pub zero_quantity : Q
  pub milli_value : Q → ℤ
  pub value : Q → ℤ

pub record OwnerReference : Type 0 where
  pub kind : String
  pub name : String

-- `O` is the type of the list of owners, `M` that of managed fields.
pub record ObjectMeta (O M : Type 0) : Type 0 where
  pub name : String
  pub namespace : String
  pub uid : String
  pub labels : Entries String
  pub annotations : Entries String
  pub creation_timestamp : Time
  pub owner_references : O
  pub managed_fields : List M

pub record KubeNode (O M Q : Type 0) : Type 0 where
  pub meta : ObjectMeta O M
  pub provider_id : String
  pub unschedulable : Bool
  pub kubelet_version : String
  pub capacity : Entries Q
  pub allocatable : Entries Q
  pub conditions : List (String × String)

pub record KubeNamespace (O M : Type 0) : Type 0 where
  pub meta : ObjectMeta O M
  pub phase : String

pub record KubeContainer (Q : Type 0) : Type 0 where
  pub name : String
  pub restart_policy : Option String
  pub requests : Entries Q
  pub limits : Entries Q

pub record KubePod (O M Q : Type 0) : Type 0 where
  pub meta : ObjectMeta O M
  pub node_name : String
  pub phase : String
  pub qos_class : String
  pub containers : List (KubeContainer Q)
  pub init_containers : List (KubeContainer Q)
  pub start_time : Option Time

-- `m[k]` of a map of strings.
abbrev pub label_at : Entries String → String → String
label_at labels k = elim (lookup k labels) [ none ↦ "" | some v ↦ v ]

abbrev label_instance_type : String
label_instance_type = "node.kubernetes.io/instance-type"

abbrev label_region : String
label_region = "topology.kubernetes.io/region"

abbrev label_zone : String
label_zone = "topology.kubernetes.io/zone"

abbrev label_capacity_type : String
label_capacity_type = "kca.io/capacity-type"

-- The first condition of the type `Ready`.
unfoldable pub is_ready : List (String × String) → Bool
is_ready [] = false
is_ready ((type, status) ∷ rest) =
    let later = is_ready rest in if str_eq type "Ready" then str_eq status "True" else later

-- The loop over the map, in an order that Go leaves open.
unfoldable pub copy_labels : Entries String → Entries String
copy_labels [] = []
copy_labels (entry ∷ rest) = insert entry.0 entry.1 (copy_labels rest)

unfoldable pub to_namespace : {O M : Type 0} → KubeNamespace O M → Namespace
to_namespace ns = record {
  name = ns.meta.name;
  team = label_at ns.meta.labels "team";
  cost_centre = label_at ns.meta.labels "cost-centre";
  environment = label_at ns.meta.labels "environment";
  labels = copy_labels ns.meta.labels;
  phase = ns.phase;
  created_at = ns.meta.creation_timestamp;
}

abbrev pub last_applied_annotation : String
last_applied_annotation = "kubectl.kubernetes.io/last-applied-configuration"

-- The loop that leaves out the last applied configuration.
unfoldable pub trimmed : Entries String → Entries String
trimmed [] = []
trimmed (entry ∷ rest) =
    let kept = trimmed rest in
    if str_eq entry.0 last_applied_annotation then kept else insert entry.0 entry.1 kept

-- `stripForCache` of an object; what is not an object passes through.
unfoldable pub strip_for_cache : {O M : Type 0} → Option (ObjectMeta O M) → Option (ObjectMeta O M)
strip_for_cache none = none
strip_for_cache (some meta) = some (record meta {
  managed_fields = [];
  annotations = elim (lookup last_applied_annotation meta.annotations) [
    | none ↦ meta.annotations
    | some v ↦ trimmed meta.annotations
  ];
})

-- `ownerResolver`; the function may be nil.
abbrev pub OwnerResolver : Type 0
OwnerResolver = Option (String → String → String → Option OwnerReference)

module _ {O M Q : Type 0} (controller_of : O → Option OwnerReference) where
  unfoldable pub resolve_workload : KubePod O M Q → OwnerResolver → Workload
  resolve_workload p resolve_owner = elim (controller_of p.meta.owner_references) [
    | none ↦ record { kind = ""; name = "" }
    | some ref ↦
        let immediate : Workload = record { kind = ref.kind; name = ref.name } in
        if str_eq ref.kind "ReplicaSet" || str_eq ref.kind "Job"
        then elim resolve_owner [
          | none ↦ immediate
          | some resolve ↦ elim (resolve p.meta.namespace ref.kind ref.name) [
            | none ↦ immediate
            | some grandparent ↦ record { kind = grandparent.kind; name = grandparent.name }
          ]
        ]
        else immediate
  ]

module _ {Q : Type 0} (q : Quantity Q) where
  -- A resource of a list; the zero quantity if it is missing.
  abbrev pub resource : Entries Q → String → Q
  resource list name = elim (lookup name list) [ none ↦ q.zero_quantity | some v ↦ v ]

  unfoldable pub to_container : KubeContainer Q → ContainerKind → Container
  to_container c kind = record {
    name = c.name;
    kind = kind;
    requests_cpu_millicores = q.milli_value (resource c.requests "cpu");
    requests_memory_bytes = q.value (resource c.requests "memory");
    limits_cpu_millicores = q.milli_value (resource c.limits "cpu");
    limits_memory_bytes = q.value (resource c.limits "memory");
  }

  -- The two loops.
  unfoldable pub regular_containers : List (KubeContainer Q) → List Container
  regular_containers [] = []
  regular_containers (c ∷ cs) = to_container c regular ∷ regular_containers cs

  unfoldable pub kind_of_init : KubeContainer Q → ContainerKind
  kind_of_init c = elim c.restart_policy [
    | none ↦ initial
    | some policy ↦ if str_eq policy "Always" then sidecar else initial
  ]

  unfoldable pub init_containers : List (KubeContainer Q) → List Container
  init_containers [] = []
  init_containers (c ∷ cs) = to_container c (kind_of_init c) ∷ init_containers cs

  module _ {O M : Type 0} where
    unfoldable pub to_node : KubeNode O M Q → Node
    to_node n = record {
      name = n.meta.name;
      instance_type = label_at n.meta.labels label_instance_type;
      region = label_at n.meta.labels label_region;
      zone = label_at n.meta.labels label_zone;
      capacity_type = label_at n.meta.labels label_capacity_type;
      provider_id = n.provider_id;
      capacity_cpu_millicores = q.milli_value (resource n.capacity "cpu");
      capacity_memory_bytes = q.value (resource n.capacity "memory");
      allocatable_cpu_millicores = q.milli_value (resource n.allocatable "cpu");
      allocatable_memory_bytes = q.value (resource n.allocatable "memory");
      ready = is_ready n.conditions;
      unschedulable = n.unschedulable;
      kubelet_version = n.kubelet_version;
      created_at = n.meta.creation_timestamp;
    }

    unfoldable pub to_containers : KubePod O M Q → List Container
    to_containers p = regular_containers p.containers ++ init_containers p.init_containers

    -- `PodRequests` and `PodLimits` of the Kubernetes libraries.
    module _ (controller_of : O → Option OwnerReference)
        (pod_requests pod_limits : KubePod O M Q → Entries Q) where
      unfoldable pub to_pod : KubePod O M Q → OwnerResolver → Pod
      to_pod p resolve_owner = record {
        uid = p.meta.uid;
        name = p.meta.name;
        namespace = p.meta.namespace;
        node_name = p.node_name;
        phase = p.phase;
        qos_class = p.qos_class;
        workload = resolve_workload controller_of p resolve_owner;
        requests_cpu_millicores = q.milli_value (resource (pod_requests p) "cpu");
        requests_memory_bytes = q.value (resource (pod_requests p) "memory");
        limits_cpu_millicores = q.milli_value (resource (pod_limits p) "cpu");
        limits_memory_bytes = q.value (resource (pod_limits p) "memory");
        container_count = pos (length p.containers);
        containers = to_containers p;
        labels = copy_labels p.meta.labels;
        started_at = p.start_time;
        created_at = p.meta.creation_timestamp;
      }
