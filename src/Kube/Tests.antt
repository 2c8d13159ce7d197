-- ===== src/Kube/Tests.antt =====
-- A pod of a Deployment with a proxy and a migration, and the theorems at it.
use Prim.Native.String.{String}
use kubernetes_cost_analyzer.Common.{ℕ, ◌≡◌, refl, not, Option, none, some, [], ◌∷◌, ◌++◌, map}
use kubernetes_cost_analyzer.Common.Int.{pos}
use kubernetes_cost_analyzer.Common.Maps.{Entries, insert}
use kubernetes_cost_analyzer.Common.Sort.{keep}
use kubernetes_cost_analyzer.Domain.{Pod, regular, sidecar, initial}
use kubernetes_cost_analyzer.Kube.{
  Quantity, OwnerReference, OwnerResolver, ObjectMeta, KubeContainer, KubePod, to_container,
  resolve_workload, to_pod, strip_for_cache, trimmed,
}
use kubernetes_cost_analyzer.Kube.Attribution.{is_always, is_billed, is_free, to_pod-bills}

-- A quantity in thousandths.
abbrev milli : Quantity ℕ
milli = record { zero_quantity = 0; milli_value = λ n. pos n; value = λ n. pos n }

abbrev container : String → Option String → KubeContainer ℕ
container name policy = record {
  name = name;
  restart_policy = policy;
  requests = ("cpu", 500) ∷ [];
  limits = [];
}

abbrev meta : ObjectMeta (Option OwnerReference) String
meta = record {
  name = "web-55758c88bb-1";
  namespace = "shop";
  uid = "u1";
  labels = ("app", "web") ∷ [];
  annotations = ("note", "x") ∷ ("kubectl.kubernetes.io/last-applied-configuration", "{}") ∷ [];
  creation_timestamp = pos 1;
  owner_references = some (record { kind = "ReplicaSet"; name = "web-55758c88bb" });
  managed_fields = "kubectl" ∷ [];
}

abbrev web : KubePod (Option OwnerReference) String ℕ
web = record {
  meta = meta;
  node_name = "a";
  phase = "Running";
  qos_class = "Burstable";
  containers = container "app" none ∷ [];
  init_containers = container "migrate" none ∷ container "proxy" (some "Always") ∷ [];
  start_time = none;
}

abbrev replica_sets : OwnerResolver
replica_sets = some (λ namespace kind name. some (record { kind = "Deployment"; name = "web" }))

abbrev no_resources : KubePod (Option OwnerReference) String ℕ → Entries ℕ
no_resources p = []

abbrev converted : Pod
converted = to_pod milli (λ o. o) no_resources no_resources web replica_sets

deployment : converted.workload ≡ record { kind = "Deployment"; name = "web" }
unfolding to_pod resolve_workload
deployment = refl

-- Where the ReplicaSet is gone, the pod is its own.
gone : resolve_workload (λ o. o) web none ≡ record { kind = "ReplicaSet"; name = "web-55758c88bb" }
unfolding resolve_workload
gone = refl

abbrev kept : Option (ObjectMeta (Option OwnerReference) String)
kept = some (record meta { managed_fields = []; annotations = ("note", "x") ∷ [] })

stripped : strip_for_cache (some meta) ≡ kept
unfolding strip_for_cache trimmed insert
stripped = refl

to_pod-bills_example :
    (keep is_billed converted.containers
      ≡ map (λ c. to_container milli c regular) web.containers
        ++ map (λ c. to_container milli c sidecar) (keep is_always web.init_containers))
    × (keep is_free converted.containers
        ≡ map
            (λ c. to_container milli c initial)
            (keep (λ c. not (is_always c)) web.init_containers))
to_pod-bills_example = to_pod-bills milli (λ o. o) no_resources no_resources web replica_sets
