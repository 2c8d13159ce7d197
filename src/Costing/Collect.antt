-- ===== src/Costing/Collect.antt =====
-- `Collect` of internal/costing/costing.go. The goroutines of the worker pool each compute one
-- namespace and then merge under the mutex, so a run is the order in which they merge.
use Prim.Native.String.{String}
use text.Mathlib.Text.{◌==◌ as str_eq}
use kubernetes_cost_analyzer.Common.{
  not, Option, none, some, List, [], ◌∷◌, ◌++◌, Result, ok, err, map_err, ◌>>=◌, if◌then◌else◌,
}
use kubernetes_cost_analyzer.Common.Int.{ℤ, pos}
use kubernetes_cost_analyzer.Common.Word.{add64}
use kubernetes_cost_analyzer.Common.Maps.{lookup, insert}
use kubernetes_cost_analyzer.Numeric.Decimal.{Decimal}
use kubernetes_cost_analyzer.Clock.{Duration}
use kubernetes_cost_analyzer.Domain.{
  Node, Namespace, Pod, Container, ContainerKey, Usage, billable_kind,
}
use kubernetes_cost_analyzer.Domain.Allocation.{ContainerAllocation, billable}
use kubernetes_cost_analyzer.Pricing.{Rates, source_string, cost}
use kubernetes_cost_analyzer.Costing.{Window, duration, valid, Engine}

pub record PricedNode (D : Type 0) : Type 0 where
  pub node : Node
  pub rates : Rates D

pub record NamespaceStats : Type 0 where
  pub pods_unscheduled : ℤ
  pub pods_on_unpriced_node : ℤ
  pub containers_skipped : ℤ

-- The errors of `Collect`, and those of one namespace.
pub data CollectError (E : Type 0) : Type 0 where
  invalid_window : Window → CollectError E
  listing_nodes : E → CollectError E
  listing_namespaces : E → CollectError E
  cancelled : E → CollectError E

pub data NamespaceError (E : Type 0) : Type 0 where
  listing_pods : E → NamespaceError E
  querying_usage : E → NamespaceError E

pub record Collected (D E : Type 0) : Type 0 where
  pub window : Window
  pub allocations : List (ContainerAllocation D)
  pub namespace_errors : List (String × NamespaceError E)
  pub nodes_priced : ℤ
  pub nodes_unpriced : ℤ
  pub pods_unscheduled : ℤ
  pub pods_on_unpriced_node : ℤ
  pub containers_skipped : ℤ

abbrev pub increment : ℤ → ℤ
increment n = add64 n (pos 1)

abbrev pub zero_usage : Usage
zero_usage = record {
  cpu_millicores = pos 0;
  memory_bytes = pos 0;
  cpu_millicores_max = pos 0;
  memory_bytes_max = pos 0;
}

-- A missing key of a Go map reads as the zero value.
abbrev pub usage_at : (ContainerKey → Option Usage) → ContainerKey → Usage
usage_at usage key = elim (usage key) [ none ↦ zero_usage | some u ↦ u ]

abbrev pub key_of : Pod → Container → ContainerKey
key_of pod c = record { namespace = pod.namespace; pod = pod.name; container = c.name }

module _ {D : Type 0} ⦃d : Decimal D⦄ where
  -- The row before its costs are set, then with the cost of what it bills.
  unfoldable pub unpriced_row :
      String → Window → Namespace → Pod → Container → Usage → PricedNode D → ContainerAllocation D
  unpriced_row cluster_name w ns pod c observed pn = record {
    window_start = w.start;
    window_end = w.end;
    pod_id = pos 0;
    container_name = c.name;
    cluster_name = cluster_name;
    namespace_name = pod.namespace;
    pod_name = pod.name;
    workload_kind = pod.workload.kind;
    workload_name = pod.workload.name;
    node_name = pod.node_name;
    team = ns.team;
    cost_centre = ns.cost_centre;
    environment = ns.environment;
    instance_type = pn.node.instance_type;
    capacity_type = pn.node.capacity_type;
    zone = pn.node.zone;
    qos_class = pod.qos_class;
    rate_source = source_string pn.rates.source;
    cpu_millicores_requested = c.requests_cpu_millicores;
    memory_bytes_requested = c.requests_memory_bytes;
    cpu_millicores_used = observed.cpu_millicores;
    memory_bytes_used = observed.memory_bytes;
    cpu_millicores_max = observed.cpu_millicores_max;
    memory_bytes_max = observed.memory_bytes_max;
    cpu_cost_per_core_hour = pn.rates.cpu_per_core_hour;
    memory_cost_per_gib_hour = pn.rates.memory_per_gib_hour;
    cpu_cost = d.nought;
    memory_cost = d.nought;
  }

  unfoldable pub allocation :
      String
      → Window
      → Duration
      → Namespace
      → Pod
      → Container
      → Usage
      → PricedNode D
      → ContainerAllocation D
  unfolding unpriced_row
  allocation cluster_name w length_of ns pod c observed pn =
      let alloc = unpriced_row cluster_name w ns pod c observed pn in
      let (cpu_billable, mem_billable) = billable alloc in
      let price = cost pn.rates cpu_billable mem_billable length_of in
      record alloc { cpu_cost = price.cpu; memory_cost = price.memory }

-- The state of the loops of `collectNamespace`: the rows so far and the counters.
abbrev pub Progress : Type 0 → Type 0
Progress D = List (ContainerAllocation D) × NamespaceStats

abbrev pub RateMap : Type 0 → Type 0
RateMap D = List (String × PricedNode D)

abbrev pub no_stats : NamespaceStats
no_stats = record {
  pods_unscheduled = pos 0;
  pods_on_unpriced_node = pos 0;
  containers_skipped = pos 0;
}

-- What one call of `collectNamespace` holds fixed: the engine's cluster, the window and its length,
-- the namespace, the usage that was observed and the rates of the nodes.
pub record Scope (D : Type 0) : Type 0 where
  pub cluster_name : String
  pub window : Window
  pub length_of : Duration
  pub namespace : Namespace
  pub usage : ContainerKey → Option Usage
  pub node_rates : RateMap D

module _ {D : Type 0} ⦃d : Decimal D⦄ where
  unfoldable pub row : Scope D → Pod → PricedNode D → Container → ContainerAllocation D
  row x pod pn c =
      allocation x.cluster_name x.window x.length_of x.namespace pod c
        (usage_at x.usage (key_of pod c)) pn

  -- The inner loop, over the containers of a pod.
  unfoldable pub visit_containers :
      Scope D → Pod → PricedNode D → List Container → Progress D → Progress D
  visit_containers x pod pn [] (out, stats) = (out, stats)
  visit_containers x pod pn (c ∷ cs) (out, stats) = visit_containers x pod pn cs (
      if not (billable_kind c.kind)
      then (out, record stats { containers_skipped = increment stats.containers_skipped })
      else (out ++ row x pod pn c ∷ [], stats))

  unfoldable pub visit_pod : Scope D → Pod → Progress D → Progress D
  visit_pod x pod (out, stats) =
      if str_eq pod.node_name ""
      then (out, record stats { pods_unscheduled = increment stats.pods_unscheduled })
      else elim (lookup pod.node_name x.node_rates) [
        | none ↦
            (out, record stats { pods_on_unpriced_node = increment stats.pods_on_unpriced_node })
        | some pn ↦ visit_containers x pod pn pod.containers (out, stats)
      ]

  unfoldable pub visit_pods : Scope D → List Pod → Progress D → Progress D
  visit_pods x [] progress = progress
  visit_pods x (pod ∷ pods) progress = visit_pods x pods (visit_pod x pod progress)

module _ {D E : Type 0} where
  abbrev pub scope :
      Engine D E → Window → RateMap D → Namespace → (ContainerKey → Option Usage) → Scope D
  scope e w node_rates ns usage = record {
    cluster_name = e.cluster_name;
    window = w;
    length_of = duration w;
    namespace = ns;
    usage = usage;
    node_rates = node_rates;
  }

module _ {D E : Type 0} where
  -- What a goroutine does under the mutex with the outcome of its namespace.
  unfoldable pub merge :
      Collected D E → Namespace → Result (NamespaceError E) (Progress D) → Collected D E
  merge r ns (err e) = record r { namespace_errors = insert ns.name e r.namespace_errors }
  merge r ns (ok (rows, stats)) = record r {
    allocations = r.allocations ++ rows;
    pods_unscheduled = add64 r.pods_unscheduled stats.pods_unscheduled;
    pods_on_unpriced_node = add64 r.pods_on_unpriced_node stats.pods_on_unpriced_node;
    containers_skipped = add64 r.containers_skipped stats.containers_skipped;
  }

  abbrev pub empty_result : Window → ℤ → ℤ → Collected D E
  empty_result w priced unpriced = record {
    window = w;
    allocations = [];
    namespace_errors = [];
    nodes_priced = priced;
    nodes_unpriced = unpriced;
    pods_unscheduled = pos 0;
    pods_on_unpriced_node = pos 0;
    containers_skipped = pos 0;
  }

module _ {D E : Type 0} ⦃d : Decimal D⦄ where
  -- No query for a namespace without pods.
  unfoldable pub collect_pods :
      Engine D E
      → Window
      → RateMap D
      → Namespace
      → List Pod
      → Result (NamespaceError E) (Progress D)
  collect_pods e w node_rates ns [] = ok ([], no_stats)
  collect_pods e w node_rates ns (pod ∷ pods) = do
    usage ← map_err querying_usage (e.sources.container_usage ns.name w.start w.end)
    ok (visit_pods (scope e w node_rates ns usage) (pod ∷ pods) ([], no_stats))

  unfoldable pub collect_namespace :
      Engine D E → Window → RateMap D → Namespace → Result (NamespaceError E) (Progress D)
  collect_namespace e w node_rates ns = do
    pods ← map_err listing_pods (e.sources.pods ns.name)
    collect_pods e w node_rates ns pods

  -- The loop over the nodes: the rates so far, and how many nodes were priced and not.
  unfoldable pub price_nodes : Engine D E → List Node → RateMap D × ℤ × ℤ → RateMap D × ℤ × ℤ
  price_nodes e [] progress = progress
  price_nodes e (n ∷ ns) (node_rates, priced, unpriced) =
      price_nodes e ns (elim (e.sources.rates_for n) [
        | err _ ↦ (node_rates, priced, increment unpriced)
        | ok rates ↦ (
          insert n.name (record { node = n; rates = rates }) node_rates,
          increment priced,
          unpriced,
        )
      ])

  unfoldable pub merge_all :
      Engine D E → Window → RateMap D → List Namespace → Collected D E → Collected D E
  merge_all e w node_rates [] r = r
  merge_all e w node_rates (ns ∷ rest) r =
      merge_all e w node_rates rest (merge r ns (collect_namespace e w node_rates ns))

  -- `schedule` is the order in which the goroutines of the namespaces merge, and `ctx_err` the error of
  -- the context when all are done.
  unfoldable pub collect :
      (List Namespace → List Namespace)
      → Option E
      → Engine D E
      → Window
      → Result (CollectError E) (Collected D E)
  collect schedule ctx_err e w = if not (valid w) then err (invalid_window w) else do
    nodes ← map_err listing_nodes e.sources.nodes
    namespaces ← map_err listing_namespaces e.sources.namespaces
    let (node_rates, priced, unpriced) = price_nodes e nodes ([], pos 0, pos 0)
    let result = merge_all e w node_rates (schedule namespaces) (empty_result w priced unpriced)
    elim ctx_err [ none ↦ ok result | some reason ↦ err (cancelled reason) ]
