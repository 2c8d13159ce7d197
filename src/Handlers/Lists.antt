-- ===== src/Handlers/Lists.antt =====
-- internal/httpapi/inventory.go, the listing of clusters.go, and health.go: nodes with their prices,
-- namespaces, pods, clusters and readiness. No answer here is cacheable.
use Prim.Native.String.{String}
use text.Mathlib.Text.{◌==◌ as str_eq}
use kubernetes_cost_analyzer.Common.{
  ℕ, Bool, true, false, not, ◌&&◌, List, [], ◌∷◌, length, leb, ltb, Result, ok, err, if◌then◌else◌,
}
use kubernetes_cost_analyzer.Numeric.Decimal.{Decimal}
use kubernetes_cost_analyzer.Numeric.Float.{Float64, FromFloat}
use kubernetes_cost_analyzer.Domain.{Node, Namespace, Pod}
use kubernetes_cost_analyzer.Pricing.{Rates, Source}
use kubernetes_cost_analyzer.Pricing.Provider.{CatalogueProvider, PriceError, rates_for}
use kubernetes_cost_analyzer.Pages.Fetching.{take}
use kubernetes_cost_analyzer.Prom.{is_dns1123_label}
use kubernetes_cost_analyzer.Health.{Aggregator, Report, Status, status_up, status_down, run}
use kubernetes_cost_analyzer.Handlers.{
  Response, sent, says, write_error, queried, ClusterRow, distinct_currencies,
}

pub record ListResponse (A : Type 0) : Type 0 where
  pub items : List A
  pub count : ℕ
  pub total : ℕ
  pub truncated : Bool

abbrev pub max_inventory_items : ℕ
max_inventory_items = 500

unfoldable pub new_list_response : {A : Type 0} → List A → ListResponse A
new_list_response items =
    if ltb max_inventory_items (length items)
    then record {
      items = take max_inventory_items items;
      count = length (take max_inventory_items items);
      total = length items;
      truncated = true;
    }
    else record { items = items; count = length items; total = length items; truncated = false }

-- What is said of a node's price: the rates, with their texts, or the error.
pub data NodeRates (F : Type 0) : Type 0 where
  priced :
      (currency node_hourly cpu_per_core_hour memory_per_gib_hour : String) (source : Source)
      → NodeRates F
  unpriced : PriceError F → NodeRates F

pub record ListedNode (F : Type 0) : Type 0 where
  pub node : Node
  pub pricing : NodeRates F

module _ {D F : Type 0} ⦃d : Decimal D⦄ ⦃f : Float64 F⦄ ⦃v : FromFloat D F⦄ where
  abbrev pub node_rates : Result (PriceError F) (Rates D) → NodeRates F
  node_rates (err e) = unpriced e
  node_rates (ok r) =
      priced r.currency (d.to_string r.node_hourly) (d.to_string r.cpu_per_core_hour)
        (d.to_string r.memory_per_gib_hour) r.source

  -- The loop over the nodes, with the provider, which counts its fallbacks.
  unfoldable pub list_nodes :
      CatalogueProvider D F → List Node → List (ListedNode F) × CatalogueProvider D F
  list_nodes p [] = ([], p)
  list_nodes p (n ∷ ns) =
      let (rates, p') = rates_for p n in
      let (rest, p'') = list_nodes p' ns in
      (record { node = n; pricing = node_rates rates } ∷ rest, p'')

  unfoldable pub handle_list_nodes :
      {E : Type 0}
      → Result E (List Node)
      → CatalogueProvider D F
      → Response (ListResponse (ListedNode F)) × CatalogueProvider D F
  handle_list_nodes (err e) p = (write_error 500 "internal_error" (says "could not list nodes"), p)
  handle_list_nodes (ok nodes) p =
      let (listed, p') = list_nodes p nodes in (sent 200 false (new_list_response listed), p')

unfoldable pub handle_list_namespaces :
    {E : Type 0} → Result E (List Namespace) → Response (ListResponse Namespace)
handle_list_namespaces namespaces =
    queried namespaces "could not list namespaces"
      (λ items. sent 200 false (new_list_response items))

-- `namespace` is the parameter of the query, "" where it is missing.
unfoldable pub handle_list_pods :
    {E : Type 0} → (String → Result E (List Pod)) → String → Response (ListResponse Pod)
handle_list_pods pods namespace =
    if not (str_eq namespace "") && not (is_dns1123_label namespace)
    then write_error 400 "invalid_parameter" (says "namespace must be a valid DNS-1123 label")
    else queried (pods namespace) "could not list pods"
        (λ items. sent 200 false (new_list_response items))

pub record ClusterListResponse : Type 0 where
  pub items : List ClusterRow
  pub count : ℕ
  pub currencies : List String
  pub aggregatable : Bool

unfoldable pub handle_list_clusters :
    {E : Type 0} → Result E (List ClusterRow) → Response ClusterListResponse
handle_list_clusters fleet = queried fleet "could not list clusters" (λ rows.
    sent 200 false (record {
      items = rows;
      count = length rows;
      currencies = distinct_currencies rows;
      aggregatable = leb (length (distinct_currencies rows)) 1;
    }))

unfoldable pub ready_status : Status → ℕ
ready_status status_up = 200
ready_status status_down = 503

-- The checks run in the order of writes `order`.
unfoldable pub handle_ready : List ℕ → Aggregator → Response Report
handle_ready order readiness =
    let report = run order readiness in sent (ready_status report.status) false report
