-- ===== src/Costing/Billing.antt =====
-- One fact row: the billing rule max(request, usage), and that the row passes its validation.
use Prim.Native.String.{String}
use text.Mathlib.Text.{◌==◌ as str_eq}
use kubernetes_cost_analyzer.Common.{◌≡◌, true, false, [], arith, ◌⊎◌}
use kubernetes_cost_analyzer.Common.Int.{ℤ, pos, ◌≤ℤ◌, max_ℤ, eq_ℤ}
use kubernetes_cost_analyzer.Numeric.Decimal.{Decimal, DecimalLaws, IsNonneg}
use kubernetes_cost_analyzer.Clock.{Duration}
use kubernetes_cost_analyzer.Domain.{Namespace, Pod, Container, Usage}
use kubernetes_cost_analyzer.Domain.Allocation.{
  ContainerAllocation, billable, validate, validate_iff,
}
use kubernetes_cost_analyzer.Pricing.{cost}
use kubernetes_cost_analyzer.Pricing.Costs.{cost-IsNonneg}
use kubernetes_cost_analyzer.Costing.{Window, valid}
use kubernetes_cost_analyzer.Costing.Collect.{PricedNode, allocation}

module _ {D : Type 0} ⦃d : Decimal D⦄ (cluster_name : String) (w : Window) (length_of : Duration)
    (ns : Namespace) (pod : Pod) (c : Container) (observed : Usage) (pn : PricedNode D) where
  abbrev the_row : ContainerAllocation D
  the_row = allocation cluster_name w length_of ns pod c observed pn

  -- A row bills at least what was reserved and at least what was used, and no more than the larger of
  -- the two, and its costs are the prices of exactly that.
  pub allocation_bills_max :
      let (cpu, memory) = billable the_row in
      (c.requests_cpu_millicores ≤ℤ cpu)
      × (observed.cpu_millicores ≤ℤ cpu)
      × (c.requests_memory_bytes ≤ℤ memory)
      × (observed.memory_bytes ≤ℤ memory)
      × ((cpu ≡ c.requests_cpu_millicores) ⊎ (cpu ≡ observed.cpu_millicores))
      × ((memory ≡ c.requests_memory_bytes) ⊎ (memory ≡ observed.memory_bytes))
      × (the_row.cpu_cost ≡ (cost pn.rates cpu memory length_of).cpu)
      × (the_row.memory_cost ≡ (cost pn.rates cpu memory length_of).memory)
  unfolding allocation billable
  allocation_bills_max = ground arith

  -- A row of a valid window, at rates that are not negative and amounts that are not negative, whose
  -- container, cluster and namespace have names that are not empty, passes `Validate` once its pod has an
  -- id other than zero.
  pub allocation_validates :
      DecimalLaws D
      → (id : ℤ) → valid w ≡ true
      → eq_ℤ id (pos 0) ≡ false
      → str_eq c.name "" ≡ false
      → str_eq cluster_name "" ≡ false
      → str_eq pod.namespace "" ≡ false
      → IsNonneg pn.rates.cpu_per_core_hour
      → IsNonneg pn.rates.memory_per_gib_hour
      → pos 0 ≤ℤ c.requests_cpu_millicores
      → pos 0 ≤ℤ c.requests_memory_bytes
      → pos 0 ≤ℤ observed.cpu_millicores
      → pos 0 ≤ℤ observed.memory_bytes
      → validate (record the_row { pod_id = id }) ≡ []
  unfolding allocation billable valid
  allocation_validates laws id window has_id named cluster namespace rc rm qc qm uc um =
      (validate_iff _).1 (
        ground (
          arith,
          cost-IsNonneg laws pn.rates (max_ℤ c.requests_cpu_millicores observed.cpu_millicores)
              (max_ℤ c.requests_memory_bytes observed.memory_bytes) length_of rc rm,
        ))
