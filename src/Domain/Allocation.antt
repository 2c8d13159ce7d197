-- ===== src/Domain/Allocation.antt =====
-- internal/domain/allocation.go: one fact row, what it bills, and its validation.
use Prim.Native.String.{String}
use text.Mathlib.Text.{◌==◌ as str_eq}
use kubernetes_cost_analyzer.Common.{
  report_if, false, ◌||◌, List, [], ◌∷◌, ◌++◌, ◌≡◌, ◌↔◌, arith, if◌then◌else◌, not,
}
use kubernetes_cost_analyzer.Common.Int.{ℤ, pos, lt_ℤ, eq_ℤ, max_ℤ, ◌≤ℤ◌, ◌<ℤ◌}
use kubernetes_cost_analyzer.Numeric.Decimal.{Decimal, IsNonneg}
use kubernetes_cost_analyzer.Clock.{Time, is_zero, after}

pub record ContainerAllocation (D : Type 0) : Type 0 where
  pub window_start : Time
  pub window_end : Time
  pub pod_id : ℤ
  pub container_name : String
  pub cluster_name : String
  pub namespace_name : String
  pub pod_name : String
  pub workload_kind : String
  pub workload_name : String
  pub node_name : String
  pub team : String
  pub cost_centre : String
  pub environment : String
  pub instance_type : String
  pub capacity_type : String
  pub zone : String
  pub qos_class : String
  pub rate_source : String
  pub cpu_millicores_requested : ℤ
  pub memory_bytes_requested : ℤ
  pub cpu_millicores_used : ℤ
  pub memory_bytes_used : ℤ
  pub cpu_millicores_max : ℤ
  pub memory_bytes_max : ℤ
  pub cpu_cost_per_core_hour : D
  pub memory_cost_per_gib_hour : D
  pub cpu_cost : D
  pub memory_cost : D

-- What `Validate` reports, one constructor for each message.
pub data AllocationError : Type 0 where
  window_unset : AllocationError
  window_reversed : Time → Time → AllocationError
  pod_id_unset : AllocationError
  container_name_empty : AllocationError
  attribution_unset : AllocationError
  negative_amount : AllocationError
  negative_cost : AllocationError

module _ {D : Type 0} where
  unfoldable pub billable : ContainerAllocation D → ℤ × ℤ
  billable a = (
    max_ℤ a.cpu_millicores_requested a.cpu_millicores_used,
    max_ℤ a.memory_bytes_requested a.memory_bytes_used,
  )

module _ {D : Type 0} ⦃d : Decimal D⦄ where
  window_errors : ContainerAllocation D → List AllocationError
  window_errors a =
      if is_zero a.window_start || is_zero a.window_end
      then window_unset ∷ []
      else report_if (not (after a.window_end a.window_start))
          (window_reversed a.window_end a.window_start)

  unfoldable pub validate : ContainerAllocation D → List AllocationError
  unfolding window_errors
  validate a =
      window_errors a
      ++ report_if (eq_ℤ a.pod_id (pos 0)) pod_id_unset
      ++ report_if (str_eq a.container_name "") container_name_empty
      ++ report_if (str_eq a.cluster_name "" || str_eq a.namespace_name "") attribution_unset
      ++ report_if
          (lt_ℤ a.cpu_millicores_requested (pos 0)
            || lt_ℤ a.memory_bytes_requested (pos 0)
            || lt_ℤ a.cpu_millicores_used (pos 0)
            || lt_ℤ a.memory_bytes_used (pos 0))
          negative_amount
      ++ report_if (d.is_negative a.cpu_cost || d.is_negative a.memory_cost) negative_cost

  -- What the database's constraints and the reports rely on.
  pub record IsValid (a : ContainerAllocation D) : Type 0 where
    pub start_set : is_zero a.window_start ≡ false
    pub end_set : is_zero a.window_end ≡ false
    pub ordered : a.window_start <ℤ a.window_end
    pub pod_set : eq_ℤ a.pod_id (pos 0) ≡ false
    pub container_set : str_eq a.container_name "" ≡ false
    pub cluster_set : str_eq a.cluster_name "" ≡ false
    pub namespace_set : str_eq a.namespace_name "" ≡ false
    pub cpu_requested : pos 0 ≤ℤ a.cpu_millicores_requested
    pub memory_requested : pos 0 ≤ℤ a.memory_bytes_requested
    pub cpu_used : pos 0 ≤ℤ a.cpu_millicores_used
    pub memory_used : pos 0 ≤ℤ a.memory_bytes_used
    pub cpu_cost_nonneg : IsNonneg a.cpu_cost
    pub memory_cost_nonneg : IsNonneg a.memory_cost

  -- `Validate` returns no error exactly for the valid rows.
  pub validate_iff : (a : ContainerAllocation D) → (validate a ≡ []) ↔ IsValid a
  unfolding validate
  validate_iff a = (λ h. ground arith, λ v. ground arith)
