-- ===== src/Recommend/Replicas.antt =====
-- internal/recommend/rules.go: the rule on the number of replicas.
use kubernetes_cost_analyzer.Common.{not, if◌then◌else◌, Option, none, some}
use kubernetes_cost_analyzer.Common.Int.{ℤ, pos, lt_ℤ, le_ℤ, eq_ℤ, pos_part}
use kubernetes_cost_analyzer.Common.Word.{add64, sub64, mul64, div64}
use kubernetes_cost_analyzer.Common.Text.{sprintf, done, str, int, float}
use kubernetes_cost_analyzer.Numeric.Decimal.{Decimal}
use kubernetes_cost_analyzer.Numeric.Float.{Float64}
use kubernetes_cost_analyzer.Clock.{hours}
use kubernetes_cost_analyzer.Recommend.{
  ContainerStats, duration, Recommendation, warning, kind_over_replicated,
}
use kubernetes_cost_analyzer.Recommend.Engine.{Engine, base}
use kubernetes_cost_analyzer.Recommend.Arithmetic.{ratio, monthly_cost_of, replica_count_is_tunable}
use kubernetes_cost_analyzer.Recommend.Sizing.{lacks_peaks}

module _ {D F : Type 0} ⦃f : Float64 F⦄ where
  unfoldable pub per_replica_capacity : Engine F → ContainerStats D F → ℤ
  per_replica_capacity e s = f.to_int (
      f.fmul
        (f.fmul (f.of_int s.cpu_requested_millicores) e.thresholds.over_replication_max_utilisation)
        (f.lit 2 0))

  -- The replicas that would carry the whole load, rounded up; the capacity is positive.
  unfoldable pub needed_replicas : Engine F → ContainerStats D F → ℤ
  needed_replicas e s =
      let total_p95 = mul64 s.cpu_p95_millicores s.replicas in
      let capacity = per_replica_capacity e s in
      div64 (sub64 (add64 total_p95 capacity) (pos 1)) (pos_part capacity)

  unfoldable pub proposed_replicas : Engine F → ContainerStats D F → ℤ
  proposed_replicas e s =
      let floor = e.thresholds.min_replicas_to_keep in
      if lt_ℤ (pos 0) (per_replica_capacity e s)
      then if lt_ℤ floor (needed_replicas e s) then needed_replicas e s else floor
      else floor

module _ {D F : Type 0} ⦃d : Decimal D⦄ ⦃f : Float64 F⦄ where
  unfoldable pub over_replicated : Engine F → ContainerStats D F → Option (Recommendation D F)
  over_replicated e s =
      let t = e.thresholds in
      let utilisation = ratio s.cpu_p95_millicores s.cpu_requested_millicores in
      let n = proposed_replicas e s in
      if not (replica_count_is_tunable s.workload_kind)
      then none
      else if le_ℤ s.replicas t.min_replicas_to_keep
      then none
      else if eq_ℤ s.cpu_requested_millicores (pos 0)
      then none
      else if lacks_peaks s
      then none
      else if f.flt t.over_replication_max_utilisation utilisation
      then none
      else if le_ℤ s.replicas n
      then none
      else some (record (base s kind_over_replicated warning) {
        container = "";
        summary =
            sprintf "%s/%s runs %d replicas that are each lightly used"
              (str s.workload_kind (str s.workload_name (int s.replicas done)));
        current = sprintf "%d replicas" (int s.replicas done);
        proposed = sprintf "%d replicas" (int n done);
        rationale =
            sprintf
              "Each of the %d replicas reached a p95 peak of only %dm against a %dm request (%.0f%% utilised) over %.1f hours. The per-pod sizing is reasonable -- no per-container rule flags it -- so the waste is only visible at the replica count, which is why this is reported separately. CONFIRM BEFORE SCALING DOWN. The replica count may encode requirements this analysis cannot see: an availability target, anti-affinity spread across zones, headroom for a traffic spike outside the observed window, or a PodDisruptionBudget a scale-down would violate. The proposal never goes below %d replicas, because a single replica has no availability during a rolling update or a node drain."
              (int s.replicas (
                int s.cpu_p95_millicores (
                  int s.cpu_requested_millicores (
                    float (f.fmul utilisation (f.lit 100 0))
                      (float (hours (duration s)) (int t.min_replicas_to_keep done))))));
        estimated_monthly_saving =
            d.mul (monthly_cost_of s s.cpu_requested_millicores s.mem_requested_bytes)
              (d.from_int (sub64 s.replicas n));
      })
