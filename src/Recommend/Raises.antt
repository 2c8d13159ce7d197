-- ===== src/Recommend/Raises.antt =====
-- What the rule on under-requested containers promises: the request goes up to cover what was used, and
-- that is never presented as a saving.
use kubernetes_cost_analyzer.Common.{◌-◌, ◌^◌, ◌≡◌, ◌↔◌, ◌⊎◌, true, false, some, arith}
use kubernetes_cost_analyzer.Common.Int.{ℤ, pos, quot, ◌*ℤ◌, ◌≤ℤ◌, ◌<ℤ◌}
use kubernetes_cost_analyzer.Common.Word.{wrap64-IsInt64, add64}
use kubernetes_cost_analyzer.Numeric.Decimal.{Decimal, DecimalLaws, IsNonneg}
use kubernetes_cost_analyzer.Numeric.Float.{Float64, FloatLaws}
use kubernetes_cost_analyzer.Recommend.{ContainerStats, Recommendation, critical}
use kubernetes_cost_analyzer.Recommend.Engine.{Engine}
use kubernetes_cost_analyzer.Recommend.Arithmetic.{
  proposed_cpu, proposed_memory, round_up_mib, mib, change_summary,
}
use kubernetes_cost_analyzer.Recommend.Sizing.{
  raised_cpu, raised_memory, extra, under_requested, cpu_under, mem_under,
}
use kubernetes_cost_analyzer.Recommend.Proposals.{
  IsMeasured, proposed_cpu_margin, proposed_memory_margin,
}
use kubernetes_cost_analyzer.Recommend.Savings.{IsRecorded, monthly_cost-IsNonneg, sub64_nonneg}

round_up_mib_fits : (v : ℤ) → round_up_mib v <ℤ pos (2 ^ 63)
unfolding round_up_mib
round_up_mib_fits v =
    omega (arith, (wrap64-IsInt64 (quot (add64 v (pos (mib - 1))) mib *ℤ pos mib)).below)

module _ {D F : Type 0} ⦃f : Float64 F⦄ where
  proposed_cpu_fits :
      (e : Engine F) (s : ContainerStats D F)
      → IsMeasured e s.cpu_p95_millicores
      → proposed_cpu e s <ℤ pos (2 ^ 63)
  unfolding proposed_cpu
  proposed_cpu_fits e s m = ground (arith, m.fits)

  proposed_memory_fits :
      (e : Engine F) (s : ContainerStats D F) → proposed_memory e s <ℤ pos (2 ^ 63)
  unfolding proposed_memory
  proposed_memory_fits e s =
      let v = f.to_int (f.ceil (f.fmul (f.of_int s.mem_p95_bytes) e.thresholds.headroom_factor)) in
      ground (arith, round_up_mib_fits v)

module _ {D F : Type 0} ⦃d : Decimal D⦄ ⦃f : Float64 F⦄ where
  raised_cpu_bounds :
      (laws : FloatLaws F) (e : Engine F) (s : ContainerStats D F)
      → IsRecorded s
      → IsMeasured e s.cpu_p95_millicores
      → (s.cpu_requested_millicores ≤ℤ raised_cpu e s)
        × (raised_cpu e s <ℤ pos (2 ^ 63))
        × ((cpu_under s ≡ false) ⊎ (s.cpu_p95_millicores ≤ℤ raised_cpu e s))
  unfolding raised_cpu
  raised_cpu_bounds laws e s ok m =
      ground (arith, ok.cpu_in_range, proposed_cpu_margin laws e s m, proposed_cpu_fits e s m)

  raised_memory_bounds :
      (laws : FloatLaws F) (e : Engine F) (s : ContainerStats D F)
      → IsRecorded s
      → IsMeasured e s.mem_p95_bytes
      → (s.mem_requested_bytes ≤ℤ raised_memory e s)
        × (raised_memory e s <ℤ pos (2 ^ 63))
        × ((mem_under s ≡ false) ⊎ (s.mem_p95_bytes ≤ℤ raised_memory e s))
  unfolding raised_memory
  raised_memory_bounds laws e s ok m =
      let (_, above, _) = proposed_memory_margin laws e s m in
      ground (arith, ok.memory_in_range, above, proposed_memory_fits e s)

  under_requested-some :
      (e : Engine F) (s : ContainerStats D F) (r : Recommendation D F)
      → under_requested e s ≡ some r
      → (r.estimated_monthly_saving ≡ d.neg (extra e s))
        × (r.proposed
            ≡ change_summary (cpu_under s) (mem_under s) (raised_cpu e s) (raised_memory e s))
        × (r.current
            ≡ change_summary
                (cpu_under s)
                (mem_under s)
                s.cpu_requested_millicores
                s.mem_requested_bytes)
        × (r.severity ≡ critical ↔ mem_under s ≡ true)
  unfolding under_requested
  under_requested-some e s r h = ground arith

  module _ (laws : DecimalLaws D) (float_laws : FloatLaws F) where
    extra-IsNonneg :
        (e : Engine F) (s : ContainerStats D F)
        → IsRecorded s
        → IsMeasured e s.cpu_p95_millicores
        → IsMeasured e s.mem_p95_bytes
        → IsNonneg (extra e s)
    unfolding extra
    extra-IsNonneg e s ok cpu mem =
        let (cpu_le, cpu_fits, _) = raised_cpu_bounds float_laws e s ok cpu in
        let (mem_le, mem_fits, _) = raised_memory_bounds float_laws e s ok mem in
        monthly_cost-IsNonneg laws s _ _ ok
          (sub64_nonneg (raised_cpu e s) s.cpu_requested_millicores ok.cpu_counted cpu_le cpu_fits)
          (sub64_nonneg (raised_memory e s) s.mem_requested_bytes ok.memory_counted mem_le mem_fits)

    -- An under-requested finding on a recorded container, whose 95th percentiles times a headroom of at
    -- least 1 stay in range, names the present requests and proposes figures that lower no request and
    -- cover the 95th percentile of what it raises; its saving is never positive; and it is critical exactly when memory is under-requested.
    pub under_requested_costs :
        (e : Engine F) (s : ContainerStats D F) (r : Recommendation D F)
        → IsRecorded s
        → IsMeasured e s.cpu_p95_millicores
        → IsMeasured e s.mem_p95_bytes
        → under_requested e s ≡ some r
        → (s.cpu_requested_millicores ≤ℤ raised_cpu e s)
          × (s.mem_requested_bytes ≤ℤ raised_memory e s)
          × ((cpu_under s ≡ false) ⊎ (s.cpu_p95_millicores ≤ℤ raised_cpu e s))
          × ((mem_under s ≡ false) ⊎ (s.mem_p95_bytes ≤ℤ raised_memory e s))
          × (r.proposed
              ≡ change_summary (cpu_under s) (mem_under s) (raised_cpu e s) (raised_memory e s))
          × (r.current
              ≡ change_summary
                  (cpu_under s)
                  (mem_under s)
                  s.cpu_requested_millicores
                  s.mem_requested_bytes)
          × (d.is_positive r.estimated_monthly_saving ≡ false)
          × (r.severity ≡ critical ↔ mem_under s ≡ true)
    under_requested_costs e s r ok cpu mem h =
        let (cpu_le, _, cpu_covers) = raised_cpu_bounds float_laws e s ok cpu in
        let (mem_le, _, mem_covers) = raised_memory_bounds float_laws e s ok mem in
        let (saving, proposed, current, severity) = under_requested-some e s r h in
        (
          cpu_le,
          mem_le,
          cpu_covers,
          mem_covers,
          proposed,
          current,
          rw saving (laws.neg_not_positive _ (extra-IsNonneg e s ok cpu mem)),
          severity,
        )
