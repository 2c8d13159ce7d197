-- ===== src/Recommend/Savings.antt =====
-- What the sizing rules promise of money: shrinking a request never loses any, raising it never claims
-- to save.
use kubernetes_cost_analyzer.Common.{◌-◌, ◌^◌, ◌⊎◌, subst, ◌≡◌, sym, some, arith}
use kubernetes_cost_analyzer.Common.Int.{ℤ, pos, negsuc, ◌≤ℤ◌, ◌<ℤ◌, ◌-ℤ◌}
use kubernetes_cost_analyzer.Common.Word.{sub64, wrap64}
use kubernetes_cost_analyzer.Numeric.Decimal.{Decimal, DecimalLaws, IsNonneg}
use kubernetes_cost_analyzer.Numeric.Float.{Float64, FromFloat}
use kubernetes_cost_analyzer.Pricing.{bytes_per_gib}
use kubernetes_cost_analyzer.Pricing.Costs.{share-IsNonneg}
use kubernetes_cost_analyzer.Recommend.{ContainerStats, Recommendation}
use kubernetes_cost_analyzer.Recommend.Engine.{Engine}
use kubernetes_cost_analyzer.Recommend.Arithmetic.{
  monthly_cost_of, proposed_cpu, proposed_memory, hours_per_month, change_summary,
}
use kubernetes_cost_analyzer.Recommend.Sizing.{
  cpu_over, mem_over, reduced_cpu, reduced_memory, right_size_saving, right_size,
}

-- A difference of two amounts in range does not wrap.
pub sub64_nonneg : (a b : ℤ) → pos 0 ≤ℤ b → b ≤ℤ a → a <ℤ pos (2 ^ 63) → pos 0 ≤ℤ sub64 a b
unfolding wrap64 ◌-ℤ◌
sub64_nonneg a b h k r = ground arith

from_int-IsNonneg :
    {D : Type 0} ⦃d : Decimal D⦄ (laws : DecimalLaws D) (a : ℤ)
    → pos 0 ≤ℤ a
    → IsNonneg (d.from_int a)
from_int-IsNonneg laws (pos n) h = laws.from_int_nonneg n
from_int-IsNonneg laws (negsuc n) h = absurd (omega arith)

module _ {D F : Type 0} ⦃d : Decimal D⦄ where
  -- A container as its rows are written: no negative amount, price or number of pods.
  pub record IsRecorded (s : ContainerStats D F) : Type 0 where
    pub cpu_counted : pos 0 ≤ℤ s.cpu_requested_millicores
    pub cpu_in_range : s.cpu_requested_millicores <ℤ pos (2 ^ 63)
    pub memory_counted : pos 0 ≤ℤ s.mem_requested_bytes
    pub memory_in_range : s.mem_requested_bytes <ℤ pos (2 ^ 63)
    pub pods_counted : pos 0 ≤ℤ s.replicas
    pub cpu_priced : IsNonneg s.cpu_cost_per_core_hour
    pub memory_priced : IsNonneg s.mem_cost_per_gib_hour

  module _ (laws : DecimalLaws D) where
    pub monthly_cost-IsNonneg :
        (s : ContainerStats D F) (cpu memory : ℤ)
        → IsRecorded s
        → pos 0 ≤ℤ cpu
        → pos 0 ≤ℤ memory
        → IsNonneg (d.mul (monthly_cost_of s cpu memory) (d.from_int s.replicas))
    unfolding monthly_cost_of
    monthly_cost-IsNonneg s cpu memory ok hc hm =
        let month = laws.from_int_nonneg hours_per_month in
        let c =
          laws.mul_nonneg _ _ (laws.mul_nonneg _ _ (share-IsNonneg laws cpu 999 18 hc) month)
            ok.cpu_priced in
        let m =
          laws.mul_nonneg _ _
            (laws.mul_nonneg _ _ (share-IsNonneg laws memory (bytes_per_gib - 1) 18 hm) month)
            ok.memory_priced in
        laws.mul_nonneg _ _ (laws.round_nonneg _ 4 (laws.add_nonneg _ _ c m))
          (from_int-IsNonneg laws s.replicas ok.pods_counted)

module _ {D F : Type 0} ⦃d : Decimal D⦄ ⦃f : Float64 F⦄ where
  reduced_cpu_bounds :
      (e : Engine F) (s : ContainerStats D F)
      → pos 0 ≤ℤ s.cpu_requested_millicores
      → (reduced_cpu e s ≤ℤ s.cpu_requested_millicores)
        × (pos 0 ≤ℤ reduced_cpu e s)
        × ((s.cpu_requested_millicores ≡ pos 0) ⊎ (pos 1 ≤ℤ reduced_cpu e s))
  unfolding reduced_cpu proposed_cpu
  reduced_cpu_bounds e s h = ground arith

  reduced_memory_bounds :
      (e : Engine F) (s : ContainerStats D F)
      → pos 0 ≤ℤ s.mem_requested_bytes
      → (reduced_memory e s ≤ℤ s.mem_requested_bytes)
        × (pos 0 ≤ℤ reduced_memory e s)
        × ((s.mem_requested_bytes ≡ pos 0) ⊎ (pos 1 ≤ℤ reduced_memory e s))
  unfolding reduced_memory proposed_memory
  reduced_memory_bounds e s h = ground arith

  right_size-some :
      ⦃v : FromFloat D F⦄ (e : Engine F) (s : ContainerStats D F) (r : Recommendation D F)
      → right_size e s ≡ some r
      → (r.proposed
          ≡ change_summary (cpu_over e s) (mem_over e s) (reduced_cpu e s) (reduced_memory e s))
        × (r.estimated_monthly_saving ≡ right_size_saving e s)
  unfolding right_size
  right_size-some e s r h = ground arith

  module _ (laws : DecimalLaws D) where
    right_size_saving-IsNonneg :
        (e : Engine F) (s : ContainerStats D F) → IsRecorded s → IsNonneg (right_size_saving e s)
    unfolding right_size_saving
    right_size_saving-IsNonneg e s ok =
        let (cpu_le, cpu_ge, _) = reduced_cpu_bounds e s ok.cpu_counted in
        let (mem_le, mem_ge, _) = reduced_memory_bounds e s ok.memory_counted in
        monthly_cost-IsNonneg laws s _ _ ok
          (sub64_nonneg s.cpu_requested_millicores (reduced_cpu e s) cpu_ge cpu_le ok.cpu_in_range)
          (sub64_nonneg s.mem_requested_bytes (reduced_memory e s) mem_ge mem_le ok.memory_in_range)

    -- A right-size finding on a recorded container proposes no request above the present one and turns
    -- no request into none, proposes exactly those figures, and its saving is not negative.
    pub right_size_saves :
        ⦃v : FromFloat D F⦄ (e : Engine F) (s : ContainerStats D F) (r : Recommendation D F)
        → IsRecorded s
        → right_size e s ≡ some r
        → (reduced_cpu e s ≤ℤ s.cpu_requested_millicores)
          × (reduced_memory e s ≤ℤ s.mem_requested_bytes)
          × ((s.cpu_requested_millicores ≡ pos 0) ⊎ (pos 1 ≤ℤ reduced_cpu e s))
          × ((s.mem_requested_bytes ≡ pos 0) ⊎ (pos 1 ≤ℤ reduced_memory e s))
          × (r.proposed
              ≡ change_summary (cpu_over e s) (mem_over e s) (reduced_cpu e s) (reduced_memory e s))
          × IsNonneg r.estimated_monthly_saving
    right_size_saves e s r ok h =
        let (cpu_le, _, cpu_left) = reduced_cpu_bounds e s ok.cpu_counted in
        let (mem_le, _, mem_left) = reduced_memory_bounds e s ok.memory_counted in
        let (proposed, saving) = right_size-some e s r h in
        (
          cpu_le,
          mem_le,
          cpu_left,
          mem_left,
          proposed,
          subst IsNonneg (sym saving) (right_size_saving-IsNonneg e s ok),
        )
