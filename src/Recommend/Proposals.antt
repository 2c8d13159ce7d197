-- ===== src/Recommend/Proposals.antt =====
-- What the proposed requests promise: a margin over what was observed, and a floor.
use kubernetes_cost_analyzer.Common.{
  ℕ, zero, suc, ◌*◌, ◌/◌, ◌^◌, ◌≤◌, ◌<◌, ◌≡◌, refl, ap, subst, true, ◌⊎◌, if◌then◌else◌, ◌-◌, inl,
  inr, arith, Bool-cases,
}
use kubernetes_cost_analyzer.Common.Int.{ℤ, pos, negsuc, ◌≤ℤ◌, lt_ℤ, ◌+ℤ◌, ◌*ℤ◌, quot}
use kubernetes_cost_analyzer.Common.Word.{wrap64, add64}
use kubernetes_cost_analyzer.Numeric.Float.{Float64, FloatLaws}
use kubernetes_cost_analyzer.Recommend.{ContainerStats}
use kubernetes_cost_analyzer.Recommend.Engine.{Engine}
use kubernetes_cost_analyzer.Recommend.Arithmetic.{proposed_cpu, proposed_memory, round_up_mib, mib}

wrap64_multiple : (a : ℤ) (m : ℕ) → wrap64 (a *ℤ pos mib) ≡ pos m → m ≡ m / mib * mib
unfolding wrap64 ◌*ℤ◌
wrap64_multiple (pos n) m e = ground arith
wrap64_multiple (negsuc n) m e = ground arith

round_up_mib_multiple : (v : ℤ) (m : ℕ) → round_up_mib v ≡ pos m → m ≡ m / mib * mib
unfolding round_up_mib
round_up_mib_multiple v m e = wrap64_multiple (quot (add64 v (pos (mib - 1))) mib) m e

round_up_mib_ge : (m : ℕ) → m ≤ 2 ^ 62 → pos m ≤ℤ round_up_mib (pos m)
unfolding round_up_mib wrap64 ◌+ℤ◌ ◌*ℤ◌ quot
round_up_mib_ge m h = ground arith

-- A whole number of MiB, or the floor of 16.
floor_multiple :
    (w : ℤ)
    → ((m : ℕ) → w ≡ pos m → m ≡ m / mib * mib)
    → (n : ℕ) × ((if lt_ℤ w (pos (16 * mib)) then pos (16 * mib) else w) ≡ pos (n * mib))
floor_multiple (negsuc n) _ = (16, ground arith)
floor_multiple (pos m) whole = elim (Bool-cases (lt_ℤ (pos m) (pos (16 * mib)))) [
  | inl e ↦ (16, rw e refl)
  | inr e ↦ (m / mib, rw e (ap pos (whole m refl)))
]

floor_bounds :
    (w p : ℤ)
    → (p ≤ℤ pos 0) ⊎ (p ≤ℤ w)
    → let r = if lt_ℤ w (pos (16 * mib)) then pos (16 * mib) else w in
      (pos (16 * mib) ≤ℤ r) × (p ≤ℤ r)
floor_bounds w p h = ground arith

round_up_kept :
    (v p : ℤ) → v ≤ℤ pos (2 ^ 62) → (p ≡ pos 0) ⊎ (p ≤ℤ v) → (p ≤ℤ pos 0) ⊎ (p ≤ℤ round_up_mib v)
round_up_kept v p fits (inl z) = inl (ground arith)
round_up_kept (negsuc n) p fits (inr h) = inl (omega arith)
round_up_kept (pos m) p fits (inr h) = inr (omega (arith, round_up_mib_ge m (omega arith)))

module _ {F : Type 0} ⦃f : Float64 F⦄ where
  -- A measured quantity times the headroom, rounded up.
  abbrev pub with_headroom : Engine F → ℤ → F
  with_headroom e p95 = f.ceil (f.fmul (f.of_int p95) e.thresholds.headroom_factor)

  -- A quantity that a float holds exactly, and whose proposal stays far from the int64 range's end,
  -- under a headroom that is at least 1.
  pub record IsMeasured (e : Engine F) (p95 : ℤ) : Type 0 where
    pub amount : ℕ
    pub is_amount : p95 ≡ pos amount
    pub exact : amount < 2 ^ 53
    pub headroom : f.fle (f.lit 1 0) e.thresholds.headroom_factor ≡ true
    pub below : f.flt (with_headroom e p95) (f.lit (2 ^ 63) 0) ≡ true
    pub fits : f.to_int (with_headroom e p95) ≤ℤ pos (2 ^ 62)

  module _ (laws : FloatLaws F) where
    margin_of :
        (e : Engine F) (n : ℕ)
        → n < 2 ^ 53
        → f.fle (f.lit 1 0) e.thresholds.headroom_factor ≡ true
        → f.flt (with_headroom e (pos n)) (f.lit (2 ^ 63) 0) ≡ true
        → (n ≡ 0) ⊎ (pos n ≤ℤ f.to_int (with_headroom e (pos n)))
    margin_of e zero _ _ _ = inl refl
    margin_of e (suc n) exact headroom below = inr (
        laws.to_int_ge (suc n) _ exact
          (laws.ceil_ge _ _ (laws.mul_ge _ _ (laws.of_int_ge_one n) headroom)) below)

    pub margin_kept :
        (e : Engine F) (p95 : ℤ)
        → IsMeasured e p95
        → (p95 ≡ pos 0) ⊎ (p95 ≤ℤ f.to_int (with_headroom e p95))
    margin_kept e p95 m =
        let below =
          subst (λ a. f.flt (with_headroom e a) (f.lit (2 ^ 63) 0) ≡ true) m.is_amount m.below in
        let kept = margin_of e m.amount m.exact m.headroom below in
        rw m.is_amount (elim kept [ inl z ↦ inl (ap pos z) | inr h ↦ inr h ])

    -- A proposed CPU request is at least 1 millicore, and not below the 95th percentile it is made
    -- from, where the headroom is at least 1 and the product stays in range.
    pub proposed_cpu_margin :
        {D : Type 0} (e : Engine F) (s : ContainerStats D F)
        → IsMeasured e s.cpu_p95_millicores
        → (pos 1 ≤ℤ proposed_cpu e s) × (s.cpu_p95_millicores ≤ℤ proposed_cpu e s)
    unfolding proposed_cpu
    proposed_cpu_margin e s m = ground (arith, margin_kept e s.cpu_p95_millicores m)

    -- A proposed memory request is at least 16 MiB, a whole number of MiB, and not below the 95th
    -- percentile it is made from, where the headroom is at least 1 and the product stays in range.
    pub proposed_memory_margin :
        {D : Type 0} (e : Engine F) (s : ContainerStats D F)
        → IsMeasured e s.mem_p95_bytes
        → (pos (16 * mib) ≤ℤ proposed_memory e s)
          × (s.mem_p95_bytes ≤ℤ proposed_memory e s)
          × ((n : ℕ) × (proposed_memory e s ≡ pos (n * mib)))
    unfolding proposed_memory
    proposed_memory_margin e s m =
        let v = f.to_int (with_headroom e s.mem_p95_bytes) in
        let kept = margin_kept e s.mem_p95_bytes m in
        let (floor, above) =
          floor_bounds (round_up_mib v) s.mem_p95_bytes
            (round_up_kept v s.mem_p95_bytes m.fits kept) in
        (floor, above, floor_multiple (round_up_mib v) (round_up_mib_multiple v))
