-- ===== src/Pricing/Costs.antt =====
-- What `Cost` promises of every rate and every amount.
use kubernetes_cost_analyzer.Common.{ℕ, suc, ◌-◌, inl, inr, ◌⊎◌, ◌≡◌, refl, Bool-cases, arith}
use kubernetes_cost_analyzer.Common.Int.{ℤ, pos, negsuc, ◌≤ℤ◌, le_ℤ}
use kubernetes_cost_analyzer.Numeric.Decimal.{Decimal, DecimalLaws, IsNonneg}
use kubernetes_cost_analyzer.Clock.{Duration, hour}
use kubernetes_cost_analyzer.Pricing.{Rates, cost, total, bytes_per_gib}

module _ {D : Type 0} ⦃d : Decimal D⦄ (laws : DecimalLaws D) where
  open laws use {
    nought_nonneg, from_int_nonneg, from_int_nonzero, add_nonneg, mul_nonneg, div_round_nonneg,
    round_nonneg,
  }

  -- An amount that is not negative, in a unit that is a positive constant.
  pub share-IsNonneg :
      (a : ℤ) (n p : ℕ)
      → pos 0 ≤ℤ a
      → IsNonneg (d.div_round (d.from_int a) (d.from_int (pos (suc n))) p)
  share-IsNonneg (pos m) n p h =
      div_round_nonneg _ _ p (from_int_nonneg m) (from_int_nonneg (suc n)) (from_int_nonzero n)
  share-IsNonneg (negsuc m) n p h = absurd (omega arith)

  -- At rates that are not negative, an amount that is not negative costs no negative sum, whatever the
  -- window; and over a window that is empty or reversed everything costs nothing.
  pub cost-IsNonneg :
      (rates : Rates D) (cpu_millicores memory_bytes : ℤ) (duration : Duration)
      → IsNonneg rates.cpu_per_core_hour
      → IsNonneg rates.memory_per_gib_hour
      → pos 0 ≤ℤ cpu_millicores
      → pos 0 ≤ℤ memory_bytes
      → let c = cost rates cpu_millicores memory_bytes duration in
        IsNonneg c.cpu
        × IsNonneg c.memory
        × IsNonneg (total c)
        × ((pos 1 ≤ℤ duration) ⊎ ((c.cpu ≡ d.nought) × (c.memory ≡ d.nought)))
  unfolding cost total
  cost-IsNonneg rates cpu memory duration rc rm hc hm = elim (Bool-cases (le_ℤ duration (pos 0))) [
    | inl over ↦
        rw over (
          nought_nonneg,
          nought_nonneg,
          add_nonneg _ _ nought_nonneg nought_nonneg,
          inr (refl, refl),
        )
    | inr opened ↦
        let hours = share-IsNonneg duration (hour - 1) 18 (ground arith) in
        let cores = share-IsNonneg cpu 999 18 hc in
        let gib = share-IsNonneg memory (bytes_per_gib - 1) 18 hm in
        let c = round_nonneg _ 10 (mul_nonneg _ _ (mul_nonneg _ _ cores hours) rc) in
        let m = round_nonneg _ 10 (mul_nonneg _ _ (mul_nonneg _ _ gib hours) rm) in
        rw opened (c, m, add_nonneg _ _ c m, inl (ground arith))
  ]
