-- ===== src/Clock/Floor.antt =====
-- Rounding an instant down to a multiple of a step: the remainder is never negative, and the instants
-- of one step are rounded to the same multiple.
use native.Mathlib.Nat.{div-add-mod, mod-lt, lt_of_mul-lt-mul_left, mul-suc, mul-add}
use kubernetes_cost_analyzer.Common.{ℕ, suc, ◌+◌, ◌-◌, ◌*◌, ◌/◌, ◌%◌, ◌<◌, ◌≡◌, ap, arith}
use kubernetes_cost_analyzer.Common.Int.{
  ℤ, pos, negsuc, pos_part, neg_part, ◌*ℤ◌, ◌-ℤ◌, ◌+ℤ◌, ◌≤ℤ◌, ◌<ℤ◌, int_laws,
}

-- The remainder in [0, k) of a division that rounds down.
unfoldable pub floor_mod : ℤ → ℕ → ℕ
floor_mod (pos n) k = n % k
floor_mod (negsuc n) k = k - 1 - n % k

pub floor_mod-lt : (t : ℤ) (k : ℕ) → 0 < k → floor_mod t k < k
unfolding floor_mod
floor_mod-lt (pos n) k h = grind arith
floor_mod-lt (negsuc n) k h = grind arith

-- How often the step goes into the instant, rounded down: n / k, or -(n / k) - 1.
unfoldable pub floor_div : ℤ → ℕ → ℤ
floor_div (pos n) k = pos (n / k)
floor_div (negsuc n) k = negsuc (n / k)

-- The instant is the multiple plus the remainder.
floor_div_mod :
    (t : ℤ) (k : ℕ)
    → 0 < k
    → pos_part t + k * neg_part (floor_div t k)
      ≡ neg_part t + k * pos_part (floor_div t k) + floor_mod t k
unfolding floor_mod floor_div
floor_div_mod (pos n) k h = grind (arith, div-add-mod n k)
floor_div_mod (negsuc n) k h = grind (arith, div-add-mod n k, mod-lt n h)

-- Rounded down, an instant is a whole number of steps.
pub floor_mod_multiple : (t : ℤ) (k : ℕ) → 0 < k → t -ℤ pos (floor_mod t k) ≡ floor_div t k *ℤ pos k
unfolding floor_mod floor_div ◌*ℤ◌ ◌-ℤ◌
floor_mod_multiple (pos n) k h = ground (arith, div-add-mod n k)
floor_mod_multiple (negsuc n) k h = ground (arith, div-add-mod n k, mod-lt n h)

-- Two multiples of a step less than a step apart are one.
multiples : (k x y : ℕ) → k * x < k * y + k → k * y < k * x + k → k * x ≡ k * y
multiples k x y h g =
    let below : x < suc y = lt_of_mul-lt-mul_left k (omega (arith, mul-suc k y)) in
    let above : y < suc x = lt_of_mul-lt-mul_left k (omega (arith, mul-suc k x)) in
    let same : x ≡ y = omega arith in ap (λ n. k * n) same

-- Rounding down agrees on all instants of one step.
pub floor_mod_agree :
    (t u : ℤ) (k : ℕ)
    → 0 < k
    → t -ℤ pos (floor_mod t k) ≤ℤ u
    → u <ℤ t -ℤ pos (floor_mod t k) +ℤ pos k
    → u -ℤ pos (floor_mod u k) ≡ t -ℤ pos (floor_mod t k)
floor_mod_agree t u k h lo hi =
    let p = floor_div t k in
    let q = floor_div u k in
    let at_t = floor_div_mod t k h in
    let at_u = floor_div_mod u k h in
    let small = floor_mod-lt u k h in
    let x = pos_part p + neg_part q in
    let y = pos_part q + neg_part p in
    let same =
      multiples k x y
        (omega (int_laws, mul-add k (pos_part p) (neg_part q), mul-add k (pos_part q) (neg_part p)))
        (omega
          (int_laws, mul-add k (pos_part p) (neg_part q), mul-add k (pos_part q) (neg_part p))) in
    omega (int_laws, same)
