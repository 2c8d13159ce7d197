-- ===== src/Numeric/Float.antt =====
-- Go's float64, as far as the program computes with it. There are no floats in the logic, so the type
-- and its operations are a parameter, with laws that IEEE 754 arithmetic has (NaN included: a
-- comparison with NaN is false).
use kubernetes_cost_analyzer.Common.{ℕ, suc, ◌*◌, ◌^◌, ◌≤◌, ◌<◌, ◌≡◌, ◌⊎◌, Bool, true, false, arith}
use kubernetes_cost_analyzer.Numeric.Decimal.{Decimal, IsNonneg}
use kubernetes_cost_analyzer.Common.Int.{ℤ, pos, ◌≤ℤ◌}

pub record Float64 (F : Type 0) : Type 0 where
  -- The literal m / 10^e, rounded to the nearest float.
  pub lit : ℕ → ℕ → F
  -- `float64(n)` and `int64(x)`.
  pub of_int : ℤ → F
  pub to_int : F → ℤ
  pub fadd : F → F → F
  pub fmul : F → F → F
  pub fdiv : F → F → F
  pub ceil : F → F
  pub flt : F → F → Bool
  pub fle : F → F → Bool

pub record FloatLaws (F : Type 0) ⦃f : Float64 F⦄ : Type 0 where
  -- Equal literals are one float, and literals of few digits keep their order.
  pub lit_scale : (m e : ℕ) → f.lit m e ≡ f.lit (m * 10) (suc e)
  pub lit_lt : (a b e : ℕ) → a < b → b < 10 ^ 15 → e ≤ 3 → f.flt (f.lit a e) (f.lit b e) ≡ true
  pub lt_not_le : (x y : F) → f.flt x y ≡ true → f.fle y x ≡ false
  pub lt_not_lt : (x y : F) → f.flt x y ≡ true → f.flt y x ≡ false
  pub le_trans : (x y z : F) → f.fle x y ≡ true → f.fle y z ≡ true → f.fle x z ≡ true
  pub of_int_ge_one : (n : ℕ) → f.fle (f.lit 1 0) (f.of_int (pos (suc n))) ≡ true
  pub mul_ge :
      (x h : F)
      → f.fle (f.lit 1 0) x ≡ true
      → f.fle (f.lit 1 0) h ≡ true
      → f.fle x (f.fmul x h) ≡ true
  pub ceil_ge : (y x : F) → f.fle y x ≡ true → f.fle y (f.ceil x) ≡ true
  -- An integer below 2^53 is exact, and the conversion back is monotone inside the int64 range.
  pub to_int_ge :
      (n : ℕ) (x : F)
      → n < 2 ^ 53
      → f.fle (f.of_int (pos n)) x ≡ true
      → f.flt x (f.lit (2 ^ 63) 0) ≡ true
      → pos n ≤ℤ f.to_int x

-- The order of the floats that are not NaN, which are those at most themselves.
pub record OrderLaws (F : Type 0) ⦃f : Float64 F⦄ : Type 0 where
  pub lit_number : (m e : ℕ) → f.fle (f.lit m e) (f.lit m e) ≡ true
  pub lt_of_not_le :
      (x y : F) → f.fle x x ≡ true → f.fle y y ≡ true → f.fle x y ≡ false → f.flt y x ≡ true
  pub le_of_not_lt :
      (x y : F) → f.fle x x ≡ true → f.fle y y ≡ true → f.flt x y ≡ false → f.fle y x ≡ true

module _ {F : Type 0} ⦃f : Float64 F⦄ where
  abbrev pub IsNan : F → Type 0
  IsNan x = f.fle x x ≡ false

  -- What a test that NaN passes leaves.
  abbrev pub IsPositive : F → Type 0
  IsPositive x = IsNan x ⊎ (f.flt (f.lit 0 0) x ≡ true)

  abbrev pub IsNotNegative : F → Type 0
  IsNotNegative x = IsNan x ⊎ (f.fle (f.lit 0 0) x ≡ true)

  module _ (laws : OrderLaws F) where
    pub test-IsPositive : (x : F) → f.fle x (f.lit 0 0) ≡ false → IsPositive x
    test-IsPositive x h = ground (arith, laws.lit_number 0 0, laws.lt_of_not_le x (f.lit 0 0))

    pub test-IsNotNegative : (x : F) → f.flt x (f.lit 0 0) ≡ false → IsNotNegative x
    test-IsNotNegative x h = ground (arith, laws.lit_number 0 0, laws.le_of_not_lt x (f.lit 0 0))

-- `decimal.NewFromFloat`, which needs both kinds of number. It panics for NaN and the infinities, so its
-- laws are those of finite floats.
pub record FromFloat (D F : Type 0) : Type 0 where
  pub from_float : F → D
  pub is_finite : F → Bool

pub record FromFloatLaws (D F : Type 0) ⦃d : Decimal D⦄ ⦃f : Float64 F⦄ ⦃v : FromFloat D F⦄
    : Type 0 where
  pub from_float_nonneg :
      (x : F) → v.is_finite x ≡ true → f.flt x (f.lit 0 0) ≡ false → IsNonneg (v.from_float x)
  pub from_float_positive :
      (x : F)
      → v.is_finite x ≡ true
      → f.fle x (f.lit 0 0) ≡ false
      → IsNonneg (v.from_float x) × (d.is_zero (v.from_float x) ≡ false)
