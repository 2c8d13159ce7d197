-- ===== src/Numeric/Decimal.antt =====
-- github.com/shopspring/decimal, which go.mod names and no directory of the repository holds: the
-- operations that the program calls, and the documented laws that the theorems rely on.
use Prim.Native.String.{String}
use kubernetes_cost_analyzer.Common.{ℕ, suc, ◌≡◌, Bool, true, false, Option}
use kubernetes_cost_analyzer.Common.Int.{ℤ, pos}

pub record Decimal (D : Type 0) : Type 0 where
  pub nought : D
  pub from_int : ℤ → D
  pub from_string : String → Option D
  pub add : D → D → D
  pub sub : D → D → D
  pub mul : D → D → D
  pub neg : D → D
  -- `Div` at the package's default precision, and `DivRound` and `Round` at a given one.
  pub div : D → D → D
  pub div_round : D → D → ℕ → D
  pub round : D → ℕ → D
  pub is_negative : D → Bool
  pub is_zero : D → Bool
  pub is_positive : D → Bool
  pub less_than : D → D → Bool
  pub greater_than : D → D → Bool
  pub string_fixed : D → ℕ → String
  pub to_string : D → String

-- Not below zero.
abbrev pub IsNonneg : {D : Type 0} ⦃d : Decimal D⦄ → D → Type 0
IsNonneg ⦃d⦄ a = d.is_negative a ≡ false

-- `DecimalLaws D` says how signs go through the operations, and that comparison is an order.
pub record DecimalLaws (D : Type 0) ⦃d : Decimal D⦄ : Type 0 where
  pub nought_nonneg : IsNonneg d.nought
  pub from_int_nonneg : (n : ℕ) → IsNonneg (d.from_int (pos n))
  pub from_int_nonzero : (n : ℕ) → d.is_zero (d.from_int (pos (suc n))) ≡ false
  pub add_nonneg : (a b : D) → IsNonneg a → IsNonneg b → IsNonneg (d.add a b)
  pub mul_nonneg : (a b : D) → IsNonneg a → IsNonneg b → IsNonneg (d.mul a b)
  pub div_round_nonneg :
      (a b : D) (p : ℕ)
      → IsNonneg a
      → IsNonneg b
      → d.is_zero b ≡ false
      → IsNonneg (d.div_round a b p)
  pub round_nonneg : (a : D) (p : ℕ) → IsNonneg a → IsNonneg (d.round a p)
  pub neg_not_positive : (a : D) → IsNonneg a → d.is_positive (d.neg a) ≡ false
  pub greater_asymm : (a b : D) → d.greater_than a b ≡ true → d.greater_than b a ≡ false
  pub not_greater_trans :
      (a b c : D)
      → d.greater_than b a ≡ false
      → d.greater_than c b ≡ false
      → d.greater_than c a ≡ false
