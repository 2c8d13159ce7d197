-- ===== src/Numeric/Fixed.antt =====
-- Concrete numbers that meet the laws, for tests: decimals with 18 places, and non-negative floats
-- with 9 places.
use Prim.Native.Char.{Char, code}
use native.Mathlib.Nat.{mul-div-mul_right, mul-le-mul, le_refl, pow-suc}
use kubernetes_cost_analyzer.Common.{
  ℕ, zero, suc, ◌+◌, ◌-◌, ◌*◌, ◌/◌, ◌^◌, ◌≤◌, ◌<◌, ◌≡◌, refl, sym, leb→le, le→leb, Bool, true,
  false, ◌&&◌, Option, none, some, List, [], ◌∷◌, arith, ltb, leb, ◌==◌, if◌then◌else◌,
}
use kubernetes_cost_analyzer.Common.Int.{
  ℤ, pos, negsuc, pos_part, neg_part, sub_ℕ, ◌+ℤ◌, ◌-ℤ◌, lt_ℤ,
}
use kubernetes_cost_analyzer.Common.Text.{chars}
use kubernetes_cost_analyzer.Numeric.Decimal.{Decimal, DecimalLaws}
use kubernetes_cost_analyzer.Numeric.Float.{Float64, FloatLaws, OrderLaws, FromFloat, FromFloatLaws}

-- A decimal is its number of units of 10^-18.
abbrev pub Fixed : Type 0
Fixed = ℤ

abbrev pub unit : ℕ
unit = 10 ^ 18

abbrev is_neg : ℤ → Bool
is_neg (pos n) = false
is_neg (negsuc n) = true

abbrev size : ℤ → ℕ
size a = pos_part a + neg_part a

-- A magnitude with the sign of the product of two numbers.
abbrev signed : ℤ → ℤ → ℕ → ℤ
signed (pos a) (pos b) n = pos n
signed (negsuc a) (negsuc b) n = pos n
signed _ _ n = sub_ℕ 0 n

abbrev negate : ℤ → ℤ
negate a = sub_ℕ (neg_part a) (pos_part a)

-- To a multiple of a step, a half going up.
abbrev to_step : ℕ → ℕ → ℕ
to_step step n = (n + step / 2) / step * step

-- Digits with at most one point; `places` counts those behind it.
abbrev parse_from : List Char → ℕ → Option ℕ → Option ℤ
parse_from [] acc none = some (pos (acc * unit))
parse_from [] acc (some places) = some (pos (acc * unit / 10 ^ places))
parse_from (c ∷ cs) acc places =
    let digit =
      parse_from cs (acc * 10 + (code c - b'0'))
        (elim places [ none ↦ none | some n ↦ some (n + 1) ]) in
    let point = parse_from cs acc (some 0) in
    let minus : Option ℤ = elim (parse_from cs acc places) [
      | none ↦ none
      | some a ↦ some (negate a)
    ] in
    if leb b'0' (code c) && leb (code c) b'9'
    then digit
    else if code c == b'.'
    then point
    else if code c == b'-'
    then minus
    else none

instance abbrev pub fixed_decimal : Decimal Fixed
fixed_decimal = record {
  nought = pos 0;
  from_int = λ a. signed a (pos 0) (size a * unit);
  from_string = λ s. parse_from (chars s) 0 none;
  add = ◌+ℤ◌;
  sub = ◌-ℤ◌;
  mul = λ a b. signed a b (size a * size b / unit);
  neg = negate;
  div = λ a b. signed a b (to_step 100 (size a * unit / size b));
  div_round = λ a b p. signed a b (to_step (10 ^ (18 - p)) (size a * unit / size b));
  round = λ a p. signed a (pos 0) (to_step (10 ^ (18 - p)) (size a));
  is_negative = is_neg;
  is_zero = λ a. size a == 0;
  is_positive = λ a. lt_ℤ (pos 0) a;
  less_than = lt_ℤ;
  greater_than = λ a b. lt_ℤ b a;
  string_fixed = λ a p. if is_neg a then "-" else "+";
  to_string = λ a. if is_neg a then "-" else "+";
}

neg_not_positive : (a : ℤ) → is_neg a ≡ false → lt_ℤ (pos 0) (negate a) ≡ false
neg_not_positive (pos n) h = ground arith
neg_not_positive (negsuc n) h = ground arith

add_pos : (a b : ℤ) → is_neg a ≡ false → is_neg b ≡ false → is_neg (a +ℤ b) ≡ false
unfolding ◌+ℤ◌
add_pos a b h k = ground arith

from_int_nonzero : (n : ℕ) → (suc n * unit == 0) ≡ false
from_int_nonzero n = ground arith

pub Fixed-laws : DecimalLaws Fixed
Fixed-laws = record {
  nought_nonneg = refl;
  from_int_nonneg = λ n. refl;
  from_int_nonzero = λ n. ground (arith, from_int_nonzero n);
  add_nonneg = add_pos;
  mul_nonneg = λ a b h k. ground arith;
  div_round_nonneg = λ a b p h k z. ground arith;
  round_nonneg = λ a p h. ground arith;
  neg_not_positive = neg_not_positive;
  greater_asymm = λ a b h. ground arith;
  not_greater_trans = λ a b c h k. ground arith;
}

-- A float is its number of units of 10^-9.
abbrev pub Nano : Type 0
Nano = ℕ

abbrev nano : ℕ
nano = 10 ^ 9

instance abbrev pub nano_float : Float64 Nano
nano_float = record {
  lit = λ m e. m * nano / 10 ^ e;
  of_int = λ a. pos_part a * nano;
  to_int = λ x. pos (x / nano);
  fadd = ◌+◌;
  fmul = λ x y. x * y / nano;
  fdiv = λ x y. x * nano / y;
  ceil = λ x. (x + (nano - 1)) / nano * nano;
  flt = ltb;
  fle = leb;
}

instance abbrev pub nano_to_fixed : FromFloat Fixed Nano
nano_to_fixed = record { from_float = λ x. pos (x * nano); is_finite = λ x. true }

lit_scale : (m e : ℕ) → m * nano / 10 ^ e ≡ m * 10 * nano / 10 ^ suc e
lit_scale m e =
    let ten : m * 10 * nano ≡ m * nano * 10 = omega arith in
    rw (pow-suc 10 e, ten) (sym (mul-div-mul_right (m * nano) (10 ^ e) (omega arith)))

lit_lt :
    (a b e : ℕ) → a < b → b < 10 ^ 15 → e ≤ 3 → ltb (a * nano / 10 ^ e) (b * nano / 10 ^ e) ≡ true
lit_lt a b zero h _ _ = ground arith
lit_lt a b (suc zero) h _ _ = ground arith
lit_lt a b (suc (suc zero)) h _ _ = ground arith
lit_lt a b (suc (suc (suc zero))) h _ _ = ground arith
lit_lt a b (suc (suc (suc (suc e)))) _ _ k = absurd (omega arith)

mul_ge : (x h : ℕ) → leb nano x ≡ true → leb nano h ≡ true → leb x (x * h / nano) ≡ true
mul_ge x h p q =
    let more : x * nano ≤ x * h = mul-le-mul (le_refl x) (leb→le nano h q) in
    le→leb x (x * h / nano) (omega arith)

pub Nano-laws : FloatLaws Nano
Nano-laws = record {
  lit_scale = lit_scale;
  lit_lt = lit_lt;
  lt_not_le = λ x y h. ground arith;
  lt_not_lt = λ x y h. ground arith;
  le_trans = λ x y z h k. ground arith;
  of_int_ge_one = λ n. ground arith;
  mul_ge = mul_ge;
  ceil_ge = λ y x h. ground arith;
  to_int_ge = λ n x _ h _. ground arith;
}

pub nano_order : OrderLaws Nano
nano_order = record {
  lit_number = λ m e. ground arith;
  lt_of_not_le = λ x y _ _ h. ground arith;
  le_of_not_lt = λ x y _ _ h. ground arith;
}

pub nano_to_fixed-laws : FromFloatLaws Fixed Nano
nano_to_fixed-laws = record {
  from_float_nonneg = λ x _ h. refl;
  from_float_positive = λ x _ h. (refl, ground arith);
}
