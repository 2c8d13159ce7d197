-- ===== src/Common/Word.antt =====
-- Go's `int64` and `int` (64 bits here): an integer in [-2^63, 2^63), with wrap-around written out.
-- `time.Duration` is an int64 number of nanoseconds.
use Prim.Native.Nat.{ℕ, ◌-◌, ◌%◌, ◌^◌, ◌≤◌, ◌<◌}
use mathlib.Core.Path.{◌≡◌, ap, sym, ◌∙◌}
use native.Mathlib.Omega.{arith}
use kubernetes_cost_analyzer.Common.Tests.{ltb, if◌then◌else◌}
use kubernetes_cost_analyzer.Common.Int.{
  ℤ, pos, negsuc, pos_part, neg_part, ◌+ℤ◌, ◌-ℤ◌, ◌*ℤ◌, quot, lt_ℤ, int_laws,
}

-- The signed reading of a 64-bit pattern.
abbrev pub signed64 : ℕ → ℤ
signed64 r = if ltb r (2 ^ 63) then pos r else negsuc (2 ^ 64 - 1 - r)

unfoldable pub wrap64 : ℤ → ℤ
wrap64 (pos n) = signed64 (n % 2 ^ 64)
wrap64 (negsuc n) = signed64 (2 ^ 64 - 1 - n % 2 ^ 64)

abbrev pub add64 : ℤ → ℤ → ℤ
add64 a b = wrap64 (a +ℤ b)

abbrev pub sub64 : ℤ → ℤ → ℤ
sub64 a b = wrap64 (a -ℤ b)

abbrev pub mul64 : ℤ → ℤ → ℤ
mul64 a b = wrap64 (a *ℤ b)

-- Division by a positive constant never overflows.
abbrev pub div64 : ℤ → ℕ → ℤ
div64 a k = quot a k

pub record IsInt64 (a : ℤ) : Type 0 where
  pub below : pos_part a < 2 ^ 63
  pub above : neg_part a ≤ 2 ^ 63

-- A value in range is left alone.
pub wrap64_id : (a : ℤ) → IsInt64 a → wrap64 a ≡ a
unfolding wrap64
wrap64_id (pos n) h = ground arith
wrap64_id (negsuc n) h = ground arith

pub wrap64-IsInt64 : (a : ℤ) → IsInt64 (wrap64 a)
unfolding wrap64
wrap64-IsInt64 (pos n) = ground arith
wrap64-IsInt64 (negsuc n) = ground arith

-- `x.Sub(y)`: the difference of two instants, cut off at the ends of the int64 range.
abbrev pub saturate64 : ℤ → ℤ
saturate64 a =
    if lt_ℤ a (negsuc (2 ^ 63 - 1))
    then negsuc (2 ^ 63 - 1)
    else if lt_ℤ (pos (2 ^ 63 - 1)) a
    then pos (2 ^ 63 - 1)
    else a

-- Wrapping early or late makes no difference.
pub wrap64_add : (a b : ℤ) → wrap64 (wrap64 a +ℤ b) ≡ wrap64 (a +ℤ b)
unfolding wrap64 ◌+ℤ◌
wrap64_add (pos a) (pos b) = ground arith
wrap64_add (pos a) (negsuc b) = ground arith
wrap64_add (negsuc a) (pos b) = ground arith
wrap64_add (negsuc a) (negsuc b) = ground arith

-- Additions of counters commute.
pub add64_swap : (n a b : ℤ) → add64 (add64 n a) b ≡ add64 (add64 n b) a
add64_swap n a b = wrap64_add (n +ℤ a) b ∙ ap wrap64 (omega int_laws) ∙ sym (wrap64_add (n +ℤ b) a)
