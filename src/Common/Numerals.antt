-- ===== src/Common/Numerals.antt =====
-- `strconv.ParseInt(s, 10, 64)`, which `strconv.Atoi` is on 64 bits: an optional sign, and then at least
-- one decimal digit and nothing else; a number outside the int64 range is refused.
use Prim.Native.Char.{Char, code}
use Prim.Native.String.{String}
use Prim.Native.Nat.{ℕ, ◌+◌, ◌-◌, ◌*◌, ◌^◌}
use mathlib.Core.Path.{◌≡◌, refl}
use mathlib.Core.Bool.{◌&&◌}
use mathlib.Core.Option.{Option, none, some}
use mathlib.Core.List.{List, [], ◌∷◌}
use native.Mathlib.Omega.{arith}
use kubernetes_cost_analyzer.Common.Tests.{ltb, leb, ◌==◌, if◌then◌else◌}
use kubernetes_cost_analyzer.Common.Int.{ℤ, pos, negsuc, sub_ℕ}
use kubernetes_cost_analyzer.Common.Word.{IsInt64}
use kubernetes_cost_analyzer.Common.Text.{chars}

digits : ℕ → List Char → Option ℕ
digits acc [] = some acc
digits acc (c ∷ cs) =
    let rest = digits (acc * 10 + (code c - b'0')) cs in
    if leb b'0' (code c) && leb (code c) b'9' then rest else none

magnitude : List Char → Option ℕ
unfolding digits
magnitude [] = none
magnitude (c ∷ cs) = digits 0 (c ∷ cs)

positive : Option ℕ → Option ℤ
positive none = none
positive (some n) = if ltb n (2 ^ 63) then some (pos n) else none

negative : Option ℕ → Option ℤ
negative none = none
negative (some n) = if leb n (2 ^ 63) then some (sub_ℕ 0 n) else none

signed_number : List Char → Option ℤ
unfolding magnitude positive negative
signed_number [] = none
signed_number (c ∷ cs) =
    if code c == b'-'
    then negative (magnitude cs)
    else if code c == b'+'
    then positive (magnitude cs)
    else positive (magnitude (c ∷ cs))

unfoldable pub parse_int : String → Option ℤ
unfolding signed_number
parse_int s = signed_number (chars s)

positive-IsInt64 : (m : Option ℕ) {n : ℤ} → positive m ≡ some n → IsInt64 n
unfolding positive
positive-IsInt64 none h = cc
positive-IsInt64 (some n) h = ground arith

negative-IsInt64 : (m : Option ℕ) {n : ℤ} → negative m ≡ some n → IsInt64 n
unfolding negative
negative-IsInt64 none h = cc
negative-IsInt64 (some n) h = ground arith

signed_number-IsInt64 : (cs : List Char) {n : ℤ} → signed_number cs ≡ some n → IsInt64 n
unfolding signed_number
signed_number-IsInt64 [] h = cc
signed_number-IsInt64 (c ∷ cs) h = ground (
  arith,
  negative-IsInt64 (magnitude cs),
  positive-IsInt64 (magnitude cs),
  positive-IsInt64 (magnitude (c ∷ cs)),
)

-- What is read is an int64.
pub parse_int-IsInt64 : (s : String) {n : ℤ} → parse_int s ≡ some n → IsInt64 n
unfolding parse_int
parse_int-IsInt64 s h = signed_number-IsInt64 (chars s) h

read_back : parse_int "-42" ≡ some (negsuc 41)
unfolding parse_int
read_back = refl
