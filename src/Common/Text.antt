-- ===== src/Common/Text.antt =====
-- Texts: Go strings as native strings, `strings.TrimSpace`, and a text of `fmt.Sprintf` as its format
-- with its arguments, so that what a message says is kept and nothing depends on the rendering.
use Prim.Native.Nat.{ℕ, ◌+◌}
use Prim.Native.Char.{Char, code}
use Prim.Native.String.{String}
use mathlib.Core.Path.{◌≡◌, refl}
use mathlib.Core.Bool.{Bool, true, false, ◌&&◌, ◌||◌}
use mathlib.Core.List.{List, [], ◌∷◌, map, reverse}
use kubernetes_cost_analyzer.Common.Tests.{leb, ltb, ◌==◌, if◌then◌else◌}
use kubernetes_cost_analyzer.Common.Int.{ℤ}

-- `F` is the type of float64 arguments; an argument may itself be a text.
mutual
  pub data Text (F : Type 0) : Type 0 where
    raw : String → Text F
    sprintf : String → Args F → Text F

  pub data Args (F : Type 0) : Type 0 where
    done : Args F
    str : String → Args F → Args F
    int : ℤ → Args F → Args F
    float : F → Args F → Args F
    of_text : Text F → Args F → Args F

-- `unicode.IsSpace`.
abbrev pub is_space : ℕ → Bool
is_space c =
    (leb 9 c && leb c 13)
    || c == 32
    || c == 0x85
    || c == 0xA0
    || c == 0x1680
    || (leb 0x2000 c && leb c 0x200A)
    || c == 0x2028
    || c == 0x2029
    || c == 0x202F
    || c == 0x205F
    || c == 0x3000

abbrev pub chars : String → List Char
chars String.[] = []
chars (String.◌∷◌ c s) = c ∷ chars s

abbrev pub of_chars : List Char → String
of_chars [] = String.[]
of_chars (c ∷ cs) = String.◌∷◌ c (of_chars cs)

-- `len(s)`: the bytes of the UTF-8 encoding.
abbrev pub byte_length : List Char → ℕ
byte_length [] = 0
byte_length (c ∷ cs) =
    let rest = byte_length cs in
    if ltb (code c) 0x80
    then 1 + rest
    else if ltb (code c) 0x800
    then 2 + rest
    else if ltb (code c) 0x10000
    then 3 + rest
    else 4 + rest

trim_left : List Char → List Char
trim_left [] = []
trim_left (c ∷ cs) = elim (is_space (code c)) [ true ↦ trim_left cs | false ↦ c ∷ cs ]

-- `strings.TrimSpace`.
unfoldable pub trim_space : String → String
unfolding trim_left
trim_space s = of_chars (reverse (trim_left (reverse (trim_left (chars s)))))

-- `strings.ToLower` on ASCII letters; other characters stay.
replace_char : List Char → List Char → Char → Char
replace_char (u ∷ us) (l ∷ ls) c = if code c == code u then l else replace_char us ls c
replace_char _ _ c = c

unfoldable pub to_lower : String → String
unfolding replace_char
to_lower s = of_chars (
    map (replace_char (chars "ABCDEFGHIJKLMNOPQRSTUVWXYZ") (chars "abcdefghijklmnopqrstuvwxyz"))
      (chars s))

lowered : to_lower "AWS-1" ≡ "aws-1"
unfolding to_lower
lowered = refl

trim_both_ends : trim_space " 0.1 " ≡ "0.1"
unfolding trim_space
trim_both_ends = refl

split_from : ℕ → List Char → List Char → List (List Char)
split_from sep part [] = reverse part ∷ []
split_from sep part (c ∷ cs) =
    let next = reverse part ∷ split_from sep [] cs in
    let more = split_from sep (c ∷ part) cs in if code c == sep then next else more

-- `strings.Split` at a separator of one character.
unfoldable pub split : ℕ → String → List String
unfolding split_from
split sep s = map of_chars (split_from sep [] (chars s))

split_list : split b',' "a,,b" ≡ "a" ∷ "" ∷ "b" ∷ []
unfolding split
split_list = refl
