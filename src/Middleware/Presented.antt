-- ===== src/Middleware/Presented.antt =====
-- Which key a request presents.
use Prim.Native.Char.{Char}
use Prim.Native.String.{String}
use text.Mathlib.Text.{◌==◌ as str_eq}
use text.Mathlib.TextEquality.{eq_iff}
use kubernetes_cost_analyzer.Common.{
  ℕ, zero, suc, ◌<◌, ◌≡◌, ◌≢◌, ◌⊎◌, ◌∙◌, inl, inr, refl, sym, ap, subst, Bool, true, ◌&&◌, List, [],
  ◌∷◌, ◌++◌, length, ltb, Bool-cases, arith, ◌↔◌,
}
use kubernetes_cost_analyzer.Common.Text.{chars, of_chars, trim_space, to_lower}
use kubernetes_cost_analyzer.Middleware.{Request, first_chars, after_chars, presented_key}

-- A header of the scheme "Bearer", in any case, and what follows, which is not empty.
pub record IsBearer (header rest : List Char) : Type 0 where
  pub scheme : List Char
  pub split : header ≡ scheme ++ rest
  pub prefix : length scheme ≡ 7
  pub folded : to_lower (of_chars scheme) ≡ "bearer "
  pub nonempty : rest ≢ []

-- The key is what follows the scheme, or, where there is no such header, that of the other header, in
-- either case without the blanks around it.
abbrev pub Presents : Request → String → Type 0
Presents r key =
    ((rest : List Char) × IsBearer (chars r.authorization) rest
      × (key ≡ trim_space (of_chars rest)))
    ⊎ (((rest : List Char) → ¬ IsBearer (chars r.authorization) rest)
        × (key ≡ trim_space r.api_key))

first_chars-after_chars : (n : ℕ) (cs : List Char) → cs ≡ first_chars n cs ++ after_chars n cs
unfolding first_chars after_chars
first_chars-after_chars zero cs = refl
first_chars-after_chars (suc n) [] = refl
first_chars-after_chars (suc n) (c ∷ cs) = ap (λ x. c ∷ x) (first_chars-after_chars n cs)

long_enough :
    (n : ℕ) (cs : List Char)
    → n < length cs
    → (length (first_chars n cs) ≡ n) × (after_chars n cs ≢ [])
unfolding first_chars after_chars
long_enough n [] h = absurd (omega arith)
long_enough zero (c ∷ cs) h = (refl, λ e. cc)
long_enough (suc n) (c ∷ cs) h =
    let (same, left) = long_enough n cs (omega arith) in (ap suc same, left)

of_split :
    (scheme rest : List Char)
    → rest ≢ []
    → (first_chars (length scheme) (scheme ++ rest) ≡ scheme)
      × (after_chars (length scheme) (scheme ++ rest) ≡ rest)
      × (length scheme < length (scheme ++ rest))
unfolding first_chars after_chars
of_split [] [] h = absurd (h refl)
of_split [] (c ∷ cs) h = (refl, refl, omega arith)
of_split (c ∷ cs) rest h = let (a, b, l) = of_split cs rest h in (ap (λ x. c ∷ x) a, b, omega arith)

-- The test of `presentedKey`.
abbrev is_bearer : List Char → Bool
is_bearer header =
    ltb 7 (length header) && str_eq (to_lower (of_chars (first_chars 7 header))) "bearer "

is_bearer-IsBearer :
    (header : List Char) → is_bearer header ≡ true → IsBearer header (after_chars 7 header)
is_bearer-IsBearer header h =
    let long : 7 < length header = ground arith in
    let (seven, nonempty) = long_enough 7 header long in
    record {
      scheme = first_chars 7 header;
      split = first_chars-after_chars 7 header;
      prefix = seven;
      folded = ground (arith, eq_iff (to_lower (of_chars (first_chars 7 header))) "bearer ");
      nonempty = nonempty;
    }

IsBearer-is_bearer :
    (header rest : List Char)
    → IsBearer header rest
    → (is_bearer header ≡ true) × (after_chars 7 header ≡ rest)
IsBearer-is_bearer header rest b =
    let (first, after, long) = of_split b.scheme rest b.nonempty in
    let first7 : first_chars 7 header ≡ b.scheme =
      ap (λ x. first_chars 7 x) b.split
      ∙ subst (λ n. first_chars n (b.scheme ++ rest) ≡ b.scheme) b.prefix first in
    let after7 : after_chars 7 header ≡ rest =
      ap (λ x. after_chars 7 x) b.split
      ∙ subst (λ n. after_chars n (b.scheme ++ rest) ≡ rest) b.prefix after in
    let long7 : 7 < length header =
      subst (λ n. n < length header) b.prefix
        (subst (λ x. length b.scheme < length x) (sym b.split) long) in
    let low : to_lower (of_chars (first_chars 7 header)) ≡ "bearer " =
      ap (λ x. to_lower (of_chars x)) first7 ∙ b.folded in
    (
      ground (arith, long7, low, eq_iff (to_lower (of_chars (first_chars 7 header))) "bearer "),
      after7,
    )

presented_key-Presents : (r : Request) → Presents r (presented_key r)
unfolding presented_key
presented_key-Presents r = elim (Bool-cases (is_bearer (chars r.authorization))) [
  | inl bearer ↦ rw bearer (
      inl (
        after_chars 7 (chars r.authorization),
        is_bearer-IsBearer (chars r.authorization) bearer,
        refl,
      ))
  | inr other ↦
      rw other (
        inr (λ rest b. ground (arith, (IsBearer-is_bearer (chars r.authorization) rest b).0), refl))
]

Presents-eq-presented_key : (r : Request) (key : String) → Presents r key → key ≡ presented_key r
unfolding presented_key
Presents-eq-presented_key r key (inl (rest, b, same)) =
    let (bearer, after) = IsBearer-is_bearer (chars r.authorization) rest b in
    rw bearer (same ∙ ap (λ x. trim_space (of_chars x)) (sym after))
Presents-eq-presented_key r key (inr (none_such, same)) =
    elim (Bool-cases (is_bearer (chars r.authorization))) [
      | inl bearer ↦ absurd (none_such _ (is_bearer-IsBearer (chars r.authorization) bearer))
      | inr other ↦ rw other same
    ]

-- A request presents exactly one key.
pub presented_key_iff : (r : Request) (key : String) → Presents r key ↔ (key ≡ presented_key r)
presented_key_iff r key =
    (Presents-eq-presented_key r key, λ e. subst (Presents r) (sym e) (presented_key-Presents r))
