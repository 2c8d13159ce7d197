-- ===== src/Domain/Cluster.antt =====
-- internal/domain/cluster.go: what a cluster says of itself, read from its nodes. `strings.ToLower` is
-- that of ASCII letters.
use Prim.Native.Char.{Char, code}
use Prim.Native.String.{String}
use text.Mathlib.Text.{◌==◌ as str_eq}
use text.Mathlib.TextEquality.{eq_iff}
use kubernetes_cost_analyzer.Common.{
  ◌≡◌, ◌≢◌, ◌↔◌, ◌⊎◌, inl, inr, refl, ◌&&◌, Option, none, some, List, [], ◌∷◌, map, All, arith,
  ◌==◌, if◌then◌else◌,
}
use kubernetes_cost_analyzer.Common.Text.{chars, of_chars, trim_space, to_lower}
use kubernetes_cost_analyzer.Domain.{Node}

pub record ClusterProfile : Type 0 where
  pub provider : String
  pub region : String

-- The text before the first "://", for `strings.Cut`; `none` where there is no separator.
cut_scheme : List Char → Option (List Char)
cut_scheme [] = none
cut_scheme (c ∷ []) = none
cut_scheme (c ∷ d ∷ []) = none
cut_scheme (c ∷ d ∷ e ∷ cs) =
    if code c == b':' && (code d == b'/' && code e == b'/')
    then some []
    else elim (cut_scheme (d ∷ e ∷ cs)) [ none ↦ none | some s ↦ some (c ∷ s) ]

provider_from_id : String → String
unfolding cut_scheme trim_space to_lower
provider_from_id id = elim (cut_scheme (chars id)) [
  | none ↦ ""
  | some s ↦ to_lower (trim_space (of_chars s))
]

-- The loop of `soleValue`, over the trimmed values.
sole_from : String → List String → String
sole_from found [] = found
sole_from found (v ∷ vs) =
    let skip = sole_from found vs in
    let first = sole_from v vs in
    if str_eq v ""
    then skip
    else if str_eq found ""
    then first
    else if str_eq v found
    then skip
    else ""

unfoldable pub sole_value : List Node → (Node → String) → String
unfolding sole_from
sole_value nodes get = sole_from "" (map (λ n. trim_space (get n)) nodes)

unfoldable pub describe_cluster : List Node → ClusterProfile
unfolding sole_value provider_from_id
describe_cluster nodes = record {
  provider = sole_value nodes (λ n. provider_from_id n.provider_id);
  region = sole_value nodes (λ n. n.region);
}

-- Every value is blank or `v`, and `v` occurs.
abbrev pub Agrees : String → List String → Type 0
Agrees v = All (λ x. (x ≡ "") ⊎ (x ≡ v))

abbrev pub Occurs : String → List String → Type 0
Occurs v [] = ⊥
Occurs v (x ∷ xs) = (x ≡ v) ⊎ Occurs v xs

abbrev IsFound : String → String → List String → Type 0
IsFound v found vs = Agrees v vs × ((found ≡ v) ⊎ (found ≡ "") × Occurs v vs)

sole_from-IsFound :
    (v found : String) (vs : List String) → v ≢ "" → sole_from found vs ≡ v → IsFound v found vs
unfolding sole_from
sole_from-IsFound v found [] h e = (tt, inl e)
sole_from-IsFound v found (x ∷ vs) h e = ground (
  arith,
  eq_iff x "",
  eq_iff found "",
  eq_iff x found,
  sole_from-IsFound v found vs h,
  sole_from-IsFound v x vs h,
)

IsFound-sole_from :
    (v found : String) (vs : List String) → v ≢ "" → IsFound v found vs → sole_from found vs ≡ v
unfolding sole_from
IsFound-sole_from v found [] h (_, inl e) = e
IsFound-sole_from v found [] h (_, inr (_, o)) = elim o [ ]
IsFound-sole_from v found (x ∷ vs) h e = ground (
  arith,
  eq_iff x "",
  eq_iff found "",
  eq_iff x found,
  IsFound-sole_from v found vs h,
  IsFound-sole_from v x vs h,
)

-- `soleValue` returns a value exactly if every node is blank or has that value, and some node has it;
-- a blank result means that all are blank or that two disagree.
pub sole_value_iff :
    (v : String) (nodes : List Node) (get : Node → String)
    → v ≢ ""
    → (sole_value nodes get ≡ v) ↔ (
        Agrees v (map (λ n. trim_space (get n)) nodes)
        × Occurs v (map (λ n. trim_space (get n)) nodes))
unfolding sole_value
sole_value_iff v nodes get h =
    let values = map (λ n. trim_space (get n)) nodes in
    (
      λ e. ground (arith, sole_from-IsFound v "" values h e),
      λ (a, o). IsFound-sole_from v "" values h (a, inr (refl, o)),
    )
