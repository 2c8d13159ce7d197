-- ===== src/Common/Maps.antt =====
-- A Go map with string keys as an association list, in the order in which a range over it runs.
use Prim.Native.String.{String}
use text.Mathlib.Text.{◌==◌ as str_eq}
use text.Mathlib.TextEquality.{eq_iff}
use mathlib.Core.Path.{◌≡◌, refl}
use mathlib.Core.Option.{Option, none, some}
use mathlib.Core.List.{List, [], ◌∷◌}
use native.Mathlib.Omega.{arith}
use mathlib.Core.Path.{subst}
use mathlib.Core.Logic.{inl, inr}
use mathlib.Core.Option.{some-injective}
use kubernetes_cost_analyzer.Common.Tests.{if◌then◌else◌, Bool-cases}
use kubernetes_cost_analyzer.Common.Lists.{All}

-- The entries of a map.
abbrev pub Entries {ℓ} : Type ℓ → Type ℓ
Entries V = List (String × V)

module _ {ℓ} {V : Type ℓ} where
  abbrev pub lookup : String → Entries V → Option V
  lookup name [] = none
  lookup name (entry ∷ rest) = if str_eq entry.0 name then some entry.1 else lookup name rest

  -- `m[name] = value`: an entry of that name is replaced where it stands.
  unfoldable pub insert : String → V → Entries V → Entries V
  insert name value [] = (name, value) ∷ []
  insert name value (entry ∷ rest) =
      let later = insert name value rest in
      if str_eq entry.0 name then (name, value) ∷ rest else entry ∷ later

  pub lookup-insert :
      (written read : String) (value : V) (entries : Entries V)
      → lookup read (insert written value entries)
        ≡ (if str_eq written read then some value else lookup read entries)
  unfolding insert
  lookup-insert written read value [] = refl
  lookup-insert written read value (entry ∷ rest) =
      let induction = lookup-insert written read value rest in
      ground (arith, induction, eq_iff entry.0 written, eq_iff written read, eq_iff entry.0 read)

module _ {ℓ κ} {V : Type ℓ} (P : V → Type κ) where
  -- What holds of every value of a map holds of a value that is found.
  pub All-lookup :
      (k : String) (m : List (String × V)) {v : V} → All (λ e. P e.1) m → lookup k m ≡ some v → P v
  All-lookup k [] h e = cc
  All-lookup k ((j, w) ∷ m) {v} (p, ps) e = elim (Bool-cases (str_eq j k)) [
    | inl same ↦ subst P (some-injective _ _ (rw same at e)) p
    | inr other ↦ All-lookup k m ps (rw other at e)
  ]
