-- ===== src/Common/Lists.antt =====
-- Lists measured by native numbers, and predicates over their elements.
use Prim.Native.Nat.{ℕ, suc, ◌+◌}
use mathlib.Core.Path.{◌≡◌, refl}
use mathlib.Core.List.{List, [], ◌∷◌, ◌++◌}
use mathlib.Core.Bool.{Bool}
use native.Mathlib.Omega.{arith}
use kubernetes_cost_analyzer.Common.Tests.{if◌then◌else◌}

module _ {ℓ} {A : Type ℓ} where
  abbrev pub length : List A → ℕ
  length [] = 0
  length (x ∷ xs) = suc (length xs)

  pub length-append : (xs ys : List A) → length (xs ++ ys) ≡ length xs + length ys
  length-append [] ys = omega arith
  length-append (x ∷ xs) ys = omega (arith, length-append xs ys)

  abbrev pub All {κ} : (A → Type κ) → List A → Type κ
  All P [] = Unit
  All P (x ∷ xs) = P x × All P xs

  pub All-append {κ} : (P : A → Type κ) (xs ys : List A) → All P xs → All P ys → All P (xs ++ ys)
  All-append P [] ys _ q = q
  All-append P (x ∷ xs) ys (p, ps) q = (p, All-append P xs ys ps q)

  pub All-map {κ μ} :
      (P : A → Type κ) (Q : A → Type μ) (xs : List A) → ((x : A) → P x → Q x) → All P xs → All Q xs
  All-map P Q [] f _ = tt
  All-map P Q (x ∷ xs) f (p, ps) = (f x p, All-map P Q xs f ps)

  pub All-of {κ} : (P : A → Type κ) (xs : List A) → ((x : A) → P x) → All P xs
  All-of P [] f = tt
  All-of P (x ∷ xs) f = (f x, All-of P xs f)

  -- What `append(out, f(x)...)` over a slice builds.
  abbrev pub concat_map {κ} : {B : Type κ} → (B → List A) → List B → List A
  concat_map f [] = []
  concat_map f (x ∷ xs) = f x ++ concat_map f xs

  pub All-concat_map {κ μ} :
      {B : Type κ} (P : A → Type μ) (f : B → List A) (xs : List B)
      → ((x : B) → All P (f x))
      → All P (concat_map f xs)
  All-concat_map P f [] h = tt
  All-concat_map P f (x ∷ xs) h =
      All-append P (f x) (concat_map f xs) (h x) (All-concat_map P f xs h)

  pub append-eq-nil : (xs ys : List A) → xs ++ ys ≡ [] → (xs ≡ []) × (ys ≡ [])
  append-eq-nil [] ys e = (refl, e)
  append-eq-nil (x ∷ xs) ys e = cc

-- `errs = append(errs, err)` under a condition.
abbrev pub report_if {ℓ} : {E : Type ℓ} → Bool → E → List E
report_if b e = if b then e ∷ [] else []
