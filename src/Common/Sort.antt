-- ===== src/Common/Sort.antt =====
-- `sort.SliceStable`: the stable sort by a `less` function, as insertion from the right. For a strict
-- weak order the result is sorted; it is always a permutation, and equals keep their order.
use Prim.Native.Nat.{suc}
use mathlib.Core.Path.{◌≡◌, refl}
use mathlib.Core.Bool.{Bool, true, false}
use mathlib.Core.Logic.{inl, inr}
use mathlib.Core.List.{List, [], ◌∷◌, Perm}
use mathlib.Core.List.Perm
use native.Mathlib.Omega.{arith}
use kubernetes_cost_analyzer.Common.Tests.{if◌then◌else◌, Bool-cases}
use kubernetes_cost_analyzer.Common.Lists.{All, All-map, length}

module _ {ℓ} {A : Type ℓ} where
  -- The elements that pass a test, in order.
  abbrev pub keep : (A → Bool) → List A → List A
  keep p [] = []
  keep p (x ∷ xs) = if p x then x ∷ keep p xs else keep p xs

module _ {ℓ} {A : Type ℓ} (less : A → A → Bool) where
  insert_sorted : A → List A → List A
  insert_sorted x [] = x ∷ []
  insert_sorted x (y ∷ ys) = if less y x then y ∷ insert_sorted x ys else x ∷ y ∷ ys

  unfoldable pub sort_stable : List A → List A
  unfolding insert_sorted
  sort_stable [] = []
  sort_stable (x ∷ xs) = insert_sorted x (sort_stable xs)

  -- No element is strictly less than one before it.
  abbrev pub IsSorted : List A → Type 0
  IsSorted [] = Unit
  IsSorted (x ∷ xs) = All (λ y. less y x ≡ false) xs × IsSorted xs

  pub record IsWeakOrder : Type ℓ where
    pub asymm : (x y : A) → less x y ≡ true → less y x ≡ false
    pub not_less_trans : (x y z : A) → less y x ≡ false → less z y ≡ false → less z x ≡ false

  insert_sorted-perm : (x : A) (xs : List A) → Perm (insert_sorted x xs) (x ∷ xs)
  unfolding insert_sorted
  insert_sorted-perm x [] = Perm.refl (x ∷ [])
  insert_sorted-perm x (y ∷ ys) = elim (Bool-cases (less y x)) [
    | inl e ↦ rw e (Perm.trans (Perm.cons y (insert_sorted-perm x ys)) (Perm.swap x y ys))
    | inr e ↦ rw e (Perm.refl (x ∷ y ∷ ys))
  ]

  pub sort_stable-perm : (xs : List A) → Perm (sort_stable xs) xs
  unfolding sort_stable
  sort_stable-perm [] = Perm.refl []
  sort_stable-perm (x ∷ xs) =
      Perm.trans (insert_sorted-perm x (sort_stable xs)) (Perm.cons x (sort_stable-perm xs))

  length-insert_sorted : (x : A) (xs : List A) → length (insert_sorted x xs) ≡ suc (length xs)
  unfolding insert_sorted
  length-insert_sorted x [] = refl
  length-insert_sorted x (y ∷ ys) = ground (arith, length-insert_sorted x ys)

  pub length-sort_stable : (xs : List A) → length (sort_stable xs) ≡ length xs
  unfolding sort_stable
  length-sort_stable [] = refl
  length-sort_stable (x ∷ xs) =
      omega (arith, length-insert_sorted x (sort_stable xs), length-sort_stable xs)

  insert_sorted-All {κ} :
      (P : A → Type κ) (x : A) (xs : List A) → P x → All P xs → All P (insert_sorted x xs)
  unfolding insert_sorted
  insert_sorted-All P x [] p _ = (p, tt)
  insert_sorted-All P x (y ∷ ys) p (q, qs) = elim (Bool-cases (less y x)) [
    | inl e ↦ rw e (q, insert_sorted-All P x ys p qs)
    | inr e ↦ rw e (p, (q, qs))
  ]

  pub sort_stable-All {κ} : (P : A → Type κ) (xs : List A) → All P xs → All P (sort_stable xs)
  unfolding sort_stable
  sort_stable-All P [] _ = tt
  sort_stable-All P (x ∷ xs) (p, ps) =
      insert_sorted-All P x (sort_stable xs) p (sort_stable-All P xs ps)

  module _ (order : IsWeakOrder) where
    insert_sorted-IsSorted : (x : A) (xs : List A) → IsSorted xs → IsSorted (insert_sorted x xs)
    unfolding insert_sorted
    insert_sorted-IsSorted x [] _ = (tt, tt)
    insert_sorted-IsSorted x (y ∷ ys) (h, s) = elim (Bool-cases (less y x)) [
      | inl e ↦ rw e (
        insert_sorted-All (λ z. less z y ≡ false) x ys (order.asymm y x e) h,
        insert_sorted-IsSorted x ys s,
      )
      | inr e ↦ rw e (
        (
          e,
          All-map (λ z. less z y ≡ false) (λ z. less z x ≡ false) ys
              (λ z q. order.not_less_trans x y z e q) h,
        ),
        (h, s),
      )
    ]

    pub sort_stable-IsSorted : (xs : List A) → IsSorted (sort_stable xs)
    unfolding sort_stable
    sort_stable-IsSorted [] = tt
    sort_stable-IsSorted (x ∷ xs) =
        insert_sorted-IsSorted x (sort_stable xs) (sort_stable-IsSorted xs)

  -- A class of elements of which none is less than another keeps its order.
  module _ (p : A → Bool) (equals : (x y : A) → p x ≡ true → p y ≡ true → less y x ≡ false) where
    keep-insert_sorted : (x : A) (xs : List A) → keep p (insert_sorted x xs) ≡ keep p (x ∷ xs)
    unfolding insert_sorted
    keep-insert_sorted x [] = refl
    keep-insert_sorted x (y ∷ ys) = ground (arith, equals x y, keep-insert_sorted x ys)

    pub keep-sort_stable : (xs : List A) → keep p (sort_stable xs) ≡ keep p xs
    unfolding sort_stable
    keep-sort_stable [] = refl
    keep-sort_stable (x ∷ xs) =
        ground (arith, keep-insert_sorted x (sort_stable xs), keep-sort_stable xs)
