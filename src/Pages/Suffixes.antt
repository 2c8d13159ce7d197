-- ===== src/Pages/Suffixes.antt =====
-- Lists that are cut at an element: how a page and its cursor divide the rows that are left.
use kubernetes_cost_analyzer.Common.{
  ℕ, zero, suc, ◌≤◌, ◌<◌, ◌≡◌, refl, ap, Bool, true, false, some, List, [], ◌∷◌, ◌++◌, length, All,
  arith,
}
use kubernetes_cost_analyzer.Common.Sort.{keep}
use kubernetes_cost_analyzer.Pages.Fetching.{take, get_elem?}

module _ {ℓ} {A : Type ℓ} where
  pub take_all : (n : ℕ) (xs : List A) → length xs ≤ n → take n xs ≡ xs
  take_all zero [] h = refl
  take_all zero (x ∷ xs) h = absurd (omega arith)
  take_all (suc n) [] h = refl
  take_all (suc n) (x ∷ xs) h = ap (λ t. x ∷ t) (take_all n xs (omega arith))

  pub length-take : (n : ℕ) (xs : List A) → n ≤ length xs → length (take n xs) ≡ n
  length-take zero xs h = refl
  length-take (suc n) [] h = absurd (omega arith)
  length-take (suc n) (x ∷ xs) h = omega (arith, length-take n xs)

  pub take_cut :
      (zs : List A) (x : A) (rest : List A)
      → take (suc (length zs)) (take (suc (suc (length zs))) (zs ++ x ∷ rest)) ≡ zs ++ x ∷ []
  take_cut [] x [] = refl
  take_cut [] x (y ∷ ys) = refl
  take_cut (z ∷ zs) x rest = ap (λ t. z ∷ t) (take_cut zs x rest)

  pub get_elem?_cut : (zs : List A) (x : A) → get_elem? (zs ++ x ∷ []) (length zs) ≡ some x
  get_elem?_cut [] x = refl
  get_elem?_cut (z ∷ zs) x = get_elem?_cut zs x

  -- A list that is longer is cut behind so many elements and one more.
  pub record Division (k : ℕ) (ys : List A) : Type ℓ where
    pub front : List A
    pub last : A
    pub rest : List A
    pub joined : ys ≡ front ++ last ∷ rest
    pub measured : length front ≡ k

  pub cut_at : (k : ℕ) (ys : List A) → k < length ys → Division k ys
  cut_at k [] h = absurd (omega arith)
  cut_at zero (y ∷ ys) h = record {
    front = [];
    last = y;
    rest = ys;
    joined = refl;
    measured = refl;
  }
  cut_at (suc k) (y ∷ ys) h =
      let c = cut_at k ys (omega arith) in
      record {
        front = y ∷ c.front;
        last = c.last;
        rest = c.rest;
        joined = ap (λ t. y ∷ t) c.joined;
        measured = omega (arith, c.measured);
      }

  pub All-last :
      (P : A → Type 0) (zs : List A) (x : A) (rest : List A) → All P (zs ++ x ∷ rest) → P x
  All-last P [] x rest (p, _) = p
  All-last P (z ∷ zs) x rest (_, ps) = All-last P zs x rest ps

  module _ (below : A → A → Bool) where
    -- Every element is below all before it, and none of those is below it.
    abbrev pub IsDescending : List A → Type 0
    IsDescending [] = Unit
    IsDescending (x ∷ xs) = All (λ y. (below y x ≡ true) × (below x y ≡ false)) xs × IsDescending xs

    keep_whole :
        (x : A) (ys : List A)
        → All (λ y. (below y x ≡ true) × (below x y ≡ false)) ys
        → keep (λ y. below y x) ys ≡ ys
    keep_whole x [] h = refl
    keep_whole x (y ∷ ys) (h, hs) = rw (h.0, keep_whole x ys hs) refl

    -- The elements below one are those behind it.
    pub keep_below :
        (irreflexive : (y : A) → below y y ≡ false) (zs : List A) (x : A) (rest : List A)
        → IsDescending (zs ++ x ∷ rest)
        → keep (λ y. below y x) (zs ++ x ∷ rest) ≡ rest
    keep_below irreflexive [] x rest (h, _) = rw (irreflexive x) (keep_whole x rest h)
    keep_below irreflexive (z ∷ zs) x rest (h, hs) =
        let above = All-last (λ y. (below y z ≡ true) × (below z y ≡ false)) zs x rest h in
        rw above.1 (keep_below irreflexive zs x rest hs)
