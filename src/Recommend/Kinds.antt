-- ===== src/Recommend/Kinds.antt =====
-- Which findings on one container may come together.
use mathlib.Core.List.{map-append}
use kubernetes_cost_analyzer.Common.{
  ◌≡◌, refl, ap, Bool, true, false, Option, none, some, List, [], ◌∷◌, ◌++◌, map, ◌⊎◌, inl, inr,
  if◌then◌else◌, Bool-cases,
}
use kubernetes_cost_analyzer.Numeric.Decimal.{Decimal}
use kubernetes_cost_analyzer.Numeric.Float.{Float64, FromFloat}
use kubernetes_cost_analyzer.Recommend.{
  ContainerStats, Recommendation, Kind, kind_right_size, kind_idle, kind_under_requested,
  kind_set_requests, kind_over_replicated,
}
use kubernetes_cost_analyzer.Recommend.Engine.{Engine}
use kubernetes_cost_analyzer.Recommend.Sizing.{set_requests, idle, right_size, under_requested}
use kubernetes_cost_analyzer.Recommend.Replicas.{over_replicated}
use kubernetes_cost_analyzer.Recommend.Analyse.{
  optional, first_of, idle_or_oversized, lacks_evidence, analyse_container,
}
use kubernetes_cost_analyzer.Recommend.Report.{
  set_requests-kind, idle-kind, right_size-kind, under_requested-kind, over_replicated-kind,
}

-- What a report may say about the size of a container that requests something.
pub data SizeFinding : Type 0 where
  fitting deletable oversized : SizeFinding

abbrev pub size_kinds : SizeFinding → List Kind
size_kinds fitting = []
size_kinds deletable = kind_idle ∷ []
size_kinds oversized = kind_right_size ∷ []

abbrev pub only_if : Bool → Kind → List Kind
only_if b k = if b then k ∷ [] else []

-- The missing requests alone, or one finding on the size, then the shortage, then the replicas.
abbrev pub IsReport : List Kind → Type 0
IsReport kinds =
    (kinds ≡ [])
    ⊎ (kinds ≡ kind_set_requests ∷ [])
    ⊎ ((size : SizeFinding) × (under : Bool) × (over : Bool) × (kinds
          ≡ size_kinds size
            ++ only_if under kind_under_requested
            ++ only_if over kind_over_replicated))

-- The kinds of a list of findings.
abbrev pub kinds_of : {D F : Type 0} → List (Recommendation D F) → List Kind
kinds_of rs = map (λ r. r.kind) rs

module _ {D F : Type 0} where
  optional-kinds :
      (k : Kind) (o : Option (Recommendation D F))
      → ((r : Recommendation D F) → o ≡ some r → r.kind ≡ k)
      → (b : Bool) × (kinds_of (optional o) ≡ only_if b k)
  optional-kinds k none fired = (false, refl)
  optional-kinds k (some r) fired = (true, ap (λ x. x ∷ []) (fired r refl))

  -- The findings on the size, from their rules' results.
  sized :
      (o p : Option (Recommendation D F))
      → ((r : Recommendation D F) → o ≡ some r → r.kind ≡ kind_idle)
      → ((r : Recommendation D F) → p ≡ some r → r.kind ≡ kind_right_size)
      → (size : SizeFinding) × (kinds_of (first_of o (optional p)) ≡ size_kinds size)
  sized none none is_idle is_large = (fitting, refl)
  sized none (some r) is_idle is_large = (oversized, ap (λ x. x ∷ []) (is_large r refl))
  sized (some r) p is_idle is_large = (deletable, ap (λ x. x ∷ []) (is_idle r refl))

  joined :
      (xs ys zs : List (Recommendation D F)) {ks ls ms : List Kind}
      → kinds_of xs ≡ ks
      → kinds_of ys ≡ ls
      → kinds_of zs ≡ ms
      → kinds_of (xs ++ ys ++ zs) ≡ ks ++ ls ++ ms
  joined xs ys zs ek el em =
      let split = map-append (λ (r : Recommendation D F). r.kind) xs ys in
      let split_last = map-append (λ (r : Recommendation D F). r.kind) (xs ++ ys) zs in cc

  first_of-kinds :
      (o : Option (Recommendation D F)) (others : List (Recommendation D F))
      → ((r : Recommendation D F) → o ≡ some r → r.kind ≡ kind_set_requests)
      → IsReport (kinds_of others)
      → IsReport (kinds_of (first_of o others))
  first_of-kinds none others _ h = h
  first_of-kinds (some r) others is_missing h = inr (inl (ap (λ x. x ∷ []) (is_missing r refl)))

module _ {D F : Type 0} ⦃d : Decimal D⦄ ⦃f : Float64 F⦄ ⦃v : FromFloat D F⦄ where
  -- A report on one container is empty, or says that requests are missing and nothing else, or has at
  -- most one finding on its size, idle or oversized but not both, then at most one each on a shortage
  -- and on the replicas.
  pub analyse_container-IsReport :
      (e : Engine F) (s : ContainerStats D F) → IsReport (kinds_of (analyse_container e s))
  unfolding analyse_container idle_or_oversized
  analyse_container-IsReport e s = elim (Bool-cases (lacks_evidence e s)) [
    | inl short ↦ rw short (inl refl)
    | inr seen ↦
        let (size, size_e) =
          sized (idle e s) (right_size e s) (λ r h. (idle-kind e s r h).0)
            (λ r h. (right_size-kind e s r h).0) in
        let (under, under_e) =
          optional-kinds kind_under_requested (under_requested e s)
            (λ r h. (under_requested-kind e s r h).0) in
        let (over, over_e) =
          optional-kinds kind_over_replicated (over_replicated e s)
            (λ r h. (over_replicated-kind e s r h).0) in
        rw seen (
          first_of-kinds (set_requests e s) _ (λ r h. (set_requests-kind e s r h).0)
            (inr (inr (size, under, over, joined _ _ _ size_e under_e over_e))))
  ]
