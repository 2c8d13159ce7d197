-- ===== src/Recommend/Analyse.antt =====
-- internal/recommend/recommend.go: all rules on one container, and the report on all of them.
use kubernetes_cost_analyzer.Common.{
  Bool, ◌||◌, ◌==◌, ltb, if◌then◌else◌, Option, none, some, List, [], ◌∷◌, ◌++◌, concat_map,
}
use kubernetes_cost_analyzer.Common.Int.{lt_ℤ}
use kubernetes_cost_analyzer.Common.Sort.{sort_stable}
use kubernetes_cost_analyzer.Numeric.Decimal.{Decimal}
use kubernetes_cost_analyzer.Numeric.Float.{Float64, FromFloat}
use kubernetes_cost_analyzer.Recommend.{ContainerStats, duration, Recommendation, severity_rank}
use kubernetes_cost_analyzer.Recommend.Engine.{Engine}
use kubernetes_cost_analyzer.Recommend.Sizing.{set_requests, idle, right_size, under_requested}
use kubernetes_cost_analyzer.Recommend.Replicas.{over_replicated}

-- What a rule appends.
abbrev pub optional {ℓ} : {A : Type ℓ} → Option A → List A
optional none = []
optional (some a) = a ∷ []

-- `if r, ok := …; ok`: a finding in place of what else there would be.
abbrev pub first_of {ℓ} : {A : Type ℓ} → Option A → List A → List A
first_of none others = others
first_of (some a) others = a ∷ []

module _ {D F : Type 0} ⦃d : Decimal D⦄ ⦃f : Float64 F⦄ ⦃v : FromFloat D F⦄ where
  -- An idle container is not also reported as oversized.
  unfoldable pub idle_or_oversized : Engine F → ContainerStats D F → List (Recommendation D F)
  idle_or_oversized e s = first_of (idle e s) (optional (right_size e s))

  unfoldable pub lacks_evidence : Engine F → ContainerStats D F → Bool
  lacks_evidence e s =
      lt_ℤ s.window_count e.thresholds.min_windows || lt_ℤ (duration s) e.thresholds.min_observation

  unfoldable pub analyse_container : Engine F → ContainerStats D F → List (Recommendation D F)
  analyse_container e s =
      if lacks_evidence e s
      then []
      else first_of (set_requests e s) (
          idle_or_oversized e s ++ optional (under_requested e s) ++ optional (over_replicated e s))

module _ {D F : Type 0} ⦃d : Decimal D⦄ where
  -- The `less` of the sort: by severity, then the larger saving first.
  abbrev pub more_urgent : Recommendation D F → Recommendation D F → Bool
  more_urgent r r' =
      if severity_rank r.severity == severity_rank r'.severity
      then d.greater_than r.estimated_monthly_saving r'.estimated_monthly_saving
      else ltb (severity_rank r.severity) (severity_rank r'.severity)

module _ {D F : Type 0} ⦃d : Decimal D⦄ ⦃f : Float64 F⦄ ⦃v : FromFloat D F⦄ where
  unfoldable pub analyse : Engine F → List (ContainerStats D F) → List (Recommendation D F)
  analyse e stats = sort_stable more_urgent (concat_map (analyse_container e) stats)
