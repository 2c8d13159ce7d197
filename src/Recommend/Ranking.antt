-- ===== src/Recommend/Ranking.antt =====
-- What `Analyse` promises of the order of its report.
use mathlib.Core.List.{Perm}
use kubernetes_cost_analyzer.Common.{
  ◌≡◌, ◌≤◌, ◌<◌, ◌⊎◌, [], ◌∷◌, All, All-map, Bool, true, false, not, ◌&&◌, List, concat_map, arith,
}
use kubernetes_cost_analyzer.Common.Sort.{
  keep, IsSorted, IsWeakOrder, sort_stable-perm, sort_stable-IsSorted, keep-sort_stable,
}
use kubernetes_cost_analyzer.Numeric.Decimal.{Decimal, DecimalLaws}
use kubernetes_cost_analyzer.Numeric.Float.{Float64, FromFloat}
use kubernetes_cost_analyzer.Recommend.{ContainerStats, Recommendation, severity_rank}
use kubernetes_cost_analyzer.Recommend.Engine.{Engine}
use kubernetes_cost_analyzer.Recommend.Analyse.{analyse, analyse_container, more_urgent}

neither : (a b : Bool) → (not a && not b) ≡ true → (a ≡ false) × (b ≡ false)
neither a b h = ground arith

module _ {D F : Type 0} ⦃d : Decimal D⦄ (laws : DecimalLaws D) where
  urgency_order : IsWeakOrder {A = Recommendation D F} more_urgent
  urgency_order = record {
    asymm = λ r r' h.
        ground (arith, laws.greater_asymm r.estimated_monthly_saving r'.estimated_monthly_saving);
    not_less_trans = λ r r' r'' h k. ground (
      arith,
      laws.not_greater_trans r.estimated_monthly_saving r'.estimated_monthly_saving
          r''.estimated_monthly_saving,
    );
  }

module _ {D F : Type 0} ⦃d : Decimal D⦄ where
  -- As urgent as `r`.
  abbrev pub ties : Recommendation D F → Recommendation D F → Bool
  ties r r' = not (more_urgent r r') && not (more_urgent r' r)

  -- The order a reader is promised: a graver finding first, and of one gravity the larger saving.
  abbrev pub Precedes : Recommendation D F → Recommendation D F → Type 0
  Precedes r r' =
      (severity_rank r.severity ≤ severity_rank r'.severity)
      × ((severity_rank r.severity < severity_rank r'.severity)
          ⊎ (d.greater_than r'.estimated_monthly_saving r.estimated_monthly_saving ≡ false))

  -- Every finding precedes all that come after it.
  abbrev pub IsRanked : List (Recommendation D F) → Type 0
  IsRanked [] = Unit
  IsRanked (r ∷ rs) = All (Precedes r) rs × IsRanked rs

  IsSorted-IsRanked : (rs : List (Recommendation D F)) → IsSorted more_urgent rs → IsRanked rs
  IsSorted-IsRanked [] _ = tt
  IsSorted-IsRanked (r ∷ rs) (first, rest) = (
    All-map (λ r'. more_urgent r' r ≡ false) (Precedes r) rs (λ r' h. ground arith) first,
    IsSorted-IsRanked rs rest,
  )

module _ {D F : Type 0} ⦃d : Decimal D⦄ ⦃f : Float64 F⦄ ⦃v : FromFloat D F⦄ where
  -- The report has exactly the findings of the containers; none comes before a more urgent one, by
  -- severity and then by saving; and findings that are equally urgent keep the order of the containers.
  pub analyse-IsRanked :
      (laws : DecimalLaws D) (e : Engine F) (stats : List (ContainerStats D F))
      (r : Recommendation D F)
      → IsRanked (analyse e stats)
        × Perm (analyse e stats) (concat_map (analyse_container e) stats)
        × (keep (ties r) (analyse e stats) ≡ keep (ties r) (concat_map (analyse_container e) stats))
  unfolding analyse
  analyse-IsRanked laws e stats r =
      let found = concat_map (analyse_container e) stats in
      let order = urgency_order laws in
      (
        IsSorted-IsRanked (analyse e stats) (sort_stable-IsSorted more_urgent order found),
        sort_stable-perm more_urgent found,
        keep-sort_stable more_urgent (ties r)
            (λ x y p q. order.not_less_trans x r y (neither _ _ p).0 (neither _ _ q).1) found,
      )
