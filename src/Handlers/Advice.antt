-- ===== src/Handlers/Advice.antt =====
-- internal/httpapi/recommendations.go: the advice with its totals. The statistics are the store's answer.
use Prim.Native.String.{String}
use kubernetes_cost_analyzer.Common.{
  Bool, true, false, List, [], ◌∷◌, length, Result, if◌then◌else◌,
}
use kubernetes_cost_analyzer.Common.Int.{ℤ, pos}
use kubernetes_cost_analyzer.Common.Word.{add64}
use kubernetes_cost_analyzer.Numeric.Decimal.{Decimal}
use kubernetes_cost_analyzer.Numeric.Float.{Float64, FromFloat}
use kubernetes_cost_analyzer.Clock.{Time}
use kubernetes_cost_analyzer.Http.{Query}
use kubernetes_cost_analyzer.Http.Params.{ParseTime}
use kubernetes_cost_analyzer.Http.Requests.{ContainerStatsParams, stats_params}
use kubernetes_cost_analyzer.Recommend.{
  ContainerStats, Recommendation, Severity, critical, warning, info,
}
use kubernetes_cost_analyzer.Recommend.Engine.{Engine}
use kubernetes_cost_analyzer.Recommend.Analyse.{analyse}
use kubernetes_cost_analyzer.Handlers.{Response, sent, ClusterRow, validated, queried, guarded}

pub record AdviceTotals : Type 0 where
  pub potential_monthly_saving : String
  pub required_monthly_increase : String
  pub critical_count : ℤ
  pub warning_count : ℤ
  pub info_count : ℤ
  pub estimated_rates : Bool

pub record AdviceSums (D : Type 0) : Type 0 where
  pub saving : D
  pub increase : D
  pub criticals : ℤ
  pub warnings : ℤ
  pub infos : ℤ
  pub estimated : Bool

pub record RecommendationsResponse (D F : Type 0) : Type 0 where
  pub from : Time
  pub to : Time
  pub items : List (Recommendation D F)
  pub count : ℤ
  pub totals : AdviceTotals
  pub analysed_containers : ℤ

-- `n++` for the findings of a severity.
abbrev pub bump : Bool → ℤ → ℤ
bump b n = if b then add64 n (pos 1) else n

abbrev pub is_severity : Severity → Severity → Bool
is_severity critical critical = true
is_severity warning warning = true
is_severity info info = true
is_severity _ _ = false

module _ {D : Type 0} ⦃d : Decimal D⦄ where
  abbrev pub no_advice : AdviceSums D
  no_advice = record {
    saving = d.nought;
    increase = d.nought;
    criticals = pos 0;
    warnings = pos 0;
    infos = pos 0;
    estimated = false;
  }

  abbrev pub add_advice : {F : Type 0} → AdviceSums D → Recommendation D F → AdviceSums D
  add_advice s r = record {
    saving =
        if d.is_negative r.estimated_monthly_saving
        then s.saving
        else d.add s.saving r.estimated_monthly_saving;
    increase =
        if d.is_negative r.estimated_monthly_saving
        then d.add s.increase (d.neg r.estimated_monthly_saving)
        else s.increase;
    criticals = bump (is_severity r.severity critical) s.criticals;
    warnings = bump (is_severity r.severity warning) s.warnings;
    infos = bump (is_severity r.severity info) s.infos;
    estimated = if r.estimated_rates then true else s.estimated;
  }

  unfoldable pub advice_from :
      {F : Type 0} → AdviceSums D → List (Recommendation D F) → AdviceSums D
  advice_from s [] = s
  advice_from s (r ∷ rs) = advice_from (add_advice s r) rs

  unfoldable pub advice_totals : {F : Type 0} → List (Recommendation D F) → AdviceTotals
  advice_totals rs =
      let s = advice_from no_advice rs in
      record {
        potential_monthly_saving = d.string_fixed s.saving 4;
        required_monthly_increase = d.string_fixed s.increase 4;
        critical_count = s.criticals;
        warning_count = s.warnings;
        info_count = s.infos;
        estimated_rates = s.estimated;
      }

  module _ {E : Type 0} (parse : ParseTime) (now : Time) (fleet : Result E (List ClusterRow)) where
    unfoldable pub handle_recommendations :
        {F : Type 0} ⦃f : Float64 F⦄ ⦃v : FromFloat D F⦄
        → Engine F
        → (ContainerStatsParams → Result E (List (ContainerStats D F)))
        → Query
        → Response (RecommendationsResponse D F)
    handle_recommendations engine stats q = validated (stats_params parse now q) (λ p.
        guarded fleet p.filters.cluster (
          queried (stats p) "could not compute recommendations" (λ containers.
            let recs = analyse engine containers in
            sent 200 true (record {
              from = p.from;
              to = p.to;
              items = recs;
              count = pos (length recs);
              totals = advice_totals recs;
              analysed_containers = pos (length containers);
            }))))
