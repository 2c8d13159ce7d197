-- ===== src/Handlers/History.antt =====
-- internal/httpapi/trends.go: a trend with its comparison to the period before, and the monthly
-- statements, whose row is that of internal/store/postgres/monthly_report_repo.go.
use Prim.Native.String.{String}
use kubernetes_cost_analyzer.Common.{
  Bool, true, false, not, ◌&&◌, ◌||◌, Option, none, some, List, [], ◌∷◌, length, Result, ok, err,
  ◌>>=◌, if◌then◌else◌,
}
use kubernetes_cost_analyzer.Common.Int.{ℤ, pos, lt_ℤ, eq_ℤ}
use kubernetes_cost_analyzer.Common.Word.{add64, sub64}
use kubernetes_cost_analyzer.Numeric.Decimal.{Decimal}
use kubernetes_cost_analyzer.Numeric.Float.{Float64}
use kubernetes_cost_analyzer.Clock.{Time, sub_time, add_time}
use kubernetes_cost_analyzer.Rollup.Ranges.{ParseLayout}
use kubernetes_cost_analyzer.Http.{Query}
use kubernetes_cost_analyzer.Http.Params.{ParseTime}
use kubernetes_cost_analyzer.Http.Requests.{TrendParams, trend_params}
use kubernetes_cost_analyzer.Http.Months.{MonthlyReportParams, monthly_report_params}
use kubernetes_cost_analyzer.Trends.{TrendPoint, TrendSeries, TrendSource}
use kubernetes_cost_analyzer.Handlers.{Response, sent, ClusterRow, validated, queried, guarded}

pub data Note : Type 0 where
  no_note : Note
  no_previous_cost : Note
  different_windows : Note
  no_previous_data : Note

pub record TrendComparison : Type 0 where
  pub previous_from : Time
  pub previous_to : Time
  pub current : String
  pub previous : String
  pub change : String
  pub change_ratio : Option String
  pub comparable : Bool
  pub note : Note

pub record TrendResponse (D : Type 0) : Type 0 where
  pub from : Time
  pub to : Time
  pub interval : String
  pub group_by : String
  pub source : TrendSource
  pub series : List (TrendSeries D)
  pub count : ℤ
  pub comparison : Option TrendComparison

pub record MonthlyReport (D : Type 0) : Type 0 where
  pub cluster_name : String
  pub month : String
  pub scope_kind : String
  pub scope_value : String
  pub cpu_cost : D
  pub memory_cost : D
  pub total_cost : D
  pub cpu_core_hours : D
  pub mem_gib_hours : D
  pub wasted_cpu_core_hours : D
  pub wasted_mem_gib_hours : D
  pub days_with_data : ℤ
  pub days_in_month : ℤ
  pub window_count : ℤ
  pub coverage : D
  pub estimated_rates : Bool
  pub generated_at : Time
  pub finalised_at : Option Time

abbrev pub finalised : {D : Type 0} → MonthlyReport D → Bool
finalised m = elim m.finalised_at [ none ↦ false | some _ ↦ true ]

pub record MonthlyReportsResponse (D : Type 0) : Type 0 where
  pub items : List (MonthlyReport D)
  pub count : ℤ
  pub provisional : ℤ
  pub lowest_coverage : String

-- `params.From.Add(-span)` for the time span of the period: the period just before it.
unfoldable pub previous_period : TrendParams → TrendParams
previous_period p = record p {
  from = add_time p.from (sub64 (pos 0) (sub_time p.to p.from));
  to = p.from;
}

-- What a port answers to a request for a trend.
abbrev pub TrendPort : Type 0 → Type 0 → Type 0
TrendPort D E = TrendParams → Result E (List (TrendSeries D) × TrendSource)

-- The ratio of the window counts is outside 0.8 to 1.25.
abbrev pub differ : {F : Type 0} ⦃f : Float64 F⦄ → F → Bool
differ ⦃f⦄ ratio = f.flt ratio (f.lit 8 1) || f.flt (f.lit 125 2) ratio

module _ (F : Type 0) ⦃f : Float64 F⦄ where
  -- Whether the periods are comparable: the check on cost and then that on coverage, whose note takes the
  -- place of the earlier.
  unfoldable pub verdict : Bool → ℤ → ℤ → Bool × Note
  verdict positive current previous =
      let by_cost = if positive then (true, no_note) else (false, no_previous_cost) in
      if lt_ℤ (pos 0) previous && lt_ℤ (pos 0) current
      then (if differ (f.fdiv (f.of_int previous) (f.of_int current))
          then (false, different_windows)
          else by_cost)
      else if eq_ℤ previous (pos 0)
      then (false, no_previous_data)
      else by_cost

module _ {D : Type 0} ⦃d : Decimal D⦄ where
  unfoldable pub windows_of : ℤ → List (TrendPoint D) → ℤ
  windows_of n [] = n
  windows_of n (p ∷ ps) = windows_of (add64 n p.windows) ps

  -- The closure `total`: the costs of the series and the windows of their points.
  unfoldable pub total_from : D × ℤ → List (TrendSeries D) → D × ℤ
  total_from (sum, windows) [] = (sum, windows)
  total_from (sum, windows) (s ∷ ss) =
      total_from (d.add sum s.total_cost, windows_of windows s.points) ss

  abbrev pub total : List (TrendSeries D) → D × ℤ
  total = total_from (d.nought, pos 0)

  module _ (F : Type 0) ⦃f : Float64 F⦄ where
    -- `comparePreviousPeriod` once the period before is known.
    unfoldable pub compared :
        TrendParams → List (TrendSeries D) → List (TrendSeries D) → TrendComparison
    compared prev before current =
        let (now_cost, now_windows) = total current in
        let (then_cost, then_windows) = total before in
        let (comparable, note) = verdict F (d.is_positive then_cost) now_windows then_windows in
        record {
          previous_from = prev.from;
          previous_to = prev.to;
          current = d.string_fixed now_cost 10;
          previous = d.string_fixed then_cost 10;
          change = d.string_fixed (d.sub now_cost then_cost) 10;
          change_ratio =
              if d.is_positive then_cost
              then some (d.string_fixed (d.div (d.sub now_cost then_cost) then_cost) 6)
              else none;
          comparable = comparable;
          note = note;
        }

    unfoldable pub compare_previous_period :
        {E : Type 0} → TrendPort D E → TrendParams → List (TrendSeries D) → Result E TrendComparison
    compare_previous_period trends p current =
        trends (previous_period p) >>= λ before. ok (compared (previous_period p) before.0 current)

    -- A comparison that fails is left out.
    unfoldable pub comparison_of :
        {E : Type 0}
        → TrendPort D E
        → TrendParams
        → Bool
        → List (TrendSeries D)
        → Option TrendComparison
    comparison_of trends p wanted series =
        if wanted
        then elim (compare_previous_period trends p series) [ ok c ↦ some c | err e ↦ none ]
        else none

    unfoldable pub handle_trend :
        {E : Type 0}
        → ParseTime
        → Time
        → Result E (List ClusterRow)
        → TrendPort D E
        → Query
        → Response (TrendResponse D)
    handle_trend parse now fleet trends q = validated (trend_params parse now q) (λ asked.
        let p = asked.0 in
        guarded fleet p.filters.cluster (
          queried (trends p) "could not compute the trend" (λ answer. sent 200 true (record {
            from = p.from;
            to = p.to;
            interval = p.interval;
            group_by = p.group_by;
            source = answer.1;
            series = answer.0;
            count = pos (length answer.0);
            comparison = comparison_of trends p asked.1 answer.0;
          }))))

  -- The loop over the statements: how many are not final, and the least coverage.
  unfoldable pub review_from : ℤ × D → List (MonthlyReport D) → ℤ × D
  review_from (provisional, lowest) [] = (provisional, lowest)
  review_from (provisional, lowest) (m ∷ ms) =
      review_from
        (
          (if not (finalised m) then add64 provisional (pos 1) else provisional),
          (if d.less_than m.coverage lowest then m.coverage else lowest),
        )
        ms

  unfoldable pub review : List (MonthlyReport D) → ℤ × D
  review [] = (pos 0, d.nought)
  review (m ∷ ms) = review_from (pos 0, d.from_int (pos 1)) (m ∷ ms)

  unfoldable pub handle_monthly_reports :
      {E : Type 0}
      → ParseLayout
      → Time
      → (MonthlyReportParams → Result E (List (MonthlyReport D)))
      → Query
      → Response (MonthlyReportsResponse D)
  handle_monthly_reports parse now reports q = validated (monthly_report_params parse now q) (λ p.
      queried (reports p) "could not read the monthly reports" (λ items. sent 200 true (record {
        items = items;
        count = pos (length items);
        provisional = (review items).0;
        lowest_coverage = d.string_fixed (review items).1 4;
      })))
