-- ===== src/Handlers/Comparing.antt =====
-- What a comparison with the period before compares, and when it says that the periods are comparable.
use mathlib.Core.Option.{some-injective}
use kubernetes_cost_analyzer.Common.{
  ◌^◌, ◌≡◌, ◌≢◌, ◌↔◌, ◌⊎◌, ◌∙◌, inl, inr, refl, sym, ap, subst, Bool, true, false, none, some, List,
  [], ◌∷◌, ◌++◌, concat_map, map, arith, ok, Result-cases, if◌then◌else◌,
}
use kubernetes_cost_analyzer.Common.Int.{ℤ, pos, negsuc, ◌≤ℤ◌, ◌+ℤ◌, ◌-ℤ◌, eq_of_parts, int_laws}
use kubernetes_cost_analyzer.Common.Word.{IsInt64, sub64, wrap64_id, add64}
use kubernetes_cost_analyzer.Numeric.Decimal.{Decimal}
use kubernetes_cost_analyzer.Numeric.Float.{Float64}
use kubernetes_cost_analyzer.Clock.{Time, sub_time}
use kubernetes_cost_analyzer.Clock.Spans.{sub_time_exact}
use kubernetes_cost_analyzer.Http.{Query}
use kubernetes_cost_analyzer.Http.Params.{ParseTime}
use kubernetes_cost_analyzer.Http.Ranges.{IsBounded}
use kubernetes_cost_analyzer.Http.Requests.{TrendParams, trend_params}
use kubernetes_cost_analyzer.Http.Bounds.{trend_params-IsTrend}
use kubernetes_cost_analyzer.Trends.{TrendPoint, TrendSeries, TrendSource}
use kubernetes_cost_analyzer.Handlers.Totals.{added, sum_of}
use kubernetes_cost_analyzer.Handlers.History.{
  TrendComparison, TrendPort, differ, verdict, compared, previous_period, windows_of, total_from,
  compare_previous_period, comparison_of,
}

none_not_some : {A : Type 0} {a : A} → none ≢ some a
none_not_some h = cc

short-IsInt64 : (a : ℤ) → a ≤ℤ pos 0 → pos 0 ≤ℤ a +ℤ pos (2 ^ 62) → IsInt64 a
unfolding ◌+ℤ◌
short-IsInt64 (pos n) h k = record { below = omega arith; above = omega arith }
short-IsInt64 (negsuc n) h k = record { below = omega arith; above = ground arith }

shifted :
    (from to : Time)
    → from ≤ℤ to
    → to ≤ℤ from +ℤ pos (2 ^ 62)
    → from +ℤ sub64 (pos 0) (sub_time to from) ≡ from -ℤ (to -ℤ from)
shifted from to h k =
    let back = pos 0 -ℤ (to -ℤ from) in
    let exact = wrap64_id back (short-IsInt64 back (omega int_laws) (omega int_laws)) in
    ap (λ x. from +ℤ sub64 (pos 0) x) (sub_time_exact to from h k)
    ∙ ap (λ x. from +ℤ x) exact
    ∙ omega int_laws

-- The period before is as long, and ends where the period asked for begins.
previous_period-abuts :
    (p : TrendParams)
    → IsBounded p.from p.to
    → previous_period p ≡ record p { from = p.from -ℤ (p.to -ℤ p.from); to = p.from }
unfolding previous_period
previous_period-abuts p range =
    ap (λ t. record p { from = t; to = p.from })
      (shifted p.from p.to (omega (arith, range.forward)) (omega (int_laws, range.short)))

module _ {D : Type 0} ⦃d : Decimal D⦄ where
  windows_of-append :
      (n : ℤ) (xs ys : List (TrendPoint D))
      → windows_of n (xs ++ ys) ≡ windows_of (windows_of n xs) ys
  unfolding windows_of
  windows_of-append n [] ys = refl
  windows_of-append n (x ∷ xs) ys = windows_of-append (add64 n x.windows) xs ys

  -- The sum of the series' costs, and that of the windows of all their points.
  total_from-sums :
      (sum : D) (n : ℤ) (ss : List (TrendSeries D))
      → total_from (sum, n) ss
        ≡ (added sum (map (λ s. s.total_cost) ss), windows_of n (concat_map (λ s. s.points) ss))
  unfolding total_from windows_of
  total_from-sums sum n [] = refl
  total_from-sums sum n (s ∷ ss) =
      total_from-sums (d.add sum s.total_cost) (windows_of n s.points) ss
      ∙ ap (λ w. (added (d.add sum s.total_cost) (map (λ x. x.total_cost) ss), w))
          (sym (windows_of-append n s.points (concat_map (λ x. x.points) ss)))

module _ (F : Type 0) ⦃f : Float64 F⦄ where
  -- The earlier period costs something and has windows, and where both have, their numbers are close.
  abbrev pub IsComparable : Bool → ℤ → ℤ → Type 0
  IsComparable positive current previous =
      (positive ≡ true)
      × (previous ≢ pos 0)
      × ((previous ≤ℤ pos 0)
          ⊎ ((current ≤ℤ pos 0) ⊎ (differ (f.fdiv (f.of_int previous) (f.of_int current)) ≡ false)))

  verdict-IsComparable_iff :
      (positive : Bool) (current previous : ℤ)
      → ((verdict F positive current previous).0 ≡ true) ↔ IsComparable positive current previous
  unfolding verdict
  verdict-IsComparable_iff positive current previous = ground (arith, eq_of_parts previous (pos 0))

  module _ {D : Type 0} ⦃d : Decimal D⦄ where
    abbrev pub cost_of : List (TrendSeries D) → D
    cost_of = sum_of (λ s. s.total_cost)

    -- The windows of all points, with the wrap-around of int64.
    abbrev pub windows_in : List (TrendSeries D) → ℤ
    windows_in ss = windows_of (pos 0) (concat_map (λ s. s.points) ss)

    pub record IsComparison (p : TrendParams) (before current : List (TrendSeries D))
        (c : TrendComparison) : Type 0 where
      pub abuts : c.previous_to ≡ p.from
      pub as_long : c.previous_to -ℤ c.previous_from ≡ p.to -ℤ p.from
      pub current_is : c.current ≡ d.string_fixed (cost_of current) 10
      pub previous_is : c.previous ≡ d.string_fixed (cost_of before) 10
      pub change_is : c.change ≡ d.string_fixed (d.sub (cost_of current) (cost_of before)) 10
      pub ratio_is : c.change_ratio ≡ (
          if d.is_positive (cost_of before)
          then some
              (d.string_fixed (d.div (d.sub (cost_of current) (cost_of before)) (cost_of before)) 6)
          else none)
      pub comparable_iff :
          (c.comparable ≡ true)
          ↔ IsComparable (d.is_positive (cost_of before)) (windows_in current) (windows_in before)

    compared-IsComparison :
        (p : TrendParams) (before current : List (TrendSeries D))
        → IsBounded p.from p.to
        → IsComparison p before current (compared F (previous_period p) before current)
    unfolding compared
    compared-IsComparison p before current range =
        rw
          (
            previous_period-abuts p range,
            total_from-sums d.nought (pos 0) before,
            total_from-sums d.nought (pos 0) current,
          )
          (record {
            abuts = refl;
            as_long = omega int_laws;
            current_is = refl;
            previous_is = refl;
            change_is = refl;
            ratio_is = refl;
            comparable_iff =
                verdict-IsComparable_iff (d.is_positive (cost_of before)) (windows_in current)
                  (windows_in before);
          })

    -- A valid request for a trend with a comparison, if the comparison is there, compares the series with
    -- those of the period that is just as long and ends where the one asked for begins, everything else
    -- being equal. It gives the sums of the costs of the series, their difference, and its ratio to the
    -- earlier sum if that is positive. It calls the periods comparable exactly if the earlier one costs
    -- something and has windows, and, where both have windows, the ratio of their numbers is from 0.8 to 1.25.
    pub previous_period-IsComparison :
        {E : Type 0} (parse : ParseTime) (now : Time) (q : Query) (trends : TrendPort D E)
        (p : TrendParams) (current : List (TrendSeries D)) (c : TrendComparison)
        → trend_params parse now q ≡ ok (p, true)
        → comparison_of F trends p true current ≡ some c
        → (before : List (TrendSeries D)) × (source : TrendSource) × (trends
              (record p { from = p.from -ℤ (p.to -ℤ p.from); to = p.from })
            ≡ ok (before, source))
          × IsComparison p before current c
    unfolding comparison_of compare_previous_period
    previous_period-IsComparison parse now q trends p current c valid h =
        let range = (trend_params-IsTrend parse now q (p, true) valid).range in
        elim (Result-cases (trends (previous_period p))) [
          | inl (e, fails) ↦ absurd (none_not_some (rw fails at h))
          | inr ((before, source), answers) ↦ (
            before,
            source,
            ap trends (sym (previous_period-abuts p range)) ∙ answers,
            subst (IsComparison p before current) (some-injective _ _ (rw answers at h))
                (compared-IsComparison p before current range),
          )
        ]
