-- ===== src/Http/Statements.antt =====
-- What a request for monthly statements is bounded by.
use text.Mathlib.TextEquality.{eq_iff}
use kubernetes_cost_analyzer.Common.{
  ◌*◌, ◌≡◌, ◌⊎◌, inl, inr, [], ◌∷◌, ok, arith, Bool-cases, ltb, joined-eq-ok, append-eq-nil, subst,
}
use kubernetes_cost_analyzer.Common.Int.{pos, negsuc, ◌≤ℤ◌, ◌+ℤ◌, lt_ℤ}
use kubernetes_cost_analyzer.Common.Text.{trim_space, chars, byte_length}
use kubernetes_cost_analyzer.Clock.{Time, hour, sub_time}
use kubernetes_cost_analyzer.Clock.Spans.{sub_time_bound}
use kubernetes_cost_analyzer.Http.{Query, Checked}
use kubernetes_cost_analyzer.Http.Params.{limit_param, day_span}
use kubernetes_cost_analyzer.Http.Limits.{IsName}
use kubernetes_cost_analyzer.Http.Bounds.{Listed, cons_not_nil, clean_limit}
use kubernetes_cost_analyzer.Http.Months.{
  MonthlyReportParams, scopes, month_param, checked_months, chosen_months, months_range,
  scope_param, scope_value_param, read_months, monthly_report_params,
}
use kubernetes_cost_analyzer.Rollup.Dates.{Month}
use kubernetes_cost_analyzer.Rollup.Ranges.{ParseLayout, month_of, add_date}

-- Months in order, and not too many.
pub record IsMonths (from to : Month) : Type 0 where
  pub ordered : from.start ≤ℤ to.start
  pub spanned : to.start ≤ℤ from.start +ℤ pos (60 * 31 * day_span)

pub record IsStatements (p : MonthlyReportParams) : Type 0 where
  pub months : IsMonths p.from p.to
  pub scoped : (p.scope_kind ≡ "") ⊎ Listed p.scope_kind scopes
  pub valued : IsName p.scope_value
  pub positive : pos 1 ≤ℤ p.limit
  pub limited : p.limit ≤ℤ pos 1000

module _ (parse : ParseLayout) (now : Time) (q : Query) where
  checked_months-IsMonths :
      (from to : Month)
      → (checked_months parse now q from to).1 ≡ []
      → IsMonths (checked_months parse now q from to).0.0 (checked_months parse now q from to).0.1
  unfolding checked_months
  checked_months-IsMonths from to h = elim (Bool-cases (lt_ℤ to.start from.start)) [
    | inl early ↦ absurd (cons_not_nil (rw early at h))
    | inr late ↦
        elim (Bool-cases (lt_ℤ (pos (60 * 31 * 24 * hour)) (sub_time to.start from.start))) [
          | inl long ↦ absurd (cons_not_nil (rw (late, long) at h))
          | inr short ↦
              rw (late, short)
                (record {
                  ordered = ground arith;
                  spanned = sub_time_bound to.start from.start _ (omega arith) (omega arith) short;
                })
        ]
  ]

  -- By what was found wrong with each of the two.
  range_cases :
      (from to : Checked Month)
      → (chosen_months parse now q from to).1 ≡ []
      → IsMonths (chosen_months parse now q from to).0.0 (chosen_months parse now q from to).0.1
  unfolding chosen_months
  range_cases (from, []) (to, []) h = checked_months-IsMonths from to h
  range_cases (from, []) (to, e ∷ es) h = cc
  range_cases (from, e ∷ es) to h = cc

  months_range-IsMonths :
      (months_range parse now q).1 ≡ []
      → IsMonths (months_range parse now q).0.0 (months_range parse now q).0.1
  unfolding months_range
  months_range-IsMonths =
      range_cases
        (month_param parse now q "from" (month_of (add_date now (pos 0) (negsuc 10) (pos 0))))
        (month_param parse now q "to" (month_of now))

  scope_param-Listed :
      (scope_param parse now q).1 ≡ []
      → ((scope_param parse now q).0 ≡ "") ⊎ Listed (scope_param parse now q).0 scopes
  unfolding scope_param
  scope_param-Listed h =
      let kind = trim_space (q "scope_kind") in
      ground
        (arith, eq_iff kind "", eq_iff kind "cluster", eq_iff kind "namespace", eq_iff kind "team")

  scope_value-IsName :
      (scope_value_param parse now q).1 ≡ [] → IsName (scope_value_param parse now q).0
  unfolding scope_value_param
  scope_value-IsName h =
      elim (Bool-cases (ltb 253 (byte_length (chars (trim_space (q "scope_value")))))) [
        | inl long ↦ absurd (cons_not_nil (rw long at h))
        | inr short ↦ rw short (ground arith)
      ]

  -- A request for monthly statements that is not refused asks for two months of which the second is not
  -- before the first and starts at most 1860 days after it, for a known scope or any, with a value of at most
  -- 253 bytes, and for 1 to 1000 rows.
  pub monthly_params-IsStatements :
      (p : MonthlyReportParams) → monthly_report_params parse now q ≡ ok p → IsStatements p
  unfolding monthly_report_params read_months
  monthly_params-IsStatements p h =
      let (errors, value) = joined-eq-ok _ p _ h in
      let (e1, r1) = append-eq-nil (months_range parse now q).1 _ errors in
      let (e2, r2) = append-eq-nil (scope_param parse now q).1 _ r1 in
      let (e3, r3) = append-eq-nil (scope_value_param parse now q).1 _ r2 in
      let (e4, _) = append-eq-nil (limit_param q "limit" (pos 100) (pos 1000)).1 _ r3 in
      let limits = clean_limit q "limit" (pos 100) (pos 1000) (omega arith) (omega arith) e4 in
      subst IsStatements value (record {
        months = months_range-IsMonths e1;
        scoped = scope_param-Listed e2;
        valued = scope_value-IsName e3;
        positive = limits.0;
        limited = limits.1;
      })
