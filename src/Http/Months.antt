-- ===== src/Http/Months.antt =====
-- `monthlyReportParams` of internal/httpapi/params.go: a request for monthly statements.
use Prim.Native.String.{String}
use text.Mathlib.Text.{◌==◌ as str_eq}
use kubernetes_cost_analyzer.Common.{
  ℕ, ◌*◌, ◌||◌, List, [], ◌∷◌, ◌++◌, Result, ok, err, joined, ltb, if◌then◌else◌,
}
use kubernetes_cost_analyzer.Common.Int.{ℤ, pos, negsuc, lt_ℤ}
use kubernetes_cost_analyzer.Common.Text.{trim_space, chars, byte_length}
use kubernetes_cost_analyzer.Clock.{Time, hour, sub_time}
use kubernetes_cost_analyzer.Http.{
  Query, FieldError, Checked, ◌>>=◌, pure, complain, not_a_month, before_from, too_many_months,
  not_one_of, longer_than_name,
}
use kubernetes_cost_analyzer.Http.Params.{limit_param}
use kubernetes_cost_analyzer.Rollup.Dates.{Month}
use kubernetes_cost_analyzer.Rollup.Ranges.{ParseLayout, month_of, add_date, parse_month}

abbrev pub max_report_months : ℕ
max_report_months = 60

abbrev pub scopes : List String
scopes = "cluster" ∷ "namespace" ∷ "team" ∷ []

pub record MonthlyReportParams : Type 0 where
  pub from : Month
  pub to : Month
  pub scope_kind : String
  pub scope_value : String
  pub limit : ℤ

module _ (parse : ParseLayout) (now : Time) (q : Query) where
  -- A month, or the default where the parameter is blank.
  unfoldable pub month_param : String → Month → Checked Month
  month_param key default =
      let raw = trim_space (q key) in
      if str_eq raw ""
      then pure default
      else elim (parse_month parse raw) [ err e ↦ complain key not_a_month default | ok m ↦ pure m ]

  -- The checks of two months that were read without a problem.
  unfoldable pub checked_months : Month → Month → Checked (Month × Month)
  checked_months from to =
      if lt_ℤ to.start from.start
      then complain "to" before_from (from, to)
      else if lt_ℤ (pos (max_report_months * 31 * 24 * hour)) (sub_time to.start from.start)
      then complain "from" too_many_months (from, to)
      else pure (from, to)

  -- The months are compared where neither has a problem.
  unfoldable pub chosen_months : Checked Month → Checked Month → Checked (Month × Month)
  chosen_months (from, []) (to, []) = checked_months from to
  chosen_months (from, es) (to, es') = ((from, to), es ++ es')

  unfoldable pub months_range : Checked (Month × Month)
  months_range =
      chosen_months (month_param "from" (month_of (add_date now (pos 0) (negsuc 10) (pos 0))))
        (month_param "to" (month_of now))

  unfoldable pub scope_param : Checked String
  scope_param =
      let kind = trim_space (q "scope_kind") in
      if str_eq kind "" || str_eq kind "cluster" || str_eq kind "namespace" || str_eq kind "team"
      then pure kind
      else complain "scope_kind" (not_one_of scopes) kind

  unfoldable pub scope_value_param : Checked String
  scope_value_param =
      let value = trim_space (q "scope_value") in
      if ltb 253 (byte_length (chars value))
      then complain "scope_value" longer_than_name value
      else pure value

  unfoldable pub read_months : Checked MonthlyReportParams
  read_months = do
    months ← months_range
    scope_kind ← scope_param
    scope_value ← scope_value_param
    limit ← limit_param q "limit" (pos 100) (pos 1000)
    pure (record {
      from = months.0;
      to = months.1;
      scope_kind = scope_kind;
      scope_value = scope_value;
      limit = limit;
    })

  unfoldable pub monthly_report_params : Result (List FieldError) MonthlyReportParams
  monthly_report_params = joined read_months.0 read_months.1
