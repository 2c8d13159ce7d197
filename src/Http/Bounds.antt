-- ===== src/Http/Bounds.antt =====
-- What the handlers may rely on: each request that is not refused is bounded in every parameter.
use Prim.Native.String.{String}
use text.Mathlib.Text.{◌==◌ as str_eq}
use text.Mathlib.TextEquality.{eq_iff}
use kubernetes_cost_analyzer.Common.{
  ◌*◌, ◌≡◌, ◌≢◌, ◌⊎◌, inl, inr, Bool, true, Option, List, [], ◌∷◌, ok, arith, Bool-cases,
  if◌then◌else◌, joined-eq-ok, append-eq-nil, subst, sym,
}
use kubernetes_cost_analyzer.Common.Int.{ℤ, pos, ◌≤ℤ◌, ◌+ℤ◌}
use kubernetes_cost_analyzer.Common.Text.{trim_space}
use kubernetes_cost_analyzer.Clock.{Time, Duration}
use kubernetes_cost_analyzer.Clock.Spans.{sub_time_bound}
use kubernetes_cost_analyzer.Http.{Query, Checked}
use kubernetes_cost_analyzer.Http.Params.{
  ParseTime, time_range, time_range_default, limit_param, filters, day_span, max_range_days,
}
use kubernetes_cost_analyzer.Http.Limits.{limit_param_bounds, IsFiltered, filters-IsFiltered}
use kubernetes_cost_analyzer.Http.Ranges.{IsBounded, time_range-IsBounded}
use kubernetes_cost_analyzer.Http.Requests.{
  is_option, choice, group_options, sort_options, interval_options, CostSummaryParams,
  ContainerStatsParams, AllocationsParams, TrendParams, read_summary, summary_params,
  read_allocations, allocations_params, read_trend, checked_buckets, trend_params, comparison,
  descending_order,
}

-- A name is a key of an allow-list.
abbrev pub Listed : String → List String → Type 0
Listed s [] = ⊥
Listed s (o ∷ os) = (o ≡ s) ⊎ Listed s os

is_option-Listed :
    (s : String) (options : List String) → is_option s options ≡ true → Listed s options
unfolding is_option
is_option-Listed s [] h = cc
is_option-Listed s (o ∷ os) h = ground (arith, eq_iff o s, is_option-Listed s os)

pub cons_not_nil : {A : Type 0} {x : A} → x ∷ [] ≢ []
cons_not_nil h = cc

choice-Listed :
    (q : Query) (key default : String) (options : List String)
    → (choice q key default options).1 ≡ []
    → Listed (choice q key default options).0 options
unfolding choice
choice-Listed q key default options h =
    let raw = trim_space (q key) in
    let name = if str_eq raw "" then default else raw in
    elim (Bool-cases (is_option name options)) [
      | inl known ↦ rw known (is_option-Listed name options known)
      | inr unknown ↦ absurd (cons_not_nil (rw unknown at h))
    ]

-- A value of which nothing was found wrong.
clean : {A : Type 0} (m : Checked A) → m.1 ≡ [] → m ≡ (m.0, [])
clean m e = λ i. (m.0, e i)

pub clean_limit :
    (q : Query) (key : String) (default max : ℤ)
    → pos 1 ≤ℤ default
    → default ≤ℤ max
    → (limit_param q key default max).1 ≡ []
    → (pos 1 ≤ℤ (limit_param q key default max).0) × ((limit_param q key default max).0 ≤ℤ max)
clean_limit q key default max low high e =
    limit_param_bounds q key default max _ low high (clean (limit_param q key default max) e)

clean_filters : (q : Query) → (filters q).1 ≡ [] → IsFiltered (filters q).0
clean_filters q e = filters-IsFiltered q (filters q).0 (clean (filters q) e)

pub record IsSummary (p : CostSummaryParams) : Type 0 where
  pub range : IsBounded p.from p.to
  pub grouped : Listed p.group_by group_options
  pub sorted : Listed p.sort_by sort_options
  pub positive : pos 1 ≤ℤ p.limit
  pub limited : p.limit ≤ℤ pos 1000
  pub filtered : IsFiltered p.filters

pub record IsPage {C : Type 0} (p : AllocationsParams C) : Type 0 where
  pub range : IsBounded p.from p.to
  pub positive : pos 1 ≤ℤ p.limit
  pub limited : p.limit ≤ℤ pos 500
  pub filtered : IsFiltered p.filters

pub record IsStats (p : ContainerStatsParams) : Type 0 where
  pub range : IsBounded p.from p.to
  pub positive : pos 1 ≤ℤ p.limit
  pub limited : p.limit ≤ℤ pos 1000
  pub filtered : IsFiltered p.filters

-- Hourly buckets span at most 14 days.
pub record IsTrend (p : TrendParams) : Type 0 where
  pub range : IsBounded p.from p.to
  pub spaced : Listed p.interval interval_options
  pub hourly : (p.interval ≢ "hour") ⊎ (p.to ≤ℤ p.from +ℤ pos (14 * day_span))
  pub grouped : Listed p.group_by group_options
  pub positive : pos 1 ≤ℤ p.limit
  pub limited : p.limit ≤ℤ pos 100
  pub filtered : IsFiltered p.filters

module _ (parse : ParseTime) (now : Time) (q : Query) where
  clean_range :
      (span : Duration)
      → pos 1 ≤ℤ span
      → span ≤ℤ pos (max_range_days * day_span)
      → (time_range_default parse now q span).1 ≡ []
      → IsBounded
          (time_range_default parse now q span).0.0
          (time_range_default parse now q span).0.1
  clean_range span low high e =
      time_range-IsBounded parse now q span _ low high
        (clean (time_range_default parse now q span) e)

  -- A cost summary that is not refused covers a range of 1 to 400 days' length at most that is not
  -- empty, groups and sorts by listed names, returns from 1 to 1000 rows, and has filters of at most 253
  -- bytes with a capacity type that exists.
  pub summary_params-IsSummary :
      (p : CostSummaryParams) → summary_params parse now q ≡ ok p → IsSummary p
  unfolding summary_params read_summary
  summary_params-IsSummary p h =
      let (errors, value) = joined-eq-ok _ p _ h in
      let (e1, r1) = append-eq-nil (time_range parse now q).1 _ errors in
      let (e2, r2) = append-eq-nil (choice q "group_by" "namespace" group_options).1 _ r1 in
      let (e3, r3) = append-eq-nil (choice q "sort" "total_cost" sort_options).1 _ r2 in
      let (e4, r4) = append-eq-nil (descending_order q).1 _ r3 in
      let (e5, r5) = append-eq-nil (limit_param q "limit" (pos 100) (pos 1000)).1 _ r4 in
      let (e6, _) = append-eq-nil (filters q).1 _ r5 in
      let limits = clean_limit q "limit" (pos 100) (pos 1000) (omega arith) (omega arith) e5 in
      subst IsSummary value (record {
        range = clean_range _ (omega arith) (omega arith) e1;
        grouped = choice-Listed q "group_by" "namespace" group_options e2;
        sorted = choice-Listed q "sort" "total_cost" sort_options e3;
        positive = limits.0;
        limited = limits.1;
        filtered = clean_filters q e6;
      })

  -- A page of allocations that is not refused covers such a range, has such filters and holds from 1 to 500
  -- rows.
  pub allocations_params-IsPage :
      {C : Type 0} (decode : String → Option C) (p : AllocationsParams C)
      → allocations_params parse now q decode ≡ ok p
      → IsPage p
  unfolding allocations_params read_allocations
  allocations_params-IsPage decode p h =
      let (errors, value) = joined-eq-ok _ p _ h in
      let (e1, r1) = append-eq-nil (time_range parse now q).1 _ errors in
      let (e2, r2) = append-eq-nil (limit_param q "limit" (pos 100) (pos 500)).1 _ r1 in
      let (e3, _) = append-eq-nil (filters q).1 _ r2 in
      let limits = clean_limit q "limit" (pos 100) (pos 500) (omega arith) (omega arith) e2 in
      subst IsPage value (record {
        range = clean_range _ (omega arith) (omega arith) e1;
        positive = limits.0;
        limited = limits.1;
        filtered = clean_filters q e3;
      })

  -- The trend before its buckets are compared with its range.
  read_trend-IsTrend :
      (read_trend parse now q).1 ≡ []
      → let p = (read_trend parse now q).0.0 in
        ((p.interval ≢ "hour") ⊎ (p.to ≤ℤ p.from +ℤ pos (14 * day_span))) → IsTrend p
  unfolding read_trend
  read_trend-IsTrend errors hourly =
      let (e1, r1) =
        append-eq-nil (time_range_default parse now q (pos (30 * day_span))).1 _ errors in
      let (e2, r2) = append-eq-nil (choice q "interval" "day" interval_options).1 _ r1 in
      let (e3, r3) = append-eq-nil (choice q "group_by" "namespace" group_options).1 _ r2 in
      let (e4, r4) = append-eq-nil (limit_param q "limit" (pos 20) (pos 100)).1 _ r3 in
      let (e5, r5) = append-eq-nil (comparison q).1 _ r4 in
      let (e6, _) = append-eq-nil (filters q).1 _ r5 in
      let limits = clean_limit q "limit" (pos 20) (pos 100) (omega arith) (omega arith) e4 in
      record {
        range = clean_range _ (omega arith) (omega arith) e1;
        spaced = choice-Listed q "interval" "day" interval_options e2;
        hourly = hourly;
        grouped = choice-Listed q "group_by" "namespace" group_options e3;
        positive = limits.0;
        limited = limits.1;
        filtered = clean_filters q e6;
      }

checked_buckets-hourly :
    (m : Checked (TrendParams × Bool)) (r : TrendParams × Bool)
    → checked_buckets m ≡ ok r
    → (m.1 ≡ [])
      × (m.0 ≡ r)
      × ((r.0.interval ≢ "hour") ⊎ (r.0.to ≤ℤ r.0.from +ℤ pos (14 * day_span)))
unfolding checked_buckets
checked_buckets-hourly ((p, compared), []) r h =
    ground (arith, eq_iff p.interval "hour", sub_time_bound p.to p.from (pos (14 * day_span)))
checked_buckets-hourly (a, e ∷ es) r h = cc

module _ (parse : ParseTime) (now : Time) (q : Query) where
  -- A trend that is not refused covers such a range, of at most 14 days if its buckets are hours, has listed
  -- intervals and groups, from 1 to 100 series, and such filters.
  pub trend_params-IsTrend :
      (r : TrendParams × Bool) → trend_params parse now q ≡ ok r → IsTrend r.0
  unfolding trend_params
  trend_params-IsTrend r h =
      let (errors, value, hourly) = checked_buckets-hourly (read_trend parse now q) r h in
      subst (λ x. IsTrend x.0) value
        (read_trend-IsTrend parse now q errors (
          subst (λ x. (x.0.interval ≢ "hour") ⊎ (x.0.to ≤ℤ x.0.from +ℤ pos (14 * day_span)))
            (sym value) hourly))
