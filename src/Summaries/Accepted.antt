-- ===== src/Summaries/Accepted.antt =====
-- What the API lets through, the store accepts: the allow-lists of internal/httpapi/params.go are those of
-- report_repo.go and rollup_repo.go, so that only the database can fail a valid request.
use Prim.Native.String.{String}
use text.Mathlib.Text.{◌==◌ as str_eq}
use kubernetes_cost_analyzer.Common.{
  ◌≡◌, inl, inr, refl, arith, subst, Bool, true, false, Option, none, some, List, [], ◌∷◌, All,
  Bool-cases, ◌&&◌, ◌≢◌, ok,
}
use kubernetes_cost_analyzer.Common.Int.{ℤ, pos, ◌≤ℤ◌}
use kubernetes_cost_analyzer.Common.Maps.{Entries, lookup}
use kubernetes_cost_analyzer.Clock.{Time}
use kubernetes_cost_analyzer.Http.{Query}
use kubernetes_cost_analyzer.Http.Params.{ParseTime, Filters}
use kubernetes_cost_analyzer.Http.Requests.{
  CostSummaryParams, TrendParams, summary_params, trend_params, group_options, sort_options,
  interval_options, is_option,
}
use kubernetes_cost_analyzer.Http.Bounds.{Listed, summary_params-IsSummary, trend_params-IsTrend}
use kubernetes_cost_analyzer.Pages.Fetching.{filter_columns, nonempty, filter_pairs, filter_values}
use kubernetes_cost_analyzer.Trends.{
  TrendQuery, trend_source, top_groups, trend_filters, trend_query, group_by_columns,
}
use kubernetes_cost_analyzer.Summaries.{
  SummaryQuery, sort_expressions, summary_filters, summary_query, summary_limit, order_of,
}

false_not_true : false ≢ true
false_not_true h = cc

-- What holds of every option holds of a listed one.
Listed-All :
    (P : String → Type 0) (s : String) (options : List String)
    → All P options
    → Listed s options
    → P s
Listed-All P s [] h listed = absurd listed
Listed-All P s (o ∷ os) (p, ps) (inl e) = subst P e p
Listed-All P s (o ∷ os) (p, ps) (inr l) = Listed-All P s os ps l

-- A key of an allow-list of the store.
abbrev IsKey : {A : Type 0} → Entries A → String → Type 0
IsKey {A} table s = (a : A) × (lookup s table ≡ some a)

abbrev is_some : {A : Type 0} → Option A → Bool
is_some none = false
is_some (some a) = true

is_some-some : {A : Type 0} (o : Option A) → is_some o ≡ true → (a : A) × (o ≡ some a)
is_some-some none h = cc
is_some-some (some a) h = (a, refl)

abbrev is_known : {A : Type 0} → Entries A → String → Bool
is_known table s = is_some (lookup s table)

abbrev all_known : {A B : Type 0} → Entries A → (B → String) → List B → Bool
all_known table name [] = true
all_known table name (x ∷ xs) = is_known table (name x) && all_known table name xs

-- By a test that computes.
all_known-All :
    {A B : Type 0} (table : Entries A) (name : B → String) (xs : List B)
    → all_known table name xs ≡ true
    → All (λ x. IsKey table (name x)) xs
all_known-All table name [] h = tt
all_known-All table name (x ∷ xs) h = elim (Bool-cases (is_known table (name x))) [
  | inl e ↦ (is_some-some (lookup (name x) table) e, all_known-All table name xs (rw e at h))
  | inr e ↦ absurd (false_not_true (rw e at h))
]

Listed-IsKey :
    {A : Type 0} (table : Entries A) (s : String) (options : List String)
    → all_known table (λ o. o) options ≡ true
    → Listed s options
    → IsKey table s
Listed-IsKey table s options h =
    Listed-All (IsKey table) s options (all_known-All table (λ o. o) options h)

Listed-interval : (s : String) → Listed s interval_options → is_option s interval_options ≡ true
unfolding is_option
Listed-interval s =
    Listed-All (λ o. is_option o interval_options ≡ true) s interval_options
      (refl, (refl, (refl, (refl, tt))))

nonempty-All : (P : String × String → Type 0) (ps : Entries String) → All P ps → All P (nonempty ps)
nonempty-All P [] h = tt
nonempty-All P (p ∷ ps) (h, hs) = elim (Bool-cases (str_eq p.1 "")) [
  | inl e ↦ rw e (nonempty-All P ps hs)
  | inr e ↦ rw e (h, nonempty-All P ps hs)
]

filter_values-IsKey : (f : Filters) → All (λ p. IsKey filter_columns p.0) (filter_values f)
unfolding filter_values
filter_values-IsKey f =
    nonempty-All (λ p. IsKey filter_columns p.0) (filter_pairs f)
      (all_known-All filter_columns (λ p. p.0) (filter_pairs f) refl)

summary_filters-ok :
    {E : Type 0} (ps : Entries String)
    → All (λ p. IsKey filter_columns p.0) ps
    → (pairs : Entries String) × (summary_filters {E = E} ps ≡ ok pairs)
unfolding summary_filters
summary_filters-ok [] h = ([], refl)
summary_filters-ok {E = E} (p ∷ ps) ((column, found), known) =
    let (rest, same) = summary_filters-ok {E = E} ps known in
    ((column, p.1) ∷ rest, ground (arith, found, same))

trend_filters-ok :
    {E : Type 0} (ps : Entries String)
    → All (λ p. IsKey filter_columns p.0) ps
    → (pairs : Entries String) × (trend_filters {E = E} ps ≡ ok pairs)
unfolding trend_filters
trend_filters-ok [] h = ([], refl)
trend_filters-ok {E = E} (p ∷ ps) ((column, found), known) =
    let (rest, same) = trend_filters-ok {E = E} ps known in
    ((column, p.1) ∷ rest, ground (arith, found, same))

summary_limit-id : (n : ℤ) → pos 1 ≤ℤ n → n ≤ℤ pos 1000 → summary_limit n ≡ n
summary_limit-id n low high = ground arith

module _ {E : Type 0} (parse : ParseTime) (now : Time) where
  summary_query-ok :
      (q : Query) (p : CostSummaryParams)
      → summary_params parse now q ≡ ok p
      → (s : SummaryQuery) × (summary_query {E = E} p ≡ ok s) × (s.limit ≡ p.limit)
  unfolding summary_query
  summary_query-ok q p valid =
      let known = summary_params-IsSummary parse now q p valid in
      let (columns, grouped) =
        Listed-IsKey group_by_columns p.group_by group_options refl known.grouped in
      let (expression, sorted) =
        Listed-IsKey sort_expressions p.sort_by sort_options refl known.sorted in
      let (pairs, filtered) =
        summary_filters-ok {E = E} (filter_values p.filters) (filter_values-IsKey p.filters) in
      let query : SummaryQuery = record {
        columns = columns;
        from = p.from;
        to = p.to;
        filters = pairs;
        estimated_only = p.filters.estimated_only;
        order = order_of p.sort_by expression columns;
        descending = p.descending;
        limit = summary_limit p.limit;
      } in
      (
        query,
        ground (arith, grouped, sorted, filtered),
        summary_limit-id p.limit known.positive known.limited,
      )

  trend_query-ok :
      (q : Query) (p : TrendParams) (compared : Bool)
      → trend_params parse now q ≡ ok (p, compared)
      → (t : TrendQuery) × (trend_query {E = E} p ≡ ok t)
  unfolding trend_query
  trend_query-ok q p compared valid =
      let known = trend_params-IsTrend parse now q (p, compared) valid in
      let (columns, grouped) =
        Listed-IsKey group_by_columns p.group_by group_options refl known.grouped in
      let spaced = Listed-interval p.interval known.spaced in
      let (pairs, filtered) =
        trend_filters-ok {E = E} (filter_values p.filters) (filter_values-IsKey p.filters) in
      let query : TrendQuery = record {
        source = trend_source p.interval p.group_by;
        bucket = p.interval;
        columns = columns;
        from = p.from;
        to = p.to;
        filters = pairs;
        estimated_only = p.filters.estimated_only;
        top = top_groups p.limit;
      } in
      (query, ground (arith, spaced, grouped, filtered))

  -- What the API lets through, the store can ask: of valid parameters, neither a cost summary nor a trend is
  -- refused for its grouping, its order, its interval or a filter, so that only the database can fail; and
  -- the summary's limit is the one that was asked for.
  pub valid_params-accepted :
      (q q' : Query) (p : CostSummaryParams) (t : TrendParams) (compared : Bool)
      → summary_params parse now q ≡ ok p
      → trend_params parse now q' ≡ ok (t, compared)
      → ((s : SummaryQuery) × (summary_query {E = E} p ≡ ok s) × (s.limit ≡ p.limit))
        × ((s : TrendQuery) × (trend_query {E = E} t ≡ ok s))
  valid_params-accepted q q' p t compared valid valid' =
      (summary_query-ok q p valid, trend_query-ok q' t compared valid')
