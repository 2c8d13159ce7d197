-- ===== src/Handlers/Currency.antt =====
-- No answer with money mixes currencies: the handlers that consult the guard of clusters.go.
use Prim.Native.String.{String}
use kubernetes_cost_analyzer.Common.{
  ◌≡◌, ◌↔◌, refl, sym, ap, ◌∙◌, subst, Bool, true, false, Option, none, some, List, Result, ok, err,
  ok-injective,
}
use kubernetes_cost_analyzer.Numeric.Decimal.{Decimal}
use kubernetes_cost_analyzer.Numeric.Float.{Float64, FromFloat}
use kubernetes_cost_analyzer.Clock.{Time}
use kubernetes_cost_analyzer.Http.{FieldError, Query}
use kubernetes_cost_analyzer.Http.Params.{Filters, ParseTime}
use kubernetes_cost_analyzer.Http.Requests.{
  CostSummaryParams, AllocationsParams, ContainerStatsParams, summary_params, allocations_params,
  stats_params, trend_params,
}
use kubernetes_cost_analyzer.Pages.{Cursor, AllocationsPage}
use kubernetes_cost_analyzer.Recommend.{ContainerStats}
use kubernetes_cost_analyzer.Recommend.Engine.{Engine}
use kubernetes_cost_analyzer.Handlers.Costs.{
  CostSummaryRow, handle_cost_summary, handle_allocations,
}
use kubernetes_cost_analyzer.Handlers.Advice.{handle_recommendations}
use kubernetes_cost_analyzer.Handlers.History.{TrendPort, handle_trend}
use kubernetes_cost_analyzer.Handlers.{
  ClusterRow, Response, sent, guard_currency, guarded, after_guard, Refusal, mixed, checking,
  failed, validated, queried,
}
use kubernetes_cost_analyzer.Handlers.Fleet.{IsOneCurrency, guard_currency-none_iff}

abbrev pub is_sent : {B : Type 0} → Response B → Bool
is_sent (sent _ _ _) = true
is_sent (failed _ _ _ _) = false

after_guard-sent_iff :
    {E B : Type 0} (guard : Option (Refusal E)) (answer : Response B)
    → (is_sent (after_guard guard answer) ≡ true) ↔ ((guard ≡ none) × (is_sent answer ≡ true))
after_guard-sent_iff none answer = (λ h. (refl, h), λ (_, h). h)
after_guard-sent_iff (some (mixed currencies)) answer = (λ h. cc, λ (h, _). cc)
after_guard-sent_iff (some (checking e)) answer = (λ h. cc, λ (h, _). cc)

queried-sent_iff :
    {E A B : Type 0} (answer : Result E A) (text : String) (make : A → B)
    → (is_sent (queried answer text (λ a. sent 200 true (make a))) ≡ true)
      ↔ ((a : A) × (answer ≡ ok a))
queried-sent_iff (ok a) text make = (λ _. (a, refl), λ _. refl)
queried-sent_iff (err e) text make = (λ h. cc, λ (a, h). cc)

-- The request is valid, the store answers it, and no two currencies meet.
abbrev pub Succeeds :
    {E P A : Type 0}
    → Result (List FieldError) P
    → (P → Filters)
    → (P → Result E A)
    → Result E (List ClusterRow)
    → Type 0
Succeeds {P = P} {A = A} params filters_of port fleet =
    (p : P) × (a : A) × (params ≡ ok p)
    × (port p ≡ ok a)
    × IsOneCurrency fleet (filters_of p).cluster

-- The shape of a handler that consults the guard.
handler-sent_iff :
    {E P A B : Type 0} (params : Result (List FieldError) P) (filters_of : P → Filters)
    (port : P → Result E A) (fleet : Result E (List ClusterRow)) (text : String) (make : P → A → B)
    → (is_sent (
          validated params (λ p.
            guarded fleet
              (filters_of p).cluster
              (queried (port p) text (λ a. sent 200 true (make p a)))))
        ≡ true)
      ↔ Succeeds params filters_of port fleet
unfolding guarded
handler-sent_iff (err fields) filters_of port fleet text make =
    (λ h. cc, λ (p, a, valid, answers, one). cc)
handler-sent_iff {A = A} {B = B} (ok p) filters_of port fleet text make =
    let cluster = (filters_of p).cluster in
    let answer : Response B = queried (port p) text (λ a. sent 200 true (make p a)) in
    let (passes, back) = after_guard-sent_iff (guard_currency fleet cluster) answer in
    let (found, answers) = queried-sent_iff (port p) text (make p) in
    let (one, none_of) = guard_currency-none_iff fleet cluster in
    (
      λ h. let (free, sends) = passes h in let (a, e) = found sends in (p, a, refl, e, one free),
      λ (p', a, valid, e, one').
          let same = ok-injective valid in
          let one_p : IsOneCurrency fleet cluster =
            subst (λ x. IsOneCurrency fleet (filters_of x).cluster) (sym same) one' in
          back (none_of one_p, answers (a, ap port same ∙ e)),
    )

module _ {D F E : Type 0} ⦃d : Decimal D⦄ ⦃f : Float64 F⦄ ⦃v : FromFloat D F⦄ (parse : ParseTime)
    (now : Time) (fleet : Result E (List ClusterRow))
    (summaries : CostSummaryParams → Result E (List (CostSummaryRow D)))
    (decode : String → Option Cursor)
    (pages : AllocationsParams Cursor → Result E (AllocationsPage D)) (engine : Engine F)
    (stats : ContainerStatsParams → Result E (List (ContainerStats D F))) (trends : TrendPort D E)
    (q : Query) where
  -- Each of the four endpoints that add up or list money answers a request exactly if its parameters are
  -- valid, the store answers the query that they make, and no two currencies can meet: the query is of one
  -- cluster, or the fleet could be listed and all its clusters that have a currency have the same one. A
  -- comparison of a trend that fails is no obstacle.
  pub cost_answers-IsOneCurrency :
      ((is_sent (handle_cost_summary parse now fleet summaries q) ≡ true)
        ↔ Succeeds (summary_params parse now q) (λ p. p.filters) summaries fleet)
      × ((is_sent (handle_allocations parse now fleet decode pages q) ≡ true)
          ↔ Succeeds (allocations_params parse now q decode) (λ p. p.filters) pages fleet)
      × ((is_sent (handle_recommendations parse now fleet engine stats q) ≡ true)
          ↔ Succeeds (stats_params parse now q) (λ p. p.filters) stats fleet)
      × ((is_sent (handle_trend F parse now fleet trends q) ≡ true)
          ↔ Succeeds (trend_params parse now q) (λ p. p.0.filters) (λ p. trends p.0) fleet)
  unfolding handle_cost_summary handle_allocations handle_recommendations handle_trend
  cost_answers-IsOneCurrency = (
    handler-sent_iff (summary_params parse now q) (λ p. p.filters) summaries fleet _ _,
    handler-sent_iff (allocations_params parse now q decode) (λ p. p.filters) pages fleet _ _,
    handler-sent_iff (stats_params parse now q) (λ p. p.filters) stats fleet _ _,
    handler-sent_iff (trend_params parse now q) (λ p. p.0.filters) (λ p. trends p.0) fleet _ _,
  )
