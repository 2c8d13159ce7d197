-- ===== src/Collector/Cycles.antt =====
-- What one cycle does to the database and to the metrics.
use kubernetes_cost_analyzer.Common.{
  ◌≡◌, ◌⊎◌, inl, inr, refl, true, false, [], Result, ok, err, Bool-cases,
}
use kubernetes_cost_analyzer.Numeric.Decimal.{Decimal}
use kubernetes_cost_analyzer.Clock.{Duration}
use kubernetes_cost_analyzer.Costing.Collect.{Collected, CollectError, collect}
use kubernetes_cost_analyzer.Writer.{Statements, WriteError, committing}
use kubernetes_cost_analyzer.Writer.Persist.{write}
use kubernetes_cost_analyzer.Writer.Atomicity.{Outcome, IsWritten, write-Outcome}
use kubernetes_cost_analyzer.Collector.{
  Metrics, Causes, Cycle, cycle_window, is_cancellation, observe_failure, observe_written, conclude,
  settle, run_cycle,
}

module _ {D S E : Type 0} ⦃d : Decimal D⦄ (causes : Causes E) (db : Statements D S E)
    (interval : Duration) where
  abbrev pub collected : Cycle D E → Result (CollectError E) (Collected D E)
  collected c = collect c.schedule c.ctx_err c.engine (cycle_window interval c)

  -- The rows of a collection are in the database, or there were none.
  abbrev pub AreWritten : Cycle D E → Collected D E → S → S → Type 0
  AreWritten c result s s' =
      ((result.allocations ≡ []) × (s' ≡ s)) ⊎ IsWritten db c.writer result.allocations s s'

  -- The ways in which a cycle ends, from one state to the next.
  pub data Ends (c : Cycle D E) (s : S) (m : Metrics) : S → Metrics → Type 0 where
    interrupted :
        (e : CollectError E)
        → collected c ≡ err e
        → is_cancellation causes e ≡ true
        → Ends c s m s m
    not_collected :
        (e : CollectError E)
        → collected c ≡ err e
        → is_cancellation causes e ≡ false
        → Ends c s m s (observe_failure c m)
    not_written :
        (result : Collected D E) (e : WriteError E) (s' : S)
        → collected c ≡ ok result
        → write db c.writer result.allocations s ≡ (err e, s')
        → ((s' ≡ s) ⊎ ((cause : E) × (e ≡ committing cause)))
        → Ends c s m s' (observe_failure c m)
    complete :
        (result : Collected D E) (s' : S)
        → collected c ≡ ok result
        → write db c.writer result.allocations s ≡ (ok tt, s')
        → AreWritten c result s s'
        → Ends c s m s' (observe_written causes c result m)

  conclude-Ends :
      (c : Cycle D E) (result : Collected D E) (s : S) (m : Metrics)
      (out : Result (WriteError E) (Unit {0}) × S)
      → collected c ≡ ok result
      → write db c.writer result.allocations s ≡ out
      → Outcome db c.writer result.allocations s out
      → Ends c s m (conclude causes c result m out).0 (conclude causes c result m out).1
  conclude-Ends c result s m (ok u, s') done wrote written = complete result s' done wrote written
  conclude-Ends c result s m (err (committing cause), s') done fails _ =
      not_written result (committing cause) s' done fails (inr (cause, refl))
  conclude-Ends c result s m (err e, s') done fails same =
      not_written result e s' done fails (inl same)

  settle-Ends :
      (c : Cycle D E) (s : S) (m : Metrics) (out : Result (CollectError E) (Collected D E))
      → collected c ≡ out
      → Ends c s m (settle causes db interval c s m out).0 (settle causes db interval c s m out).1
  settle-Ends c s m (err e) fails = elim (Bool-cases (is_cancellation causes e)) [
    | inl shut ↦ rw shut (interrupted e fails shut)
    | inr broken ↦ rw broken (not_collected e fails broken)
  ]
  settle-Ends c s m (ok result) done =
      conclude-Ends c result s m (write db c.writer result.allocations s) done refl
        (write-Outcome db c.writer result.allocations s)

  pub run_cycle-Ends :
      (c : Cycle D E) (s : S) (m : Metrics)
      → Ends c s m
          (run_cycle causes db interval c (s, m)).0
          (run_cycle causes db interval c (s, m)).1
  unfolding run_cycle
  run_cycle-Ends c s m = settle-Ends c s m (collected c) refl
