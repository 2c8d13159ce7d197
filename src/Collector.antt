-- ===== src/Collector.antt =====
-- cmd/collector/main.go: cycles of collecting and writing, their outcomes in the metrics of
-- internal/metrics, and the loop. The clock's readings and what else a cycle meets are given with it.
pub mod Cycles
pub mod Freshness
mod Tests
use Prim.Native.String.{String}
use text.Mathlib.Text.{◌==◌ as str_eq}
use kubernetes_cost_analyzer.Common.{
  ℕ, ◌+◌, ◌*◌, Bool, true, false, not, Option, none, some, List, [], ◌∷◌, length, Result, ok, err,
  if◌then◌else◌,
}
use kubernetes_cost_analyzer.Common.Int.{ℤ, pos, ◌-ℤ◌}
use kubernetes_cost_analyzer.Common.Maps.{Entries, lookup, insert}
use kubernetes_cost_analyzer.Numeric.Decimal.{Decimal}
use kubernetes_cost_analyzer.Clock.{Time, Duration, second, add_time}
use kubernetes_cost_analyzer.Clock.Floor.{floor_div}
use kubernetes_cost_analyzer.Domain.{Namespace}
use kubernetes_cost_analyzer.Costing.{Window, Engine, aligned_window}
use kubernetes_cost_analyzer.Costing.Collect.{
  Collected, CollectError, invalid_window, listing_nodes, listing_namespaces, cancelled,
  NamespaceError, listing_pods, querying_usage, collect,
}
use kubernetes_cost_analyzer.Writer.{Statements, WriteError}
use kubernetes_cost_analyzer.Writer.Persist.{Writer, write}

-- The metrics of internal/metrics that a cycle moves: counters by label, the durations observed, and the
-- gauges.
pub record Metrics : Type 0 where
  pub cycles : Entries ℕ
  pub durations : List Duration
  pub allocations : ℕ
  pub namespace_errors : Entries ℕ
  pub last_success : Option ℤ
  pub fallback_priced_nodes : ℤ

abbrev pub outcome_success : String
outcome_success = "success"

abbrev pub outcome_partial : String
outcome_partial = "partial"

abbrev pub outcome_failed : String
outcome_failed = "failed"

-- `counter.WithLabelValues(label).Add(n)`; a series starts at zero.
unfoldable pub add_at : String → ℕ → Entries ℕ → Entries ℕ
add_at label n counters = elim (lookup label counters) [
  | none ↦ insert label n counters
  | some m ↦ insert label (m + n) counters
]

unfoldable pub add_each : Entries ℕ → Entries ℕ → Entries ℕ
add_each [] counters = counters
add_each (p ∷ ps) counters = add_each ps (add_at p.0 p.1 counters)

-- `Time.Unix`: whole seconds since 1970, rounded down; the year 1970 starts 62_135_596_800 seconds after
-- the zero time.
unfoldable pub unix_seconds : Time → ℤ
unix_seconds t = floor_div t second -ℤ pos 62_135_596_800

-- `ObserveCycle`, when the clock reads `finished`.
unfoldable pub observe_cycle : String → Duration → ℕ → Entries ℕ → Time → Metrics → Metrics
observe_cycle outcome took rows_written errors finished m = record m {
  cycles = add_at outcome 1 m.cycles;
  durations = took ∷ m.durations;
  allocations = m.allocations + rows_written;
  namespace_errors = add_each errors m.namespace_errors;
  last_success =
      if str_eq outcome outcome_success then some (unix_seconds finished) else m.last_success;
}

-- `errors.Is(err, context.Canceled)` and `context.DeadlineExceeded` on what others return.
pub record Causes (E : Type 0) : Type 0 where
  pub is_canceled : E → Bool
  pub is_deadline : E → Bool

module _ {E : Type 0} (causes : Causes E) where
  -- Whether a collection failed because the context was cancelled; its errors wrap others.
  abbrev pub is_cancellation : CollectError E → Bool
  is_cancellation (invalid_window w) = false
  is_cancellation (listing_nodes e) = causes.is_canceled e
  is_cancellation (listing_namespaces e) = causes.is_canceled e
  is_cancellation (cancelled e) = causes.is_canceled e

  abbrev cause_of : NamespaceError E → E
  cause_of (listing_pods e) = e
  cause_of (querying_usage e) = e

  unfoldable pub classify_error : NamespaceError E → String
  classify_error e =
      if causes.is_deadline (cause_of e)
      then "timeout"
      else if causes.is_canceled (cause_of e)
      then "cancelled"
      else "other"

  unfoldable pub classify_from : Entries ℕ → Entries (NamespaceError E) → Entries ℕ
  classify_from out [] = out
  classify_from out (p ∷ ps) = classify_from (add_at (classify_error p.1) 1 out) ps

  abbrev pub classify_namespace_errors : Entries (NamespaceError E) → Entries ℕ
  classify_namespace_errors = classify_from []

abbrev pub scrape_lag : ℕ
scrape_lag = 90 * second

-- What a cycle meets: when it starts, how long it takes and when it ends, the sources, the order of the
-- namespaces, the context's error, the inventory for the writer, and the nodes priced by the fallback.
pub record Cycle (D E : Type 0) : Type 0 where
  pub now : Time
  pub took : Duration
  pub finished : Time
  pub engine : Engine D E
  pub schedule : List Namespace → List Namespace
  pub ctx_err : Option E
  pub writer : Writer E
  pub fallback_count : ℤ

abbrev pub cycle_window : {D E : Type 0} → Duration → Cycle D E → Window
cycle_window interval c = aligned_window (add_time c.now (pos 0 -ℤ pos scrape_lag)) interval

abbrev pub outcome_of : {A : Type 0} → List A → String
outcome_of [] = outcome_success
outcome_of (e ∷ es) = outcome_partial

module _ {D E : Type 0} where
  abbrev pub observe_failure : Cycle D E → Metrics → Metrics
  observe_failure c = observe_cycle outcome_failed c.took 0 [] c.finished

module _ {D E : Type 0} (causes : Causes E) where
  -- The metrics of a cycle whose rows were written.
  abbrev pub observe_written : Cycle D E → Collected D E → Metrics → Metrics
  observe_written c result m =
      record (observe_cycle (outcome_of result.namespace_errors) c.took (length result.allocations)
        (classify_namespace_errors causes result.namespace_errors) c.finished m) {
          fallback_priced_nodes = c.fallback_count;
        }

  -- After the write, whose outcome is given with the database.
  abbrev pub conclude :
      {S : Type 0}
      → Cycle D E
      → Collected D E
      → Metrics
      → Result (WriteError E) (Unit {0}) × S
      → S × Metrics
  conclude c result m (ok _, s) = (s, observe_written c result m)
  conclude c result m (err _, s) = (s, observe_failure c m)

-- What the loop wakes up for: a tick, or the end of the context with its error.
pub data Event (D E : Type 0) : Type 0 where
  tick : Cycle D E → Event D E
  stop : E → Event D E

module _ {D S E : Type 0} ⦃d : Decimal D⦄ (causes : Causes E) (db : Statements D S E)
    (interval : Duration) where
  -- After the collection, whose outcome is given.
  abbrev pub settle :
      Cycle D E → S → Metrics → Result (CollectError E) (Collected D E) → S × Metrics
  settle c s m (err e) = if is_cancellation causes e then (s, m) else (s, observe_failure c m)
  settle c s m (ok result) = conclude causes c result m (write db c.writer result.allocations s)

  unfoldable pub run_cycle : Cycle D E → S × Metrics → S × Metrics
  run_cycle c (s, m) =
      settle c s m (collect c.schedule c.ctx_err c.engine (cycle_window interval c))

  -- The error of the loop, if it ended, and what is left.
  unfoldable pub loop_from : List (Event D E) → S × Metrics → Option (Option E) × S × Metrics
  loop_from [] w = (none, w.0, w.1)
  loop_from (tick c ∷ events) w = loop_from events (run_cycle c w)
  loop_from (stop e ∷ events) w = (some (if causes.is_canceled e then none else some e), w.0, w.1)

  -- The first cycle waits for the caches only: without them there is none.
  unfoldable pub collect_loop :
      Bool → Cycle D E → List (Event D E) → S × Metrics → Option (Option E) × S × Metrics
  collect_loop synced first events w =
      if synced then loop_from events (run_cycle first w) else (some none, w.0, w.1)
