-- ===== src/Collector/Tests.antt =====
-- A cycle of an empty cluster, one that cannot list the nodes, and a shutdown.
use Prim.Native.String.{String}
use text.Mathlib.Text.{◌==◌ as str_eq}
use kubernetes_cost_analyzer.Common.{
  ℕ, suc, ◌*◌, ◌≡◌, ◌⊎◌, refl, true, false, none, some, List, [], ◌∷◌, Result, ok, err,
}
use kubernetes_cost_analyzer.Common.Int.{ℤ, pos, ◌+ℤ◌, ◌-ℤ◌}
use kubernetes_cost_analyzer.Common.Maps.{insert}
use kubernetes_cost_analyzer.Numeric.Fixed.{Fixed, fixed_decimal}
use kubernetes_cost_analyzer.Clock.{minute, truncate}
use kubernetes_cost_analyzer.Clock.Floor.{floor_mod, floor_div}
use kubernetes_cost_analyzer.Domain.{Node}
use kubernetes_cost_analyzer.Costing.{Sources, valid, aligned_window}
use kubernetes_cost_analyzer.Costing.Collect.{price_nodes, merge_all, collect}
use kubernetes_cost_analyzer.Writer.{Statements}
use kubernetes_cost_analyzer.Writer.Persist.{write}
use kubernetes_cost_analyzer.Collector.{
  Metrics, Causes, Cycle, Event, tick, stop, classify_from, add_at, add_each, unix_seconds,
  observe_cycle, run_cycle, loop_from, collect_loop,
}
use kubernetes_cost_analyzer.Collector.Freshness.{due, Ran, IsTruthful, IsEnd, collect_loop-Ran}

abbrev causes : Causes String
causes = record {
  is_canceled = λ e. str_eq e "context canceled";
  is_deadline = λ e. str_eq e "context deadline exceeded";
}

-- The database is the number of its statements.
abbrev statement : ℕ → Result String ℤ × ℕ
statement n = (ok (pos n), suc n)

abbrev db : Statements Fixed ℕ String
db = record {
  upsert_cluster = λ c. statement;
  upsert_node = λ i n. statement;
  upsert_namespace = λ i n. statement;
  upsert_workload = λ i j w. statement;
  upsert_pod = λ p. statement;
  send_batch = λ rows n. (ok tt, suc n);
  begin = λ n. none;
  commit = λ before n. (none, n);
}

abbrev sources : Result String (List Node) → Sources Fixed String
sources nodes = record {
  nodes = nodes;
  namespaces = ok [];
  pods = λ name. ok [];
  container_usage = λ name start end. err "down";
  rates_for = λ n. err "no price";
}

abbrev cycle : ℤ → Result String (List Node) → Cycle Fixed String
cycle at nodes = record {
  now = at;
  took = pos 5;
  finished = at +ℤ pos 5;
  engine = record { cluster_name = "dev"; sources = sources nodes; workers = pos 4 };
  schedule = λ namespaces. namespaces;
  ctx_err = none;
  writer = record {
    cluster_name = "dev";
    cluster_account = "";
    currency = "EUR";
    nodes = ok [];
    namespaces = ok [];
  };
  fallback_count = pos 0;
}

abbrev blank : Metrics
blank = record {
  cycles = [];
  durations = [];
  allocations = 0;
  namespace_errors = [];
  last_success = none;
  fallback_priced_nodes = pos 0;
}

abbrev quiet : Cycle Fixed String
quiet = cycle (pos (20 * minute)) (ok [])

abbrev broken : Cycle Fixed String
broken = cycle (pos (25 * minute)) (err "no connection")

abbrev events : List (Event Fixed String)
events = tick broken ∷ stop "context canceled" ∷ tick quiet ∷ []

-- The second cycle fails, and the timestamp stays that of the first.
goes_on : collect_loop causes db (pos (5 * minute)) true quiet events (0, blank) ≡ (
  some none,
  0,
  record {
    cycles = ("success", 1) ∷ ("failed", 1) ∷ [];
    durations = pos 5 ∷ pos 5 ∷ [];
    allocations = 0;
    namespace_errors = [];
    last_success = some (pos 1200 -ℤ pos 62_135_596_800);
    fallback_priced_nodes = pos 0;
  },
)
unfolding collect_loop loop_from run_cycle observe_cycle unix_seconds floor_div add_at add_each
    insert collect valid aligned_window truncate floor_mod price_nodes merge_all write classify_from
    ◌+ℤ◌ ◌-ℤ◌
goes_on = refl

collect_loop-Ran_example :
    let out = collect_loop causes db (pos (5 * minute)) true quiet events (0, blank) in
    Ran causes db (pos (5 * minute)) (due true quiet events) 0 blank out.1 out.2
    × IsTruthful causes db (pos (5 * minute)) (due true quiet events) none out.2.last_success
    × ((true ≡ false) ⊎ IsEnd causes db (pos (5 * minute)) events out.0)
collect_loop-Ran_example = collect_loop-Ran causes db (pos (5 * minute)) true quiet events 0 blank
