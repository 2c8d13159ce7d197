-- ===== src/Recommend/Tests.antt =====
-- A container at full size, a starved one and an idle one, and the theorems at them.
use Prim.Native.String.{String}
use mathlib.Core.List.{Perm}
use kubernetes_cost_analyzer.Common.{
  ℕ, ◌*◌, ◌^◌, ◌≤◌, ◌<◌, ◌≡◌, ◌≢◌, ◌↔◌, ◌⊎◌, refl, true, false, some, [], ◌∷◌, All, concat_map,
  arith,
}
use kubernetes_cost_analyzer.Common.Int.{pos, ◌≤ℤ◌, ◌+ℤ◌, ◌-ℤ◌, ◌*ℤ◌, quot}
use kubernetes_cost_analyzer.Common.Word.{wrap64, sub64}
use kubernetes_cost_analyzer.Common.Sort.{keep, sort_stable}
use kubernetes_cost_analyzer.Common.Text.{sprintf, int, done}
use kubernetes_cost_analyzer.Numeric.Decimal.{IsNonneg}
use kubernetes_cost_analyzer.Numeric.Fixed.{
  nano_order, Fixed, Nano, fixed_decimal, nano_float, nano_to_fixed, Fixed-laws, Nano-laws,
}
use kubernetes_cost_analyzer.Clock.{hour, hours, sub_time}
use kubernetes_cost_analyzer.Recommend.{
  ContainerStats, Recommendation, kind_idle, kind_over_replicated, kind_right_size,
  kind_set_requests, kind_under_requested, critical,
}
use kubernetes_cost_analyzer.Recommend.Engine.{
  Engine, default_thresholds, new_engine, confidence_for,
}
use kubernetes_cost_analyzer.Recommend.Arithmetic.{
  ratio, replica_count_is_tunable, proposed_cpu, round_up_mib, proposed_memory, monthly_cost_of,
  human_bytes, change_summary, mib,
}
use kubernetes_cost_analyzer.Recommend.Sizing.{
  set_requests, idle, reduced_cpu, reduced_memory, right_size_saving, is_trivial, right_size,
  raised_cpu, raised_memory, extra, under_requested, cpu_over, mem_over, cpu_under, mem_under,
}
use kubernetes_cost_analyzer.Recommend.Replicas.{
  per_replica_capacity, needed_replicas, proposed_replicas, over_replicated,
}
use kubernetes_cost_analyzer.Recommend.Analyse.{
  idle_or_oversized, lacks_evidence, analyse_container, analyse,
}
use kubernetes_cost_analyzer.Recommend.Sanity.{IsSane, new_engine-IsSane}
use kubernetes_cost_analyzer.Recommend.Proposals.{
  IsMeasured, proposed_cpu_margin, proposed_memory_margin,
}
use kubernetes_cost_analyzer.Recommend.Savings.{IsRecorded, right_size_saves}
use kubernetes_cost_analyzer.Recommend.Raises.{under_requested_costs}
use kubernetes_cost_analyzer.Recommend.ScaleDown.{IsTunable, IsLight, over_replicated_bounds}
use kubernetes_cost_analyzer.Recommend.Ranking.{IsRanked, ties, analyse-IsRanked}
use kubernetes_cost_analyzer.Recommend.Report.{IsJustified, analyse_container-IsJustified}
use kubernetes_cost_analyzer.Recommend.Kinds.{IsReport, kinds_of, analyse_container-IsReport}

recommend_code : Unit {0}
unfolding new_engine confidence_for ratio replica_count_is_tunable proposed_cpu round_up_mib
    proposed_memory monthly_cost_of human_bytes change_summary set_requests idle reduced_cpu
    reduced_memory right_size_saving is_trivial right_size raised_cpu raised_memory extra
    under_requested per_replica_capacity needed_replicas proposed_replicas over_replicated
    idle_or_oversized lacks_evidence analyse_container analyse sort_stable sub_time hours wrap64
    quot ◌+ℤ◌ ◌-ℤ◌ ◌*ℤ◌
recommend_code = tt

abbrev nano : ℕ
nano = 10 ^ 9

abbrev engine : Engine Nano
engine = record { thresholds = default_thresholds }

-- Requests, 95th percentiles and peaks of CPU and memory over 48 hours.
abbrev stats : String → ℕ → ℕ → ℕ → ℕ → ℕ → ContainerStats Fixed Nano
stats name cpu_request mem_request cpu_p95 mem_p95 replicas = record {
  namespace = "shop";
  workload_kind = "Deployment";
  workload_name = name;
  container = name;
  replicas = pos replicas;
  window_count = pos 576;
  observed_from = pos 0;
  observed_to = pos (48 * hour);
  peak_coverage = nano;
  cpu_requested_millicores = pos cpu_request;
  mem_requested_bytes = pos (mem_request * mib);
  cpu_avg_millicores = pos cpu_p95;
  mem_avg_bytes = pos (mem_p95 * mib);
  cpu_p95_millicores = pos cpu_p95;
  mem_p95_bytes = pos (mem_p95 * mib);
  cpu_max_millicores = pos cpu_p95;
  mem_max_bytes = pos (mem_p95 * mib);
  total_cost = pos 0;
  cpu_cost_per_core_hour = pos 33_600_000_000_000_000;
  mem_cost_per_gib_hour = pos 3_600_000_000_000_000;
  qos_class = "Burstable";
  estimated_rates = false;
}

abbrev large : ContainerStats Fixed Nano
large = stats "large" 500 512 20 100 6

abbrev starved : ContainerStats Fixed Nano
starved = stats "starved" 100 64 150 100 2

abbrev idle_one : ContainerStats Fixed Nano
idle_one = stats "idle" 100 64 0 1 1

abbrev undeclared : ContainerStats Fixed Nano
undeclared = stats "undeclared" 0 0 3 40 1

kinds_of-large :
    kinds_of (analyse_container engine large) ≡ kind_right_size ∷ kind_over_replicated ∷ []
unfolding recommend_code
kinds_of-large = refl

kinds_of-idle : kinds_of (analyse_container engine idle_one) ≡ kind_idle ∷ []
unfolding recommend_code
kinds_of-idle = refl

kinds_of-undeclared : kinds_of (analyse_container engine undeclared) ≡ kind_set_requests ∷ []
unfolding recommend_code
kinds_of-undeclared = refl

-- The starved container comes first, and the saving on replicas before the one on requests.
ranked :
    kinds_of (analyse engine (idle_one ∷ large ∷ starved ∷ []))
    ≡ kind_under_requested ∷ kind_over_replicated ∷ kind_right_size ∷ kind_idle ∷ []
unfolding recommend_code
ranked = refl

three_millicores : proposed_cpu engine (stats "worker" 100 64 3 40 1) ≡ pos 4
unfolding recommend_code
three_millicores = refl

new_engine-IsSane_example :
    IsSane engine.thresholds (new_engine engine.thresholds).thresholds
    × (new_engine (new_engine engine.thresholds).thresholds ≡ new_engine engine.thresholds)
new_engine-IsSane_example = new_engine-IsSane Nano-laws nano_order engine.thresholds

large-IsMeasured : IsMeasured engine large.cpu_p95_millicores
large-IsMeasured = record {
  amount = 20;
  is_amount = refl;
  exact = omega arith;
  headroom = refl;
  below = refl;
  fits = omega arith;
}

starved-IsMeasured : IsMeasured engine starved.cpu_p95_millicores
starved-IsMeasured = record {
  amount = 150;
  is_amount = refl;
  exact = omega arith;
  headroom = refl;
  below = refl;
  fits = omega arith;
}

memory-IsMeasured : IsMeasured engine starved.mem_p95_bytes
memory-IsMeasured = record {
  amount = 100 * mib;
  is_amount = refl;
  exact = omega arith;
  headroom = refl;
  below = refl;
  fits = omega arith;
}

proposed_cpu_margin_holds :
    (pos 1 ≤ℤ proposed_cpu engine large) × (pos 20 ≤ℤ proposed_cpu engine large)
proposed_cpu_margin_holds = proposed_cpu_margin Nano-laws engine large large-IsMeasured

proposed_memory_margin_holds :
    (pos (16 * mib) ≤ℤ proposed_memory engine starved)
    × (starved.mem_p95_bytes ≤ℤ proposed_memory engine starved)
    × ((n : ℕ) × (proposed_memory engine starved ≡ pos (n * mib)))
proposed_memory_margin_holds = proposed_memory_margin Nano-laws engine starved memory-IsMeasured

large-IsRecorded : IsRecorded large
large-IsRecorded = record {
  cpu_counted = omega arith;
  cpu_in_range = omega arith;
  memory_counted = omega arith;
  memory_in_range = omega arith;
  pods_counted = omega arith;
  cpu_priced = refl;
  memory_priced = refl;
}

starved-IsRecorded : IsRecorded starved
starved-IsRecorded = record {
  cpu_counted = omega arith;
  cpu_in_range = omega arith;
  memory_counted = omega arith;
  memory_in_range = omega arith;
  pods_counted = omega arith;
  cpu_priced = refl;
  memory_priced = refl;
}

-- The findings of the two.
resized : (r : Recommendation Fixed Nano) × (right_size engine large ≡ some r)
unfolding recommend_code
resized = (_, refl)

raised : (r : Recommendation Fixed Nano) × (under_requested engine starved ≡ some r)
unfolding recommend_code
raised = (_, refl)

scaled : (r : Recommendation Fixed Nano) × (over_replicated engine large ≡ some r)
unfolding recommend_code
scaled = (_, refl)

right_size_saves_example :
    (reduced_cpu engine large ≤ℤ pos 500)
    × (reduced_memory engine large ≤ℤ pos (512 * mib))
    × ((large.cpu_requested_millicores ≡ pos 0) ⊎ (pos 1 ≤ℤ reduced_cpu engine large))
    × ((large.mem_requested_bytes ≡ pos 0) ⊎ (pos 1 ≤ℤ reduced_memory engine large))
    × (resized.0.proposed
        ≡ change_summary
            (cpu_over engine large)
            (mem_over engine large)
            (reduced_cpu engine large)
            (reduced_memory engine large))
    × IsNonneg resized.0.estimated_monthly_saving
right_size_saves_example =
    right_size_saves Fixed-laws engine large resized.0 large-IsRecorded resized.1

under_requested_costs_example :
    (pos 100 ≤ℤ raised_cpu engine starved)
    × (pos (64 * mib) ≤ℤ raised_memory engine starved)
    × ((cpu_under starved ≡ false) ⊎ (pos 150 ≤ℤ raised_cpu engine starved))
    × ((mem_under starved ≡ false) ⊎ (pos (100 * mib) ≤ℤ raised_memory engine starved))
    × (raised.0.proposed
        ≡ change_summary
            (cpu_under starved)
            (mem_under starved)
            (raised_cpu engine starved)
            (raised_memory engine starved))
    × (raised.0.current
        ≡ change_summary (cpu_under starved) (mem_under starved) (pos 100) (pos (64 * mib)))
    × (fixed_decimal.is_positive raised.0.estimated_monthly_saving ≡ false)
    × (raised.0.severity ≡ critical ↔ mem_under starved ≡ true)
under_requested_costs_example =
    under_requested_costs Fixed-laws Nano-laws engine starved raised.0 starved-IsRecorded
      starved-IsMeasured memory-IsMeasured raised.1

over_replicated_bounds_example :
    IsTunable "Deployment"
    × (pos 500 ≢ pos 0)
    × IsLight (pos 20) (pos 500) (default_thresholds {F = Nano}).over_replication_max_utilisation
    × ((n : ℕ) × (pos 2 ≤ℤ pos n)
        × (n < 6)
        × (20 * 6 ≤ n * 300)
        × (scaled.0.proposed ≡ sprintf "%d replicas" (int (pos n) done))
        × (scaled.0.estimated_monthly_saving
            ≡ fixed_decimal.mul
                (monthly_cost_of large (pos 500) (pos (512 * mib)))
                (fixed_decimal.from_int (sub64 (pos 6) (pos n)))))
over_replicated_bounds_example =
    over_replicated_bounds engine large scaled.0 20 6 299 refl refl refl (omega arith) scaled.1

analyse-IsRanked_example :
    let report = analyse engine (idle_one ∷ large ∷ []) in
    let found = concat_map (analyse_container engine) (idle_one ∷ large ∷ []) in
    IsRanked report
    × Perm report found
    × (keep (ties resized.0) report ≡ keep (ties resized.0) found)
analyse-IsRanked_example = analyse-IsRanked Fixed-laws engine (idle_one ∷ large ∷ []) resized.0

analyse_container-IsJustified_example :
    All (IsJustified engine idle_one) (analyse_container engine idle_one)
analyse_container-IsJustified_example = analyse_container-IsJustified engine idle_one

analyse_container-IsReport_example : IsReport (kinds_of (analyse_container engine large))
analyse_container-IsReport_example = analyse_container-IsReport engine large
