-- ===== src/Recommend/Engine.antt =====
-- internal/recommend/recommend.go: the thresholds, the engine with its defaults, and the parts of a
-- recommendation that every rule shares.
use kubernetes_cost_analyzer.Common.{◌*◌, Bool, ◌||◌, if◌then◌else◌}
use kubernetes_cost_analyzer.Common.Int.{ℤ, pos, lt_ℤ, le_ℤ}
use kubernetes_cost_analyzer.Common.Text.{raw}
use kubernetes_cost_analyzer.Numeric.Decimal.{Decimal}
use kubernetes_cost_analyzer.Numeric.Float.{Float64}
use kubernetes_cost_analyzer.Clock.{Duration, hour, hours}
use kubernetes_cost_analyzer.Recommend.{
  Kind, Severity, Confidence, low, medium, high, ContainerStats, duration, Evidence, Recommendation,
}

pub record Thresholds (F : Type 0) : Type 0 where
  pub min_windows : ℤ
  pub min_observation : Duration
  pub headroom_factor : F
  pub right_size_max_utilisation : F
  pub min_saving_ratio : F
  pub idle_cpu_millicores : ℤ
  pub idle_memory_bytes : ℤ
  pub idle_min_observation : Duration
  pub min_replicas_to_keep : ℤ
  pub over_replication_max_utilisation : F

pub record Engine (F : Type 0) : Type 0 where
  pub thresholds : Thresholds F

module _ {F : Type 0} ⦃f : Float64 F⦄ where
  abbrev pub default_thresholds : Thresholds F
  default_thresholds = record {
    min_windows = pos 12;
    min_observation = pos hour;
    headroom_factor = f.lit 12 1;
    right_size_max_utilisation = f.lit 5 1;
    min_saving_ratio = f.lit 10 2;
    idle_cpu_millicores = pos 1;
    idle_memory_bytes = pos (4 * 1024 * 1024);
    idle_min_observation = pos (24 * hour);
    min_replicas_to_keep = pos 2;
    over_replication_max_utilisation = f.lit 3 1;
  }

  -- A share that makes sense lies strictly between 0 and 1.
  abbrev outside_unit : F → Bool
  outside_unit x = f.fle x (f.lit 0 0) || f.fle (f.lit 1 0) x

  unfoldable pub new_engine : Thresholds F → Engine F
  new_engine t =
      let d = default_thresholds in
      record {
        thresholds = record {
          min_windows = if le_ℤ t.min_windows (pos 0) then d.min_windows else t.min_windows;
          min_observation =
              if le_ℤ t.min_observation (pos 0) then d.min_observation else t.min_observation;
          headroom_factor =
              if f.flt t.headroom_factor (f.lit 1 0) then d.headroom_factor else t.headroom_factor;
          right_size_max_utilisation =
              if outside_unit t.right_size_max_utilisation
              then d.right_size_max_utilisation
              else t.right_size_max_utilisation;
          min_saving_ratio =
              if f.flt t.min_saving_ratio (f.lit 0 0)
              then d.min_saving_ratio
              else t.min_saving_ratio;
          idle_cpu_millicores =
              if le_ℤ t.idle_cpu_millicores (pos 0)
              then d.idle_cpu_millicores
              else t.idle_cpu_millicores;
          idle_memory_bytes =
              if le_ℤ t.idle_memory_bytes (pos 0) then d.idle_memory_bytes else t.idle_memory_bytes;
          idle_min_observation =
              if le_ℤ t.idle_min_observation (pos 0)
              then d.idle_min_observation
              else t.idle_min_observation;
          min_replicas_to_keep =
              if lt_ℤ t.min_replicas_to_keep (pos 1)
              then d.min_replicas_to_keep
              else t.min_replicas_to_keep;
          over_replication_max_utilisation =
              if outside_unit t.over_replication_max_utilisation
              then d.over_replication_max_utilisation
              else t.over_replication_max_utilisation;
        };
      }

  abbrev pub evidence_for : {D : Type 0} → ContainerStats D F → Evidence F
  evidence_for s = record {
    observed_from = s.observed_from;
    observed_to = s.observed_to;
    observed_hours = hours (duration s);
    windows = s.window_count;
    replicas = s.replicas;
    cpu_requested_millicores = s.cpu_requested_millicores;
    cpu_avg_millicores = s.cpu_avg_millicores;
    cpu_p95_millicores = s.cpu_p95_millicores;
    cpu_max_millicores = s.cpu_max_millicores;
    mem_requested_bytes = s.mem_requested_bytes;
    mem_avg_bytes = s.mem_avg_bytes;
    mem_p95_bytes = s.mem_p95_bytes;
    mem_max_bytes = s.mem_max_bytes;
  }

-- The receiver's thresholds do not matter here.
unfoldable pub confidence_for : {D F : Type 0} → ContainerStats D F → Confidence
confidence_for s =
    if le_ℤ (pos (7 * 24 * hour)) (duration s)
    then high
    else if le_ℤ (pos (24 * hour)) (duration s)
    then medium
    else low

module _ {D F : Type 0} ⦃d : Decimal D⦄ ⦃f : Float64 F⦄ where
  abbrev pub base : ContainerStats D F → Kind → Severity → Recommendation D F
  base s kind sev = record {
    kind = kind;
    severity = sev;
    confidence = confidence_for s;
    namespace = s.namespace;
    workload_kind = s.workload_kind;
    workload_name = s.workload_name;
    container = s.container;
    summary = raw "";
    rationale = raw "";
    current = raw "";
    proposed = raw "";
    estimated_monthly_saving = d.nought;
    evidence = evidence_for s;
    estimated_rates = s.estimated_rates;
  }
