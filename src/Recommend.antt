-- ===== src/Recommend.antt =====
-- internal/recommend: advice from what containers were observed to use. Here the types of recommend.go,
-- and the statistics of a container, which internal/store/postgres/stats_repo.go declares.
pub mod Engine
pub mod Arithmetic
pub mod Sizing
pub mod Replicas
pub mod Analyse
pub mod Sanity
pub mod Proposals
pub mod Savings
pub mod Raises
pub mod ScaleDown
pub mod Ranking
pub mod Report
pub mod Kinds
mod Tests
use Prim.Native.String.{String}
use kubernetes_cost_analyzer.Common.{ℕ, Bool}
use kubernetes_cost_analyzer.Common.Int.{ℤ}
use kubernetes_cost_analyzer.Common.Text.{Text}
use kubernetes_cost_analyzer.Clock.{Time, Duration, sub_time}

pub data Kind : Type 0 where
  kind_right_size kind_idle kind_under_requested kind_set_requests kind_over_replicated : Kind

pub data Severity : Type 0 where
  info warning critical : Severity

pub data Confidence : Type 0 where
  low medium high : Confidence

abbrev pub severity_rank : Severity → ℕ
severity_rank critical = 0
severity_rank warning = 1
severity_rank info = 2

pub record ContainerStats (D F : Type 0) : Type 0 where
  pub namespace : String
  pub workload_kind : String
  pub workload_name : String
  pub container : String
  pub replicas : ℤ
  pub window_count : ℤ
  pub observed_from : Time
  pub observed_to : Time
  pub peak_coverage : F
  pub cpu_requested_millicores : ℤ
  pub mem_requested_bytes : ℤ
  pub cpu_avg_millicores : ℤ
  pub mem_avg_bytes : ℤ
  pub cpu_p95_millicores : ℤ
  pub mem_p95_bytes : ℤ
  pub cpu_max_millicores : ℤ
  pub mem_max_bytes : ℤ
  pub total_cost : D
  pub cpu_cost_per_core_hour : D
  pub mem_cost_per_gib_hour : D
  pub qos_class : String
  pub estimated_rates : Bool

-- `s.Duration()`.
abbrev pub duration : {D F : Type 0} → ContainerStats D F → Duration
duration s = sub_time s.observed_to s.observed_from

pub record Evidence (F : Type 0) : Type 0 where
  pub observed_from : Time
  pub observed_to : Time
  pub observed_hours : F
  pub windows : ℤ
  pub replicas : ℤ
  pub cpu_requested_millicores : ℤ
  pub cpu_avg_millicores : ℤ
  pub cpu_p95_millicores : ℤ
  pub cpu_max_millicores : ℤ
  pub mem_requested_bytes : ℤ
  pub mem_avg_bytes : ℤ
  pub mem_p95_bytes : ℤ
  pub mem_max_bytes : ℤ

pub record Recommendation (D F : Type 0) : Type 0 where
  pub kind : Kind
  pub severity : Severity
  pub confidence : Confidence
  pub namespace : String
  pub workload_kind : String
  pub workload_name : String
  pub container : String
  pub summary : Text F
  pub rationale : Text F
  pub current : Text F
  pub proposed : Text F
  pub estimated_monthly_saving : D
  pub evidence : Evidence F
  pub estimated_rates : Bool
