-- ===== src/Config.antt =====
-- internal/config/config.go: the settings of both programs and their validation. Loader reads them from
-- the environment. A float32 is a float64 that one holds.
pub mod Validation
pub mod Loader
pub mod Validity
pub mod Settings
pub mod Loading
mod Tests
use Prim.Native.String.{String}
use kubernetes_cost_analyzer.Common.{Option, List, ◌*◌}
use kubernetes_cost_analyzer.Common.Int.{ℤ}
use kubernetes_cost_analyzer.Clock.{Duration}

pub record Api (F : Type 0) : Type 0 where
  pub addr : String
  pub read_timeout : Duration
  pub write_timeout : Duration
  pub idle_timeout : Duration
  pub shutdown_timeout : Duration
  pub api_keys : List String
  pub rate_limit_per_second : F
  pub rate_limit_burst : ℤ

pub record Database : Type 0 where
  pub url : String
  pub max_open_conns : ℤ
  pub min_idle_conns : ℤ
  pub conn_max_lifetime : Duration

pub record Kube (F : Type 0) : Type 0 where
  pub config_path : String
  pub context : String
  pub resync_interval : Duration
  pub cache_sync_timeout : Duration
  pub qps : F
  pub burst : ℤ

pub record Prometheus : Type 0 where
  pub url : String
  pub timeout : Duration

pub record Collector : Type 0 where
  pub interval : Duration
  pub workers : ℤ
  pub http_addr : String

pub record Config (F : Type 0) : Type 0 where
  -- `Environment` is a string type.
  pub env : String
  pub log_level : String
  pub cluster_name : String
  pub cluster_account : String
  pub api : Api F
  pub database : Database
  pub kube : Kube F
  pub catalogue_path : String
  pub prometheus : Prometheus
  pub collector : Collector

-- The errors, by the variable that each names: those of reading, and those of `Validate`.
pub data Problem (F : Type 0) : Type 0 where
  required : String → Problem F
  malformed : String → String → Problem F
  not_int32 : String → ℤ → Problem F
  not_float32 : String → F → Problem F
  unknown_environment : String → Problem F
  unknown_level : String → Problem F
  blank : String → Problem F
  not_positive : String → ℤ → Problem F
  negative : String → ℤ → Problem F
  negative_rate : F → Problem F
  nonpositive_qps : F → Problem F
  keyless_production : Problem F
  short_key : ℤ → Problem F
  idle_above_open : ℤ → ℤ → Problem F
  burst_below_qps : ℤ → F → Problem F
  placeholder_name : Problem F
  same_address : String → Problem F
