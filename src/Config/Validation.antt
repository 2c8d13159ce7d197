-- ===== src/Config/Validation.antt =====
-- `Validate` of internal/config/config.go: every problem of a configuration, and not only the first.
use Prim.Native.String.{String}
use text.Mathlib.Text.{◌==◌ as str_eq}
use kubernetes_cost_analyzer.Common.{
  report_if, suc, ℕ, Bool, true, false, not, ◌&&◌, ◌||◌, List, [], ◌∷◌, ◌++◌, ltb,
}
use kubernetes_cost_analyzer.Common.Int.{ℤ, pos, lt_ℤ, le_ℤ}
use kubernetes_cost_analyzer.Common.Text.{chars, byte_length, trim_space}
use kubernetes_cost_analyzer.Numeric.Float.{Float64}
use kubernetes_cost_analyzer.Config.{
  Config, Problem, unknown_environment, unknown_level, blank, not_positive, negative, negative_rate,
  nonpositive_qps, keyless_production, short_key, idle_above_open, burst_below_qps,
  placeholder_name, same_address,
}

abbrev pub default_cluster_name : String
default_cluster_name = "default"

unfoldable pub is_blank : String → Bool
is_blank s = str_eq (trim_space s) ""

-- `IsProduction`.
abbrev pub is_production : {F : Type 0} → Config F → Bool
is_production c = str_eq c.env "production"

-- `if value <= 0`, for the setting of that name.
abbrev nonpositive : {F : Type 0} → String → ℤ → List (Problem F)
nonpositive name value = report_if (le_ℤ value (pos 0)) (not_positive name value)

abbrev pub no_keys : List String → Bool
no_keys [] = true
no_keys (k ∷ ks) = false

module _ {F : Type 0} where
  unfoldable pub server_problems : Config F → List (Problem F)
  server_problems c =
      report_if (not (str_eq c.env "development" || str_eq c.env "production"))
        (unknown_environment c.env)
      ++ report_if
          (not (
            str_eq c.log_level "debug"
            || str_eq c.log_level "info"
            || str_eq c.log_level "warn"
            || str_eq c.log_level "error"))
          (unknown_level c.log_level)
      ++ report_if (is_blank c.api.addr) (blank "API_HTTP_ADDR")

  unfoldable pub timeout_problems : Config F → List (Problem F)
  timeout_problems c =
      nonpositive "API_READ_TIMEOUT" c.api.read_timeout
      ++ nonpositive "API_WRITE_TIMEOUT" c.api.write_timeout
      ++ nonpositive "API_IDLE_TIMEOUT" c.api.idle_timeout
      ++ nonpositive "API_SHUTDOWN_TIMEOUT" c.api.shutdown_timeout
      ++ nonpositive "PROMETHEUS_TIMEOUT" c.prometheus.timeout
      ++ nonpositive "DB_CONN_MAX_LIFETIME" c.database.conn_max_lifetime

  -- The loop over the keys, from the one of index `i`.
  unfoldable pub short_keys : ℕ → List String → List (Problem F)
  short_keys i [] = []
  short_keys i (k ∷ ks) =
      report_if (ltb (byte_length (chars k)) 16) (short_key (pos i)) ++ short_keys (suc i) ks

  unfoldable pub database_problems : Config F → List (Problem F)
  database_problems c =
      nonpositive "DB_MAX_OPEN_CONNS" c.database.max_open_conns
      ++ report_if (lt_ℤ c.database.max_open_conns c.database.min_idle_conns)
          (idle_above_open c.database.min_idle_conns c.database.max_open_conns)
      ++ report_if (lt_ℤ c.database.min_idle_conns (pos 0))
          (negative "DB_MIN_IDLE_CONNS" c.database.min_idle_conns)

  unfoldable pub naming_problems : Config F → List (Problem F)
  naming_problems c =
      report_if (is_blank c.cluster_name) (blank "CLUSTER_NAME")
      ++ report_if (is_production c && str_eq (trim_space c.cluster_name) default_cluster_name)
          placeholder_name
      ++ report_if (is_blank c.catalogue_path) (blank "PRICING_CATALOGUE_PATH")

  unfoldable pub collector_problems : Config F → List (Problem F)
  collector_problems c =
      nonpositive "COLLECTOR_WORKERS" c.collector.workers
      ++ report_if (is_blank c.collector.http_addr) (blank "COLLECTOR_HTTP_ADDR")
      ++ report_if (lt_ℤ (pos 0) c.collector.interval && str_eq c.api.addr c.collector.http_addr)
          (same_address c.collector.http_addr)
      ++ nonpositive "COLLECTOR_INTERVAL" c.collector.interval

module _ {F : Type 0} ⦃f : Float64 F⦄ where
  unfoldable pub access_problems : Config F → List (Problem F)
  access_problems c =
      report_if (is_production c && no_keys c.api.api_keys) keyless_production
      ++ short_keys 0 c.api.api_keys
      ++ report_if (f.flt c.api.rate_limit_per_second (f.lit 0 0))
          (negative_rate c.api.rate_limit_per_second)
      ++ report_if (lt_ℤ c.api.rate_limit_burst (pos 0))
          (negative "API_RATE_LIMIT_BURST" c.api.rate_limit_burst)

  unfoldable pub kube_problems : Config F → List (Problem F)
  kube_problems c =
      nonpositive "KUBE_CACHE_SYNC_TIMEOUT" c.kube.cache_sync_timeout
      ++ report_if (f.fle c.kube.qps (f.lit 0 0)) (nonpositive_qps c.kube.qps)
      ++ report_if (lt_ℤ c.kube.burst (f.to_int c.kube.qps))
          (burst_below_qps c.kube.burst c.kube.qps)
      ++ report_if (lt_ℤ c.kube.resync_interval (pos 0))
          (negative "KUBE_RESYNC_INTERVAL" c.kube.resync_interval)

  unfoldable pub validate : Config F → List (Problem F)
  validate c =
      server_problems c
      ++ timeout_problems c
      ++ access_problems c
      ++ database_problems c
      ++ kube_problems c
      ++ naming_problems c
      ++ collector_problems c
