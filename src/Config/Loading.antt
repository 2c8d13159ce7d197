-- ===== src/Config/Loading.antt =====
-- When `Load` succeeds, and with which settings: no text that is present is passed over for a default.
use Prim.Native.String.{String}
use kubernetes_cost_analyzer.Common.{
  ◌≡◌, ◌↔◌, ◌*◌, refl, false, Option, none, some, [], arith, ok, if◌then◌else◌,
}
use kubernetes_cost_analyzer.Common.Int.{ℤ, pos}
use kubernetes_cost_analyzer.Numeric.Float.{Float64}
use kubernetes_cost_analyzer.Clock.{Duration, second, minute}
use kubernetes_cost_analyzer.Config.{Config, Api, Database, Kube, Prometheus, Collector}
use kubernetes_cost_analyzer.Config.Validation.{default_cluster_name}
use kubernetes_cost_analyzer.Config.Loader.{
  Env, Parsers, parsed, duration, float, float32, trimmed_int, trimmed_float, read_api,
  read_database, read_kube, read_prometheus, read_collector, read_config, load,
}
use kubernetes_cost_analyzer.Config.Validity.{IsValid, validate-eq-nil_iff}
use kubernetes_cost_analyzer.Config.Settings.{
  Given, Setting, int32_of, keys_of, reading_iff, parsed-Missing, parsed_iff, str_iff, integer_iff,
  required_iff, int32_iff, csv_iff,
}

-- The settings that the environment gives, section by section.
module _ {F : Type 0} ⦃f : Float64 F⦄ (p : Parsers F) (env : Env) where
  abbrev pub float32_of : String → Option F
  float32_of raw = elim (trimmed_float p raw) [
    | none ↦ none
    | some x ↦ if p.beyond_float32 x then none else some (p.to_float32 x)
  ]

  abbrev Lasts : String → Duration → Duration → Type 0
  Lasts = Setting p.parse_duration env

  abbrev Says : String → String → String → Type 0
  Says = Setting some env

  abbrev Counts : String → ℤ → ℤ → Type 0
  Counts = Setting trimmed_int env

  pub record ApiIsRead (a : Api F) : Type 0 where
    pub addr : Says "API_HTTP_ADDR" ":8080" a.addr
    pub read : Lasts "API_READ_TIMEOUT" (pos (10 * second)) a.read_timeout
    pub write : Lasts "API_WRITE_TIMEOUT" (pos (15 * second)) a.write_timeout
    pub idle : Lasts "API_IDLE_TIMEOUT" (pos (60 * second)) a.idle_timeout
    pub shutdown : Lasts "API_SHUTDOWN_TIMEOUT" (pos (15 * second)) a.shutdown_timeout
    pub keys : Setting keys_of env "API_KEYS" [] a.api_keys
    pub rate :
        Setting
          (trimmed_float p)
          env
          "API_RATE_LIMIT_PER_SECOND"
          (f.lit 20 0)
          a.rate_limit_per_second
    pub burst : Counts "API_RATE_LIMIT_BURST" (pos 40) a.rate_limit_burst

  pub record DatabaseIsRead (d : Database) : Type 0 where
    pub url : Given env "DATABASE_URL" d.url
    pub opened : Setting int32_of env "DB_MAX_OPEN_CONNS" (pos 20) d.max_open_conns
    pub idle : Setting int32_of env "DB_MIN_IDLE_CONNS" (pos 5) d.min_idle_conns
    pub lifetime : Lasts "DB_CONN_MAX_LIFETIME" (pos (30 * minute)) d.conn_max_lifetime

  pub record KubeIsRead (k : Kube F) : Type 0 where
    pub path : Says "KUBECONFIG" "" k.config_path
    pub context : Says "KUBE_CONTEXT" "" k.context
    pub resync : Lasts "KUBE_RESYNC_INTERVAL" (pos 0) k.resync_interval
    pub sync : Lasts "KUBE_CACHE_SYNC_TIMEOUT" (pos (60 * second)) k.cache_sync_timeout
    pub qps : Setting float32_of env "KUBE_QPS" (p.to_float32 (f.lit 50 0)) k.qps
    pub burst : Counts "KUBE_BURST" (pos 100) k.burst

  pub record PrometheusIsRead (m : Prometheus) : Type 0 where
    pub url : Says "PROMETHEUS_URL" "http://localhost:19090" m.url
    pub timeout : Lasts "PROMETHEUS_TIMEOUT" (pos (30 * second)) m.timeout

  pub record CollectorIsRead (c : Collector) : Type 0 where
    pub interval : Lasts "COLLECTOR_INTERVAL" (pos (5 * minute)) c.interval
    pub addr : Says "COLLECTOR_HTTP_ADDR" ":8081" c.http_addr
    pub workers : Counts "COLLECTOR_WORKERS" (pos 4) c.workers

  pub record IsRead (c : Config F) : Type 0 where
    pub name : Says "APP_ENV" "development" c.env
    pub level : Says "LOG_LEVEL" "info" c.log_level
    pub cluster : Says "CLUSTER_NAME" default_cluster_name c.cluster_name
    pub account : Says "CLUSTER_ACCOUNT" "" c.cluster_account
    pub api : ApiIsRead c.api
    pub database : DatabaseIsRead c.database
    pub kube : KubeIsRead c.kube
    pub catalogue : Says "PRICING_CATALOGUE_PATH" "deploy/pricing/catalogue.yaml" c.catalogue_path
    pub prometheus : PrometheusIsRead c.prometheus
    pub collector : CollectorIsRead c.collector

  duration_iff :
      (key : String) (default v : Duration)
      → (duration p env key default ≡ (v, [])) ↔ Lasts key default v
  unfolding duration
  duration_iff key default v = parsed_iff env key p.parse_duration default v

  prometheus_iff : (m : Prometheus) → (read_prometheus p env ≡ (m, [])) ↔ PrometheusIsRead m
  unfolding read_prometheus
  prometheus_iff m = ground (
    arith,
    str_iff {F = F} env "PROMETHEUS_URL" "http://localhost:19090" m.url,
    duration_iff "PROMETHEUS_TIMEOUT" (pos (30 * second)) m.timeout,
  )

  float_iff :
      (key : String) (default v : F)
      → (float p env key default ≡ (v, [])) ↔ Setting (trimmed_float p) env key default v
  unfolding float
  float_iff key default v = parsed_iff env key (trimmed_float p) default v

  float32_iff :
      (key : String) (default v : F)
      → p.beyond_float32 default ≡ false
      → (float32 p env key default ≡ (v, [])) ↔ Setting float32_of env key (p.to_float32 default) v
  unfolding float32
  float32_iff key default v h =
      reading_iff env key float32_of (p.to_float32 default) v _
        (λ m. rw (parsed-Missing {F = F} env key (trimmed_float p) default m) (ground arith))
        (λ raw (e, full). unfold parsed in ground arith)

  api_iff : (a : Api F) → (read_api p env ≡ (a, [])) ↔ ApiIsRead a
  unfolding read_api
  api_iff a = ground (
    arith,
    str_iff {F = F} env "API_HTTP_ADDR" ":8080" a.addr,
    duration_iff "API_READ_TIMEOUT" (pos (10 * second)) a.read_timeout,
    duration_iff "API_WRITE_TIMEOUT" (pos (15 * second)) a.write_timeout,
    duration_iff "API_IDLE_TIMEOUT" (pos (60 * second)) a.idle_timeout,
    duration_iff "API_SHUTDOWN_TIMEOUT" (pos (15 * second)) a.shutdown_timeout,
    csv_iff {F = F} env "API_KEYS" a.api_keys,
    float_iff "API_RATE_LIMIT_PER_SECOND" (f.lit 20 0) a.rate_limit_per_second,
    integer_iff {F = F} env "API_RATE_LIMIT_BURST" (pos 40) a.rate_limit_burst,
  )

  database_iff : (d : Database) → (read_database p env ≡ (d, [])) ↔ DatabaseIsRead d
  unfolding read_database
  database_iff d = ground (
    arith,
    required_iff {F = F} env "DATABASE_URL" d.url,
    int32_iff {F = F} env "DB_MAX_OPEN_CONNS" (pos 20) d.max_open_conns refl,
    int32_iff {F = F} env "DB_MIN_IDLE_CONNS" (pos 5) d.min_idle_conns refl,
    duration_iff "DB_CONN_MAX_LIFETIME" (pos (30 * minute)) d.conn_max_lifetime,
  )

  collector_iff : (c : Collector) → (read_collector p env ≡ (c, [])) ↔ CollectorIsRead c
  unfolding read_collector
  collector_iff c = ground (
    arith,
    duration_iff "COLLECTOR_INTERVAL" (pos (5 * minute)) c.interval,
    str_iff {F = F} env "COLLECTOR_HTTP_ADDR" ":8081" c.http_addr,
    integer_iff {F = F} env "COLLECTOR_WORKERS" (pos 4) c.workers,
  )

  -- 50 is a finite float32.
  module _ (fifty : p.beyond_float32 (f.lit 50 0) ≡ false) where
    kube_iff : (k : Kube F) → (read_kube p env ≡ (k, [])) ↔ KubeIsRead k
    unfolding read_kube
    kube_iff k = ground (
      arith,
      str_iff {F = F} env "KUBECONFIG" "" k.config_path,
      str_iff {F = F} env "KUBE_CONTEXT" "" k.context,
      duration_iff "KUBE_RESYNC_INTERVAL" (pos 0) k.resync_interval,
      duration_iff "KUBE_CACHE_SYNC_TIMEOUT" (pos (60 * second)) k.cache_sync_timeout,
      float32_iff "KUBE_QPS" (f.lit 50 0) k.qps fifty,
      integer_iff {F = F} env "KUBE_BURST" (pos 100) k.burst,
    )

    config_iff : (c : Config F) → (read_config p env ≡ (c, [])) ↔ IsRead c
    unfolding read_config
    config_iff c = ground (
      arith,
      str_iff {F = F} env "APP_ENV" "development" c.env,
      str_iff {F = F} env "LOG_LEVEL" "info" c.log_level,
      str_iff {F = F} env "CLUSTER_NAME" default_cluster_name c.cluster_name,
      str_iff {F = F} env "CLUSTER_ACCOUNT" "" c.cluster_account,
      api_iff c.api,
      database_iff c.database,
      kube_iff c.kube,
      str_iff {F = F} env "PRICING_CATALOGUE_PATH" "deploy/pricing/catalogue.yaml" c.catalogue_path,
      prometheus_iff c.prometheus,
      collector_iff c.collector,
    )

    -- `Load` returns a configuration exactly if `Validate` accepts it, the database's address is given,
    -- and each setting is its variable's text parsed as a whole, or its default where the variable is
    -- absent or blank; 50 is taken to be a float32. So a text that does not parse, or a number that
    -- does not fit an int32 or a float32, is never passed over for the default or cut down.
    pub load_iff : (c : Config F) → (load p env ≡ ok c) ↔ (IsRead c × IsValid c)
    unfolding load
    load_iff c = ground (arith, config_iff c, validate-eq-nil_iff c)
