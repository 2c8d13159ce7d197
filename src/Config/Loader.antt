-- ===== src/Config/Loader.antt =====
-- The loader and `Load` of internal/config/config.go. The environment is a partial map; a reader gives
-- its value with the errors that it appended. Durations and floats are parsed by Go's time and strconv
-- packages, whose floats are a parameter here, and so are these parsers.
use Prim.Native.String.{String}
use text.Mathlib.Text.{◌==◌ as str_eq}
use kubernetes_cost_analyzer.Common.{
  ◌-◌, ◌*◌, ◌^◌, Bool, ◌||◌, Option, none, some, List, [], ◌∷◌, ◌++◌, Result, joined, if◌then◌else◌,
}
use kubernetes_cost_analyzer.Common.Int.{ℤ, pos, negsuc, lt_ℤ}
use kubernetes_cost_analyzer.Common.Text.{trim_space, split}
use kubernetes_cost_analyzer.Common.Numerals.{parse_int}
use kubernetes_cost_analyzer.Numeric.Float.{Float64}
use kubernetes_cost_analyzer.Clock.{Duration, second, minute}
use kubernetes_cost_analyzer.Config.{
  Config, Api, Database, Kube, Prometheus, Collector, Problem, required, malformed, not_int32,
  not_float32,
}
use kubernetes_cost_analyzer.Config.Validation.{is_blank, default_cluster_name, validate}

abbrev pub Env : Type 0
Env = String → Option String

pub record Parsers (F : Type 0) : Type 0 where
  -- `time.ParseDuration` and `strconv.ParseFloat`.
  pub parse_duration : String → Option Duration
  pub parse_float : String → Option F
  -- `math.IsInf(x, 0) || math.IsNaN(x) || x > math.MaxFloat32 || x < -math.MaxFloat32`.
  pub beyond_float32 : F → Bool
  -- `float32(x)`, which rounds.
  pub to_float32 : F → F

abbrev pub Reading : Type 0 → Type 0 → Type 0
Reading F A = A × List (Problem F)

infixl 5 ◌>>=◌
abbrev pub ◌>>=◌ : {F A B : Type 0} → Reading F A → (A → Reading F B) → Reading F B
(a, es) >>= k = ((k a).0, es ++ (k a).1)

abbrev pub pure : {F A : Type 0} → A → Reading F A
pure a = (a, [])

abbrev pub trimmed_int : String → Option ℤ
trimmed_int raw = parse_int (trim_space raw)

abbrev pub beyond_int32 : ℤ → Bool
beyond_int32 n = lt_ℤ n (negsuc (2 ^ 31 - 1)) || lt_ℤ (pos (2 ^ 31 - 1)) n

-- The parts that are not blank.
unfoldable pub nonblank : List String → List String
nonblank [] = []
nonblank (p ∷ ps) = let rest = nonblank ps in if is_blank p then rest else trim_space p ∷ rest

module _ {F : Type 0} where
  -- What `duration`, `integer`, `integer64` and `float` share.
  unfoldable pub parsed : {A : Type 0} → (String → Option A) → Env → String → A → Reading F A
  parsed parse env key default = elim (env key) [
    | none ↦ (default, [])
    | some raw ↦
        if is_blank raw
        then (default, [])
        else elim (parse raw) [ none ↦ (default, malformed key raw ∷ []) | some v ↦ (v, []) ]
  ]

  unfoldable pub str : Env → String → String → Reading F String
  str env key default = elim (env key) [
    | none ↦ (default, [])
    | some v ↦ if is_blank v then (default, []) else (v, [])
  ]

  unfoldable pub required_str : Env → String → Reading F String
  required_str env key = elim (env key) [
    | none ↦ ("", required key ∷ [])
    | some v ↦ if is_blank v then ("", required key ∷ []) else (v, [])
  ]

  unfoldable pub integer : Env → String → ℤ → Reading F ℤ
  integer env key default = parsed trimmed_int env key default

  unfoldable pub int32 : Env → String → ℤ → Reading F ℤ
  int32 env key default = do
    n ← parsed trimmed_int env key default
    if beyond_int32 n then (default, not_int32 key n ∷ []) else pure n

  unfoldable pub csv : Env → String → Reading F (List String)
  csv env key = do
    raw ← str env key ""
    pure (if str_eq raw "" then [] else nonblank (split b',' raw))

abbrev pub trimmed_float : {F : Type 0} → Parsers F → String → Option F
trimmed_float p raw = p.parse_float (trim_space raw)

module _ {F : Type 0} ⦃f : Float64 F⦄ (p : Parsers F) (env : Env) where
  unfoldable pub duration : String → Duration → Reading F Duration
  duration key default = parsed p.parse_duration env key default

  unfoldable pub float : String → F → Reading F F
  float key default = parsed (trimmed_float p) env key default

  unfoldable pub float32 : String → F → Reading F F
  float32 key default = do
    x ← parsed (trimmed_float p) env key default
    if p.beyond_float32 x then (default, not_float32 key x ∷ []) else pure (p.to_float32 x)

  unfoldable pub read_api : Reading F (Api F)
  read_api = do
    addr ← str env "API_HTTP_ADDR" ":8080"
    read_timeout ← duration "API_READ_TIMEOUT" (pos (10 * second))
    write_timeout ← duration "API_WRITE_TIMEOUT" (pos (15 * second))
    idle_timeout ← duration "API_IDLE_TIMEOUT" (pos (60 * second))
    shutdown_timeout ← duration "API_SHUTDOWN_TIMEOUT" (pos (15 * second))
    api_keys ← csv env "API_KEYS"
    rate_limit_per_second ← float "API_RATE_LIMIT_PER_SECOND" (f.lit 20 0)
    rate_limit_burst ← integer env "API_RATE_LIMIT_BURST" (pos 40)
    pure (record {
      addr = addr;
      read_timeout = read_timeout;
      write_timeout = write_timeout;
      idle_timeout = idle_timeout;
      shutdown_timeout = shutdown_timeout;
      api_keys = api_keys;
      rate_limit_per_second = rate_limit_per_second;
      rate_limit_burst = rate_limit_burst;
    })

  unfoldable pub read_database : Reading F Database
  read_database = do
    url ← required_str env "DATABASE_URL"
    max_open_conns ← int32 env "DB_MAX_OPEN_CONNS" (pos 20)
    min_idle_conns ← int32 env "DB_MIN_IDLE_CONNS" (pos 5)
    conn_max_lifetime ← duration "DB_CONN_MAX_LIFETIME" (pos (30 * minute))
    pure (record {
      url = url;
      max_open_conns = max_open_conns;
      min_idle_conns = min_idle_conns;
      conn_max_lifetime = conn_max_lifetime;
    })

  unfoldable pub read_kube : Reading F (Kube F)
  read_kube = do
    config_path ← str env "KUBECONFIG" ""
    context ← str env "KUBE_CONTEXT" ""
    resync_interval ← duration "KUBE_RESYNC_INTERVAL" (pos 0)
    cache_sync_timeout ← duration "KUBE_CACHE_SYNC_TIMEOUT" (pos (60 * second))
    qps ← float32 "KUBE_QPS" (f.lit 50 0)
    burst ← integer env "KUBE_BURST" (pos 100)
    pure (record {
      config_path = config_path;
      context = context;
      resync_interval = resync_interval;
      cache_sync_timeout = cache_sync_timeout;
      qps = qps;
      burst = burst;
    })

  unfoldable pub read_prometheus : Reading F Prometheus
  read_prometheus = do
    url ← str env "PROMETHEUS_URL" "http://localhost:19090"
    timeout ← duration "PROMETHEUS_TIMEOUT" (pos (30 * second))
    pure (record { url = url; timeout = timeout })

  unfoldable pub read_collector : Reading F Collector
  read_collector = do
    interval ← duration "COLLECTOR_INTERVAL" (pos (5 * minute))
    http_addr ← str env "COLLECTOR_HTTP_ADDR" ":8081"
    workers ← integer env "COLLECTOR_WORKERS" (pos 4)
    pure (record { interval = interval; workers = workers; http_addr = http_addr })

  -- The settings before their validation.
  unfoldable pub read_config : Reading F (Config F)
  read_config = do
    name ← str env "APP_ENV" "development"
    log_level ← str env "LOG_LEVEL" "info"
    cluster_name ← str env "CLUSTER_NAME" default_cluster_name
    cluster_account ← str env "CLUSTER_ACCOUNT" ""
    api ← read_api
    database ← read_database
    kube ← read_kube
    catalogue_path ← str env "PRICING_CATALOGUE_PATH" "deploy/pricing/catalogue.yaml"
    prometheus ← read_prometheus
    collector ← read_collector
    pure (record {
      env = name;
      log_level = log_level;
      cluster_name = cluster_name;
      cluster_account = cluster_account;
      api = api;
      database = database;
      kube = kube;
      catalogue_path = catalogue_path;
      prometheus = prometheus;
      collector = collector;
    })

  -- The problems of reading and those of validation together.
  unfoldable pub load : Result (List (Problem F)) (Config F)
  load = let (cfg, problems) = read_config in joined cfg (problems ++ validate cfg)
