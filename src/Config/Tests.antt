-- ===== src/Config/Tests.antt =====
-- Durations written as nanoseconds and whole floats, an environment, and the theorems at it.
use text.Mathlib.Text.{◌==◌ as str_eq}
use kubernetes_cost_analyzer.Common.{
  ◌≡◌, ◌↔◌, ◌*◌, refl, false, Option, none, some, [], ◌∷◌, ok, err, if◌then◌else◌,
}
use kubernetes_cost_analyzer.Common.Int.{ℤ, pos}
use kubernetes_cost_analyzer.Common.Text.{trim_space, split}
use kubernetes_cost_analyzer.Common.Numerals.{parse_int}
use kubernetes_cost_analyzer.Numeric.Fixed.{Nano, nano_float}
use kubernetes_cost_analyzer.Clock.{second, minute}
use kubernetes_cost_analyzer.Config.{
  Config, malformed, required, not_int32, unknown_level, burst_below_qps, short_key,
  placeholder_name,
}
use kubernetes_cost_analyzer.Config.Validation.{
  is_blank, server_problems, timeout_problems, access_problems, database_problems, kube_problems,
  naming_problems, collector_problems, short_keys, validate,
}
use kubernetes_cost_analyzer.Config.Validity.{IsValid, validate-eq-nil_iff}
use kubernetes_cost_analyzer.Config.Loader.{
  Env, Parsers, parsed, str, required_str, integer, int32, nonblank, csv, duration, float, float32,
  read_api, read_database, read_kube, read_prometheus, read_collector, read_config, load,
}
use kubernetes_cost_analyzer.Config.Loading.{IsRead, load_iff}

config_code : Unit {0}
unfolding is_blank server_problems timeout_problems access_problems database_problems kube_problems
    naming_problems collector_problems short_keys validate parsed str required_str integer int32
    nonblank csv duration float float32 read_api read_database read_kube read_prometheus
    read_collector read_config load parse_int trim_space split
config_code = tt

-- Whole numbers that are not negative.
abbrev whole : Option ℤ → Option Nano
whole (some (pos n)) = some (n * 1_000_000_000)
whole _ = none

abbrev plain : Parsers Nano
plain = record {
  parse_duration = parse_int;
  parse_float = λ s. whole (parse_int s);
  beyond_float32 = λ x. false;
  to_float32 = λ x. x;
}

abbrev env : Env
env key =
    if str_eq key "DATABASE_URL"
    then some "postgres://costs"
    else if str_eq key "API_KEYS"
    then some "0123456789abcdef, ,"
    else if str_eq key "COLLECTOR_WORKERS"
    then some " 8 "
    else none

abbrev loaded : Config Nano
loaded = record {
  env = "development";
  log_level = "info";
  cluster_name = "default";
  cluster_account = "";
  api = record {
    addr = ":8080";
    read_timeout = pos (10 * second);
    write_timeout = pos (15 * second);
    idle_timeout = pos (60 * second);
    shutdown_timeout = pos (15 * second);
    api_keys = "0123456789abcdef" ∷ [];
    rate_limit_per_second = 20_000_000_000;
    rate_limit_burst = pos 40;
  };
  database = record {
    url = "postgres://costs";
    max_open_conns = pos 20;
    min_idle_conns = pos 5;
    conn_max_lifetime = pos (30 * minute);
  };
  kube = record {
    config_path = "";
    context = "";
    resync_interval = pos 0;
    cache_sync_timeout = pos (60 * second);
    qps = 50_000_000_000;
    burst = pos 100;
  };
  catalogue_path = "deploy/pricing/catalogue.yaml";
  prometheus = record { url = "http://localhost:19090"; timeout = pos (30 * second) };
  collector = record { interval = pos (5 * minute); workers = pos 8; http_addr = ":8081" };
}

loads : load plain env ≡ ok loaded
unfolding config_code
loads = refl

-- Five mistakes, all of them reported, those of reading first.
abbrev broken : Env
broken key =
    if str_eq key "LOG_LEVEL"
    then some "loud"
    else if str_eq key "COLLECTOR_WORKERS"
    then some "four"
    else if str_eq key "DB_MAX_OPEN_CONNS"
    then some "4294967297"
    else if str_eq key "KUBE_BURST"
    then some "10"
    else none

breaks :
    load plain broken
    ≡ err (
        required "DATABASE_URL"
        ∷ not_int32 "DB_MAX_OPEN_CONNS" (pos 4294967297)
        ∷ malformed "COLLECTOR_WORKERS" "four"
        ∷ unknown_level "loud"
        ∷ burst_below_qps (pos 10) 50_000_000_000
        ∷ [])
unfolding config_code
breaks = refl

production_problems :
    validate (record loaded { env = "production"; api = record loaded.api { api_keys = "k" ∷ [] } })
    ≡ short_key (pos 0) ∷ placeholder_name ∷ []
unfolding config_code
production_problems = refl

validate-eq-nil_iff_example : (validate loaded ≡ []) ↔ IsValid loaded
validate-eq-nil_iff_example = validate-eq-nil_iff loaded

fifty : plain.beyond_float32 (nano_float.lit 50 0) ≡ false
fifty = refl

load_iff_example : (load plain env ≡ ok loaded) ↔ (IsRead plain env loaded × IsValid loaded)
load_iff_example = load_iff plain env fifty loaded
