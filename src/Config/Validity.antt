-- ===== src/Config/Validity.antt =====
-- What `Validate` accepts, field by field.
use Prim.Native.String.{String}
use text.Mathlib.TextEquality.{eq_iff}
use kubernetes_cost_analyzer.Common.{
  ℕ, suc, ◌≤◌, ◌≡◌, ◌≢◌, ◌↔◌, ◌⊎◌, refl, false, List, [], ◌∷◌, All, arith,
}
use kubernetes_cost_analyzer.Common.Int.{ℤ, pos, ◌≤ℤ◌}
use kubernetes_cost_analyzer.Common.Text.{chars, byte_length, trim_space}
use kubernetes_cost_analyzer.Numeric.Float.{Float64}
use kubernetes_cost_analyzer.Config.{Config}
use kubernetes_cost_analyzer.Config.Validation.{
  is_blank, validate, server_problems, timeout_problems, access_problems, database_problems,
  kube_problems, naming_problems, collector_problems, short_keys,
}

abbrev pub Positive : ℤ → Type 0
Positive n = pos 1 ≤ℤ n

module _ {F : Type 0} where
  pub record IsServing (c : Config F) : Type 0 where
    pub environment : (c.env ≡ "development") ⊎ (c.env ≡ "production")
    pub level :
        (c.log_level ≡ "debug")
        ⊎ (c.log_level ≡ "info")
        ⊎ (c.log_level ≡ "warn")
        ⊎ (c.log_level ≡ "error")
    pub address : is_blank c.api.addr ≡ false

  pub record IsTimed (c : Config F) : Type 0 where
    pub reads : Positive c.api.read_timeout
    pub writes : Positive c.api.write_timeout
    pub idles : Positive c.api.idle_timeout
    pub stops : Positive c.api.shutdown_timeout
    pub queries : Positive c.prometheus.timeout
    pub connects : Positive c.database.conn_max_lifetime

  pub record IsPooled (c : Config F) : Type 0 where
    pub opened : Positive c.database.max_open_conns
    pub idle : pos 0 ≤ℤ c.database.min_idle_conns
    pub ordered : c.database.min_idle_conns ≤ℤ c.database.max_open_conns

  -- In production the name is not the placeholder.
  pub record IsNamed (c : Config F) : Type 0 where
    pub cluster : is_blank c.cluster_name ≡ false
    pub placed : (c.env ≢ "production") ⊎ (trim_space c.cluster_name ≢ "default")
    pub catalogue : is_blank c.catalogue_path ≡ false

  pub record IsCollecting (c : Config F) : Type 0 where
    pub workers : Positive c.collector.workers
    pub listens : is_blank c.collector.http_addr ≡ false
    pub apart : c.api.addr ≢ c.collector.http_addr
    pub interval : Positive c.collector.interval

  server_iff : (c : Config F) → (server_problems c ≡ []) ↔ IsServing c
  unfolding server_problems
  server_iff c = ground (
    arith,
    eq_iff c.env "development",
    eq_iff c.env "production",
    eq_iff c.log_level "debug",
    eq_iff c.log_level "info",
    eq_iff c.log_level "warn",
    eq_iff c.log_level "error",
  )

  timeout_iff : (c : Config F) → (timeout_problems c ≡ []) ↔ IsTimed c
  unfolding timeout_problems
  timeout_iff c = ground arith

  database_iff : (c : Config F) → (database_problems c ≡ []) ↔ IsPooled c
  unfolding database_problems
  database_iff c = ground arith

  naming_iff : (c : Config F) → (naming_problems c ≡ []) ↔ IsNamed c
  unfolding naming_problems
  naming_iff c =
      ground (arith, eq_iff c.env "production", eq_iff (trim_space c.cluster_name) "default")

  collector_iff : (c : Config F) → (collector_problems c ≡ []) ↔ IsCollecting c
  unfolding collector_problems
  collector_iff c = ground (arith, eq_iff c.api.addr c.collector.http_addr)

  short_keys_iff :
      (i : ℕ) (ks : List String)
      → (short_keys {F = F} i ks ≡ []) ↔ All (λ k. 16 ≤ byte_length (chars k)) ks
  unfolding short_keys
  short_keys_iff i [] = (λ _. tt, λ _. refl)
  short_keys_iff i (k ∷ ks) = ground (arith, short_keys_iff (suc i) ks)

module _ {F : Type 0} ⦃f : Float64 F⦄ where
  -- In production a key is needed.
  pub record IsGuarded (c : Config F) : Type 0 where
    pub keyed : (c.env ≢ "production") ⊎ (c.api.api_keys ≢ [])
    pub long : All (λ k. 16 ≤ byte_length (chars k)) c.api.api_keys
    pub rate : f.flt c.api.rate_limit_per_second (f.lit 0 0) ≡ false
    pub burst : pos 0 ≤ℤ c.api.rate_limit_burst

  -- The burst covers the whole part of the rate.
  pub record IsPaced (c : Config F) : Type 0 where
    pub syncs : Positive c.kube.cache_sync_timeout
    pub rate : f.fle c.kube.qps (f.lit 0 0) ≡ false
    pub burst : f.to_int c.kube.qps ≤ℤ c.kube.burst
    pub resyncs : pos 0 ≤ℤ c.kube.resync_interval

  pub record IsValid (c : Config F) : Type 0 where
    pub serving : IsServing c
    pub timed : IsTimed c
    pub guarded : IsGuarded c
    pub pooled : IsPooled c
    pub paced : IsPaced c
    pub named : IsNamed c
    pub collecting : IsCollecting c

  access_iff : (c : Config F) → (access_problems c ≡ []) ↔ IsGuarded c
  unfolding access_problems
  access_iff c = ground (arith, eq_iff c.env "production", short_keys_iff {F = F} 0 c.api.api_keys)

  kube_iff : (c : Config F) → (kube_problems c ≡ []) ↔ IsPaced c
  unfolding kube_problems
  kube_iff c = ground arith

  -- `Validate` finds nothing exactly if the environment and the log level are known, the addresses, the
  -- cluster's name and the catalogue's path are not blank and the two addresses differ, every timeout,
  -- lifetime, interval and number of workers or connections that must be positive is, the floor of idle
  -- connections lies between 0 and their ceiling, every API key has 16 bytes or more, the rates and
  -- bursts are in range, and a production configuration has a key and a name that is not the placeholder.
  pub validate-eq-nil_iff : (c : Config F) → (validate c ≡ []) ↔ IsValid c
  unfolding validate
  validate-eq-nil_iff c = ground (
    arith,
    server_iff c,
    timeout_iff c,
    access_iff c,
    database_iff c,
    kube_iff c,
    naming_iff c,
    collector_iff c,
  )
