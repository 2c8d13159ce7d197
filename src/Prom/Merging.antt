-- ===== src/Prom/Merging.antt =====
-- `collect` and `ContainerUsage`: the readings of four queries merged by container.
use Prim.Native.String.{String}
use text.Mathlib.Text.{◌==◌ as str_eq}
use kubernetes_cost_analyzer.Common.{
  Bool, ◌&&◌, ◌||◌, Option, none, some, List, [], ◌∷◌, Result, ok, err, ◌>>=◌, map_err,
  if◌then◌else◌,
}
use kubernetes_cost_analyzer.Common.Int.{ℤ, pos, le_ℤ, lt_ℤ}
use kubernetes_cost_analyzer.Common.Text.{Text}
use kubernetes_cost_analyzer.Common.Maps.{Entries, lookup}
use kubernetes_cost_analyzer.Numeric.Float.{Float64}
use kubernetes_cost_analyzer.Clock.{Time, Duration, sub_time}
use kubernetes_cost_analyzer.Domain.{ContainerKey, Usage}
use kubernetes_cost_analyzer.Prom.{
  Sample, vector, other_value, Api, cpu_query, cpu_peak_query, memory_query, memory_peak_query,
}

-- `math.IsNaN` or `math.IsInf`, and `math.Round`.
pub record Rounding (F : Type 0) : Type 0 where
  pub not_finite : F → Bool
  pub round : F → F

pub data QueryError (F E : Type 0) : Type 0 where
  query_failed : Text F → Time → E → QueryError F E
  not_a_vector : Text F → String → QueryError F E

pub data UsageError (F E : Type 0) : Type 0 where
  window_not_after : Time → Time → UsageError F E
  querying_cpu querying_peak_cpu querying_memory querying_peak_memory :
      QueryError F E → UsageError F E

-- The map of usages.
abbrev pub Usages : Type 0
Usages = ContainerKey → Option Usage

abbrev pub same_key : ContainerKey → ContainerKey → Bool
same_key k j =
    str_eq k.namespace j.namespace && str_eq k.pod j.pod && str_eq k.container j.container

-- `u := usage[k]`, changed and written back.
unfoldable pub update : (Usage → Usage) → ContainerKey → Usages → Usages
update change k usage j =
    if same_key k j
    then some (
        change (elim (usage k) [
          | none ↦ record {
            cpu_millicores = pos 0;
            memory_bytes = pos 0;
            cpu_millicores_max = pos 0;
            memory_bytes_max = pos 0;
          }
          | some u ↦ u
        ]))
    else usage j

-- A label of a series, empty where it is missing.
abbrev pub label : String → Entries String → String
label name metric = elim (lookup name metric) [ none ↦ "" | some value ↦ value ]

abbrev pub key_of_series : Entries String → ContainerKey
key_of_series metric = record {
  namespace = label "namespace" metric;
  pod = label "pod" metric;
  container = label "container" metric;
}

abbrev pub is_anonymous : ContainerKey → Bool
is_anonymous k = str_eq k.namespace "" || str_eq k.pod "" || str_eq k.container ""

-- The peaks are no lower than the averages.
unfoldable pub raise_peaks : Usage → Usage
raise_peaks u = record u {
  cpu_millicores_max =
      if lt_ℤ u.cpu_millicores_max u.cpu_millicores then u.cpu_millicores else u.cpu_millicores_max;
  memory_bytes_max =
      if lt_ℤ u.memory_bytes_max u.memory_bytes then u.memory_bytes else u.memory_bytes_max;
}

module _ {F : Type 0} ⦃f : Float64 F⦄ (r : Rounding F) where
  -- A series that cannot be used or attributed is passed over.
  abbrev pub is_unusable : Sample F → Bool
  is_unusable s =
      r.not_finite s.value || f.flt s.value (f.lit 0 0) || is_anonymous (key_of_series s.metric)

  -- The loop over the vector; `change` is what a value does to the usage of its container.
  unfoldable pub visit_samples : (F → Usage → Usage) → List (Sample F) → Usages → Usages
  visit_samples change [] usage = usage
  visit_samples change (s ∷ ss) usage =
      visit_samples change ss
        (if is_unusable s then usage else update (change s.value) (key_of_series s.metric) usage)

  -- The query returns cores.
  abbrev pub millicores : F → ℤ
  millicores v = f.to_int (r.round (f.fmul v (f.lit 1000 0)))

  abbrev pub bytes : F → ℤ
  bytes v = f.to_int (r.round v)

  module _ {E : Type 0} (api : Api F E) where
    unfoldable pub collect :
        Text F → Time → (F → Usage → Usage) → Usages → Result (QueryError F E) Usages
    collect query at change usage = elim (api query at) [
      | err e ↦ err (query_failed query at e)
      | ok value ↦ elim value [
        | vector samples ↦ ok (visit_samples change samples usage)
        | other_value type ↦ err (not_a_vector query type)
      ]
    ]

    -- The queries, each into the usages that those before it left.
    abbrev pub cpu_step : String → Duration → Time → Result (UsageError F E) Usages
    cpu_step namespace window at = map_err querying_cpu (
        collect (cpu_query namespace window) at (λ v u. record u { cpu_millicores = millicores v })
          (λ k. none))

    abbrev pub peak_step : String → Duration → Time → Usages → Result (UsageError F E) Usages
    peak_step namespace window at usage = map_err querying_peak_cpu (
        collect (cpu_peak_query namespace window) at
          (λ v u. record u { cpu_millicores_max = millicores v }) usage)

    abbrev pub memory_step : String → Duration → Time → Usages → Result (UsageError F E) Usages
    memory_step namespace window at usage = map_err querying_memory (
        collect (memory_query namespace window) at (λ v u. record u { memory_bytes = bytes v })
          usage)

    abbrev pub memory_peak_step : String → Duration → Time → Usages → Result (UsageError F E) Usages
    memory_peak_step namespace window at usage = map_err querying_peak_memory (
        collect (memory_peak_query namespace window) at
          (λ v u. record u { memory_bytes_max = bytes v }) usage)

    unfoldable pub container_usage : String → Time → Time → Result (UsageError F E) Usages
    container_usage namespace start end =
        let window = sub_time end start in
        if le_ℤ window (pos 0) then err (window_not_after end start) else (do
          cpu ← cpu_step namespace window end
          peak ← peak_step namespace window end cpu
          memory ← memory_step namespace window end peak
          usage ← memory_peak_step namespace window end memory
          ok (λ k. elim (usage k) [ none ↦ none | some u ↦ some (raise_peaks u) ]))
