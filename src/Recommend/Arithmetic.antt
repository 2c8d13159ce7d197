-- ===== src/Recommend/Arithmetic.antt =====
-- internal/recommend/rules.go: the arithmetic that the rules share.
use Prim.Native.String.{String}
use text.Mathlib.Text.{◌==◌ as str_eq}
use kubernetes_cost_analyzer.Common.{ℕ, ◌*◌, ◌-◌, Bool, ◌||◌, if◌then◌else◌}
use kubernetes_cost_analyzer.Common.Int.{ℤ, pos, lt_ℤ, le_ℤ}
use kubernetes_cost_analyzer.Common.Word.{add64, mul64, div64}
use kubernetes_cost_analyzer.Common.Text.{Text, raw, sprintf, done, int, float, of_text}
use kubernetes_cost_analyzer.Numeric.Decimal.{Decimal}
use kubernetes_cost_analyzer.Numeric.Float.{Float64}
use kubernetes_cost_analyzer.Pricing.{bytes_per_gib}
use kubernetes_cost_analyzer.Recommend.{ContainerStats}
use kubernetes_cost_analyzer.Recommend.Engine.{Engine}

abbrev pub hours_per_month : ℕ
hours_per_month = 730

abbrev pub mib : ℕ
mib = 1024 * 1024

unfoldable pub replica_count_is_tunable : String → Bool
replica_count_is_tunable kind =
    str_eq kind "Deployment"
    || str_eq kind "ReplicaSet"
    || str_eq kind "StatefulSet"
    || str_eq kind "ReplicationController"

-- `used / requested`, and zero where nothing is requested.
unfoldable pub ratio : {F : Type 0} ⦃f : Float64 F⦄ → ℤ → ℤ → F
ratio ⦃f⦄ used requested =
    if le_ℤ requested (pos 0) then f.lit 0 0 else f.fdiv (f.of_int used) (f.of_int requested)

-- Up to the next MiB, in int64 arithmetic.
unfoldable pub round_up_mib : ℤ → ℤ
round_up_mib v = mul64 (div64 (add64 v (pos (mib - 1))) mib) (pos mib)

module _ {D F : Type 0} ⦃f : Float64 F⦄ where
  unfoldable pub proposed_cpu : Engine F → ContainerStats D F → ℤ
  proposed_cpu e s =
      let v =
        f.to_int (f.ceil (f.fmul (f.of_int s.cpu_p95_millicores) e.thresholds.headroom_factor)) in
      if lt_ℤ v (pos 1) then pos 1 else v

  unfoldable pub proposed_memory : Engine F → ContainerStats D F → ℤ
  proposed_memory e s =
      let v = f.to_int (f.ceil (f.fmul (f.of_int s.mem_p95_bytes) e.thresholds.headroom_factor)) in
      if lt_ℤ (round_up_mib v) (pos (16 * mib)) then pos (16 * mib) else round_up_mib v

-- What an amount costs in a month at a container's rates; a negative amount has a negative cost.
unfoldable pub monthly_cost_of : {D F : Type 0} ⦃d : Decimal D⦄ → ContainerStats D F → ℤ → ℤ → D
monthly_cost_of ⦃d⦄ s cpu_millicores mem_bytes =
    let hours = d.from_int (pos hours_per_month) in
    let cores = d.div_round (d.from_int cpu_millicores) (d.from_int (pos 1000)) 18 in
    let gib = d.div_round (d.from_int mem_bytes) (d.from_int (pos bytes_per_gib)) 18 in
    let cpu_cost = d.mul (d.mul cores hours) s.cpu_cost_per_core_hour in
    let mem_cost = d.mul (d.mul gib hours) s.mem_cost_per_gib_hour in
    d.round (d.add cpu_cost mem_cost) 4

module _ {F : Type 0} ⦃f : Float64 F⦄ where
  unfoldable pub human_bytes : ℤ → Text F
  human_bytes b =
      if le_ℤ (pos bytes_per_gib) b
      then sprintf "%.1fGi" (float (f.fdiv (f.of_int b) (f.of_int (pos bytes_per_gib))) done)
      else if le_ℤ (pos mib) b
      then sprintf "%dMi" (int (div64 b mib) done)
      else if le_ℤ (pos 1024) b
      then sprintf "%dKi" (int (div64 b 1024) done)
      else sprintf "%dB" (int b done)

  unfoldable pub change_summary : Bool → Bool → ℤ → ℤ → Text F
  change_summary include_cpu include_mem cpu_millicores mem_bytes =
      if include_cpu
      then if include_mem
        then sprintf "cpu: %dm, memory: %s"
            (int cpu_millicores (of_text (human_bytes mem_bytes) done))
        else sprintf "cpu: %dm" (int cpu_millicores done)
      else if include_mem
      then sprintf "memory: %s" (of_text (human_bytes mem_bytes) done)
      else raw "no change"
