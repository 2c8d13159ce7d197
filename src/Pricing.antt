-- ===== src/Pricing.antt =====
-- internal/pricing: what a unit of a node's resources costs. Here pricing.go, the rates and the cost of
-- a reservation; the children have the catalogue, its loading, the provider and the theorems.
pub mod Catalogue
pub mod Provider
pub mod Costs
pub mod Loading
pub mod Provenance
pub mod Tests
use Prim.Native.String.{String}
use kubernetes_cost_analyzer.Common.{ℕ, ◌^◌, Bool, true, false, ◌||◌, if◌then◌else◌}
use kubernetes_cost_analyzer.Common.Int.{ℤ, pos, le_ℤ}
use kubernetes_cost_analyzer.Numeric.Decimal.{Decimal}
use kubernetes_cost_analyzer.Clock.{Duration, hour}

-- numeric(20,10) in the schema.
abbrev pub rate_precision : ℕ
rate_precision = 10

abbrev pub bytes_per_gib : ℕ
bytes_per_gib = 2 ^ 30

pub data Source : Type 0 where
  catalogue explicit_rates fallback : Source

-- `string(source)`.
unfoldable pub source_string : Source → String
source_string catalogue = "catalogue"
source_string explicit_rates = "explicit_rates"
source_string fallback = "fallback"

pub record Rates (D : Type 0) : Type 0 where
  pub currency : String
  pub node_hourly : D
  pub cpu_per_core_hour : D
  pub memory_per_gib_hour : D
  pub source : Source
  pub instance_type : String

pub record ResourceCost (D : Type 0) : Type 0 where
  pub cpu : D
  pub memory : D

module _ {D : Type 0} ⦃d : Decimal D⦄ where
  unfoldable pub total : ResourceCost D → D
  total c = d.add c.cpu c.memory

  unfoldable pub cost : Rates D → ℤ → ℤ → Duration → ResourceCost D
  cost rates cpu_millicores memory_bytes duration =
      let hours = d.div_round (d.from_int duration) (d.from_int (pos hour)) 18 in
      let cores = d.div_round (d.from_int cpu_millicores) (d.from_int (pos 1000)) 18 in
      let gib = d.div_round (d.from_int memory_bytes) (d.from_int (pos bytes_per_gib)) 18 in
      if le_ℤ duration (pos 0) then record { cpu = d.nought; memory = d.nought } else record {
        cpu = d.round (d.mul (d.mul cores hours) rates.cpu_per_core_hour) rate_precision;
        memory = d.round (d.mul (d.mul gib hours) rates.memory_per_gib_hour) rate_precision;
      }
