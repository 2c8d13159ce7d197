-- ===== src/Pricing/Tests.antt =====
-- A catalogue of two instance types in one region with a fallback, and the theorems at it.
use Prim.Native.String.{String}
use kubernetes_cost_analyzer.Common.{
  ◌⊎◌, ℕ, ◌≡◌, ◌↔◌, refl, true, false, none, some, [], ◌∷◌, ok, arith, ◌*◌, ◌^◌,
}
use kubernetes_cost_analyzer.Common.Int.{pos, ◌≤ℤ◌, ◌+ℤ◌}
use kubernetes_cost_analyzer.Common.Text.{trim_space}
use kubernetes_cost_analyzer.Numeric.Decimal.{IsNonneg}
use kubernetes_cost_analyzer.Numeric.Fixed.{
  nano_order, Fixed, Nano, fixed_decimal, nano_float, nano_to_fixed, Fixed-laws, nano_to_fixed-laws,
}
use kubernetes_cost_analyzer.Clock.{hour}
use kubernetes_cost_analyzer.Domain.{Node}
use kubernetes_cost_analyzer.Pricing.{Rates, catalogue, fallback, cost, total}
use kubernetes_cost_analyzer.Pricing.Catalogue.{
  InstancePrice, Catalogue, parse_field, parse, normalise_entry, normalise_entries,
  normalise_regions, normalise_fallback, split_errors, version_errors, currency_errors,
  region_errors, header_errors, normalise, has_explicit_rates, load_catalogue,
}
use kubernetes_cost_analyzer.Pricing.Provider.{
  new_catalogue_provider, price_in, lookup_price, region_of, derive_rates, fallback_rates,
  with_spot, listed_rates, rates_for,
}
use kubernetes_cost_analyzer.Pricing.Costs.{cost-IsNonneg}
use kubernetes_cost_analyzer.Pricing.Loading.{IsSound, load_catalogue-IsSound}
use kubernetes_cost_analyzer.Pricing.Provenance.{
  found, counted, IsAnswer, IsFiniteCatalogue, rates_for-source, loaded_rates-IsAnswer,
}

-- What loading and pricing compute with.
unfoldable pub pricing_code : Unit {0}
unfolding trim_space parse_field parse normalise_entry normalise_entries normalise_regions
    normalise_fallback split_errors version_errors currency_errors region_errors header_errors
    normalise has_explicit_rates load_catalogue new_catalogue_provider price_in lookup_price
    region_of derive_rates fallback_rates with_spot listed_rates rates_for cost total ◌+ℤ◌
pricing_code = tt

abbrev nano : ℕ
nano = 10 ^ 9

abbrev instance_price : String → ℕ → ℕ → String → String → InstancePrice Fixed Nano
instance_price name vcpu gib raw spot = record {
  name = name;
  vcpu = vcpu * nano;
  memory_gib = gib * nano;
  hourly = pos 0;
  hourly_raw = raw;
  spot_hourly = pos 0;
  spot_hourly_raw = spot;
  cpu_per_core_hour = pos 0;
  cpu_per_core_hour_raw = "";
  memory_per_gib_hour = pos 0;
  memory_per_gib_hour_raw = "";
}

abbrev pub decoded : Catalogue Fixed Nano
decoded = record {
  version = pos 1;
  currency = "USD";
  split = record { cpu = 700_000_000; memory = 300_000_000 };
  regions =
      (
        "us-east-1",
        record {
          instance_types =
              ("m5.large", instance_price "" 2 8 "0.096" "0.035")
              ∷ ("m5.xlarge", instance_price "" 4 16 " 0.192 " "")
              ∷ [];
        },
      )
      ∷ [];
  default_region = "us-east-1";
  fallback = some (instance_price "" 2 8 "0.1" "");
}

abbrev pub usable : Catalogue Fixed Nano
unfolding pricing_code
usable = (normalise decoded).0

abbrev pub node : String → String → Node
node name instance_type = record {
  name = name;
  instance_type = instance_type;
  region = "";
  zone = "us-east-1a";
  capacity_type = "on-demand";
  provider_id = "aws:///us-east-1a/i-0";
  capacity_cpu_millicores = pos 2000;
  capacity_memory_bytes = pos 8_000_000_000;
  allocatable_cpu_millicores = pos 1900;
  allocatable_memory_bytes = pos 7_000_000_000;
  ready = true;
  unschedulable = false;
  kubelet_version = "v1.30.0";
  created_at = pos 1;
}

loads : load_catalogue (some decoded) ≡ ok usable
unfolding pricing_code
loads = refl

-- 0.096 * 0.7 / 2 for a core.
abbrev pub large_rates : Rates Fixed
large_rates = record {
  currency = "USD";
  node_hourly = pos 96_000_000_000_000_000;
  cpu_per_core_hour = pos 33_600_000_000_000_000;
  memory_per_gib_hour = pos 3_600_000_000_000_000;
  source = catalogue;
  instance_type = "m5.large";
}

prices_large : (rates_for (new_catalogue_provider usable) (node "a" "m5.large")).0 ≡ ok large_rates
unfolding pricing_code
prices_large = refl

-- A whole node for an hour costs its hourly price.
whole_node :
    total (cost large_rates (pos 2000) (pos (8 * 2 ^ 30)) (pos hour)) ≡ large_rates.node_hourly
unfolding pricing_code
whole_node = refl

cost-IsNonneg_example :
    let c = cost large_rates (pos 500) (pos 2_000_000_000) (pos hour) in
    IsNonneg c.cpu
    × IsNonneg c.memory
    × IsNonneg (total c)
    × ((pos 1 ≤ℤ pos hour) ⊎ ((c.cpu ≡ pos 0) × (c.memory ≡ pos 0)))
cost-IsNonneg_example =
    cost-IsNonneg Fixed-laws large_rates (pos 500) (pos 2_000_000_000) (pos hour) refl refl
      (omega arith) (omega arith)

load_catalogue-IsSound_example : IsSound usable
load_catalogue-IsSound_example = load_catalogue-IsSound Fixed-laws nano_order (some decoded) loads

usable-IsFiniteCatalogue : IsFiniteCatalogue usable
unfolding pricing_code
usable-IsFiniteCatalogue = record {
  entries_finite = (((refl, refl), ((refl, refl), tt)), tt);
  fallback_finite = (refl, refl);
  cpu_share_finite = refl;
  memory_share_finite = refl;
}

loaded_rates-IsAnswer_example :
    IsAnswer
      (new_catalogue_provider usable)
      (node "b" "m7i.metal")
      (rates_for (new_catalogue_provider usable) (node "b" "m7i.metal")).0
loaded_rates-IsAnswer_example =
    loaded_rates-IsAnswer Fixed-laws nano_to_fixed-laws (some decoded) usable (node "b" "m7i.metal")
      loads usable-IsFiniteCatalogue

-- A type that the catalogue does not list is priced by the fallback.
abbrev guessed : Rates Fixed
guessed = record {
  currency = "USD";
  node_hourly = pos 100_000_000_000_000_000;
  cpu_per_core_hour = pos 35_000_000_000_000_000;
  memory_per_gib_hour = pos 3_750_000_000_000_000;
  source = fallback;
  instance_type = "";
}

prices_unknown : (rates_for (new_catalogue_provider usable) (node "b" "m7i.metal")).0 ≡ ok guessed
unfolding pricing_code
prices_unknown = refl

rates_for-source_example :
    let p = new_catalogue_provider usable in
    let n = node "b" "m7i.metal" in
    ((guessed.source ≡ fallback) ↔ (found p n ≡ none))
    × (guessed.source ≡ fallback → guessed.instance_type ≡ "")
    × ((rates_for p n).1.fallback_warnings ≡ counted guessed.source p.fallback_warnings)
    × ((rates_for p n).1.catalogue ≡ p.catalogue)
rates_for-source_example =
    rates_for-source (new_catalogue_provider usable) (node "b" "m7i.metal") {rates = guessed}
      prices_unknown
