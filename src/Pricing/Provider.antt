-- ===== src/Pricing/Provider.antt =====
-- internal/pricing/catalogue.go and pricing.go: the rates of a node. The provider's state is its count
-- of fallbacks, an atomic int64.
use Prim.Native.String.{String}
use text.Mathlib.Text.{◌==◌ as str_eq}
use kubernetes_cost_analyzer.Common.{not, ◌&&◌, Option, none, some, Result, ok, err, if◌then◌else◌}
use kubernetes_cost_analyzer.Common.Int.{ℤ, pos}
use kubernetes_cost_analyzer.Common.Word.{add64}
use kubernetes_cost_analyzer.Common.Maps.{lookup}
use kubernetes_cost_analyzer.Numeric.Decimal.{Decimal}
use kubernetes_cost_analyzer.Numeric.Float.{Float64, FromFloat}
use kubernetes_cost_analyzer.Domain.{Node}
use kubernetes_cost_analyzer.Pricing.{
  Source, catalogue, explicit_rates, fallback, Rates, rate_precision,
}
use kubernetes_cost_analyzer.Pricing.Catalogue.{
  InstancePrice, Catalogue, has_explicit_rates, lacks_size,
}

-- `no_price` wraps ErrNoPrice, `invalid_instance` wraps ErrInvalidCatalogue.
pub data PriceError (F : Type 0) : Type 0 where
  no_price : (node instance_type region : String) → PriceError F
  invalid_instance : String → F → F → PriceError F

pub record CatalogueProvider (D F : Type 0) : Type 0 where
  pub catalogue : Catalogue D F
  pub cpu_share : D
  pub mem_share : D
  pub fallback_warnings : ℤ

module _ {D F : Type 0} ⦃v : FromFloat D F⦄ where
  unfoldable pub new_catalogue_provider : Catalogue D F → CatalogueProvider D F
  new_catalogue_provider c = record {
    catalogue = c;
    cpu_share = v.from_float c.split.cpu;
    mem_share = v.from_float c.split.memory;
    fallback_warnings = pos 0;
  }

module _ {D F : Type 0} where
  -- The price of a type in a region's table, if the region is there.
  unfoldable pub price_in : Catalogue D F → String → String → Option (InstancePrice D F)
  price_in c region instance_type = elim (lookup region c.regions) [
    | none ↦ none
    | some r ↦ lookup instance_type r.instance_types
  ]

  unfoldable pub lookup_price : Catalogue D F → String → String → Option (InstancePrice D F)
  unfolding price_in
  lookup_price c region instance_type =
      if str_eq instance_type "" then none else elim (price_in c region instance_type) [
        | some price ↦ some price
        | none ↦
            if not (str_eq region c.default_region)
            then price_in c c.default_region instance_type
            else none
      ]

  unfoldable pub region_of : Catalogue D F → Node → String
  region_of c n = if str_eq n.region "" then c.default_region else n.region

module _ {D F : Type 0} ⦃d : Decimal D⦄ ⦃f : Float64 F⦄ ⦃v : FromFloat D F⦄ where
  unfoldable pub derive_rates :
      InstancePrice D F → D → D → String → Source → Result (PriceError F) (Rates D)
  derive_rates price cpu_share mem_share currency source =
      let vcpu = v.from_float price.vcpu in
      let gib = v.from_float price.memory_gib in
      if lacks_size price
      then err (invalid_instance price.name price.vcpu price.memory_gib)
      else ok (record {
        currency = currency;
        node_hourly = d.round price.hourly rate_precision;
        cpu_per_core_hour = d.div_round (d.mul price.hourly cpu_share) vcpu rate_precision;
        memory_per_gib_hour = d.div_round (d.mul price.hourly mem_share) gib rate_precision;
        source = source;
        instance_type = price.name;
      })

  -- Nothing matched, so no instance type is reported.
  abbrev pub unmatched : Result (PriceError F) (Rates D) → Result (PriceError F) (Rates D)
  unmatched (ok rates) = ok (record rates { instance_type = "" })
  unmatched (err e) = err e

  unfoldable pub fallback_rates :
      CatalogueProvider D F
      → Node
      → String
      → Result (PriceError F) (Rates D) × CatalogueProvider D F
  fallback_rates p n region = elim p.catalogue.fallback [
    | none ↦ (err (no_price n.name n.instance_type region), p)
    | some price ↦
        let counted = record p { fallback_warnings = add64 p.fallback_warnings (pos 1) } in
        (
          unmatched (derive_rates price p.cpu_share p.mem_share p.catalogue.currency fallback),
          counted,
        )
  ]

  -- A spot node at a published spot price.
  unfoldable pub with_spot : Node → InstancePrice D F → InstancePrice D F
  with_spot n price =
      if str_eq n.capacity_type "spot" && not (d.is_zero price.spot_hourly)
      then record price { hourly = price.spot_hourly }
      else price

  unfoldable pub listed_rates :
      CatalogueProvider D F → InstancePrice D F → Result (PriceError F) (Rates D)
  listed_rates p price =
      if has_explicit_rates price
      then ok (record {
        currency = p.catalogue.currency;
        node_hourly = d.round price.hourly rate_precision;
        cpu_per_core_hour = d.round price.cpu_per_core_hour rate_precision;
        memory_per_gib_hour = d.round price.memory_per_gib_hour rate_precision;
        source = explicit_rates;
        instance_type = price.name;
      })
      else derive_rates price p.cpu_share p.mem_share p.catalogue.currency catalogue

  -- The answer, and the provider afterwards.
  unfoldable pub rates_for :
      CatalogueProvider D F → Node → Result (PriceError F) (Rates D) × CatalogueProvider D F
  rates_for p n =
      let region = region_of p.catalogue n in
      elim (lookup_price p.catalogue region n.instance_type) [
        | none ↦ fallback_rates p n region
        | some price ↦ (listed_rates p (with_spot n price), p)
      ]
