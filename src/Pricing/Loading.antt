-- ===== src/Pricing/Loading.antt =====
-- The sizes and the prices in a catalogue that `LoadCatalogue` accepts.
use Prim.Native.String.{String}
use kubernetes_cost_analyzer.Common.{
  ◌≡◌, false, Option, none, some, List, [], ◌∷◌, All, All-map, ok, arith, append-eq-nil,
  joined-eq-ok, subst,
}
use kubernetes_cost_analyzer.Numeric.Decimal.{Decimal, DecimalLaws, IsNonneg}
use kubernetes_cost_analyzer.Numeric.Float.{
  Float64, OrderLaws, IsPositive, IsNotNegative, test-IsPositive, test-IsNotNegative,
}
use kubernetes_cost_analyzer.Pricing.Catalogue.{
  InstancePrice, Region, Split, Catalogue, parse_field, parse, lacks_size, normalise_entry,
  normalise_entries, normalise_regions, normalise_fallback, split_errors, header_errors,
  version_errors, currency_errors, normalise, load_catalogue,
}

module _ {D F : Type 0} ⦃d : Decimal D⦄ where
  pub record HasPrices (p : InstancePrice D F) : Type 0 where
    pub hourly_nonneg : IsNonneg p.hourly
    pub spot_nonneg : IsNonneg p.spot_hourly
    pub cpu_nonneg : IsNonneg p.cpu_per_core_hour
    pub memory_nonneg : IsNonneg p.memory_per_gib_hour

module _ {D : Type 0} ⦃d : Decimal D⦄ (laws : DecimalLaws D) where
  parse_field-IsNonneg : (raw field : String) → IsNonneg {D = D} (parse_field raw field).0
  unfolding parse_field
  parse_field-IsNonneg raw field = ground (arith, laws.nought_nonneg)

  parse-HasPrices : {F : Type 0} (p : InstancePrice D F) → HasPrices (parse p).0
  unfolding parse
  parse-HasPrices p = record {
    hourly_nonneg = parse_field-IsNonneg p.hourly_raw "hourly";
    spot_nonneg = parse_field-IsNonneg p.spot_hourly_raw "spot_hourly";
    cpu_nonneg = parse_field-IsNonneg p.cpu_per_core_hour_raw "cpu_per_core_hour";
    memory_nonneg = parse_field-IsNonneg p.memory_per_gib_hour_raw "memory_per_gib_hour";
  }

module _ {F : Type 0} ⦃f : Float64 F⦄ where
  split_errors-eq-nil :
      (s : Split F)
      → split_errors s ≡ []
      → (f.flt s.cpu (f.lit 0 0) ≡ false) × (f.flt s.memory (f.lit 0 0) ≡ false)
  unfolding split_errors
  split_errors-eq-nil s e = ground arith

module _ {D F : Type 0} ⦃d : Decimal D⦄ ⦃f : Float64 F⦄ where
  pub record IsPriced (p : InstancePrice D F) : Type 0 where
    pub prices : HasPrices p
    pub sized : lacks_size p ≡ false

  abbrev pub AllPriced : List (String × Region D F) → Type 0
  AllPriced = All λ r. All (λ e. IsPriced e.1) r.1.instance_types

  abbrev pub FallbackPriced : Option (InstancePrice D F) → Type 0
  FallbackPriced none = Unit
  FallbackPriced (some p) = IsPriced p

  pub record IsUsable (c : Catalogue D F) : Type 0 where
    pub regions_priced : AllPriced c.regions
    pub fallback_priced : FallbackPriced c.fallback
    pub cpu_share_nonneg : f.flt c.split.cpu (f.lit 0 0) ≡ false
    pub memory_share_nonneg : f.flt c.split.memory (f.lit 0 0) ≡ false

  header-shares :
      (c : Catalogue D F)
      → header_errors c ≡ []
      → (f.flt c.split.cpu (f.lit 0 0) ≡ false) × (f.flt c.split.memory (f.lit 0 0) ≡ false)
  unfolding header_errors
  header-shares c e =
      let (_, rest) = append-eq-nil (version_errors c) _ e in
      let (_, rest') = append-eq-nil (currency_errors c) _ rest in
      split_errors-eq-nil c.split (append-eq-nil (split_errors c.split) _ rest').0

  module _ (laws : DecimalLaws D) where
    normalise_entry-IsPriced :
        (region type_name : String) (p : InstancePrice D F)
        → (normalise_entry region type_name p).1 ≡ []
        → IsPriced (normalise_entry region type_name p).0
    unfolding normalise_entry
    normalise_entry-IsPriced region type_name p e =
        ground (arith, parse-HasPrices laws (record p { name = type_name }))

    normalise_entries-IsPriced :
        (region : String) (entries : List (String × InstancePrice D F))
        → (normalise_entries region entries).1 ≡ []
        → All (λ e. IsPriced e.1) (normalise_entries region entries).0
    unfolding normalise_entries
    normalise_entries-IsPriced region [] e = tt
    normalise_entries-IsPriced region ((type_name, price) ∷ rest) e =
        let (own, others) = append-eq-nil (normalise_entry region type_name price).1 _ e in
        (
          normalise_entry-IsPriced region type_name price own,
          normalise_entries-IsPriced region rest others,
        )

    normalise_regions-AllPriced :
        (regions : List (String × Region D F))
        → (normalise_regions regions).1 ≡ []
        → AllPriced (normalise_regions regions).0
    unfolding normalise_regions
    normalise_regions-AllPriced [] e = tt
    normalise_regions-AllPriced ((name, region) ∷ rest) e =
        let (own, others) = append-eq-nil (normalise_entries name region.instance_types).1 _ e in
        (
          normalise_entries-IsPriced name region.instance_types own,
          normalise_regions-AllPriced rest others,
        )

    normalise_fallback-FallbackPriced :
        (fallback : Option (InstancePrice D F))
        → (normalise_fallback fallback).1 ≡ []
        → FallbackPriced (normalise_fallback fallback).0
    unfolding normalise_fallback
    normalise_fallback-FallbackPriced none e = tt
    normalise_fallback-FallbackPriced (some price) e =
        ground (arith, parse-HasPrices laws (record price { name = "fallback" }))

    pub load_catalogue-IsUsable :
        (decoded : Option (Catalogue D F)) {c : Catalogue D F}
        → load_catalogue decoded ≡ ok c
        → IsUsable c
    unfolding load_catalogue normalise
    load_catalogue-IsUsable none e = cc
    load_catalogue-IsUsable (some raw) {c} e =
        let (clean, same) = joined-eq-ok (normalise raw).0 c _ e in
        let (header, rest) = append-eq-nil (header_errors raw) _ clean in
        let (regions, fallback) = append-eq-nil (normalise_regions raw.regions).1 _ rest in
        let (cpu, memory) = header-shares raw header in
        subst IsUsable same (record {
          regions_priced = normalise_regions-AllPriced raw.regions regions;
          fallback_priced = normalise_fallback-FallbackPriced raw.fallback fallback;
          cpu_share_nonneg = cpu;
          memory_share_nonneg = memory;
        })

  -- An entry whose prices are not negative, and whose sizes are positive if they are not NaN.
  pub record IsSoundPrice (p : InstancePrice D F) : Type 0 where
    pub prices : HasPrices p
    pub vcpu_positive : IsPositive p.vcpu
    pub memory_positive : IsPositive p.memory_gib

  abbrev pub SoundFallback : Option (InstancePrice D F) → Type 0
  SoundFallback none = Unit
  SoundFallback (some p) = IsSoundPrice p

  pub record IsSound (c : Catalogue D F) : Type 0 where
    pub entries : All (λ r. All (λ e. IsSoundPrice e.1) r.1.instance_types) c.regions
    pub fallback : SoundFallback c.fallback
    pub cpu_share : IsNotNegative c.split.cpu
    pub memory_share : IsNotNegative c.split.memory

  module _ (laws : DecimalLaws D) (order : OrderLaws F) where
    price-IsSoundPrice : (p : InstancePrice D F) → IsPriced p → IsSoundPrice p
    price-IsSoundPrice p h =
        let sized = h.sized in
        record {
          prices = h.prices;
          vcpu_positive = test-IsPositive order p.vcpu (ground arith);
          memory_positive = test-IsPositive order p.memory_gib (ground arith);
        }

    fallback-SoundFallback : (o : Option (InstancePrice D F)) → FallbackPriced o → SoundFallback o
    fallback-SoundFallback none h = tt
    fallback-SoundFallback (some p) h = price-IsSoundPrice p h

    -- In a catalogue that loads, every entry of every region, and the fallback if there is one, has no
    -- negative price, and a vcpu and a memory_gib that are greater than zero or NaN; and each share of
    -- the split is at least zero or NaN.
    pub load_catalogue-IsSound :
        (decoded : Option (Catalogue D F)) {c : Catalogue D F}
        → load_catalogue decoded ≡ ok c
        → IsSound c
    load_catalogue-IsSound decoded {c} e =
        let u = load_catalogue-IsUsable laws decoded e in
        record {
          entries =
              All-map _ _ _ (λ r. All-map _ _ _ (λ e. price-IsSoundPrice e.1)) u.regions_priced;
          fallback = fallback-SoundFallback c.fallback u.fallback_priced;
          cpu_share = test-IsNotNegative order c.split.cpu u.cpu_share_nonneg;
          memory_share = test-IsNotNegative order c.split.memory u.memory_share_nonneg;
        }
