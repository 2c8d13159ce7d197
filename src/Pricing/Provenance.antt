-- ===== src/Pricing/Provenance.antt =====
-- What `RatesFor` answers: where a rate came from, and that a loaded catalogue prices every node or
-- says that it has no price.
use Prim.Native.String.{String}
use kubernetes_cost_analyzer.Common.{
  ◌≡◌, true, refl, ◌≢◌, ◌↔◌, Option, none, some, All, Result, ok, err, inl, inr, Bool-cases,
  Option-cases, arith, subst,
}
use kubernetes_cost_analyzer.Common.Int.{ℤ, pos}
use kubernetes_cost_analyzer.Common.Word.{add64}
use kubernetes_cost_analyzer.Common.Maps.{lookup, All-lookup}
use kubernetes_cost_analyzer.Numeric.Decimal.{Decimal, DecimalLaws, IsNonneg}
use kubernetes_cost_analyzer.Numeric.Float.{Float64, FromFloat, FromFloatLaws}
use kubernetes_cost_analyzer.Domain.{Node}
use kubernetes_cost_analyzer.Pricing.{Source, catalogue, fallback, Rates}
use kubernetes_cost_analyzer.Pricing.Catalogue.{
  InstancePrice, Catalogue, has_explicit_rates, load_catalogue,
}
use kubernetes_cost_analyzer.Pricing.Loading.{
  IsPriced, FallbackPriced, IsUsable, load_catalogue-IsUsable,
}
use kubernetes_cost_analyzer.Pricing.Provider.{
  PriceError, no_price, invalid_instance, CatalogueProvider, new_catalogue_provider, price_in,
  lookup_price, region_of, derive_rates, unmatched, fallback_rates, with_spot, listed_rates,
  rates_for,
}

abbrev pub counted : Source → ℤ → ℤ
counted fallback n = add64 n (pos 1)
counted _ n = n

module _ {D F : Type 0} ⦃d : Decimal D⦄ ⦃f : Float64 F⦄ ⦃v : FromFloat D F⦄ where
  abbrev pub found : CatalogueProvider D F → Node → Option (InstancePrice D F)
  found p n = lookup_price p.catalogue (region_of p.catalogue n) n.instance_type

  listed_rates-source :
      (p : CatalogueProvider D F) (price : InstancePrice D F) (rates : Rates D)
      → listed_rates p price ≡ ok rates
      → rates.source ≢ fallback
  unfolding listed_rates derive_rates
  listed_rates-source p price rates e = ground arith

  fallback_rates-source :
      (p : CatalogueProvider D F) (n : Node) (region : String) (rates : Rates D)
      → (fallback_rates p n region).0 ≡ ok rates
      → (rates.source ≡ fallback)
        × (rates.instance_type ≡ "")
        × ((fallback_rates p n region).1.fallback_warnings ≡ add64 p.fallback_warnings (pos 1))
        × ((fallback_rates p n region).1.catalogue ≡ p.catalogue)
  unfolding fallback_rates derive_rates
  fallback_rates-source p n region rates e = ground arith

  -- An answer names its source truly: it is marked a fallback exactly if the catalogue has no entry for
  -- the node, a fallback claims no matched instance type, and the counter moves for fallbacks alone.
  pub rates_for-source :
      (p : CatalogueProvider D F) (n : Node) {rates : Rates D}
      → (rates_for p n).0 ≡ ok rates
      → ((rates.source ≡ fallback) ↔ (found p n ≡ none))
        × (rates.source ≡ fallback → rates.instance_type ≡ "")
        × ((rates_for p n).1.fallback_warnings ≡ counted rates.source p.fallback_warnings)
        × ((rates_for p n).1.catalogue ≡ p.catalogue)
  unfolding rates_for
  rates_for-source p n {rates} e = elim (Option-cases (found p n)) [
    | inl missing ↦ ground (arith, fallback_rates-source p n (region_of p.catalogue n) rates)
    | inr (price, listed) ↦ ground (arith, listed_rates-source p (with_spot n price) rates)
  ]

  -- What a provider over a usable catalogue may answer: rates of which none is negative, or that
  -- there is no price, and that only for a node that the catalogue does not list, with no fallback.
  abbrev pub IsAnswer : CatalogueProvider D F → Node → Result (PriceError F) (Rates D) → Type 0
  IsAnswer p n (ok r) =
      IsNonneg r.node_hourly × IsNonneg r.cpu_per_core_hour × IsNonneg r.memory_per_gib_hour
  IsAnswer p n (err (no_price _ _ _)) = (p.catalogue.fallback ≡ none) × (found p n ≡ none)
  IsAnswer p n (err (invalid_instance _ _ _)) = ⊥

  -- No size of an entry is NaN or infinite.
  abbrev pub HasFiniteSize : InstancePrice D F → Type 0
  HasFiniteSize p = (v.is_finite p.vcpu ≡ true) × (v.is_finite p.memory_gib ≡ true)

  abbrev pub FallbackFinite : Option (InstancePrice D F) → Type 0
  FallbackFinite none = Unit
  FallbackFinite (some p) = HasFiniteSize p

  -- No size and no share in the catalogue is NaN or infinite.
  pub record IsFiniteCatalogue (c : Catalogue D F) : Type 0 where
    pub entries_finite : All (λ r. All (λ e. HasFiniteSize e.1) r.1.instance_types) c.regions
    pub fallback_finite : FallbackFinite c.fallback
    pub cpu_share_finite : v.is_finite c.split.cpu ≡ true
    pub memory_share_finite : v.is_finite c.split.memory ≡ true

  module _ (laws : DecimalLaws D) (conv : FromFloatLaws D F) where
    with_spot-HasFiniteSize :
        (n : Node) (price : InstancePrice D F)
        → HasFiniteSize price
        → HasFiniteSize (with_spot n price)
    unfolding with_spot
    with_spot-HasFiniteSize n price h = ground arith

    with_spot-IsPriced :
        (n : Node) (price : InstancePrice D F) → IsPriced price → IsPriced (with_spot n price)
    unfolding with_spot
    with_spot-IsPriced n price h = ground arith

    module _ (p : CatalogueProvider D F) (cpu : IsNonneg p.cpu_share)
        (memory : IsNonneg p.mem_share) where
      derive_rates-IsAnswer :
          (n : Node) (price : InstancePrice D F) (source : Source)
          → IsPriced price
          → HasFiniteSize price
          → IsAnswer p n (derive_rates price p.cpu_share p.mem_share p.catalogue.currency source)
      unfolding derive_rates
      derive_rates-IsAnswer n price source h (vcpu_finite, memory_finite) =
          let (v1, v2) = conv.from_float_positive price.vcpu vcpu_finite (ground arith) in
          let (m1, m2) = conv.from_float_positive price.memory_gib memory_finite (ground arith) in
          let hourly = h.prices.hourly_nonneg in
          rw h.sized (
            laws.round_nonneg _ 10 hourly,
            laws.div_round_nonneg _ _ 10 (laws.mul_nonneg _ _ hourly cpu) v1 v2,
            laws.div_round_nonneg _ _ 10 (laws.mul_nonneg _ _ hourly memory) m1 m2,
          )

      listed_rates-IsAnswer :
          (n : Node) (price : InstancePrice D F)
          → IsPriced price
          → HasFiniteSize price
          → IsAnswer p n (listed_rates p price)
      unfolding listed_rates
      listed_rates-IsAnswer n price h finite = elim (Bool-cases (has_explicit_rates price)) [
        | inl explicit ↦ rw explicit (
          laws.round_nonneg _ 10 h.prices.hourly_nonneg,
          laws.round_nonneg _ 10 h.prices.cpu_nonneg,
          laws.round_nonneg _ 10 h.prices.memory_nonneg,
        )
        | inr split ↦ rw split (derive_rates-IsAnswer n price catalogue h finite)
      ]

      unmatched-IsAnswer :
          (n : Node) (r : Result (PriceError F) (Rates D))
          → IsAnswer p n r
          → IsAnswer p n (unmatched r)
      unmatched-IsAnswer n (ok r) h = h
      unmatched-IsAnswer n (err (no_price _ _ _)) h = h
      unmatched-IsAnswer n (err (invalid_instance _ _ _)) h = h

      fallback_rates-IsAnswer :
          (n : Node) (region : String)
          → IsUsable p.catalogue
          → IsFiniteCatalogue p.catalogue
          → found p n ≡ none
          → IsAnswer p n (fallback_rates p n region).0
      unfolding fallback_rates
      fallback_rates-IsAnswer n region u finite missing = elim (Option-cases p.catalogue.fallback) [
        | inl unset ↦ simp (unset, fallback_rates) (refl, missing)
        | inr (price, set) ↦
            simp (set, fallback_rates)
              (unmatched-IsAnswer n _ (
                derive_rates-IsAnswer n price fallback (subst FallbackPriced set u.fallback_priced)
                  (subst FallbackFinite set finite.fallback_finite)))
      ]

    -- What holds of every entry of every region holds of the entry that is found.
    module _ (P : InstancePrice D F → Type 0) (c : Catalogue D F)
        (each : All (λ r. All (λ e. P e.1) r.1.instance_types) c.regions) where
      price_in-each :
          (region instance_type : String) {price : InstancePrice D F}
          → price_in c region instance_type ≡ some price
          → P price
      unfolding price_in
      price_in-each region instance_type e = elim (Option-cases (lookup region c.regions)) [
        | inl missing ↦ absurd (cc (rw (missing, price_in) at e))
        | inr (r, known) ↦
            All-lookup P instance_type r.instance_types
              (All-lookup (λ r. All (λ e. P e.1) r.instance_types) region c.regions each known)
              (rw (known, price_in) at e)
      ]

      lookup_price-each :
          (region instance_type : String) (price : InstancePrice D F)
          → lookup_price c region instance_type ≡ some price
          → P price
      unfolding lookup_price
      lookup_price-each region instance_type price e = ground (
        arith,
        price_in-each region instance_type {price = price},
        price_in-each c.default_region instance_type {price = price},
      )

    rates_for-IsAnswer :
        (p : CatalogueProvider D F) (n : Node)
        → IsUsable p.catalogue
        → IsFiniteCatalogue p.catalogue
        → IsNonneg p.cpu_share
        → IsNonneg p.mem_share
        → IsAnswer p n (rates_for p n).0
    unfolding rates_for
    rates_for-IsAnswer p n u finite cpu memory = elim (Option-cases (found p n)) [
      | inl missing ↦
          rw (missing, rates_for)
            (fallback_rates-IsAnswer p cpu memory n (region_of p.catalogue n) u finite missing)
      | inr (price, listed) ↦
          let region = region_of p.catalogue n in
          let c = p.catalogue in
          let priced =
            lookup_price-each IsPriced c u.regions_priced region n.instance_type price listed in
          let sized =
            lookup_price-each HasFiniteSize c finite.entries_finite region n.instance_type price
              listed in
          rw (listed, rates_for)
            (listed_rates-IsAnswer p cpu memory n (with_spot n price)
              (with_spot-IsPriced n price priced) (with_spot-HasFiniteSize n price sized))
    ]

    -- Over a catalogue that loaded, in which no size and no share is NaN or infinite, every node gets
    -- rates of which none is negative, or the answer that there is no price; and that answer only if the
    -- catalogue neither lists the node nor has a fallback. A malformed entry never comes up while pricing.
    pub loaded_rates-IsAnswer :
        (decoded : Option (Catalogue D F)) (c : Catalogue D F) (n : Node)
        → load_catalogue decoded ≡ ok c
        → IsFiniteCatalogue c
        → IsAnswer (new_catalogue_provider c) n (rates_for (new_catalogue_provider c) n).0
    unfolding new_catalogue_provider
    loaded_rates-IsAnswer decoded c n e finite =
        let u = load_catalogue-IsUsable laws decoded e in
        rates_for-IsAnswer (new_catalogue_provider c) n u finite
          (conv.from_float_nonneg c.split.cpu finite.cpu_share_finite u.cpu_share_nonneg)
          (conv.from_float_nonneg c.split.memory finite.memory_share_finite u.memory_share_nonneg)
