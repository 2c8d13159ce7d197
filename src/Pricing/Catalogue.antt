-- ===== src/Pricing/Catalogue.antt =====
-- internal/pricing/catalogue.go: the catalogue file, its parsing and its validation. A Go map is a list
-- in the order in which a range over it runs.
use Prim.Native.String.{String}
use text.Mathlib.Text.{◌==◌ as str_eq}
use kubernetes_cost_analyzer.Common.{
  report_if, Bool, not, ◌&&◌, ◌||◌, Option, none, some, List, [], ◌∷◌, ◌++◌, Result, err, joined,
  if◌then◌else◌,
}
use kubernetes_cost_analyzer.Common.Int.{ℤ, pos, eq_ℤ}
use kubernetes_cost_analyzer.Common.Text.{trim_space}
use kubernetes_cost_analyzer.Common.Maps.{lookup}
use kubernetes_cost_analyzer.Numeric.Decimal.{Decimal}
use kubernetes_cost_analyzer.Numeric.Float.{Float64}

pub record InstancePrice (D F : Type 0) : Type 0 where
  pub name : String
  pub vcpu : F
  pub memory_gib : F
  pub hourly : D
  pub hourly_raw : String
  pub spot_hourly : D
  pub spot_hourly_raw : String
  pub cpu_per_core_hour : D
  pub cpu_per_core_hour_raw : String
  pub memory_per_gib_hour : D
  pub memory_per_gib_hour_raw : String

pub record Split (F : Type 0) : Type 0 where
  pub cpu : F
  pub memory : F

pub record Region (D F : Type 0) : Type 0 where
  pub instance_types : List (String × InstancePrice D F)

pub record Catalogue (D F : Type 0) : Type 0 where
  pub version : ℤ
  pub currency : String
  pub split : Split F
  pub regions : List (String × Region D F)
  pub default_region : String
  pub fallback : Option (InstancePrice D F)

-- The messages of `parse` and of `normalise`, a constructor for each.
pub data FieldError : Type 0 where
  bad_decimal : (field raw : String) → FieldError
  negative_decimal : (field raw : String) → FieldError
  unpriced : FieldError

pub data CatalogueError (F : Type 0) : Type 0 where
  undecodable : CatalogueError F
  unsupported_version : ℤ → CatalogueError F
  currency_required : CatalogueError F
  negative_split : F → F → CatalogueError F
  split_sum : F → F → F → CatalogueError F
  no_regions : CatalogueError F
  unknown_default_region : String → CatalogueError F
  bad_instance : (region instance : String) → List FieldError → CatalogueError F
  not_positive : (region instance : String) → CatalogueError F
  bad_fallback : List FieldError → CatalogueError F
  fallback_not_positive : CatalogueError F

module _ {D F : Type 0} where
  unfoldable pub has_explicit_rates : InstancePrice D F → Bool
  has_explicit_rates p =
      not (str_eq p.cpu_per_core_hour_raw "") && not (str_eq p.memory_per_gib_hour_raw "")

module _ {D : Type 0} ⦃d : Decimal D⦄ where
  -- The value that the field gets (zero if it is refused), and the errors.
  unfoldable pub parse_field : String → String → D × List FieldError
  unfolding trim_space
  parse_field raw field =
      if str_eq (trim_space raw) "" then (d.nought, []) else elim (d.from_string (trim_space raw)) [
        | none ↦ (d.nought, bad_decimal field raw ∷ [])
        | some v ↦ if d.is_negative v then (d.nought, negative_decimal field raw ∷ []) else (v, [])
      ]

  module _ {F : Type 0} where
    unfoldable pub parse : InstancePrice D F → InstancePrice D F × List FieldError
    unfolding parse_field has_explicit_rates
    parse p =
        let (hourly, e1) = parse_field p.hourly_raw "hourly" in
        let (spot, e2) = parse_field p.spot_hourly_raw "spot_hourly" in
        let (cpu, e3) = parse_field p.cpu_per_core_hour_raw "cpu_per_core_hour" in
        let (memory, e4) = parse_field p.memory_per_gib_hour_raw "memory_per_gib_hour" in
        (
          record p {
            hourly = hourly;
            spot_hourly = spot;
            cpu_per_core_hour = cpu;
            memory_per_gib_hour = memory;
          },
          e1
              ++ e2
              ++ e3
              ++ e4
              ++ report_if (str_eq p.hourly_raw "" && not (has_explicit_rates p)) unpriced,
        )

module _ {F : Type 0} ⦃f : Float64 F⦄ where
  -- `1-tolerance` and `1+tolerance` are constants of the source, rounded once.
  unfoldable pub split_errors : Split F → List (CatalogueError F)
  split_errors s =
      let sum = f.fadd s.cpu s.memory in
      if f.flt s.cpu (f.lit 0 0) || f.flt s.memory (f.lit 0 0)
      then negative_split s.cpu s.memory ∷ []
      else report_if (f.flt sum (f.lit 999_999_999 9) || f.flt (f.lit 1_000_000_001 9) sum)
          (split_sum s.cpu s.memory sum)

module _ {D F : Type 0} ⦃d : Decimal D⦄ ⦃f : Float64 F⦄ where
  abbrev pub lacks_size : InstancePrice D F → Bool
  lacks_size p = f.fle p.vcpu (f.lit 0 0) || f.fle p.memory_gib (f.lit 0 0)

  -- One entry of a region: the entry that the map then holds, and the errors. An entry that does not
  -- parse is not written back.
  unfoldable pub normalise_entry :
      String → String → InstancePrice D F → InstancePrice D F × List (CatalogueError F)
  normalise_entry region type_name price =
      let (parsed, errs) = parse (record price { name = type_name }) in
      elim errs [
        | [] ↦ (parsed, report_if (lacks_size parsed) (not_positive region type_name))
        | e ∷ es ↦ (price, bad_instance region type_name (e ∷ es) ∷ [])
      ]

  unfoldable pub normalise_entries :
      String
      → List (String × InstancePrice D F)
      → List (String × InstancePrice D F) × List (CatalogueError F)
  normalise_entries region [] = ([], [])
  normalise_entries region ((type_name, price) ∷ rest) =
      let (price', errs) = normalise_entry region type_name price in
      let (rest', errs') = normalise_entries region rest in
      ((type_name, price') ∷ rest', errs ++ errs')

  unfoldable pub normalise_regions :
      List (String × Region D F) → List (String × Region D F) × List (CatalogueError F)
  normalise_regions [] = ([], [])
  normalise_regions ((name, region) ∷ rest) =
      let (types, errs) = normalise_entries name region.instance_types in
      let (rest', errs') = normalise_regions rest in
      ((name, record { instance_types = types }) ∷ rest', errs ++ errs')

  unfoldable pub normalise_fallback :
      Option (InstancePrice D F) → Option (InstancePrice D F) × List (CatalogueError F)
  normalise_fallback none = (none, [])
  normalise_fallback (some price) =
      let (parsed, errs) = parse (record price { name = "fallback" }) in
      elim errs [
        | [] ↦ (some parsed, report_if (lacks_size parsed) fallback_not_positive)
        | e ∷ es ↦ (some parsed, bad_fallback (e ∷ es) ∷ [])
      ]

  unfoldable pub version_errors : Catalogue D F → List (CatalogueError F)
  version_errors c = report_if (not (eq_ℤ c.version (pos 1))) (unsupported_version c.version)

  unfoldable pub currency_errors : Catalogue D F → List (CatalogueError F)
  unfolding trim_space
  currency_errors c = report_if (str_eq (trim_space c.currency) "") currency_required

  unfoldable pub region_errors : Catalogue D F → List (CatalogueError F)
  region_errors c =
      elim c.regions [ [] ↦ no_regions ∷ [] | _ ∷ _ ↦ [] ]
      ++ (if str_eq c.default_region "" then [] else elim (lookup c.default_region c.regions) [
        | none ↦ unknown_default_region c.default_region ∷ []
        | some _ ↦ []
      ])

  unfoldable pub header_errors : Catalogue D F → List (CatalogueError F)
  header_errors c =
      version_errors c ++ (currency_errors c ++ (split_errors c.split ++ region_errors c))

  unfoldable pub normalise : Catalogue D F → Catalogue D F × List (CatalogueError F)
  normalise c =
      let (regions, e2) = normalise_regions c.regions in
      let (fallback, e3) = normalise_fallback c.fallback in
      (record c { regions = regions; fallback = fallback }, header_errors c ++ (e2 ++ e3))

  -- The argument is what the YAML decoder made of the file, `none` if it failed.
  unfoldable pub load_catalogue :
      Option (Catalogue D F) → Result (List (CatalogueError F)) (Catalogue D F)
  load_catalogue none = err (undecodable ∷ [])
  load_catalogue (some c) = joined (normalise c).0 (normalise c).1
