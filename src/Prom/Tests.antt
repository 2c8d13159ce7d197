-- ===== src/Prom/Tests.antt =====
-- A cluster with one container, and the theorems at it.
use Prim.Native.String.{String}
use Prim.Native.String.{◌++◌ as str_append}
use kubernetes_cost_analyzer.Common.{
  ◌*◌, ◌/◌, ◌+◌, ◌≡◌, ◌↔◌, ◌⊎◌, refl, false, Option, none, some, [], ◌∷◌, Result, ok, err,
  if◌then◌else◌,
}
use kubernetes_cost_analyzer.Common.Int.{pos, ◌-ℤ◌}
use kubernetes_cost_analyzer.Common.Text.{Text}
use kubernetes_cost_analyzer.Numeric.Fixed.{Nano, nano_float}
use kubernetes_cost_analyzer.Clock.{Time, minute, sub_time}
use kubernetes_cost_analyzer.Domain.{ContainerKey, Usage}
use kubernetes_cost_analyzer.Prom.{
  Sample, Value, vector, is_dns1123_label, label_from, namespace_selector,
}
use kubernetes_cost_analyzer.Prom.Merging.{
  Rounding, Usages, UsageError, window_not_after, same_key, update, raise_peaks, visit_samples,
  collect, container_usage,
}
use kubernetes_cost_analyzer.Prom.Selectors.{IsLabel, namespace_selector_cases}
use kubernetes_cost_analyzer.Prom.Readings.{IsReading, container_usage_iff}

abbrev nearest : Rounding Nano
nearest = record {
  not_finite = λ v. false;
  round = λ v. (v + 500_000_000) / 1_000_000_000 * 1_000_000_000;
}

-- Each query answers two thirds for the one container, and has a series without a container.
abbrev web : Nano → Sample Nano
web v = record {
  metric = ("namespace", "shop") ∷ ("pod", "web-1") ∷ ("container", "app") ∷ [];
  value = v;
}

abbrev api : Text Nano → Time → Result String (Value Nano)
api query at =
    ok (vector (web 666_700_000 ∷ record { metric = ("namespace", "shop") ∷ []; value = 5 } ∷ []))

abbrev web_key : ContainerKey
web_key = record { namespace = "shop"; pod = "web-1"; container = "app" }

abbrev web_usage : Usage
web_usage = record {
  cpu_millicores = pos 667;
  memory_bytes = pos 1;
  cpu_millicores_max = pos 667;
  memory_bytes_max = pos 1;
}

abbrev observed_usage : Usages
observed_usage k = if same_key web_key k then some web_usage else none

-- The usage of a container in a result.
abbrev usage_in : {F E : Type 0} → Result (UsageError F E) Usages → ContainerKey → Option Usage
usage_in (ok usage) k = usage k
usage_in (err e) k = none

reads_web :
    usage_in (container_usage nearest api "shop" (pos 0) (pos minute)) web_key ≡ some web_usage
unfolding container_usage collect visit_samples update raise_peaks sub_time ◌-ℤ◌
reads_web = refl

empty_window :
    container_usage nearest api "shop" (pos 5) (pos 5) ≡ err (window_not_after (pos 5) (pos 5))
unfolding container_usage sub_time ◌-ℤ◌
empty_window = refl

container_usage_iff_example :
    (container_usage nearest api "shop" (pos 0) (pos minute) ≡ ok observed_usage)
    ↔ IsReading nearest api "shop" (pos 0) (pos minute) observed_usage
container_usage_iff_example =
    container_usage_iff nearest api "shop" (pos 0) (pos minute) observed_usage

-- A name with a quote is not let into a query.
no_injection : namespace_selector "a\"} or up{b=\"" ≡ ""
unfolding namespace_selector is_dns1123_label label_from
no_injection = refl

namespace_selector_cases_example :
    (IsLabel "shop-2"
      × (namespace_selector "shop-2" ≡ str_append ",namespace=\"" (str_append "shop-2" "\"")))
    ⊎ ((¬ IsLabel "shop-2") × (namespace_selector "shop-2" ≡ ""))
namespace_selector_cases_example = namespace_selector_cases "shop-2"
