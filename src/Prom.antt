-- ===== src/Prom.antt =====
-- internal/prom/prom.go: the queries, with the selector of a namespace, and what Prometheus answers. The
-- client of its API is a parameter.
pub mod Merging
pub mod Selectors
pub mod Samples
pub mod Readings
mod Tests
use Prim.Native.Char.{Char, code}
use Prim.Native.String.{String}
use Prim.Native.String.{◌++◌ as str_append}
use text.Mathlib.Text.{◌==◌ as str_eq}
use kubernetes_cost_analyzer.Common.{
  ◌^◌, ◌*◌, Bool, true, false, ◌&&◌, ◌||◌, List, [], ◌∷◌, Result, leb, ltb, ◌==◌, if◌then◌else◌,
}
use kubernetes_cost_analyzer.Common.Int.{ℤ, pos, quot, lt_ℤ, ◌-ℤ◌, ◌*ℤ◌}
use kubernetes_cost_analyzer.Common.Text.{
  Text, sprintf, done, str, int, of_text, chars, byte_length,
}
use kubernetes_cost_analyzer.Common.Maps.{Entries}
use kubernetes_cost_analyzer.Numeric.Float.{Float64}
use kubernetes_cost_analyzer.Clock.{Time, Duration, minute, second}

pub record Sample (F : Type 0) : Type 0 where
  pub metric : Entries String
  pub value : F

-- `model.Value`; a value that is not a vector is given by its type.
pub data Value (F : Type 0) : Type 0 where
  vector : List (Sample F) → Value F
  other_value : String → Value F

-- `promv1.API`: the instant query. Its warnings are for logs.
abbrev pub Api : Type 0 → Type 0 → Type 0
Api F E = Text F → Time → Result E (Value F)

abbrev pub is_label_letter : Char → Bool
is_label_letter c =
    (leb b'a' (code c) && leb (code c) b'z') || (leb b'0' (code c) && leb (code c) b'9')

abbrev pub is_dash : Char → Bool
is_dash c = code c == b'-'

abbrev is_end : List Char → Bool
is_end [] = true
is_end (c ∷ cs) = false

-- The loop over the characters, of which a dash is neither the first nor the last.
unfoldable pub label_from : Bool → List Char → Bool
label_from first [] = true
label_from first (c ∷ cs) =
    let rest = label_from false cs in
    if is_label_letter c
    then rest
    else if is_dash c
    then (if first || is_end cs then false else rest)
    else false

unfoldable pub is_dns1123_label : String → Bool
unfolding label_from
is_dns1123_label s =
    if str_eq s "" || ltb 63 (byte_length (chars s)) then false else label_from true (chars s)

-- `fmt.Sprintf` with the name in quotes is the concatenation.
unfoldable pub namespace_selector : String → String
namespace_selector namespace =
    if str_eq namespace ""
    then ""
    else if is_dns1123_label namespace
    then str_append ",namespace=\"" (str_append namespace "\"")
    else ""

-- A fifth of the window, and one minute at least.
unfoldable pub peak_inner_window : Duration → Duration
peak_inner_window window =
    let inner = quot window 5 in if lt_ℤ inner (pos minute) then pos minute else inner

module _ {F : Type 0} ⦃f : Float64 F⦄ where
  -- `d.Seconds()`: the whole seconds, and the rest as a fraction of a second.
  abbrev pub seconds : Duration → F
  seconds d =
      f.fadd (f.of_int (quot d second))
        (f.fdiv (f.of_int (d -ℤ (quot d second *ℤ pos second))) (f.lit second 0))

  unfoldable pub prom_duration : Duration → Text F
  prom_duration d =
      let whole = f.to_int (seconds d) in
      sprintf "%ds" (int (if lt_ℤ whole (pos 1) then pos 1 else whole) done)

  unfoldable pub cpu_query : String → Duration → Text F
  cpu_query namespace window =
      sprintf
        "sum by (namespace, pod, container) (rate(container_cpu_usage_seconds_total{container!=\"\",container!=\"POD\"%s}[%s]))"
        (str (namespace_selector namespace) (of_text (prom_duration window) done))

  unfoldable pub memory_query : String → Duration → Text F
  memory_query namespace window =
      sprintf
        "sum by (namespace, pod, container) (avg_over_time(container_memory_working_set_bytes{container!=\"\",container!=\"POD\"%s}[%s]))"
        (str (namespace_selector namespace) (of_text (prom_duration window) done))

  unfoldable pub cpu_peak_query : String → Duration → Text F
  cpu_peak_query namespace window =
      let inner = prom_duration (peak_inner_window window) in
      sprintf
        "max_over_time(sum by (namespace, pod, container) (rate(container_cpu_usage_seconds_total{container!=\"\",container!=\"POD\"%s}[%s]))[%s:%s])"
        (str (namespace_selector namespace)
          (of_text inner (of_text (prom_duration window) (of_text inner done))))

  unfoldable pub memory_peak_query : String → Duration → Text F
  memory_peak_query namespace window =
      sprintf
        "max_over_time(sum by (namespace, pod, container) (container_memory_working_set_bytes{container!=\"\",container!=\"POD\"%s})[%s:])"
        (str (namespace_selector namespace) (of_text (prom_duration window) done))

  -- For diagnostics.
  unfoldable pub describe : String → Duration → List (Text F)
  describe namespace window = cpu_query namespace window ∷ memory_query namespace window ∷ []
