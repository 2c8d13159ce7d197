-- ===== src/Handlers.antt =====
-- internal/httpapi: what a handler answers (respond.go), the fleet's currencies and the guard on them
-- (clusters.go). A port is given by what it answers; encoding to JSON does not fail.
pub mod Costs
pub mod Advice
pub mod History
pub mod Lists
pub mod Fleet
pub mod Currency
pub mod Totals
pub mod Comparing
mod Tests
use Prim.Native.Char.{Char, code}
use Prim.Native.String.{String}
use text.Mathlib.Text.{◌==◌ as str_eq}
use kubernetes_cost_analyzer.Common.{
  ℕ, Bool, true, false, not, Option, none, some, List, [], ◌∷◌, map, length, leb, ltb, Result, ok,
  err, if◌then◌else◌,
}
use kubernetes_cost_analyzer.Common.Text.{Text, raw, chars}
use kubernetes_cost_analyzer.Common.Maps.{Entries, insert}
use kubernetes_cost_analyzer.Common.Sort.{sort_stable}
use kubernetes_cost_analyzer.Clock.{Time}
use kubernetes_cost_analyzer.Http.{FieldError}

pub data Message : Type 0 where
  says : String → Message
  -- The message of a fleet with several currencies, which it lists.
  reports_in : List String → Message

-- A status with a body, which the caller may keep for a minute where it is `cacheable`, or an error.
pub data Response (B : Type 0) : Type 0 where
  sent : (status : ℕ) (cacheable : Bool) (body : B) → Response B
  failed : (status : ℕ) (code : String) (message : Message) (fields : List FieldError) → Response B

-- `writeError` and `writeValidationError`.
abbrev pub write_error : {B : Type 0} → ℕ → String → Message → Response B
write_error status code message = failed status code message []

abbrev pub write_validation_error : {B : Type 0} → List FieldError → Response B
write_validation_error fields =
    failed 400 "invalid_parameter" (says "one or more query parameters are invalid") fields

abbrev pub internal_error : {B : Type 0} → String → Response B
internal_error text = write_error 500 "internal_error" (says text)

-- The first step of a handler: the parameters, or what is wrong with them.
abbrev pub validated : {P B : Type 0} → Result (List FieldError) P → (P → Response B) → Response B
validated (ok p) answer = answer p
validated (err fields) answer = write_validation_error fields

-- The last step: what the store answers, or that it could not.
abbrev pub queried : {E A B : Type 0} → Result E A → String → (A → Response B) → Response B
queried (ok a) text answer = answer a
queried (err e) text answer = internal_error text

pub record ClusterRow : Type 0 where
  pub name : String
  pub provider : String
  pub region : String
  pub account : String
  pub currency : String
  pub first_seen : Time
  pub last_seen : Time

-- The order of strings by their characters, which is that of their bytes.
unfoldable pub chars_less : List Char → List Char → Bool
chars_less xs [] = false
chars_less [] (y ∷ ys) = true
chars_less (x ∷ xs) (y ∷ ys) =
    let rest = chars_less xs ys in
    if ltb (code x) (code y) then true else if ltb (code y) (code x) then false else rest

abbrev pub string_less : String → String → Bool
string_less s t = chars_less (chars s) (chars t)

-- The set of the currencies, as the loop builds it up from `seen`.
unfoldable pub seen_from : Entries (Unit {0}) → List ClusterRow → Entries (Unit {0})
seen_from seen [] = seen
seen_from seen (c ∷ cs) =
    seen_from (if str_eq c.currency "" then seen else insert c.currency tt seen) cs

unfoldable pub distinct_currencies : List ClusterRow → List String
distinct_currencies rows = sort_stable string_less (map (λ p. p.0) (seen_from [] rows))

pub data Refusal (E : Type 0) : Type 0 where
  checking : E → Refusal E
  mixed : List String → Refusal E

-- The clusters are listed only where the query is not of one cluster.
unfoldable pub guard_currency :
    {E : Type 0} → Result E (List ClusterRow) → String → Option (Refusal E)
guard_currency fleet cluster = if not (str_eq cluster "") then none else elim fleet [
  | err e ↦ some (checking e)
  | ok rows ↦
      if leb (length (distinct_currencies rows)) 1
      then none
      else some (mixed (distinct_currencies rows))
]

-- What a handler makes of a refusal.
abbrev pub refused : {E B : Type 0} → Refusal E → Response B
refused (mixed currencies) = write_error 409 "mixed_currencies" (reports_in currencies)
refused (checking e) = internal_error "could not check fleet currencies"

abbrev pub after_guard : {E B : Type 0} → Option (Refusal E) → Response B → Response B
after_guard none answer = answer
after_guard (some refusal) answer = refused refusal

unfoldable pub guarded :
    {E B : Type 0} → Result E (List ClusterRow) → String → Response B → Response B
guarded fleet cluster answer = after_guard (guard_currency fleet cluster) answer
