-- ===== src/Health.antt =====
-- internal/health: the readiness of a process from the checks of what it depends on. The checks run at
-- once, each writing its result at its own index; a check that panics is contained.
pub mod Schedules
mod Tests
use Prim.Native.String.{String}
use kubernetes_cost_analyzer.Common.{
  ℕ, zero, suc, Option, none, some, List, [], ◌∷◌, length, ◌*◌, if◌then◌else◌,
}
use kubernetes_cost_analyzer.Common.Int.{ℤ, pos, le_ℤ, quot}
use kubernetes_cost_analyzer.Common.Text.{Text, raw, sprintf, str, done}
use kubernetes_cost_analyzer.Clock.{Duration, second}

pub data Status : Type 0 where
  status_up status_down : Status

-- What a check may come to: nothing wrong, an error, or a panic, by their texts.
pub data Called : Type 0 where
  returned : Called
  failed : String → Called
  panicked : String → Called

-- A checker as one run of it behaves under the timeout: its name, the panic if it panics when asked for
-- it, what the check comes to, and the milliseconds that passed when it was over.
pub record Checker : Type 0 where
  pub name : String
  pub name_panic : Option String
  pub check : Called
  pub latency_ms : ℤ

pub record CheckResult : Type 0 where
  pub name : String
  pub status : Status
  pub error : Text Unit
  pub latency_ms : ℤ

pub record Report : Type 0 where
  pub status : Status
  pub checks : List CheckResult

pub record Aggregator : Type 0 where
  pub checkers : List Checker
  pub timeout : Duration

unfoldable pub new_aggregator : Duration → List Checker → Aggregator
new_aggregator timeout checkers = record {
  checkers = checkers;
  timeout = if le_ℤ timeout (pos 0) then pos (2 * second) else timeout;
}

abbrev pub recovered : String → Checker → String → CheckResult
recovered name c text = record {
  name = name;
  status = status_down;
  error = sprintf "health check panicked: %v" (str text done);
  latency_ms = c.latency_ms;
}

-- The results of a check that comes back, by its error.
unfoldable pub checked : Checker → CheckResult
checked c = elim c.check [
  | returned ↦ record {
    name = c.name;
    status = status_up;
    error = raw "";
    latency_ms = c.latency_ms;
  }
  | failed text ↦ record {
    name = c.name;
    status = status_down;
    error = raw text;
    latency_ms = c.latency_ms;
  }
  | panicked text ↦ recovered c.name c text
]

unfoldable pub run_one : Checker → CheckResult
run_one c = elim c.name_panic [ some text ↦ recovered "unknown" c text | none ↦ checked c ]

module _ {ℓ} {A : Type ℓ} where
  abbrev pub element : List A → ℕ → Option A
  element [] i = none
  element (x ∷ xs) zero = some x
  element (x ∷ xs) (suc i) = element xs i

  -- `results[i] = x`, of an index in range.
  abbrev pub assign : List A → ℕ → A → List A
  assign [] i y = []
  assign (x ∷ xs) zero y = y ∷ xs
  assign (x ∷ xs) (suc i) y = x ∷ assign xs i y

  -- `make([]T, n)` of a zero value.
  abbrev pub blanks : ℕ → A → List A
  blanks zero x = []
  blanks (suc n) x = x ∷ blanks n x

-- The zero value of a result, which no report shows.
abbrev pub no_result : CheckResult
no_result = record { name = ""; status = status_down; error = raw ""; latency_ms = pos 0 }

abbrev pub place : Option Checker → ℕ → List CheckResult → List CheckResult
place none i results = results
place (some c) i results = assign results i (run_one c)

-- What the goroutine of the index `i` does.
unfoldable pub write_result : List Checker → ℕ → List CheckResult → List CheckResult
write_result checkers i results = place (element checkers i) i results

-- The goroutines in the order in which they write.
unfoldable pub write_all : List Checker → List ℕ → List CheckResult → List CheckResult
write_all checkers [] results = results
write_all checkers (i ∷ is) results = write_all checkers is (write_result checkers i results)

-- The loop that stops at the first check that is down.
unfoldable pub overall : List CheckResult → Status
overall [] = status_up
overall (r ∷ rs) =
    let rest = overall rs in elim r.status [ status_down ↦ status_down | status_up ↦ rest ]

unfoldable pub run : List ℕ → Aggregator → Report
run order a = elim a.checkers [
  | [] ↦ record { status = status_up; checks = [] }
  | c ∷ cs ↦
      let results = write_all (c ∷ cs) order (blanks (length (c ∷ cs)) no_result) in
      record { status = overall results; checks = results }
]
