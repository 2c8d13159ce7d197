-- ===== src/Http.antt =====
-- internal/httpapi/params.go: what the API makes of a query, every problem of it being reported. Here
-- the problems and a reader's result; a query is the first value of each parameter, as `Get` gives it.
pub mod Params
pub mod Requests
pub mod Months
pub mod Limits
pub mod Ranges
pub mod Bounds
pub mod Statements
mod Tests
use Prim.Native.String.{String}
use kubernetes_cost_analyzer.Common.{◌≡◌, ap, append-eq-nil, List, [], ◌∷◌, ◌++◌}
use kubernetes_cost_analyzer.Common.Int.{ℤ}
use kubernetes_cost_analyzer.Clock.{Duration}

abbrev pub Query : Type 0
Query = String → String

-- The reasons, one for each message.
pub data Reason : Type 0 where
  not_a_timestamp : Reason
  not_after_from : Reason
  range_too_long : Duration → Reason
  longer_than_name : Reason
  not_a_boolean : Reason
  not_a_capacity : Reason
  not_an_integer : Reason
  below_one : Reason
  above_max : ℤ → Reason
  not_one_of : List String → Reason
  not_an_order : Reason
  not_a_cursor : Reason
  not_a_comparison : Reason
  hourly_too_long : Duration → Reason
  not_a_month : Reason
  before_from : Reason
  too_many_months : Reason

pub record FieldError : Type 0 where
  pub field : String
  pub reason : Reason

-- A reader's value, with the errors that it added.
abbrev pub Checked : Type 0 → Type 0
Checked A = A × List FieldError

infixl 5 ◌>>=◌
abbrev pub ◌>>=◌ : {A B : Type 0} → Checked A → (A → Checked B) → Checked B
(a, es) >>= k = ((k a).0, es ++ (k a).1)

abbrev pub pure : {A : Type 0} → A → Checked A
pure a = (a, [])

-- `v.add(field, reason)`, and then a value.
abbrev pub complain : {A : Type 0} → String → Reason → A → Checked A
complain field reason a = (a, record { field = field; reason = reason } ∷ [])

-- Without an error in the end there was none at any step.
pub clean_rest :
    {B : Type 0} {b c : B} {rest : List FieldError} (es : List FieldError)
    → ◌≡◌ {A = Checked B} (b, es ++ rest) (c, [])
    → ◌≡◌ {A = Checked B} (b, rest) (c, [])
clean_rest {rest = rest} es h =
    let clean = (append-eq-nil es rest (ap (λ x. x.1) h)).1 in λ i. ((h i).0, clean i)
