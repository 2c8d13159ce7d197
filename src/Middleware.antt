-- ===== src/Middleware.antt =====
-- internal/httpapi/middleware: what stands before the handlers. Here a request as far as the two gates
-- read it, the exempt paths and the presented key of auth.go; headers are ASCII text.
pub mod Auth
pub mod RateLimit
mod Presented
pub mod Access
pub mod Buckets
mod Tests
use Prim.Native.Char.{Char}
use Prim.Native.String.{String}
use text.Mathlib.Text.{◌==◌ as str_eq}
use kubernetes_cost_analyzer.Common.{
  ℕ, zero, suc, Bool, ◌||◌, ◌&&◌, not, List, [], ◌∷◌, length, ltb, if◌then◌else◌,
}
use kubernetes_cost_analyzer.Common.Text.{chars, of_chars, trim_space, to_lower}

-- A header that is absent reads as the empty text.
pub record Request : Type 0 where
  pub path : String
  pub authorization : String
  pub api_key : String
  pub remote_addr : String

-- `unauthenticatedPaths`.
unfoldable pub is_exempt : String → Bool
is_exempt path = str_eq path "/healthz" || str_eq path "/readyz"

pub first_chars : ℕ → List Char → List Char
first_chars zero cs = []
first_chars (suc n) [] = []
first_chars (suc n) (c ∷ cs) = c ∷ first_chars n cs

pub after_chars : ℕ → List Char → List Char
after_chars zero cs = cs
after_chars (suc n) [] = []
after_chars (suc n) (c ∷ cs) = after_chars n cs

unfoldable pub presented_key : Request → String
unfolding first_chars after_chars
presented_key r =
    let auth = chars r.authorization in
    if ltb 7 (length auth) && str_eq (to_lower (of_chars (first_chars 7 auth))) "bearer "
    then trim_space (of_chars (after_chars 7 auth))
    else trim_space r.api_key
