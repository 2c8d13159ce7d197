-- ===== src/Middleware/Auth.antt =====
-- internal/httpapi/middleware/auth.go: the check of the API key. SHA-256 and the constant-time comparison
-- of digests are of Go's crypto packages: a parameter.
use Prim.Native.String.{String}
use text.Mathlib.Text.{◌==◌ as str_eq}
use kubernetes_cost_analyzer.Common.{Bool, false, ◌||◌, List, [], ◌∷◌, if◌then◌else◌}
use kubernetes_cost_analyzer.Common.Text.{trim_space}
use kubernetes_cost_analyzer.Middleware.{Request, is_exempt, presented_key}

pub record Digests (H : Type 0) : Type 0 where
  pub sum256 : String → H
  -- `subtle.ConstantTimeCompare(a, b) == 1`.
  pub same : H → H → Bool

-- What becomes of a request: it is served, or it is answered with 401.
pub data Verdict : Type 0 where
  served missing_key invalid_key : Verdict

module _ {H : Type 0} ⦃h : Digests H⦄ where
  -- The digests of the keys that are not blank.
  unfoldable pub hashed_keys : List String → List H
  hashed_keys [] = []
  hashed_keys (k ∷ ks) =
      let rest = hashed_keys ks in
      if str_eq (trim_space k) "" then rest else h.sum256 (trim_space k) ∷ rest

  -- The loop of `authorised`, which does not stop at a match.
  unfoldable pub match_any : List H → H → Bool → Bool
  match_any [] sum found = found
  match_any (k ∷ ks) sum found = match_any ks sum (found || h.same k sum)

  unfoldable pub authorised : List H → String → Bool
  authorised hashed presented = match_any hashed (h.sum256 presented) false

  -- The handler, over the digests made when the gate was built.
  unfoldable pub api_key_auth : List H → Request → Verdict
  api_key_auth hashed r = if is_exempt r.path then served else elim hashed [
    | [] ↦ served
    | k ∷ ks ↦
        if str_eq (presented_key r) ""
        then missing_key
        else if authorised (k ∷ ks) (presented_key r)
        then served
        else invalid_key
  ]
