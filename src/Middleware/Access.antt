-- ===== src/Middleware/Access.antt =====
-- Who passes the check of the API key.
use kubernetes_cost_analyzer.Common.{
  ◌≡◌, ◌≢◌, ◌↔◌, ◌⊎◌, inl, inr, refl, Bool, true, false, ◌||◌, List, [], ◌∷◌, All, subst, arith,
}
use Prim.Native.String.{String}
use text.Mathlib.TextEquality.{eq_iff}
use kubernetes_cost_analyzer.Common.Text.{trim_space}
use kubernetes_cost_analyzer.Middleware.Presented.{Presents, presented_key_iff}
use kubernetes_cost_analyzer.Middleware.{Request, is_exempt, presented_key}
use kubernetes_cost_analyzer.Middleware.Auth.{
  Digests, hashed_keys, match_any, authorised, served, api_key_auth,
}

module _ {H : Type 0} where
  -- A digest is among others.
  abbrev pub Among : H → List H → Type 0
  Among x [] = ⊥
  Among x (k ∷ ks) = (k ≡ x) ⊎ Among x ks

-- The comparison of digests is equality.
pub record DigestLaws (H : Type 0) ⦃h : Digests H⦄ : Type 0 where
  pub same_iff : (a b : H) → (h.same a b ≡ true) ↔ (a ≡ b)

module _ {H : Type 0} ⦃h : Digests H⦄ where
  -- The digest of a key that is not blank, without the blanks around it.
  abbrev pub Configured : H → List String → Type 0
  Configured x [] = ⊥
  Configured x (k ∷ ks) = ((trim_space k ≢ "") × (h.sum256 (trim_space k) ≡ x)) ⊎ Configured x ks

module _ {H : Type 0} ⦃h : Digests H⦄ (laws : DigestLaws H) where
  match_any_iff :
      (ks : List H) (sum : H) (found : Bool)
      → (match_any ks sum found ≡ true) ↔ ((found ≡ true) ⊎ Among sum ks)
  unfolding match_any
  match_any_iff [] sum found = (λ e. inl e, λ e. ground arith)
  match_any_iff (k ∷ ks) sum found =
      ground (arith, match_any_iff ks sum (found || h.same k sum), laws.same_iff k sum)

  authorised_iff :
      (ks : List H) (presented : String)
      → (authorised ks presented ≡ true) ↔ Among (h.sum256 presented) ks
  unfolding authorised
  authorised_iff ks presented = ground (arith, match_any_iff ks (h.sum256 presented) false)

  gate_iff :
      (ks : List H) (r : Request)
      → (api_key_auth ks r ≡ served) ↔ (
          (is_exempt r.path ≡ true)
          ⊎ (ks ≡ [])
          ⊎ ((presented_key r ≢ "") × Among (h.sum256 (presented_key r)) ks))
  unfolding api_key_auth
  gate_iff [] r = (λ e. inr (inl refl), λ e. ground arith)
  gate_iff (k ∷ ks) r =
      ground (arith, eq_iff (presented_key r) "", authorised_iff (k ∷ ks) (presented_key r))

  hashed_keys-Configured :
      (x : H) (keys : List String) → Among x (hashed_keys keys) ↔ Configured x keys
  unfolding hashed_keys
  hashed_keys-Configured x [] = (λ a. a, λ a. a)
  hashed_keys-Configured x (k ∷ ks) =
      ground (arith, eq_iff (trim_space k) "", hashed_keys-Configured x ks)

  hashed_keys-eq-nil :
      (keys : List String) → (hashed_keys {H = H} keys ≡ []) ↔ All (λ k. trim_space k ≡ "") keys
  unfolding hashed_keys
  hashed_keys-eq-nil [] = (λ e. tt, λ a. refl)
  hashed_keys-eq-nil (k ∷ ks) = ground (arith, eq_iff (trim_space k) "", hashed_keys-eq-nil ks)

  exempt_iff :
      (path : String) → (is_exempt path ≡ true) ↔ ((path ≡ "/healthz") ⊎ (path ≡ "/readyz"))
  unfolding is_exempt
  exempt_iff path = ground (arith, eq_iff path "/healthz", eq_iff path "/readyz")

  -- Where digests are compared for equality, a request is served exactly if its path is one of the two
  -- exempt ones, or no key is configured that is not blank, or the key that it presents is not blank and
  -- its digest is that of a configured key that is not blank, without the blanks around it.
  pub api_key_auth_iff :
      (keys : List String) (r : Request)
      → (api_key_auth {H = H} (hashed_keys keys) r ≡ served) ↔ (
          (r.path ≡ "/healthz")
          ⊎ (r.path ≡ "/readyz")
          ⊎ All (λ k. trim_space k ≡ "") keys
          ⊎ ((key : String) × Presents r key × (key ≢ "") × Configured (h.sum256 key) keys))
  api_key_auth_iff keys r =
      let gate = gate_iff (hashed_keys keys) r in
      let exempt = exempt_iff r.path in
      let blank = hashed_keys-eq-nil keys in
      (
        λ served. elim (gate.0 served) [
          | inl e ↦ elim (exempt.0 e) [ inl p ↦ inl p | inr p ↦ inr (inl p) ]
          | inr (inl e) ↦ inr (inr (inl (blank.0 e)))
          | inr (inr (some_key, among)) ↦ inr (
              inr (
                inr (
                  presented_key r,
                  (presented_key_iff r (presented_key r)).1 refl,
                  some_key,
                  (hashed_keys-Configured _ keys).0 among,
                )))
        ],
        λ may. gate.1 (elim may [
          | inl p ↦ inl (exempt.1 (inl p))
          | inr (inl p) ↦ inl (exempt.1 (inr p))
          | inr (inr (inl e)) ↦ inr (inl (blank.1 e))
          | inr (inr (inr (key, shown, some_key, configured))) ↦
              let same = (presented_key_iff r key).0 shown in
              inr (
                inr (
                  subst (λ x. x ≢ "") same some_key,
                  subst (λ x. Among (h.sum256 x) (hashed_keys keys)) same
                      ((hashed_keys-Configured _ keys).1 configured),
                ))
        ]),
      )
