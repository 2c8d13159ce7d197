-- ===== src/Middleware/Tests.antt =====
-- Buckets that hold a number of requests, digests that are the texts themselves, and the theorems.
use Prim.Native.String.{String}
use text.Mathlib.Text.{◌==◌ as str_eq}
use text.Mathlib.TextEquality.{eq_iff}
use kubernetes_cost_analyzer.Common.{
  ◌*◌, ◌^◌, ◌≡◌, ◌≢◌, ◌↔◌, ◌⊎◌, refl, true, false, none, some, List, [], ◌∷◌, All, arith,
  if◌then◌else◌,
}
use kubernetes_cost_analyzer.Common.Int.{ℤ, pos, lt_ℤ, ◌≤ℤ◌, ◌+ℤ◌, ◌-ℤ◌}
use kubernetes_cost_analyzer.Common.Word.{wrap64}
use kubernetes_cost_analyzer.Common.Text.{trim_space, to_lower}
use kubernetes_cost_analyzer.Common.Maps.{insert}
use kubernetes_cost_analyzer.Numeric.Fixed.{Nano, nano_float}
use kubernetes_cost_analyzer.Clock.{minute, sub_time}
use kubernetes_cost_analyzer.Middleware.{Request, is_exempt, presented_key}
use kubernetes_cost_analyzer.Middleware.Auth.{
  Digests, hashed_keys, match_any, authorised, served, invalid_key, api_key_auth,
}
use kubernetes_cost_analyzer.Middleware.Presented.{Presents}
use kubernetes_cost_analyzer.Middleware.Access.{Configured, DigestLaws, api_key_auth_iff}
use kubernetes_cost_analyzer.Middleware.RateLimit.{
  Limiters, ClientNames, RateLimitConfig, LimiterSet, fresh_entries, sweep, sweep_if_due, bucket_of,
  allow, new_limiter_set, rate_limit, client_key, retry_after,
}
use kubernetes_cost_analyzer.Middleware.Buckets.{
  IsTimely, allow-IsTimely, allow_isolated, new_limiter_set-IsTimely,
}

gate_code : Unit {0}
unfolding is_exempt presented_key hashed_keys match_any authorised api_key_auth fresh_entries sweep
    sweep_if_due bucket_of allow new_limiter_set rate_limit client_key insert sub_time trim_space
    to_lower wrap64 ◌+ℤ◌ ◌-ℤ◌
gate_code = tt

instance abbrev plain : Digests String
plain = record { sum256 = λ s. s; same = str_eq }

plain-laws : DigestLaws String
plain-laws = record { same_iff = λ a b. ground (arith, eq_iff a b) }

abbrev request : String → String → Request
request path auth = record {
  path = path;
  authorization = auth;
  api_key = " spare ";
  remote_addr = "10.0.0.1:4242";
}

abbrev keys : List String
keys = " " ∷ " s3cret " ∷ []

-- The right key, the wrong key, a probe, and the other header.
verdicts :
    (api_key_auth {H = String} (hashed_keys keys) (request "/v1/costs" "BEARER s3cret") ≡ served)
    × (api_key_auth {H = String} (hashed_keys keys) (request "/v1/costs" "Bearer guess")
        ≡ invalid_key)
    × (api_key_auth {H = String} (hashed_keys keys) (request "/healthz" "") ≡ served)
    × (presented_key (request "/v1/costs" "Bearer ") ≡ "spare")
unfolding gate_code
verdicts = (refl, refl, refl, refl)

api_key_auth_iff_example :
    (api_key_auth {H = String} (hashed_keys keys) (request "/v1/costs" "Bearer s3cret") ≡ served)
    ↔ (((request "/v1/costs" "").path ≡ "/healthz")
        ⊎ ((request "/v1/costs" "").path ≡ "/readyz")
        ⊎ All (λ k. trim_space k ≡ "") keys
        ⊎ ((key : String) × Presents (request "/v1/costs" "Bearer s3cret") key
            × (key ≢ "")
            × Configured {H = String} key keys))
api_key_auth_iff_example = api_key_auth_iff plain-laws keys (request "/v1/costs" "Bearer s3cret")

-- A bucket that is never refilled.
abbrev counted : Limiters Nano ℤ
counted = record {
  new_limiter = λ rate burst. burst;
  allow_at = λ at left. if lt_ℤ (pos 0) left then (true, left -ℤ pos 1) else (false, left);
}

abbrev config : RateLimitConfig Nano
config = record { requests_per_second = 5 * 10 ^ 8; burst = pos 0; ttl = pos minute }

abbrev start : LimiterSet Nano ℤ
start = record {
  limiters = [];
  rate = 5 * 10 ^ 8;
  burst = pos 1;
  ttl = pos minute;
  last_sweep = pos 0;
}

starts : new_limiter_set config ≡ some start
unfolding gate_code
starts = refl

-- The second request of the only client is too many, one every two seconds being allowed.
abbrev names : ClientNames
names = record { key_digest = λ s. s; split_host = λ s. none; joined_text = λ a b. b }

throttled :
    (rate_limit counted names
      (pos 2)
      (pos 2)
      (request "/v1/costs" "")
      (rate_limit counted names (pos 1) (pos 1) (request "/v1/costs" "") start).1).0
    ≡ retry_after (pos 3)
unfolding gate_code
throttled = refl

new_limiter_set-IsTimely_holds :
    (pos 1 ≤ℤ start.burst) × (start.limiters ≡ []) × IsTimely (pos 9) start
new_limiter_set-IsTimely_holds =
    new_limiter_set-IsTimely config start (pos 9) starts (omega arith) (omega arith)

abbrev used : LimiterSet Nano ℤ
used = record start { limiters = ("ip:a", record { limiter = pos 0; last_seen = pos 5 }) ∷ [] }

used-IsTimely : IsTimely (pos 9) used
unfolding ◌+ℤ◌
used-IsTimely = record {
  ttl_nonneg = omega arith;
  ttl_short = omega arith;
  swept = omega arith;
  seen = (omega arith, tt);
  recent = (omega arith, tt);
}

allow-IsTimely_example :
    let after = (allow counted (pos (3 * minute)) (pos (3 * minute)) "ip:b" used).1 in
    IsTimely (pos (3 * minute)) after
    × All (λ e. pos (3 * minute) ≤ℤ e.1.last_seen +ℤ after.ttl +ℤ after.ttl) after.limiters
allow-IsTimely_example =
    allow-IsTimely counted (pos 9) (pos (3 * minute)) (pos (3 * minute)) "ip:b" used used-IsTimely
      (omega arith)

allow_isolated_example :
    let after = (allow counted (pos 10) (pos 11) "ip:b" used).1 in
    ((allow counted (pos 40) (pos 12) "ip:a" after).0
      ≡ (allow counted (pos 40) (pos 12) "ip:a" (sweep_if_due (pos 10) used)).0)
    × ((allow counted (pos 10) (pos 12) "ip:a" after).0
        ≡ (allow counted (pos 10) (pos 12) "ip:a" used).0)
    × ((b : ℤ) × ((allow counted (pos 10) (pos 11) "ip:b" used).0 ≡ (counted.allow_at (pos 11) b).0)
        × ((allow counted (pos 10) (pos 12) "ip:b" after).0
            ≡ (counted.allow_at (pos 12) (counted.allow_at (pos 11) b).1).0))
allow_isolated_example =
    allow_isolated counted (pos 10) (pos 11) (pos 40) (pos 12) "ip:b" "ip:a" used (omega arith) refl
