-- ===== src/Middleware/RateLimit.antt =====
-- internal/httpapi/middleware/ratelimit.go: a token bucket for each client, and the eviction of idle
-- ones. The bucket is that of golang.org/x/time/rate, and the name of a client is made with SHA-256 and
-- net.SplitHostPort: parameters.
use Prim.Native.String.{String}
use text.Mathlib.Text.{◌==◌ as str_eq}
use kubernetes_cost_analyzer.Common.{◌*◌, Bool, Option, none, some, [], ◌∷◌, if◌then◌else◌}
use kubernetes_cost_analyzer.Common.Int.{ℤ, pos, lt_ℤ, le_ℤ}
use kubernetes_cost_analyzer.Common.Word.{add64}
use kubernetes_cost_analyzer.Common.Maps.{Entries, lookup, insert}
use kubernetes_cost_analyzer.Numeric.Float.{Float64}
use kubernetes_cost_analyzer.Clock.{Time, Duration, minute, sub_time}
use kubernetes_cost_analyzer.Middleware.{Request, is_exempt, presented_key}

-- `rate.Limiter`: a new bucket of a rate and a burst, and whether a request at an instant may proceed,
-- with the bucket afterwards.
pub record Limiters (F B : Type 0) : Type 0 where
  pub new_limiter : F → ℤ → B
  pub allow_at : Time → B → Bool × B

pub record ClientNames : Type 0 where
  -- The first 8 bytes of the SHA-256 digest in hexadecimal digits.
  pub key_digest : String → String
  -- The host of an address with a port, if it is one.
  pub split_host : String → Option String
  -- The sum of two texts.
  pub joined_text : String → String → String

unfoldable pub client_key : ClientNames → Request → String
client_key names r =
    let host : String = elim (names.split_host r.remote_addr) [
      | none ↦ r.remote_addr
      | some h ↦ h
    ] in
    if str_eq (presented_key r) ""
    then names.joined_text "ip:" host
    else names.joined_text "key:" (names.key_digest (presented_key r))

pub record RateLimitConfig (F : Type 0) : Type 0 where
  pub requests_per_second : F
  pub burst : ℤ
  pub ttl : Duration

pub record ClientLimiter (B : Type 0) : Type 0 where
  pub limiter : B
  pub last_seen : Time

pub record LimiterSet (F B : Type 0) : Type 0 where
  pub limiters : Entries (ClientLimiter B)
  pub rate : F
  pub burst : ℤ
  pub ttl : Duration
  pub last_sweep : Time

module _ {B : Type 0} where
  -- The clients seen within the TTL.
  unfoldable pub fresh_entries :
      Time → Duration → Entries (ClientLimiter B) → Entries (ClientLimiter B)
  fresh_entries now ttl [] = []
  fresh_entries now ttl (entry ∷ rest) =
      let kept = fresh_entries now ttl rest in
      if lt_ℤ ttl (sub_time now entry.1.last_seen) then kept else entry ∷ kept

module _ {F B : Type 0} where
  unfoldable pub sweep : Time → LimiterSet F B → LimiterSet F B
  sweep now l = record l { limiters = fresh_entries now l.ttl l.limiters }

  unfoldable pub sweep_if_due : Time → LimiterSet F B → LimiterSet F B
  sweep_if_due now l =
      if lt_ℤ l.ttl (sub_time now l.last_sweep)
      then record (sweep now l) { last_sweep = now }
      else l

  -- The bucket of a client, a full one if the client is new.
  unfoldable pub bucket_of : Limiters F B → LimiterSet F B → String → B
  bucket_of lib l key = elim (lookup key l.limiters) [
    | none ↦ lib.new_limiter l.rate l.burst
    | some cl ↦ cl.limiter
  ]

  -- `now` is the first reading of the clock, `at` the one that the bucket takes.
  unfoldable pub allow :
      Limiters F B → Time → Time → String → LimiterSet F B → Bool × LimiterSet F B
  allow lib now at key l =
      let swept = sweep_if_due now l in
      let (answer, limiter) = lib.allow_at at (bucket_of lib swept key) in
      (
        answer,
        record swept {
          limiters = insert key (record { limiter = limiter; last_seen = now }) swept.limiters;
        },
      )

-- A request is served, or answered with 429 and a number of seconds.
pub data Throttled : Type 0 where
  proceeds : Throttled
  retry_after : ℤ → Throttled

module _ {F B : Type 0} ⦃f : Float64 F⦄ where
  -- `none` where limiting is off.
  unfoldable pub new_limiter_set : RateLimitConfig F → Option (LimiterSet F B)
  new_limiter_set cfg =
      if f.fle cfg.requests_per_second (f.lit 0 0)
      then none
      else some (record {
        limiters = [];
        rate = cfg.requests_per_second;
        burst = if le_ℤ cfg.burst (pos 0) then pos 1 else cfg.burst;
        ttl = if le_ℤ cfg.ttl (pos 0) then pos (10 * minute) else cfg.ttl;
        last_sweep = pos 0;
      })

  unfoldable pub rate_limit :
      Limiters F B
      → ClientNames
      → Time
      → Time
      → Request
      → LimiterSet F B
      → Throttled × LimiterSet F B
  rate_limit lib names now at r l =
      let seconds =
        if f.flt l.rate (f.lit 1 0)
        then add64 (f.to_int (f.fdiv (f.lit 1 0) l.rate)) (pos 1)
        else pos 1 in
      let (answer, l') = allow lib now at (client_key names r) l in
      if is_exempt r.path
      then (proceeds, l)
      else if answer
      then (proceeds, l')
      else (retry_after seconds, l')
