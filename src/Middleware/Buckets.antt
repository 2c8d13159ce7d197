-- ===== src/Middleware/Buckets.antt =====
-- What the rate limiter promises: each request is judged by its client's bucket alone, and no idle client
-- is remembered for long.
use Prim.Native.String.{String}
use text.Mathlib.Text.{◌==◌ as str_eq}
use text.Mathlib.TextEquality.{eq_iff}
use kubernetes_cost_analyzer.Common.{
  ◌-◌, ◌*◌, ◌⊎◌, ◌^◌, ◌≡◌, refl, true, false, some, ap, ◌∙◌, [], ◌∷◌, All, All-map, inl, inr,
  Bool-cases, arith,
}
use kubernetes_cost_analyzer.Common.Int.{pos, ◌≤ℤ◌, ◌<ℤ◌, ◌+ℤ◌, ◌-ℤ◌, lt_ℤ, int_laws}
use kubernetes_cost_analyzer.Common.Maps.{Entries, lookup, insert, lookup-insert}
use kubernetes_cost_analyzer.Numeric.Float.{Float64}
use kubernetes_cost_analyzer.Clock.{Time, Duration, minute, sub_time}
use kubernetes_cost_analyzer.Clock.Spans.{sub_time_bound}
use kubernetes_cost_analyzer.Middleware.RateLimit.{
  RateLimitConfig, new_limiter_set, Limiters, ClientLimiter, LimiterSet, fresh_entries, sweep,
  sweep_if_due, bucket_of, allow,
}

sub_time_self : (t : Time) → sub_time t t ≡ pos 0
unfolding sub_time ◌-ℤ◌
sub_time_self t = ground arith

module _ {B : Type 0} where
  All-insert :
      (P : ClientLimiter B → Type 0) (key : String) (cl : ClientLimiter B)
      (entries : Entries (ClientLimiter B))
      → P cl
      → All (λ e. P e.1) entries
      → All (λ e. P e.1) (insert key cl entries)
  unfolding insert
  All-insert P key cl [] p ps = (p, tt)
  All-insert P key cl (entry ∷ rest) p (q, qs) = elim (Bool-cases (str_eq entry.0 key)) [
    | inl same ↦ rw same (p, qs)
    | inr other ↦ rw other (q, All-insert P key cl rest p qs)
  ]

  -- A filter keeps what held, and establishes what it tests.
  All-fresh_entries :
      (P : ClientLimiter B → Type 0) (now : Time) (ttl : Duration)
      (entries : Entries (ClientLimiter B))
      → All (λ e. P e.1) entries
      → All
          (λ e. P e.1 × (lt_ℤ ttl (sub_time now e.1.last_seen) ≡ false))
          (fresh_entries now ttl entries)
  unfolding fresh_entries
  All-fresh_entries P now ttl [] _ = tt
  All-fresh_entries P now ttl (entry ∷ rest) (p, ps) =
      elim (Bool-cases (lt_ℤ ttl (sub_time now entry.1.last_seen))) [
        | inl idle ↦ rw idle (All-fresh_entries P now ttl rest ps)
        | inr live ↦ rw live ((p, live), All-fresh_entries P now ttl rest ps)
      ]

  -- What a sweep leaves of one client does not depend on the entry of another.
  lookup-fresh_entries :
      (now : Time) (ttl : Duration) (key other : String) (cl : ClientLimiter B)
      (entries : Entries (ClientLimiter B))
      → str_eq key other ≡ false
      → lookup other (fresh_entries now ttl (insert key cl entries))
        ≡ lookup other (fresh_entries now ttl entries)
  unfolding insert fresh_entries
  lookup-fresh_entries now ttl key other cl [] h =
      elim (Bool-cases (lt_ℤ ttl (sub_time now cl.last_seen))) [
        | inl idle ↦ rw idle refl
        | inr live ↦ rw (live, h) refl
      ]
  lookup-fresh_entries now ttl key other cl (entry ∷ rest) h =
      let induction = lookup-fresh_entries now ttl key other cl rest h in
      ground (arith, induction, eq_iff entry.0 key, eq_iff key other, eq_iff entry.0 other)

module _ {F B : Type 0} where
  -- The times of a set that was last used at `t`.
  pub record IsTimely (t : Time) (l : LimiterSet F B) : Type 0 where
    pub ttl_nonneg : pos 0 ≤ℤ l.ttl
    pub ttl_short : l.ttl <ℤ pos (2 ^ 63 - 1)
    pub swept : l.last_sweep ≤ℤ t
    pub seen : All (λ e. e.1.last_seen ≤ℤ t) l.limiters
    pub recent : All (λ e. l.last_sweep ≤ℤ e.1.last_seen +ℤ l.ttl) l.limiters

  -- Timely at `now`, and swept no longer than the TTL before.
  abbrev IsCurrent : Time → LimiterSet F B → Type 0
  IsCurrent now l = IsTimely now l × (now ≤ℤ l.last_sweep +ℤ l.ttl)

  swept-IsCurrent :
      (t now : Time) (l : LimiterSet F B)
      → IsTimely t l
      → t ≤ℤ now
      → IsCurrent now (record (sweep now l) { last_sweep = now })
  unfolding sweep
  swept-IsCurrent t now l h later =
      let kept = All-fresh_entries (λ cl. cl.last_seen ≤ℤ t) now l.ttl l.limiters h.seen in
      (
        record {
          ttl_nonneg = h.ttl_nonneg;
          ttl_short = h.ttl_short;
          swept = omega arith;
          seen = All-map _ _ _ (λ e p. omega (arith, p.0)) kept;
          recent =
              All-map _ _ _
                (λ e p. sub_time_bound now e.1.last_seen l.ttl h.ttl_nonneg h.ttl_short p.1) kept;
        },
        omega (int_laws, h.ttl_nonneg),
      )

  unswept-IsCurrent :
      (t now : Time) (l : LimiterSet F B)
      → IsTimely t l
      → t ≤ℤ now
      → lt_ℤ l.ttl (sub_time now l.last_sweep) ≡ false
      → IsCurrent now l
  unswept-IsCurrent t now l h later early = (
    record {
      ttl_nonneg = h.ttl_nonneg;
      ttl_short = h.ttl_short;
      swept = omega (arith, h.swept);
      seen = All-map _ _ _ (λ e p. omega (arith, p)) h.seen;
      recent = h.recent;
    },
    sub_time_bound now l.last_sweep l.ttl h.ttl_nonneg h.ttl_short early,
  )

  sweep_if_due-IsCurrent :
      (t now : Time) (l : LimiterSet F B)
      → IsTimely t l
      → t ≤ℤ now
      → IsCurrent now (sweep_if_due now l)
  unfolding sweep_if_due
  sweep_if_due-IsCurrent t now l h later =
      elim (Bool-cases (lt_ℤ l.ttl (sub_time now l.last_sweep))) [
        | inl due ↦ simp (due, sweep_if_due) (swept-IsCurrent t now l h later)
        | inr early ↦ simp (early, sweep_if_due) (unswept-IsCurrent t now l h later early)
      ]

  -- Where the clock does not go back and the TTL is neither negative nor the longest duration, a request
  -- leaves the set's times in order again, and every client that is still remembered was seen within
  -- twice the TTL: the map holds no client that has been idle for longer.
  pub allow-IsTimely :
      (lib : Limiters F B) (t now at : Time) (key : String) (l : LimiterSet F B)
      → IsTimely t l
      → t ≤ℤ now
      → let after = (allow lib now at key l).1 in
        IsTimely now after
        × All (λ e. now ≤ℤ e.1.last_seen +ℤ after.ttl +ℤ after.ttl) after.limiters
  unfolding allow
  allow-IsTimely lib t now at key l h later =
      let (timely, current) = sweep_if_due-IsCurrent t now l h later in
      let swept = sweep_if_due now l in
      let cl : ClientLimiter B = record {
        limiter = (lib.allow_at at (bucket_of lib swept key)).1;
        last_seen = now;
      } in
      let recent =
        All-insert (λ c. swept.last_sweep ≤ℤ c.last_seen +ℤ swept.ttl) key cl swept.limiters
          (omega (int_laws, timely.swept, timely.ttl_nonneg)) timely.recent in
      (
        record {
          ttl_nonneg = timely.ttl_nonneg;
          ttl_short = timely.ttl_short;
          swept = timely.swept;
          seen =
              All-insert (λ c. c.last_seen ≤ℤ now) key cl swept.limiters (omega arith) timely.seen;
          recent = recent;
        },
        All-map _ _ _ (λ e p. omega (int_laws, p, current)) recent,
      )

  -- A sweep at the same reading of the clock removes nothing more, whatever entered since.
  sweep_if_due_again :
      (now : Time) (l : LimiterSet F B) (entries : Entries (ClientLimiter B))
      → pos 0 ≤ℤ l.ttl
      → sweep_if_due now (record (sweep_if_due now l) { limiters = entries })
        ≡ record (sweep_if_due now l) { limiters = entries }
  unfolding sweep_if_due sweep
  sweep_if_due_again now l entries h = elim (Bool-cases (lt_ℤ l.ttl (sub_time now l.last_sweep))) [
    | inl due ↦
        let still : lt_ℤ l.ttl (sub_time now now) ≡ false = rw (sub_time_self now) (ground arith) in
        simp (due, still) refl
    | inr early ↦ simp early refl
  ]

  bucket_of-lookup :
      (lib : Limiters F B) (l : LimiterSet F B) (m m' : Entries (ClientLimiter B)) (key : String)
      → lookup key m ≡ lookup key m'
      → bucket_of lib (record l { limiters = m }) key
        ≡ bucket_of lib (record l { limiters = m' }) key
  unfolding bucket_of
  bucket_of-lookup lib l m m' key e = rw (e, bucket_of) refl

  bucket_of-own :
      (lib : Limiters F B) (key : String) (cl : ClientLimiter B) (l : LimiterSet F B)
      → bucket_of lib (record l { limiters = insert key cl l.limiters }) key ≡ cl.limiter
  unfolding bucket_of
  bucket_of-own lib key cl l =
      let same : str_eq key key ≡ true = (eq_iff key key).1 refl in
      let found : lookup key (insert key cl l.limiters) ≡ some cl =
        lookup-insert key key cl l.limiters ∙ rw same refl in
      rw (found, bucket_of) refl

  -- Whatever is done to the entry of one client, a later sweep leaves the others their buckets.
  bucket_of-insert :
      (lib : Limiters F B) (later : Time) (key other : String) (cl : ClientLimiter B)
      (l : LimiterSet F B)
      → str_eq key other ≡ false
      → bucket_of lib (sweep_if_due later (record l { limiters = insert key cl l.limiters })) other
        ≡ bucket_of lib (sweep_if_due later l) other
  unfolding sweep_if_due sweep
  bucket_of-insert lib later key other cl l h =
      elim (Bool-cases (lt_ℤ l.ttl (sub_time later l.last_sweep))) [
        | inl due ↦ simp due (
            bucket_of-lookup lib (record l { last_sweep = later })
              (fresh_entries later l.ttl (insert key cl l.limiters))
              (fresh_entries later l.ttl l.limiters) other
              (lookup-fresh_entries later l.ttl key other cl l.limiters h))
        | inr early ↦ simp early (
            bucket_of-lookup lib l (insert key cl l.limiters) l.limiters other
              (lookup-insert key other cl l.limiters ∙ rw h refl))
      ]

  -- Where the TTL is not negative, two clients of different names are judged apart: what one is answered
  -- at any later time is as if the other had never made its request, but for the sweep that was due then;
  -- and at the same reading of the clock it is just as if there had been no other request. And the requests of one client draw on one bucket: of two at the same
  -- reading of the clock, the second is answered by the bucket that the first left.
  pub allow_isolated :
      (lib : Limiters F B) (now at later at' : Time) (key other : String) (l : LimiterSet F B)
      → pos 0 ≤ℤ l.ttl
      → str_eq key other ≡ false
      → let after = (allow lib now at key l).1 in
        ((allow lib later at' other after).0 ≡ (allow lib later at' other (sweep_if_due now l)).0)
        × ((allow lib now at' other after).0 ≡ (allow lib now at' other l).0)
        × ((b : B) × ((allow lib now at key l).0 ≡ (lib.allow_at at b).0)
            × ((allow lib now at' key after).0 ≡ (lib.allow_at at' (lib.allow_at at b).1).0))
  unfolding allow
  allow_isolated lib now at later at' key other l h apart =
      let swept = sweep_if_due now l in
      let own = bucket_of lib swept key in
      let cl : ClientLimiter B = record { limiter = (lib.allow_at at own).1; last_seen = now } in
      let settled = sweep_if_due_again now l swept.limiters h in
      (
        ap (λ b. (lib.allow_at at' b).0) (bucket_of-insert lib later key other cl swept apart),
        ap (λ b. (lib.allow_at at' b).0)
            (bucket_of-insert lib now key other cl swept apart
              ∙ ap (λ x. bucket_of lib x other) settled),
        (
          own,
          refl,
          ap (λ b. (lib.allow_at at' b).0)
              (ap (λ x. bucket_of lib x key)
                  (sweep_if_due_again now l (insert key cl swept.limiters) h)
                ∙ bucket_of-own lib key cl swept),
        ),
      )

module _ {F B : Type 0} ⦃f : Float64 F⦄ where
  new_limiter_set-some :
      (cfg : RateLimitConfig F) (l : LimiterSet F B)
      → new_limiter_set cfg ≡ some l
      → (l.limiters ≡ [])
        × (l.last_sweep ≡ pos 0)
        × (pos 1 ≤ℤ l.ttl)
        × (pos 1 ≤ℤ l.burst)
        × ((l.ttl ≡ pos (10 * minute)) ⊎ (l.ttl ≡ cfg.ttl))
  unfolding new_limiter_set
  new_limiter_set-some cfg l h = ground arith

  -- Whatever its settings, a rate limiter that is on starts with a burst of at least one request and no
  -- client; and if its TTL is not the longest duration, its times are in order from the start.
  pub new_limiter_set-IsTimely :
      (cfg : RateLimitConfig F) (l : LimiterSet F B) (t : Time)
      → new_limiter_set cfg ≡ some l
      → cfg.ttl <ℤ pos (2 ^ 63 - 1)
      → pos 0 ≤ℤ t
      → (pos 1 ≤ℤ l.burst) × (l.limiters ≡ []) × IsTimely t l
  new_limiter_set-IsTimely cfg l t h short later =
      let (empty, unswept, ttl, burst, origin) = new_limiter_set-some cfg l h in
      (
        burst,
        empty,
        record {
          ttl_nonneg = omega (arith, ttl);
          ttl_short = elim origin [ inl e ↦ rw e (omega arith) | inr e ↦ rw e short ];
          swept = rw unswept later;
          seen = rw empty tt;
          recent = rw empty tt;
        },
      )
