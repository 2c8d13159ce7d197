-- ===== src/Recommend/ScaleDown.antt =====
-- What the rule on the number of replicas promises: a floor, a real reduction, and pods enough for the
-- observed load.
use Prim.Native.String.{String}
use text.Mathlib.TextEquality.{eq_iff}
use native.Mathlib.Nat.{lt-div-mul-add, mul-le-mul, le_refl}
use kubernetes_cost_analyzer.Common.{
  ℕ, suc, ◌+◌, ◌*◌, ◌/◌, ◌≤◌, ◌<◌, ◌^◌, ◌≡◌, ◌≢◌, ◌⊎◌, refl, true, false, some, arith, subst, ap,
  ◌∙◌,
}
use kubernetes_cost_analyzer.Common.Int.{ℤ, pos, negsuc, eq_ℤ, ◌≤ℤ◌, ◌<ℤ◌, ◌+ℤ◌, ◌-ℤ◌, ◌*ℤ◌, quot}
use kubernetes_cost_analyzer.Common.Word.{wrap64, add64, sub64}
use kubernetes_cost_analyzer.Common.Text.{sprintf, int, done}
use kubernetes_cost_analyzer.Numeric.Decimal.{Decimal}
use kubernetes_cost_analyzer.Numeric.Float.{Float64}
use kubernetes_cost_analyzer.Recommend.{ContainerStats, Recommendation}
use kubernetes_cost_analyzer.Recommend.Engine.{Engine}
use kubernetes_cost_analyzer.Recommend.Arithmetic.{ratio, monthly_cost_of, replica_count_is_tunable}
use kubernetes_cost_analyzer.Recommend.Replicas.{
  over_replicated, proposed_replicas, per_replica_capacity, needed_replicas,
}

-- The kinds of workload whose number of pods is for their owner to choose.
abbrev pub IsTunable : String → Type 0
IsTunable kind =
    (kind ≡ "Deployment")
    ⊎ (kind ≡ "ReplicaSet")
    ⊎ (kind ≡ "StatefulSet")
    ⊎ (kind ≡ "ReplicationController")

pub tunable_lem : (kind : String) → replica_count_is_tunable kind ≡ true → IsTunable kind
unfolding replica_count_is_tunable
tunable_lem kind h = ground (
  arith,
  eq_iff kind "Deployment",
  eq_iff kind "ReplicaSet",
  eq_iff kind "StatefulSet",
  eq_iff kind "ReplicationController",
)

pub eq_ℤ-false : (a b : ℤ) → eq_ℤ a b ≡ false → a ≢ b
eq_ℤ-false a b h = ground arith

module _ {F : Type 0} ⦃f : Float64 F⦄ where
  -- What is used is not above the share of the request, or there is no request.
  abbrev pub IsLight : (used requested : ℤ) → F → Type 0
  IsLight used requested share =
      (requested ≤ℤ pos 0) ⊎ (f.flt share (f.fdiv (f.of_int used) (f.of_int requested)) ≡ false)

module _ {D F : Type 0} ⦃d : Decimal D⦄ ⦃f : Float64 F⦄ where
  proposed_replicas_floor :
      (e : Engine F) (s : ContainerStats D F)
      → e.thresholds.min_replicas_to_keep ≤ℤ proposed_replicas e s
  unfolding proposed_replicas
  proposed_replicas_floor e s = ground arith

-- Ceiling division in int64 arithmetic.
ceiling64 :
    (m c : ℕ)
    → m + suc c < 2 ^ 63
    → sub64 (add64 (wrap64 (pos m)) (pos (suc c))) (pos 1) ≡ pos (m + c)
unfolding wrap64 ◌+ℤ◌ ◌-ℤ◌
ceiling64 m c h = ground arith

mul_pos : (a b : ℕ) → pos a *ℤ pos b ≡ pos (a * b)
unfolding ◌*ℤ◌
mul_pos a b = ground arith

module _ {D F : Type 0} ⦃f : Float64 F⦄ where
  needed_at :
      (e : Engine F) (s : ContainerStats D F) (p95 replicas capacity : ℕ)
      → s.cpu_p95_millicores ≡ pos p95
      → s.replicas ≡ pos replicas
      → per_replica_capacity e s ≡ pos (suc capacity)
      → p95 * replicas + suc capacity < 2 ^ 63
      → needed_replicas e s ≡ pos ((p95 * replicas + capacity) / suc capacity)
  unfolding needed_replicas quot
  needed_at e s p95 replicas capacity hp hr hc h =
      let total = mul_pos p95 replicas in
      let sum = ceiling64 (p95 * replicas) capacity h in simp (hp, hr, hc, total, sum) refl

  proposed_replicas_above :
      (e : Engine F) (s : ContainerStats D F) (n : ℕ)
      → pos 0 <ℤ per_replica_capacity e s
      → needed_replicas e s ≡ pos n
      → pos n ≤ℤ proposed_replicas e s
  unfolding proposed_replicas
  proposed_replicas_above e s n h k = ground arith

  -- Where the arithmetic stays in range, the proposed replicas at the capacity of each carry the load
  -- of all the present ones.
  pub proposed_replicas_carry :
      (e : Engine F) (s : ContainerStats D F) (p95 replicas capacity : ℕ)
      → s.cpu_p95_millicores ≡ pos p95
      → s.replicas ≡ pos replicas
      → per_replica_capacity e s ≡ pos (suc capacity)
      → p95 * replicas + suc capacity < 2 ^ 63
      → (n : ℕ) × (pos n ≤ℤ proposed_replicas e s) × (p95 * replicas ≤ n * suc capacity)
  proposed_replicas_carry e s p95 replicas capacity hp hr hc h =
      let n = (p95 * replicas + capacity) / suc capacity in
      let needed = needed_at e s p95 replicas capacity hp hr hc h in
      let covered : p95 * replicas + capacity < n * suc capacity + suc capacity =
        lt-div-mul-add (omega arith) in
      (n, proposed_replicas_above e s n (rw hc (omega arith)) needed, omega arith)

-- A count of at least n is a number of at least n.
count_above : (x : ℤ) (n : ℕ) → pos n ≤ℤ x → (m : ℕ) × (x ≡ pos m) × (n ≤ m)
count_above (pos m) n h = (m, refl, omega arith)
count_above (negsuc m) n h = absurd (omega arith)

module _ {D F : Type 0} ⦃d : Decimal D⦄ ⦃f : Float64 F⦄ where
  over_replicated-some :
      (e : Engine F) (s : ContainerStats D F) (r : Recommendation D F)
      → over_replicated e s ≡ some r
      → (replica_count_is_tunable s.workload_kind ≡ true)
        × (proposed_replicas e s <ℤ s.replicas)
        × (eq_ℤ s.cpu_requested_millicores (pos 0) ≡ false)
        × IsLight s.cpu_p95_millicores s.cpu_requested_millicores
            e.thresholds.over_replication_max_utilisation
        × (r.proposed ≡ sprintf "%d replicas" (int (proposed_replicas e s) done))
        × (r.estimated_monthly_saving
            ≡ d.mul
                (monthly_cost_of s s.cpu_requested_millicores s.mem_requested_bytes)
                (d.from_int (sub64 s.replicas (proposed_replicas e s))))
  unfolding over_replicated ratio
  over_replicated-some e s r h = ground arith

  -- Where the 95th percentile, the replicas and the capacity of one replica, twice the share of its
  -- request that counts as light use, are natural numbers, the last positive, whose products stay in
  -- range: a scale-down is proposed only for a Deployment, a ReplicaSet, a StatefulSet or a
  -- ReplicationController that requests CPU and uses no more than that share of it. It keeps the floor,
  -- is below the present count, carries the 95th percentile of all the present replicas within the
  -- capacity, is the count that the advice names, and saves the cost of the pods that it removes.
  pub over_replicated_bounds :
      (e : Engine F) (s : ContainerStats D F) (r : Recommendation D F) (p95 replicas capacity : ℕ)
      → s.cpu_p95_millicores ≡ pos p95
      → s.replicas ≡ pos replicas
      → f.to_int (
          f.fmul
            (f.fmul
              (f.of_int s.cpu_requested_millicores)
              e.thresholds.over_replication_max_utilisation)
            (f.lit 2 0))
        ≡ pos (suc capacity)
      → p95 * replicas + suc capacity < 2 ^ 63
      → over_replicated e s ≡ some r
      → IsTunable s.workload_kind
        × (s.cpu_requested_millicores ≢ pos 0)
        × IsLight s.cpu_p95_millicores s.cpu_requested_millicores
            e.thresholds.over_replication_max_utilisation
        × ((n : ℕ) × (e.thresholds.min_replicas_to_keep ≤ℤ pos n)
            × (n < replicas)
            × (p95 * replicas ≤ n * suc capacity)
            × (r.proposed ≡ sprintf "%d replicas" (int (pos n) done))
            × (r.estimated_monthly_saving
                ≡ d.mul
                    (monthly_cost_of s s.cpu_requested_millicores s.mem_requested_bytes)
                    (d.from_int (sub64 s.replicas (pos n)))))
  unfolding per_replica_capacity
  over_replicated_bounds e s r p95 replicas capacity hp hr hc h fired =
      let (tunable, less, asked, light, proposed, saving) = over_replicated-some e s r fired in
      let (needed, above, carried) = proposed_replicas_carry e s p95 replicas capacity hp hr hc h in
      let (n, is_n, more) = count_above (proposed_replicas e s) needed above in
      let floor : e.thresholds.min_replicas_to_keep ≤ℤ pos n =
        subst (λ x. e.thresholds.min_replicas_to_keep ≤ℤ x) is_n (proposed_replicas_floor e s) in
      let fewer : n < replicas =
        let below : pos n <ℤ pos replicas =
          subst (λ x. x <ℤ pos replicas) is_n (subst (λ x. proposed_replicas e s <ℤ x) hr less) in
        omega arith in
      let carries : p95 * replicas ≤ n * suc capacity =
        let grown = mul-le-mul more (le_refl (suc capacity)) in omega (arith, carried, grown) in
      (
        tunable_lem s.workload_kind tunable,
        eq_ℤ-false s.cpu_requested_millicores (pos 0) asked,
        light,
        (
          n,
          floor,
          fewer,
          carries,
          proposed ∙ ap (λ x. sprintf "%d replicas" (int x done)) is_n,
          saving
              ∙ ap
                  (λ x.
                    d.mul (monthly_cost_of s s.cpu_requested_millicores s.mem_requested_bytes)
                      (d.from_int (sub64 s.replicas x)))
                  is_n,
        ),
      )
