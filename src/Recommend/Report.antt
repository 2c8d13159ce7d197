-- ===== src/Recommend/Report.antt =====
-- What `Analyse` promises of the findings on one container: which may come together, and that each is
-- founded on what was observed.
use kubernetes_cost_analyzer.Common.{
  ◌≡◌, ◌≢◌, refl, true, false, Option, none, some, List, ◌⊎◌, inl, inr, All, All-append, arith,
  Bool-cases,
}
use kubernetes_cost_analyzer.Common.Int.{ℤ, pos, ◌≤ℤ◌, ◌<ℤ◌}
use kubernetes_cost_analyzer.Numeric.Decimal.{Decimal}
use kubernetes_cost_analyzer.Numeric.Float.{Float64, FromFloat}
use kubernetes_cost_analyzer.Recommend.{
  ContainerStats, Evidence, Recommendation, Kind, kind_right_size, kind_idle, kind_under_requested,
  kind_set_requests, kind_over_replicated,
}
use kubernetes_cost_analyzer.Recommend.Engine.{Engine}
use kubernetes_cost_analyzer.Recommend.Arithmetic.{ratio}
use kubernetes_cost_analyzer.Recommend.Sizing.{set_requests, idle, right_size, under_requested}
use kubernetes_cost_analyzer.Clock.{hours, sub_time}
use kubernetes_cost_analyzer.Recommend.ScaleDown.{IsTunable, IsLight, tunable_lem, eq_ℤ-false}
use kubernetes_cost_analyzer.Recommend.Replicas.{over_replicated}
use kubernetes_cost_analyzer.Recommend.Analyse.{
  optional, first_of, idle_or_oversized, lacks_evidence, analyse_container,
}

module _ {F : Type 0} ⦃f : Float64 F⦄ where
  -- Something is requested, and what is used is below the share of it.
  abbrev pub IsOver : (used requested : ℤ) → F → Type 0
  IsOver used requested share =
      (pos 0 <ℤ requested) × (f.flt (f.fdiv (f.of_int used) (f.of_int requested)) share ≡ true)

-- Something is requested, and more is used.
abbrev pub IsUnder : (used requested : ℤ) → Type 0
IsUnder used requested = (pos 0 <ℤ requested) × (requested <ℤ used)

module _ {D F : Type 0} ⦃f : Float64 F⦄ where
  -- At least nine tenths of the windows have a peak.
  abbrev pub HasPeaks : ContainerStats D F → Type 0
  HasPeaks s = f.flt s.peak_coverage (f.lit 9 1) ≡ false

  -- What was observed of the container.
  abbrev pub Observed : ContainerStats D F → Evidence F → Type 0
  Observed s evidence = evidence ≡ record {
    observed_from = s.observed_from;
    observed_to = s.observed_to;
    observed_hours = hours (sub_time s.observed_to s.observed_from);
    windows = s.window_count;
    replicas = s.replicas;
    cpu_requested_millicores = s.cpu_requested_millicores;
    cpu_avg_millicores = s.cpu_avg_millicores;
    cpu_p95_millicores = s.cpu_p95_millicores;
    cpu_max_millicores = s.cpu_max_millicores;
    mem_requested_bytes = s.mem_requested_bytes;
    mem_avg_bytes = s.mem_avg_bytes;
    mem_p95_bytes = s.mem_p95_bytes;
    mem_max_bytes = s.mem_max_bytes;
  }

  -- What each kind of finding rests on.
  abbrev pub IsFounded : Engine F → ContainerStats D F → Kind → Type 0
  IsFounded e s kind_set_requests =
      (s.cpu_requested_millicores ≤ℤ pos 0)
      × (s.mem_requested_bytes ≤ℤ pos 0)
      × ((s.cpu_p95_millicores ≢ pos 0) ⊎ (s.mem_p95_bytes ≢ pos 0))
  IsFounded e s kind_idle =
      HasPeaks s
      × ((s.cpu_requested_millicores ≢ pos 0) ⊎ (s.mem_requested_bytes ≢ pos 0))
      × (e.thresholds.idle_min_observation ≤ℤ sub_time s.observed_to s.observed_from)
      × (s.cpu_max_millicores ≤ℤ e.thresholds.idle_cpu_millicores)
      × (s.mem_max_bytes ≤ℤ e.thresholds.idle_memory_bytes)
  IsFounded e s kind_right_size =
      HasPeaks s
      × (IsOver s.cpu_p95_millicores s.cpu_requested_millicores
            e.thresholds.right_size_max_utilisation
          ⊎ IsOver s.mem_p95_bytes s.mem_requested_bytes e.thresholds.right_size_max_utilisation)
  IsFounded e s kind_under_requested =
      HasPeaks s
      × (IsUnder s.cpu_p95_millicores s.cpu_requested_millicores
          ⊎ IsUnder s.mem_p95_bytes s.mem_requested_bytes)
  IsFounded e s kind_over_replicated =
      HasPeaks s
      × IsTunable s.workload_kind
      × (e.thresholds.min_replicas_to_keep <ℤ s.replicas)
      × (s.cpu_requested_millicores ≢ pos 0)
      × IsLight s.cpu_p95_millicores s.cpu_requested_millicores
          e.thresholds.over_replication_max_utilisation

module _ {D F : Type 0} ⦃d : Decimal D⦄ ⦃f : Float64 F⦄ where
  pub set_requests-kind :
      (e : Engine F) (s : ContainerStats D F) (r : Recommendation D F)
      → set_requests e s ≡ some r
      → (r.kind ≡ kind_set_requests) × Observed s r.evidence × IsFounded e s kind_set_requests
  unfolding set_requests
  set_requests-kind e s r h =
      ground (arith, eq_ℤ-false s.cpu_p95_millicores (pos 0), eq_ℤ-false s.mem_p95_bytes (pos 0))

  pub idle-kind :
      (e : Engine F) (s : ContainerStats D F) (r : Recommendation D F)
      → idle e s ≡ some r
      → (r.kind ≡ kind_idle) × Observed s r.evidence × IsFounded e s kind_idle
  unfolding idle
  idle-kind e s r h = ground (
    arith,
    eq_ℤ-false s.cpu_requested_millicores (pos 0),
    eq_ℤ-false s.mem_requested_bytes (pos 0),
  )

  pub right_size-kind :
      ⦃v : FromFloat D F⦄ (e : Engine F) (s : ContainerStats D F) (r : Recommendation D F)
      → right_size e s ≡ some r
      → (r.kind ≡ kind_right_size) × Observed s r.evidence × IsFounded e s kind_right_size
  unfolding right_size ratio
  right_size-kind e s r h = ground arith

  pub under_requested-kind :
      (e : Engine F) (s : ContainerStats D F) (r : Recommendation D F)
      → under_requested e s ≡ some r
      → (r.kind ≡ kind_under_requested) × Observed s r.evidence × IsFounded e s kind_under_requested
  unfolding under_requested
  under_requested-kind e s r h = ground arith

  pub over_replicated-kind :
      (e : Engine F) (s : ContainerStats D F) (r : Recommendation D F)
      → over_replicated e s ≡ some r
      → (r.kind ≡ kind_over_replicated) × Observed s r.evidence × IsFounded e s kind_over_replicated
  unfolding over_replicated ratio
  over_replicated-kind e s r h =
      ground (arith, tunable_lem s.workload_kind, eq_ℤ-false s.cpu_requested_millicores (pos 0))

All-first_of :
    {A : Type 0} (P : A → Type 0) (o : Option A) (others : List A)
    → All P (optional o)
    → All P others
    → All P (first_of o others)
All-first_of P none others _ ps = ps
All-first_of P (some a) others p _ = p

module _ {D F : Type 0} ⦃d : Decimal D⦄ ⦃f : Float64 F⦄ ⦃v : FromFloat D F⦄ where
  -- A finding with the evidence of its container, on which its kind is founded.
  abbrev pub IsJustified : Engine F → ContainerStats D F → Recommendation D F → Type 0
  IsJustified e s r =
      Observed s r.evidence
      × (e.thresholds.min_windows ≤ℤ s.window_count)
      × (e.thresholds.min_observation ≤ℤ sub_time s.observed_to s.observed_from)
      × IsFounded e s r.kind

  optional-IsJustified :
      (e : Engine F) (s : ContainerStats D F) (k : Kind) (o : Option (Recommendation D F))
      → lacks_evidence e s ≡ false
      → ((r : Recommendation D F)
          → o ≡ some r
          → (r.kind ≡ k) × Observed s r.evidence × IsFounded e s k)
      → All (IsJustified e s) (optional o)
  unfolding lacks_evidence
  optional-IsJustified e s k none seen fired = tt
  optional-IsJustified e s k (some r) seen fired =
      let (kind, evidence, founded) = fired r refl in
      ((evidence, ground arith, ground arith, rw kind founded), tt)

  idle_or_oversized-IsJustified :
      (e : Engine F) (s : ContainerStats D F)
      → lacks_evidence e s ≡ false
      → All (IsJustified e s) (idle_or_oversized e s)
  unfolding idle_or_oversized
  idle_or_oversized-IsJustified e s seen =
      All-first_of (IsJustified e s) (idle e s) (optional (right_size e s))
        (optional-IsJustified e s kind_idle (idle e s) seen (idle-kind e s))
        (optional-IsJustified e s kind_right_size (right_size e s) seen (right_size-kind e s))

  -- Every finding on a container rests on enough windows over a long enough span, carries what was
  -- observed, field by field, as its evidence, and its kind's own conditions hold: no request, but some
  -- use; some request, and peaks at most at the idle floor for the longer idle span; a request of which the
  -- 95th percentile is less than the share, or which it exceeds; or more replicas than the floor, of a kind
  -- of workload whose count can be chosen, that request CPU and use no more than the share of it. All but
  -- the first need nine tenths of the windows to have a peak.
  pub analyse_container-IsJustified :
      (e : Engine F) (s : ContainerStats D F) → All (IsJustified e s) (analyse_container e s)
  unfolding analyse_container
  analyse_container-IsJustified e s = elim (Bool-cases (lacks_evidence e s)) [
    | inl short ↦ rw short tt
    | inr seen ↦
        let P = IsJustified e s in
        let under =
          optional-IsJustified e s kind_under_requested (under_requested e s) seen
            (under_requested-kind e s) in
        let over =
          optional-IsJustified e s kind_over_replicated (over_replicated e s) seen
            (over_replicated-kind e s) in
        let sized = All-append P _ _ (idle_or_oversized-IsJustified e s seen) under in
        rw seen (
          All-first_of P (set_requests e s) _
            (optional-IsJustified e s kind_set_requests (set_requests e s) seen
              (set_requests-kind e s))
            (All-append P _ _ sized over))
  ]
