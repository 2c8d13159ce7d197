-- ===== src/Recommend/Sizing.antt =====
-- internal/recommend/rules.go: the four rules on the size of one container. A rule that does not fire
-- is `none`.
use kubernetes_cost_analyzer.Common.{Bool, ◌&&◌, ◌||◌, not, if◌then◌else◌, Option, none, some}
use kubernetes_cost_analyzer.Common.Int.{ℤ, pos, lt_ℤ, eq_ℤ}
use kubernetes_cost_analyzer.Common.Word.{sub64}
use kubernetes_cost_analyzer.Common.Text.{raw, sprintf, done, str, int, float, of_text}
use kubernetes_cost_analyzer.Numeric.Decimal.{Decimal}
use kubernetes_cost_analyzer.Numeric.Float.{Float64, FromFloat}
use kubernetes_cost_analyzer.Clock.{hours}
use kubernetes_cost_analyzer.Recommend.{
  ContainerStats, duration, Recommendation, info, warning, critical, kind_set_requests, kind_idle,
  kind_right_size, kind_under_requested,
}
use kubernetes_cost_analyzer.Recommend.Engine.{Engine, base}
use kubernetes_cost_analyzer.Recommend.Arithmetic.{
  ratio, proposed_cpu, proposed_memory, monthly_cost_of, human_bytes, change_summary,
}

-- What a proposal comes to, cut off at the present request.
abbrev pub at_most : ℤ → ℤ → ℤ
at_most request proposal = if lt_ℤ request proposal then request else proposal

module _ {D F : Type 0} ⦃d : Decimal D⦄ ⦃f : Float64 F⦄ where
  unfoldable pub set_requests : Engine F → ContainerStats D F → Option (Recommendation D F)
  set_requests e s =
      if lt_ℤ (pos 0) s.cpu_requested_millicores || lt_ℤ (pos 0) s.mem_requested_bytes
      then none
      else if eq_ℤ s.cpu_p95_millicores (pos 0) && eq_ℤ s.mem_p95_bytes (pos 0)
      then none
      else some (record (base s kind_set_requests warning) {
        summary =
            sprintf "%s declares no resource requests but is using CPU and memory"
              (str s.container done);
        current = raw "no requests set (BestEffort)";
        proposed =
            sprintf "cpu: %dm, memory: %s"
              (int (proposed_cpu e s) (of_text (human_bytes (proposed_memory e s)) done));
        rationale =
            sprintf
              "Observed p95 of %dm CPU and %s memory over %.1f hours, with no requests declared. This makes the container BestEffort -- the first thing the kubelet evicts under node pressure -- and means its cost cannot be attributed to this workload, so it is silently spread across every other team's share instead. Setting requests will INCREASE this workload's reported cost, because the spend was already happening and was simply invisible here. A LimitRange with defaultRequest in this namespace prevents the whole class of problem."
              (int s.cpu_p95_millicores
                (of_text (human_bytes s.mem_p95_bytes) (float (hours (duration s)) done)));
        estimated_monthly_saving = d.nought;
      })

  -- A cost at one pod, for all of them.
  abbrev pub for_replicas : ContainerStats D F → D → D
  for_replicas s cost = d.mul cost (d.from_int s.replicas)

  -- The share of windows with a peak must reach 0.9.
  abbrev pub lacks_peaks : ContainerStats D F → Bool
  lacks_peaks s = f.flt s.peak_coverage (f.lit 9 1)

  abbrev pub requests_nothing : ContainerStats D F → Bool
  requests_nothing s = eq_ℤ s.cpu_requested_millicores (pos 0) && eq_ℤ s.mem_requested_bytes (pos 0)

  unfoldable pub idle : Engine F → ContainerStats D F → Option (Recommendation D F)
  idle e s =
      let t = e.thresholds in
      if requests_nothing s
      then none
      else if lacks_peaks s
      then none
      else if lt_ℤ (duration s) t.idle_min_observation
      then none
      else if lt_ℤ t.idle_cpu_millicores s.cpu_max_millicores
          || lt_ℤ t.idle_memory_bytes s.mem_max_bytes
      then none
      else some (record (base s kind_idle info) {
        summary = sprintf "%s appears idle and may be deletable" (str s.container done);
        current =
            sprintf "cpu: %dm, memory: %s reserved"
              (int s.cpu_requested_millicores (of_text (human_bytes s.mem_requested_bytes) done));
        proposed = raw "delete the workload, or scale it to zero";
        rationale =
            sprintf
              "Peak usage over %.1f hours was %dm CPU and %s memory -- below the idle floor of %dm and %s -- while reserving %dm and %s. This is not merely oversized: it appears to do nothing at all. BEFORE DELETING, confirm with the owner. A workload can be legitimately idle: a disaster-recovery standby, a quarterly batch job, or a consumer waiting on a queue that is currently empty. This analysis covers %.1f hours, so anything on a weekly or monthly cycle would look identical to something abandoned."
              (float (hours (duration s)) (
                int s.cpu_max_millicores (
                  of_text (human_bytes s.mem_max_bytes) (
                    int t.idle_cpu_millicores (
                      of_text (human_bytes t.idle_memory_bytes) (
                        int s.cpu_requested_millicores (
                          of_text (human_bytes s.mem_requested_bytes)
                            (float (hours (duration s)) done))))))));
        estimated_monthly_saving =
            for_replicas s (monthly_cost_of s s.cpu_requested_millicores s.mem_requested_bytes);
      })

  -- `cpuOver` and `memOver`.
  abbrev pub cpu_over : Engine F → ContainerStats D F → Bool
  cpu_over e s =
      lt_ℤ (pos 0) s.cpu_requested_millicores
      && f.flt (ratio s.cpu_p95_millicores s.cpu_requested_millicores)
          e.thresholds.right_size_max_utilisation

  abbrev pub mem_over : Engine F → ContainerStats D F → Bool
  mem_over e s =
      lt_ℤ (pos 0) s.mem_requested_bytes
      && f.flt (ratio s.mem_p95_bytes s.mem_requested_bytes) e.thresholds.right_size_max_utilisation

  unfoldable pub reduced_cpu : Engine F → ContainerStats D F → ℤ
  reduced_cpu e s =
      at_most s.cpu_requested_millicores
        (if cpu_over e s then proposed_cpu e s else s.cpu_requested_millicores)

  unfoldable pub reduced_memory : Engine F → ContainerStats D F → ℤ
  reduced_memory e s =
      at_most s.mem_requested_bytes
        (if mem_over e s then proposed_memory e s else s.mem_requested_bytes)

  unfoldable pub right_size_saving : Engine F → ContainerStats D F → D
  right_size_saving e s = for_replicas s (
      monthly_cost_of s (sub64 s.cpu_requested_millicores (reduced_cpu e s))
        (sub64 s.mem_requested_bytes (reduced_memory e s)))

  -- A saving below the share of the present cost that is worth a finding.
  unfoldable pub is_trivial : ⦃v : FromFloat D F⦄ → Engine F → ContainerStats D F → Bool
  is_trivial ⦃v⦄ e s =
      let current =
        for_replicas s (monthly_cost_of s s.cpu_requested_millicores s.mem_requested_bytes) in
      d.is_positive current
      && d.less_than (d.div (right_size_saving e s) current)
          (v.from_float e.thresholds.min_saving_ratio)

  unfoldable pub right_size :
      ⦃v : FromFloat D F⦄ → Engine F → ContainerStats D F → Option (Recommendation D F)
  right_size e s =
      if requests_nothing s
      then none
      else if lacks_peaks s
      then none
      else if not (cpu_over e s) && not (mem_over e s)
      then none
      else if is_trivial e s
      then none
      else some (record (base s kind_right_size info) {
        summary = sprintf "%s reserves substantially more than it uses" (str s.container done);
        current =
            change_summary (cpu_over e s) (mem_over e s) s.cpu_requested_millicores
              s.mem_requested_bytes;
        proposed =
            change_summary (cpu_over e s) (mem_over e s) (reduced_cpu e s) (reduced_memory e s);
        rationale =
            sprintf
              "Over %.1f hours across %d windows, p95 peak usage was %dm CPU (%.0f%% of the %dm requested) and %s memory (%.0f%% of %s). The proposal is p95 x %.2f headroom. Headroom is not padding: p95 means 5%% of windows EXCEEDED it, so sizing exactly at p95 would throttle the workload one window in twenty. Note this is p95 of per-window PEAKS, not of averages -- averaging smooths bursts away, and a request derived from averages gets CPU-throttled or OOMKilled."
              (float (hours (duration s)) (
                int s.window_count (
                  int s.cpu_p95_millicores (
                    float
                      (f.fmul (ratio s.cpu_p95_millicores s.cpu_requested_millicores) (f.lit 100 0))
                      (int s.cpu_requested_millicores (
                        of_text (human_bytes s.mem_p95_bytes) (
                          float (f.fmul (ratio s.mem_p95_bytes s.mem_requested_bytes) (f.lit 100 0))
                            (of_text (human_bytes s.mem_requested_bytes)
                              (float e.thresholds.headroom_factor done)))))))));
        estimated_monthly_saving = right_size_saving e s;
      })

  abbrev pub cpu_under : ContainerStats D F → Bool
  cpu_under s =
      lt_ℤ (pos 0) s.cpu_requested_millicores
      && lt_ℤ s.cpu_requested_millicores s.cpu_p95_millicores

  abbrev pub mem_under : ContainerStats D F → Bool
  mem_under s = lt_ℤ (pos 0) s.mem_requested_bytes && lt_ℤ s.mem_requested_bytes s.mem_p95_bytes

  unfoldable pub raised_cpu : Engine F → ContainerStats D F → ℤ
  raised_cpu e s = if cpu_under s then proposed_cpu e s else s.cpu_requested_millicores

  unfoldable pub raised_memory : Engine F → ContainerStats D F → ℤ
  raised_memory e s = if mem_under s then proposed_memory e s else s.mem_requested_bytes

  unfoldable pub extra : Engine F → ContainerStats D F → D
  extra e s = for_replicas s (
      monthly_cost_of s (sub64 (raised_cpu e s) s.cpu_requested_millicores)
        (sub64 (raised_memory e s) s.mem_requested_bytes))

  unfoldable pub under_requested : Engine F → ContainerStats D F → Option (Recommendation D F)
  under_requested e s =
      let severity = if mem_under s then critical else warning in
      let risk =
        if mem_under s
        then "eviction under node memory pressure, and an OOM kill if it exceeds its limit -- memory is incompressible, so the kernel cannot slow it down instead"
        else "CPU throttling, so the workload runs slower than it should" in
      if requests_nothing s
      then none
      else if lacks_peaks s
      then none
      else if not (cpu_under s) && not (mem_under s)
      then none
      else some (record (base s kind_under_requested severity) {
        summary =
            sprintf "%s uses more than it requests and risks %s"
              (str s.container (str (if mem_under s then "eviction" else "throttling") done));
        current =
            change_summary (cpu_under s) (mem_under s) s.cpu_requested_millicores
              s.mem_requested_bytes;
        proposed = change_summary (cpu_under s) (mem_under s) (raised_cpu e s) (raised_memory e s);
        rationale =
            sprintf
              "p95 peak usage over %.1f hours was %dm CPU and %s memory, against requests of %dm and %s. The risk is %s. The scheduler also places this pod using the UNDERSTATED figure, so it believes the node has more free capacity than it does -- which means this container can get innocent neighbours evicted alongside it. Applying this recommendation INCREASES cost by roughly %s per month. That is the correct trade: the resources are already being consumed, and the request is what makes the scheduler account for them."
              (float (hours (duration s)) (
                int s.cpu_p95_millicores (
                  of_text (human_bytes s.mem_p95_bytes) (
                    int s.cpu_requested_millicores (
                      of_text (human_bytes s.mem_requested_bytes)
                        (str risk (str (d.string_fixed (extra e s) 4) done)))))));
        estimated_monthly_saving = d.neg (extra e s);
      })
