-- ===== src/Prom/Readings.antt =====
-- What a collection reads: for each container the last usable sample of each query.
use Prim.Native.String.{String}
use kubernetes_cost_analyzer.Common.{
  ◌≡◌, ◌↔◌, refl, sym, ap, ◌∙◌, inl, inr, false, Option, none, some, List, Result, ok, ◌>>=◌,
  >>=-eq-ok, >>=-ok, ok-injective, map_err, map_err-eq-ok, arith, Bool-cases, Result-cases,
}
use kubernetes_cost_analyzer.Common.Int.{ℤ, pos, le_ℤ, max_ℤ}
use kubernetes_cost_analyzer.Common.Text.{Text}
use kubernetes_cost_analyzer.Numeric.Float.{Float64}
use kubernetes_cost_analyzer.Clock.{Time, sub_time}
use kubernetes_cost_analyzer.Domain.{ContainerKey, Usage}
use kubernetes_cost_analyzer.Prom.{
  Sample, vector, other_value, Api, cpu_query, cpu_peak_query, memory_query, memory_peak_query,
}
use kubernetes_cost_analyzer.Prom.Merging.{
  Rounding, Usages, raise_peaks, visit_samples, collect, millicores, bytes, container_usage,
  UsageError, cpu_step, peak_step, memory_step, memory_peak_step, querying_cpu, querying_peak_cpu,
  querying_memory, querying_peak_memory,
}
use kubernetes_cost_analyzer.Prom.Samples.{last_reading, after, visit_samples_lem}

module _ {F : Type 0} ⦃f : Float64 F⦄ (r : Rounding F) where
  -- The usage that four readings make.
  abbrev pub observed : Option F → Option F → Option F → Option F → Option Usage
  observed none none none none = none
  observed cpu peak memory memory_peak =
      let number : (F → ℤ) → Option F → ℤ = λ read o. elim o [ none ↦ pos 0 | some v ↦ read v ] in
      some (record {
        cpu_millicores = number (millicores r) cpu;
        memory_bytes = number (bytes r) memory;
        cpu_millicores_max = max_ℤ (number (millicores r) peak) (number (millicores r) cpu);
        memory_bytes_max = max_ℤ (number (bytes r) memory_peak) (number (bytes r) memory);
      })

  -- What each query's value does to a usage.
  abbrev set_cpu : F → Usage → Usage
  set_cpu v u = record u { cpu_millicores = millicores r v }

  abbrev set_peak : F → Usage → Usage
  set_peak v u = record u { cpu_millicores_max = millicores r v }

  abbrev set_memory : F → Usage → Usage
  set_memory v u = record u { memory_bytes = bytes r v }

  abbrev set_memory_peak : F → Usage → Usage
  set_memory_peak v u = record u { memory_bytes_max = bytes r v }

  raised :
      (cpu peak memory memory_peak : Option F)
      → elim (after set_memory_peak memory_peak
          (after set_memory memory (after set_peak peak (after set_cpu cpu none)))) [
            | none ↦ none
            | some u ↦ some (raise_peaks u)
          ]
        ≡ observed cpu peak memory memory_peak
  unfolding raise_peaks
  raised none none none none = refl
  raised none none none (some d) = refl
  raised none none (some c) none = refl
  raised none none (some c) (some d) = refl
  raised none (some b) none none = refl
  raised none (some b) none (some d) = refl
  raised none (some b) (some c) none = refl
  raised none (some b) (some c) (some d) = refl
  raised (some a) none none none = refl
  raised (some a) none none (some d) = refl
  raised (some a) none (some c) none = refl
  raised (some a) none (some c) (some d) = refl
  raised (some a) (some b) none none = refl
  raised (some a) (some b) none (some d) = refl
  raised (some a) (some b) (some c) none = refl
  raised (some a) (some b) (some c) (some d) = refl

  module _ {E : Type 0} (api : Api F E) where
    collect-eq-ok :
        (query : Text F) (at : Time) (change : F → Usage → Usage) (usage : Usages) {after : Usages}
        → collect r api query at change usage ≡ ok after
        → (samples : List (Sample F)) × (api query at ≡ ok (vector samples))
          × (visit_samples r change samples usage ≡ after)
    unfolding collect
    collect-eq-ok query at change usage h = elim (Result-cases (api query at)) [
      | inl (e, failed) ↦ absurd (ground arith)
      | inr (other_value type, answer) ↦ absurd (ground arith)
      | inr (vector samples, answer) ↦ (samples, answer, ground arith)
    ]

    collect_vector :
        (query : Text F) (at : Time) (change : F → Usage → Usage) (usage : Usages)
        (samples : List (Sample F))
        → api query at ≡ ok (vector samples)
        → collect r api query at change usage ≡ ok (visit_samples r change samples usage)
    unfolding collect
    collect_vector query at change usage samples answer = ground arith

    module _ (namespace : String) (start end : Time) where
      -- The usage of each container is what the last usable samples of the four answers say.
      pub record IsReading (usage : Usages) : Type 0 where
        pub cpu : List (Sample F)
        pub peak : List (Sample F)
        pub memory : List (Sample F)
        pub memory_peak : List (Sample F)
        pub ordered : le_ℤ (sub_time end start) (pos 0) ≡ false
        pub cpu_answer : api (cpu_query namespace (sub_time end start)) end ≡ ok (vector cpu)
        pub peak_answer : api (cpu_peak_query namespace (sub_time end start)) end ≡ ok (vector peak)
        pub memory_answer :
            api (memory_query namespace (sub_time end start)) end ≡ ok (vector memory)
        pub memory_peak_answer :
            api (memory_peak_query namespace (sub_time end start)) end ≡ ok (vector memory_peak)
        pub reads :
            (k : ContainerKey)
            → usage k
              ≡ observed
                  (last_reading r k cpu)
                  (last_reading r k peak)
                  (last_reading r k memory)
                  (last_reading r k memory_peak)

      -- What the four loops leave.
      abbrev merged : List (Sample F) → List (Sample F) → List (Sample F) → List (Sample F) → Usages
      merged cpu peak memory memory_peak = visit_samples r set_memory_peak memory_peak (
          visit_samples r set_memory memory
            (visit_samples r set_peak peak (visit_samples r set_cpu cpu (λ k. none))))

      abbrev answer_of : Usages → Usages
      answer_of usage k = elim (usage k) [ none ↦ none | some u ↦ some (raise_peaks u) ]

      merged_reads :
          (cpu peak memory memory_peak : List (Sample F)) (k : ContainerKey)
          → answer_of (merged cpu peak memory memory_peak) k
            ≡ observed
                (last_reading r k cpu)
                (last_reading r k peak)
                (last_reading r k memory)
                (last_reading r k memory_peak)
      merged_reads cpu peak memory memory_peak k =
          ap (λ u. elim u [ none ↦ none | some v ↦ some (raise_peaks v) ])
            (visit_samples_lem r set_memory_peak (λ v w u. refl) k memory_peak _
              ∙ ap (after set_memory_peak (last_reading r k memory_peak)) (
                  visit_samples_lem r set_memory (λ v w u. refl) k memory _
                  ∙ ap (after set_memory (last_reading r k memory)) (
                      visit_samples_lem r set_peak (λ v w u. refl) k peak _
                      ∙ ap (after set_peak (last_reading r k peak))
                          (visit_samples_lem r set_cpu (λ v w u. refl) k cpu _))))
          ∙ raised (last_reading r k cpu) (last_reading r k peak) (last_reading r k memory)
              (last_reading r k memory_peak)

      -- The four queries, chained.
      abbrev chain : Result (UsageError F E) Usages
      chain = cpu_step r api namespace (sub_time end start) end >>= λ cpu.
          peak_step r api namespace (sub_time end start) end cpu >>= λ peak.
          memory_step r api namespace (sub_time end start) end peak >>= λ memory.
          memory_peak_step r api namespace (sub_time end start) end memory >>= λ usage.
          ok (answer_of usage)

      same_chain :
          le_ℤ (sub_time end start) (pos 0) ≡ false
          → container_usage r api namespace start end ≡ chain
      unfolding container_usage
      same_chain late = rw late refl

      whole :
          (cpu peak memory memory_peak : List (Sample F)) {u1 u2 u3 u4 : Usages}
          → visit_samples r set_cpu cpu (λ k. none) ≡ u1
          → visit_samples r set_peak peak u1 ≡ u2
          → visit_samples r set_memory memory u2 ≡ u3
          → visit_samples r set_memory_peak memory_peak u3 ≡ u4
          → merged cpu peak memory memory_peak ≡ u4
      whole cpu peak memory memory_peak v1 v2 v3 v4 =
          ap (visit_samples r set_memory_peak memory_peak) (
            ap (visit_samples r set_memory memory) (ap (visit_samples r set_peak peak) v1 ∙ v2)
            ∙ v3)
          ∙ v4

      chain_reads :
          (usage : Usages)
          → le_ℤ (sub_time end start) (pos 0) ≡ false
          → chain ≡ ok usage
          → IsReading usage
      chain_reads usage late h =
          let (u1, m1, h1) = >>=-eq-ok (cpu_step r api namespace (sub_time end start) end) _ h in
          let (u2, m2, h2) =
            >>=-eq-ok (peak_step r api namespace (sub_time end start) end u1) _ h1 in
          let (u3, m3, h3) =
            >>=-eq-ok (memory_step r api namespace (sub_time end start) end u2) _ h2 in
          let (u4, m4, h4) =
            >>=-eq-ok (memory_peak_step r api namespace (sub_time end start) end u3) _ h3 in
          let (cpu, a1, v1) = collect-eq-ok _ _ _ _ (map_err-eq-ok querying_cpu _ m1) in
          let (peak, a2, v2) = collect-eq-ok _ _ _ _ (map_err-eq-ok querying_peak_cpu _ m2) in
          let (memory, a3, v3) = collect-eq-ok _ _ _ _ (map_err-eq-ok querying_memory _ m3) in
          let (memory_peak, a4, v4) =
            collect-eq-ok _ _ _ _ (map_err-eq-ok querying_peak_memory _ m4) in
          record {
            cpu = cpu;
            peak = peak;
            memory = memory;
            memory_peak = memory_peak;
            ordered = late;
            cpu_answer = a1;
            peak_answer = a2;
            memory_answer = a3;
            memory_peak_answer = a4;
            reads = λ k.
                sym (
                  ap (λ u. answer_of u k) (whole cpu peak memory memory_peak v1 v2 v3 v4)
                  ∙ ap (λ u. u k) (ok-injective h4))
                ∙ merged_reads cpu peak memory memory_peak k;
          }

      reads_chain : (usage : Usages) → IsReading usage → chain ≡ ok usage
      reads_chain usage w =
          >>=-ok _ _ (ap (map_err querying_cpu) (collect_vector _ _ set_cpu _ _ w.cpu_answer)) (
            >>=-ok _ _
              (ap (map_err querying_peak_cpu) (collect_vector _ _ set_peak _ _ w.peak_answer))
              (>>=-ok _ _
                (ap (map_err querying_memory) (collect_vector _ _ set_memory _ _ w.memory_answer))
                (>>=-ok _ _
                  (ap (map_err querying_peak_memory)
                    (collect_vector _ _ set_memory_peak _ _ w.memory_peak_answer))
                  (λ i. ok (λ k.
                    (merged_reads w.cpu w.peak w.memory w.memory_peak k ∙ sym (w.reads k)) i)))))

      -- A collection succeeds with some usages exactly if the window is not empty, all four queries are
      -- answered by vectors, and each container has the usage that the last usable samples of the four
      -- make: its averages and, each no lower than the average, its peaks, zero for a query without a
      -- usable sample of it, and no usage if no query has one. A sample is usable if its value is finite
      -- and not negative and its series names a namespace, a pod and a container.
      pub container_usage_iff :
          (usage : Usages)
          → (container_usage r api namespace start end ≡ ok usage) ↔ IsReading usage
      unfolding container_usage
      container_usage_iff usage = elim (Bool-cases (le_ℤ (sub_time end start) (pos 0))) [
        | inl early ↦ (λ h. absurd (ground arith), λ w. absurd (ground (arith, w.ordered)))
        | inr late ↦ (
          λ h. chain_reads usage late (sym (same_chain late) ∙ h),
          λ w. same_chain late ∙ reads_chain usage w,
        )
      ]
