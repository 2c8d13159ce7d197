-- ===== src/Costing/Coverage.antt =====
-- The loops of `collectNamespace` against a description by filters and maps: every container of a
-- placed pod is billed or skipped, every other pod is counted.
use text.Mathlib.Text.{◌==◌ as str_eq}
use mathlib.Core.List.{append_assoc, append-nil}
use kubernetes_cost_analyzer.Common.{
  ◌≡◌, refl, ap, ◌∙◌, Bool, true, false, not, ◌&&◌, Option, none, some, List, [], ◌∷◌, ◌++◌, map,
  concat_map, ok, inl, inr, Bool-cases, Option-cases, arith, if◌then◌else◌,
}
use kubernetes_cost_analyzer.Common.Int.{ℤ}
use kubernetes_cost_analyzer.Common.Maps.{lookup}
use kubernetes_cost_analyzer.Common.Sort.{keep}
use kubernetes_cost_analyzer.Numeric.Decimal.{Decimal}
use kubernetes_cost_analyzer.Domain.{Namespace, Pod, Container, ContainerKey, Usage, billable_kind}
use kubernetes_cost_analyzer.Costing.{Window, Engine}
use kubernetes_cost_analyzer.Domain.Allocation.{ContainerAllocation}
use kubernetes_cost_analyzer.Costing.Collect.{
  PricedNode, NamespaceStats, RateMap, Scope, no_stats, scope, increment, row, collect_pods,
  collect_namespace, visit_containers, visit_pod, visit_pods,
}

-- A counter that is incremented once for each element that passes a test.
abbrev pub counted_from {ℓ} : {A : Type ℓ} → (A → Bool) → List A → ℤ → ℤ
counted_from p [] n = n
counted_from p (x ∷ xs) n = counted_from p xs (if p x then increment n else n)

module _ {D : Type 0} ⦃d : Decimal D⦄ (x : Scope D) where
  abbrev pub is_unscheduled : Pod → Bool
  is_unscheduled pod = str_eq pod.node_name ""

  -- The priced node that a pod runs on.
  abbrev pub placed : Pod → Option (PricedNode D)
  placed pod = if str_eq pod.node_name "" then none else lookup pod.node_name x.node_rates

  abbrev pub is_unpriced : Pod → Bool
  is_unpriced pod = not (is_unscheduled pod) && elim (placed pod) [ none ↦ true | some _ ↦ false ]

  -- The rows of a pod: one for each billable container, if the pod runs on a priced node.
  abbrev pub rows_of : Pod → List (ContainerAllocation D)
  rows_of pod = elim (placed pod) [
    | none ↦ []
    | some pn ↦ map (row x pod pn) (keep (λ c. billable_kind c.kind) pod.containers)
  ]

  -- The containers that are looked at.
  abbrev pub hosted : Pod → List Container
  hosted pod = elim (placed pod) [ none ↦ [] | some _ ↦ pod.containers ]

  abbrev pub is_skipped : Container → Bool
  is_skipped c = not (billable_kind c.kind)

  abbrev pub expected_stats : List Pod → NamespaceStats → NamespaceStats
  expected_stats pods s = record {
    pods_unscheduled = counted_from is_unscheduled pods s.pods_unscheduled;
    pods_on_unpriced_node = counted_from is_unpriced pods s.pods_on_unpriced_node;
    containers_skipped = counted_from is_skipped (concat_map hosted pods) s.containers_skipped;
  }

  visit_containers_lem :
      (pod : Pod) (pn : PricedNode D) (cs : List Container) (out : List (ContainerAllocation D))
      (s : NamespaceStats)
      → visit_containers x pod pn cs (out, s) ≡ (
        out ++ map (row x pod pn) (keep (λ c. billable_kind c.kind) cs),
        record s { containers_skipped = counted_from is_skipped cs s.containers_skipped },
      )
  unfolding visit_containers
  visit_containers_lem pod pn [] out s = rw append-nil
  visit_containers_lem pod pn (c ∷ cs) out s = elim (Bool-cases (billable_kind c.kind)) [
    | inl bill ↦
        rw bill (visit_containers_lem pod pn cs (out ++ row x pod pn c ∷ []) s ∙ rw append_assoc)
    | inr skip ↦ rw skip (
        visit_containers_lem pod pn cs out
          (record s { containers_skipped = increment s.containers_skipped }))
  ]

  visit_pod_lem :
      (pod : Pod) (out : List (ContainerAllocation D)) (s : NamespaceStats)
      → visit_pod x pod (out, s) ≡ (
        out ++ rows_of pod,
        record {
          pods_unscheduled =
              if is_unscheduled pod then increment s.pods_unscheduled else s.pods_unscheduled;
          pods_on_unpriced_node =
              if is_unpriced pod
              then increment s.pods_on_unpriced_node
              else s.pods_on_unpriced_node;
          containers_skipped = counted_from is_skipped (hosted pod) s.containers_skipped;
        },
      )
  unfolding visit_pod
  visit_pod_lem pod out s = elim (Option-cases (lookup pod.node_name x.node_rates)) [
    | inl unpriced ↦ ground (arith, append-nil out)
    | inr (pn, priced) ↦
        ground (arith, append-nil out, visit_containers_lem pod pn pod.containers out s)
  ]

  counted_from-append :
      (xs ys : List Container) (n : ℤ)
      → counted_from is_skipped (xs ++ ys) n
        ≡ counted_from is_skipped ys (counted_from is_skipped xs n)
  counted_from-append [] ys n = refl
  counted_from-append (c ∷ cs) ys n =
      counted_from-append cs ys (if is_skipped c then increment n else n)

  visit_pods_lem :
      (pods : List Pod) (out : List (ContainerAllocation D)) (s : NamespaceStats)
      → visit_pods x pods (out, s) ≡ (out ++ concat_map rows_of pods, expected_stats pods s)
  unfolding visit_pods
  visit_pods_lem [] out s = rw append-nil
  visit_pods_lem (pod ∷ pods) out s =
      rw
        (
          visit_pod_lem pod out s,
          counted_from-append (hosted pod) (concat_map hosted pods) s.containers_skipped,
          visit_pods_lem pods,
        )
        (rw append_assoc)

module _ {D E : Type 0} ⦃d : Decimal D⦄ (e : Engine D E) (w : Window) (node_rates : RateMap D)
    (ns : Namespace) where
  -- Where the pods and their usage can be read, a namespace yields exactly one row for each billable
  -- container of each pod on a priced node, in order; its counters are the numbers of pods without a
  -- node, of pods on an unpriced node, and of containers that are not billed.
  pub collect_namespace-covers :
      (pods : List Pod) (usage : ContainerKey → Option Usage)
      → e.sources.pods ns.name ≡ ok pods
      → e.sources.container_usage ns.name w.start w.end ≡ ok usage
      → let x = scope e w node_rates ns usage in
        collect_namespace e w node_rates ns
        ≡ ok (concat_map (rows_of x) pods, expected_stats x pods no_stats)
  unfolding collect_namespace collect_pods
  collect_namespace-covers [] usage p u = rw p
  collect_namespace-covers (pod ∷ pods) usage p u =
      rw (p, u) (ap ok (visit_pods_lem (scope e w node_rates ns usage) (pod ∷ pods) [] no_stats))
