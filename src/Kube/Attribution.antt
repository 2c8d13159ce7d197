-- ===== src/Kube/Attribution.antt =====
-- What the conversions keep: which containers of a pod are billed, and the labels and annotations.
use Prim.Native.String.{String}
use text.Mathlib.Text.{◌==◌ as str_eq}
use text.Mathlib.TextEquality.{eq_iff}
use kubernetes_cost_analyzer.Common.{
  ◌≡◌, refl, ap, ◌∙◌, inl, inr, Bool, false, not, Option, none, some, List, [], ◌∷◌, ◌++◌, map,
  arith, Bool-cases, Option-cases, if◌then◌else◌,
}
use kubernetes_cost_analyzer.Common.Maps.{Entries, lookup, lookup-insert}
use kubernetes_cost_analyzer.Common.Sort.{keep}
use kubernetes_cost_analyzer.Domain.{Container, regular, sidecar, initial, billable_kind}
use kubernetes_cost_analyzer.Kube.{
  strip_for_cache, Quantity, OwnerReference, OwnerResolver, ObjectMeta, KubeContainer, KubePod,
  copy_labels, trimmed, last_applied_annotation, to_container, regular_containers, kind_of_init,
  init_containers, to_containers, to_pod,
}

-- A container that restarts whenever it ends.
abbrev pub is_always : {Q : Type 0} → KubeContainer Q → Bool
is_always c = elim c.restart_policy [ none ↦ false | some policy ↦ str_eq policy "Always" ]

abbrev pub is_billed : Container → Bool
is_billed c = billable_kind c.kind

abbrev pub is_free : Container → Bool
is_free c = not (billable_kind c.kind)

module _ {Q : Type 0} (q : Quantity Q) where
  keep_regular :
      (cs : List (KubeContainer Q)) (more : List Container)
      → (keep is_billed (regular_containers q cs ++ more)
          ≡ map (λ c. to_container q c regular) cs ++ keep is_billed more)
        × (keep is_free (regular_containers q cs ++ more) ≡ keep is_free more)
  unfolding regular_containers to_container billable_kind
  keep_regular [] more = (refl, refl)
  keep_regular (c ∷ cs) more =
      let (billed, free) = keep_regular cs more in
      (ap (λ xs. to_container q c regular ∷ xs) billed, free)

  kind_of_init_lem :
      (c : KubeContainer Q) → kind_of_init q c ≡ (if is_always c then sidecar else initial)
  unfolding kind_of_init
  kind_of_init_lem c = elim (Option-cases c.restart_policy) [
    | inl unset ↦ rw unset refl
    | inr (policy, set) ↦ rw set refl
  ]

  keep_init :
      (cs : List (KubeContainer Q))
      → (keep is_billed (init_containers q cs)
          ≡ map (λ c. to_container q c sidecar) (keep is_always cs))
        × (keep is_free (init_containers q cs)
            ≡ map (λ c. to_container q c initial) (keep (λ c. not (is_always c)) cs))
  unfolding init_containers to_container billable_kind
  keep_init [] = (refl, refl)
  keep_init (c ∷ cs) =
      let (billed, free) = keep_init cs in
      elim (Bool-cases (is_always c)) [
        | inl always ↦
            rw (kind_of_init_lem c, always) (ap (λ xs. to_container q c sidecar ∷ xs) billed, free)
        | inr once ↦
            rw (kind_of_init_lem c, once) (billed, ap (λ xs. to_container q c initial ∷ xs) free)
      ]

  module _ {O M : Type 0} (controller_of : O → Option OwnerReference)
      (pod_requests pod_limits : KubePod O M Q → Entries Q) where
    -- Every regular container of a pod and every init container that restarts for ever is billed for its own
    -- resources, in the order of the pod; the other init containers, and they alone, are not billed.
    pub to_pod-bills :
        (p : KubePod O M Q) (resolve : OwnerResolver)
        → (keep is_billed (to_pod q controller_of pod_requests pod_limits p resolve).containers
            ≡ map (λ c. to_container q c regular) p.containers
              ++ map (λ c. to_container q c sidecar) (keep is_always p.init_containers))
          × (keep is_free (to_pod q controller_of pod_requests pod_limits p resolve).containers
              ≡ map
                  (λ c. to_container q c initial)
                  (keep (λ c. not (is_always c)) p.init_containers))
    unfolding to_pod to_containers
    to_pod-bills p resolve =
        let (billed, free) = keep_regular p.containers (init_containers q p.init_containers) in
        let (sidecars, initials) = keep_init p.init_containers in
        (
          billed ∙ ap (λ xs. map (λ c. to_container q c regular) p.containers ++ xs) sidecars,
          free ∙ initials,
        )

copy_labels-lookup :
    (k : String) (labels : Entries String) → lookup k (copy_labels labels) ≡ lookup k labels
unfolding copy_labels
copy_labels-lookup k [] = refl
copy_labels-lookup k (entry ∷ rest) =
    ground (arith, lookup-insert entry.0 k entry.1 (copy_labels rest), copy_labels-lookup k rest)

trimmed-lookup :
    (k : String) (annotations : Entries String)
    → lookup k (trimmed annotations)
      ≡ (if str_eq k last_applied_annotation then none else lookup k annotations)
unfolding trimmed
trimmed-lookup k [] = ground arith
trimmed-lookup k (entry ∷ rest) = ground (
  arith,
  lookup-insert entry.0 k entry.1 (trimmed rest),
  trimmed-lookup k rest,
  eq_iff entry.0 k,
  eq_iff k last_applied_annotation,
  eq_iff entry.0 last_applied_annotation,
)

-- The cache keeps every annotation of an object but the last applied configuration.
pub strip_for_cache-lookup :
    {O M : Type 0} (k : String) (meta : ObjectMeta O M) {cached : ObjectMeta O M}
    → strip_for_cache (some meta) ≡ some cached
    → lookup k cached.annotations
      ≡ (if str_eq k last_applied_annotation then none else lookup k meta.annotations)
unfolding strip_for_cache
strip_for_cache-lookup k meta {cached} h =
    elim (Option-cases (lookup last_applied_annotation meta.annotations)) [
      | inl absent ↦ ground (arith, eq_iff k last_applied_annotation)
      | inr (v, found) ↦ ground (arith, trimmed-lookup k meta.annotations)
    ]
