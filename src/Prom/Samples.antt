-- ===== src/Prom/Samples.antt =====
-- What one loop over samples reads: for each container its last usable sample.
use text.Mathlib.TextEquality.{eq_iff}
use kubernetes_cost_analyzer.Common.{
  ◌≡◌, refl, ap, ◌∙◌, inl, inr, Bool, true, false, not, ◌&&◌, ◌||◌, Option, none, some, List, [],
  ◌∷◌, arith, Bool-cases, if◌then◌else◌,
}
use kubernetes_cost_analyzer.Common.Int.{pos}
use kubernetes_cost_analyzer.Numeric.Float.{Float64}
use kubernetes_cost_analyzer.Domain.{ContainerKey, Usage}
use kubernetes_cost_analyzer.Prom.{Sample}
use kubernetes_cost_analyzer.Prom.Merging.{
  Rounding, Usages, same_key, update, key_of_series, is_unusable, is_anonymous, visit_samples,
}

-- A usage in which nothing was seen.
abbrev pub known : Option Usage → Usage
known none = record {
  cpu_millicores = pos 0;
  memory_bytes = pos 0;
  cpu_millicores_max = pos 0;
  memory_bytes_max = pos 0;
}
known (some u) = u

-- A reading written over a usage.
abbrev pub after : {F : Type 0} → (F → Usage → Usage) → Option F → Option Usage → Option Usage
after change none before = before
after change (some v) before = some (change v (known before))

same_key_eq : (k j : ContainerKey) → same_key k j ≡ true → k ≡ j
same_key_eq k j h =
    let namespaces : k.namespace ≡ j.namespace = ground (arith, eq_iff k.namespace j.namespace) in
    let pods : k.pod ≡ j.pod = ground (arith, eq_iff k.pod j.pod) in
    let containers : k.container ≡ j.container = ground (arith, eq_iff k.container j.container) in
    λ i. record { namespace = namespaces i; pod = pods i; container = containers i }

update_lem :
    (change : Usage → Usage) (k j : ContainerKey) (usage : Usages)
    → update change k usage j ≡ (if same_key k j then some (change (known (usage j))) else usage j)
unfolding update
update_lem change k j usage = elim (Bool-cases (same_key k j)) [
  | inl same ↦ rw same (ap (λ x. some (change (known (usage x)))) (same_key_eq k j same))
  | inr other ↦ rw other refl
]

de_morgan : (a b c : Bool) → not a && not b && not c ≡ not (a || b || c)
de_morgan a b c = ground arith

module _ {F : Type 0} ⦃f : Float64 F⦄ (r : Rounding F) where
  -- Its value is finite and not negative, and its series is that of a container.
  abbrev pub is_usable : Sample F → Bool
  is_usable s =
      not (r.not_finite s.value)
      && not (f.flt s.value (f.lit 0 0))
      && not (is_anonymous (key_of_series s.metric))

  usable_lem : (s : Sample F) → is_usable s ≡ not (is_unusable r s)
  usable_lem s =
      de_morgan (r.not_finite s.value) (f.flt s.value (f.lit 0 0))
        (is_anonymous (key_of_series s.metric))

  -- A sample is one of a container.
  abbrev pub is_of : ContainerKey → Sample F → Bool
  is_of k s = is_usable s && same_key (key_of_series s.metric) k

  -- The last usable sample of a container.
  abbrev pub last_reading : ContainerKey → List (Sample F) → Option F
  last_reading k [] = none
  last_reading k (s ∷ ss) = elim (last_reading k ss) [
    | some v ↦ some v
    | none ↦ if is_of k s then some s.value else none
  ]

  module _ (change : F → Usage → Usage)
      (overwrites : (v w : F) (u : Usage) → change v (change w u) ≡ change v u) where
    after_twice :
        (o : Option F) (v : F) (before : Option Usage)
        → after change o (some (change v (known before)))
          ≡ after change (elim o [ some w ↦ some w | none ↦ some v ]) before
    after_twice none v before = refl
    after_twice (some w) v before = ap some (overwrites w v (known before))

    after_one :
        (o : Option F) (here : Bool) (v : F) (before : Option Usage)
        → after change o (if here then some (change v (known before)) else before)
          ≡ after change (elim o [ some w ↦ some w | none ↦ if here then some v else none ]) before
    after_one o true v before = after_twice o v before
    after_one none false v before = refl
    after_one (some w) false v before = refl

    one_sample :
        (k : ContainerKey) (s : Sample F) (usage : Usages)
        → (if is_unusable r s
              then usage
              else update (change s.value) (key_of_series s.metric) usage)
            k
          ≡ (if is_of k s then some (change s.value (known (usage k))) else usage k)
    one_sample k s usage = elim (Bool-cases (is_unusable r s)) [
      | inl skip ↦ rw (usable_lem s, skip) refl
      | inr kept ↦
          rw (usable_lem s, kept) (update_lem (change s.value) (key_of_series s.metric) k usage)
    ]

    pub visit_samples_lem :
        (k : ContainerKey) (ss : List (Sample F)) (usage : Usages)
        → visit_samples r change ss usage k ≡ after change (last_reading k ss) (usage k)
    unfolding visit_samples
    visit_samples_lem k [] usage = refl
    visit_samples_lem k (s ∷ ss) usage =
        let next =
          if is_unusable r s
          then usage
          else update (change s.value) (key_of_series s.metric) usage in
        visit_samples_lem k ss next
        ∙ ap (after change (last_reading k ss)) (one_sample k s usage)
        ∙ after_one (last_reading k ss) (is_of k s) s.value (usage k)
