-- ===== src/Costing/Interleaving.antt =====
-- The goroutines of a cycle merge in any order, and the outcome is the same but for the order of rows.
use Prim.Native.String.{String}
use text.Mathlib.TextEquality.{eq_iff}
use mathlib.Core.List.{append_assoc, Perm, Permᴰ, perm_append_comm}
use mathlib.Core.List.Perm
use mathlib.Core.Logic.{∥∥₁_map}
use kubernetes_cost_analyzer.Common.{
  ◌≡◌, refl, ap, ◌∙◌, Bool, true, false, Option, none, some, List, [], ◌∷◌, Result, ok, err,
  map_err, ◌>>=◌, not, arith, if◌then◌else◌,
}
use kubernetes_cost_analyzer.Common.Int.{pos}
use kubernetes_cost_analyzer.Common.Word.{add64, add64_swap}
use kubernetes_cost_analyzer.Common.Maps.{lookup, insert, lookup-insert}
use kubernetes_cost_analyzer.Numeric.Decimal.{Decimal}
use kubernetes_cost_analyzer.Domain.{Namespace}
use kubernetes_cost_analyzer.Costing.{Window, Engine, valid}
use kubernetes_cost_analyzer.Costing.Collect.{
  NamespaceError, CollectError, Collected, Progress, RateMap, collect_namespace, collect_pods,
  merge, merge_all, empty_result, collect, cancelled, price_nodes, listing_nodes,
  listing_namespaces,
}

module _ {D E : Type 0} where
  -- Two results that a reader of the report cannot tell apart: the same rows in some order, the same
  -- error or none for every namespace, and the same counters.
  pub record IsSame (r s : Collected D E) : Type 0 where
    pub window : r.window ≡ s.window
    pub rows : Perm r.allocations s.allocations
    pub errors : (name : String) → lookup name r.namespace_errors ≡ lookup name s.namespace_errors
    pub priced : r.nodes_priced ≡ s.nodes_priced
    pub unpriced : r.nodes_unpriced ≡ s.nodes_unpriced
    pub unscheduled : r.pods_unscheduled ≡ s.pods_unscheduled
    pub on_unpriced : r.pods_on_unpriced_node ≡ s.pods_on_unpriced_node
    pub skipped : r.containers_skipped ≡ s.containers_skipped

  IsSame-refl : (r : Collected D E) → IsSame r r
  IsSame-refl r = record {
    window = refl;
    rows = Perm.refl r.allocations;
    errors = λ name. refl;
    priced = refl;
    unpriced = refl;
    unscheduled = refl;
    on_unpriced = refl;
    skipped = refl;
  }

  IsSame-trans : (r s t : Collected D E) → IsSame r s → IsSame s t → IsSame r t
  IsSame-trans r s t p q = record {
    window = p.window ∙ q.window;
    rows = Perm.trans p.rows q.rows;
    errors = λ name. p.errors name ∙ q.errors name;
    priced = p.priced ∙ q.priced;
    unpriced = p.unpriced ∙ q.unpriced;
    unscheduled = p.unscheduled ∙ q.unscheduled;
    on_unpriced = p.on_unpriced ∙ q.on_unpriced;
    skipped = p.skipped ∙ q.skipped;
  }

  -- A merge keeps the likeness.
  merge-IsSame :
      (r s : Collected D E) (ns : Namespace) (o : Result (NamespaceError E) (Progress D))
      → IsSame r s
      → IsSame (merge r ns o) (merge s ns o)
  unfolding merge
  merge-IsSame r s ns (err e) p = record {
    window = p.window;
    rows = p.rows;
    errors = λ name. rw (
      lookup-insert ns.name name e r.namespace_errors,
      lookup-insert ns.name name e s.namespace_errors,
      p.errors name,
    );
    priced = p.priced;
    unpriced = p.unpriced;
    unscheduled = p.unscheduled;
    on_unpriced = p.on_unpriced;
    skipped = p.skipped;
  }
  merge-IsSame r s ns (ok (rows, stats)) p = record {
    window = p.window;
    rows = Perm.append_right rows p.rows;
    errors = p.errors;
    priced = p.priced;
    unpriced = p.unpriced;
    unscheduled = ap (λ n. add64 n stats.pods_unscheduled) p.unscheduled;
    on_unpriced = ap (λ n. add64 n stats.pods_on_unpriced_node) p.on_unpriced;
    skipped = ap (λ n. add64 n stats.containers_skipped) p.skipped;
  }

  -- Two merges in the other order. Errors of one name must be one error, since the later one stays.
  merge-swap :
      (r : Collected D E) (m n : Namespace) (o q : Result (NamespaceError E) (Progress D))
      → ((x y : NamespaceError E) → m.name ≡ n.name → o ≡ err x → q ≡ err y → x ≡ y)
      → IsSame (merge (merge r m o) n q) (merge (merge r n q) m o)
  unfolding merge
  merge-swap r m n (err x) (err y) same = record {
    window = refl;
    rows = Perm.refl r.allocations;
    errors = λ name.
        rw
          (
            lookup-insert n.name name y (insert m.name x r.namespace_errors),
            lookup-insert m.name name x r.namespace_errors,
            lookup-insert m.name name x (insert n.name y r.namespace_errors),
            lookup-insert n.name name y r.namespace_errors,
          )
          (ground (arith, eq_iff m.name name, eq_iff n.name name, same x y));
    priced = refl;
    unpriced = refl;
    unscheduled = refl;
    on_unpriced = refl;
    skipped = refl;
  }
  merge-swap r m n (err x) (ok (rows, stats)) same = IsSame-refl _
  merge-swap r m n (ok (rows, stats)) (err y) same = IsSame-refl _
  merge-swap r m n (ok (rows, stats)) (ok (rows', stats')) same = record {
    window = refl;
    rows =
        rw append_assoc
          (rw append_assoc (Perm.append_left r.allocations (perm_append_comm rows rows')));
    errors = λ name. refl;
    priced = refl;
    unpriced = refl;
    unscheduled = add64_swap r.pods_unscheduled stats.pods_unscheduled stats'.pods_unscheduled;
    on_unpriced =
        add64_swap r.pods_on_unpriced_node stats.pods_on_unpriced_node stats'.pods_on_unpriced_node;
    skipped = add64_swap r.containers_skipped stats.containers_skipped stats'.containers_skipped;
  }

  -- The outcomes of two runs are alike.
  abbrev pub SameOutcome :
      Result (CollectError E) (Collected D E) → Result (CollectError E) (Collected D E) → Type 0
  SameOutcome (ok r) (ok s) = ∥ IsSame r s ∥₁
  SameOutcome (err x) (err y) = x ≡ y
  SameOutcome _ _ = ⊥

  finish-SameOutcome :
      (ctx_err : Option E) (r s : Collected D E)
      → ∥ IsSame r s ∥₁
      → SameOutcome
          (elim ctx_err [ none ↦ ok r | some reason ↦ err (cancelled reason) ])
          (elim ctx_err [ none ↦ ok s | some reason ↦ err (cancelled reason) ])
  finish-SameOutcome none r s p = p
  finish-SameOutcome (some reason) r s p = refl

  bind-SameOutcome :
      {A : Type 0} (m : Result (CollectError E) A)
      (f g : A → Result (CollectError E) (Collected D E))
      → ((a : A) → SameOutcome (f a) (g a))
      → SameOutcome (m >>= f) (m >>= g)
  bind-SameOutcome (ok a) f g h = h a
  bind-SameOutcome (err x) f g h = refl

  if-SameOutcome :
      (b : Bool) (x : CollectError E) (r s : Result (CollectError E) (Collected D E))
      → SameOutcome r s
      → SameOutcome (if b then err x else r) (if b then err x else s)
  if-SameOutcome true x r s h = refl
  if-SameOutcome false x r s h = h

module _ {D E : Type 0} ⦃d : Decimal D⦄ (e : Engine D E) (w : Window) (node_rates : RateMap D) where
  -- Whether and how a namespace fails is decided by its name.
  same_name_error :
      (m n : Namespace) (x y : NamespaceError E)
      → m.name ≡ n.name
      → collect_namespace e w node_rates m ≡ err x
      → collect_namespace e w node_rates n ≡ err y
      → x ≡ y
  unfolding collect_namespace collect_pods
  same_name_error m n x y h p q = ground arith

  merge_all-IsSame :
      (ns : List Namespace) (r s : Collected D E)
      → IsSame r s
      → IsSame (merge_all e w node_rates ns r) (merge_all e w node_rates ns s)
  unfolding merge_all
  merge_all-IsSame [] r s p = p
  merge_all-IsSame (n ∷ ns) r s p =
      merge_all-IsSame ns _ _ (merge-IsSame r s n (collect_namespace e w node_rates n) p)

  merge_all-perm :
      {xs ys : List Namespace} (r : Collected D E)
      → Permᴰ xs ys
      → IsSame (merge_all e w node_rates xs r) (merge_all e w node_rates ys r)
  unfolding merge_all
  merge_all-perm r Permᴰ.nil = IsSame-refl r
  merge_all-perm r (Permᴰ.cons {a = a} {l₂ = l₂} same p) =
      rw (← same) (merge_all-perm (merge r a (collect_namespace e w node_rates a)) p)
  merge_all-perm r (Permᴰ.swap {a = a} {b = b} {l = l} p q) =
      rw (← p, ← q)
        (merge_all-IsSame l _ _ (
          merge-swap r a b (collect_namespace e w node_rates a) (collect_namespace e w node_rates b)
            (same_name_error a b)))
  merge_all-perm r (Permᴰ.trans {l₂ = l₂} p q) =
      IsSame-trans _ (merge_all e w node_rates l₂ r) _ (merge_all-perm r p) (merge_all-perm r q)

module _ {D E : Type 0} ⦃d : Decimal D⦄ (e : Engine D E) (w : Window) where
  -- The order in which the goroutines of a cycle take the lock does not matter: two runs over the same
  -- sources both fail with the same error, or both succeed with the same counters, the same error for
  -- each namespace that failed, and the same rows up to order.
  pub collect_schedules :
      (schedule other : List Namespace → List Namespace) (ctx_err : Option E)
      → ((ns : List Namespace) → Perm (schedule ns) (other ns))
      → SameOutcome (collect schedule ctx_err e w) (collect other ctx_err e w)
  unfolding collect
  collect_schedules schedule other ctx_err same = if-SameOutcome (not (valid w)) _ _ _ (
      bind-SameOutcome (map_err listing_nodes e.sources.nodes) _ _ λ nodes.
        bind-SameOutcome (map_err listing_namespaces e.sources.namespaces) _ _ λ namespaces.
          let (node_rates, priced, unpriced) = price_nodes e nodes ([], pos 0, pos 0) in
          finish-SameOutcome ctx_err _ _ (
            ∥∥₁_map (same namespaces)
              (merge_all-perm e w node_rates (empty_result w priced unpriced))))
