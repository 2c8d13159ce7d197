-- ===== src/Writer/Identity.antt =====
-- Which pod each row is given by the loop of `write`.
use Prim.Native.String.{String}
use kubernetes_cost_analyzer.Common.{◌≡◌, refl, none, some, List, [], ◌∷◌, arith}
use kubernetes_cost_analyzer.Common.Int.{ℤ, pos}
use kubernetes_cost_analyzer.Common.Maps.{Entries, lookup}
use kubernetes_cost_analyzer.Numeric.Decimal.{Decimal}
use kubernetes_cost_analyzer.Domain.Allocation.{ContainerAllocation}
use kubernetes_cost_analyzer.Writer.{Statements}
use kubernetes_cost_analyzer.Writer.Persist.{
  Writer, Caches, pod_key, namespace_id, node_id, workload_id, resolve_row, resolve_rows,
}
use kubernetes_cost_analyzer.Writer.Caches.{
  Extends, Ensures, >>=-Ensures, pure-Ensures, cached-Ensures, anything,
}

-- The id of a key that is known.
abbrev pub id_in : Entries ℤ → String → ℤ
id_in ids k = elim (lookup k ids) [ none ↦ pos 0 | some id ↦ id ]

-- The rows, each with the id of its pod.
abbrev pub identified :
    {D : Type 0} → (String → ℤ) → List (ContainerAllocation D) → List (ContainerAllocation D)
identified ids [] = []
identified ids (a ∷ rest) = record a { pod_id = ids (pod_key a) } ∷ identified ids rest

module _ {D S E : Type 0} ⦃d : Decimal D⦄ (db : Statements D S E) (w : Writer E) where
  -- A pod's id is remembered under its key, and nothing that was remembered changes.
  abbrev Remembers : ContainerAllocation D → Caches → ℤ × Caches → Type 0
  Remembers a c r = Extends c.pod_ids r.1.pod_ids × (lookup (pod_key a) r.1.pod_ids ≡ some r.0)

  resolve_row-Remembers :
      (cluster_id : ℤ) (a : ContainerAllocation D) (c : Caches)
      → Ensures (resolve_row db w cluster_id a c) (Remembers a c)
  unfolding resolve_row
  resolve_row-Remembers cluster_id a c =
      >>=-Ensures (anything (namespace_id db w cluster_id a c.namespace_ids)) λ ns _.
        >>=-Ensures (anything (node_id db w cluster_id a c.node_ids)) λ node _.
          >>=-Ensures (anything (workload_id db w cluster_id ns.0 a c.workload_ids)) λ workload _.
            >>=-Ensures (cached-Ensures db w (pod_key a) c.pod_ids _) λ pod p. pure-Ensures _ p

  -- The ids that a row is given are those of the caches in the end.
  abbrev Resolves :
      List (ContainerAllocation D) → Caches → List (ContainerAllocation D) × Caches → Type 0
  Resolves rows c r = Extends c.pod_ids r.1.pod_ids × (r.0 ≡ identified (id_in r.1.pod_ids) rows)

  one_more :
      (a : ContainerAllocation D) (rest : List (ContainerAllocation D)) (c : Caches)
      (one : ℤ × Caches) (more : List (ContainerAllocation D) × Caches)
      → Remembers a c one
      → Resolves rest one.1 more
      → Resolves (a ∷ rest) c (record a { pod_id = one.0 } ∷ more.0, more.1)
  one_more a rest c one more (grown, known) (later, same) =
      let given : one.0 ≡ id_in more.1.pod_ids (pod_key a) =
        ground (arith, later (pod_key a) one.0 known) in
      (λ k id h. later k id (grown k id h), λ i. record a { pod_id = given i } ∷ same i)

  pub resolve_rows-Resolves :
      (cluster_id : ℤ) (rows : List (ContainerAllocation D)) (c : Caches)
      → Ensures (resolve_rows db w cluster_id rows c) (Resolves rows c)
  unfolding resolve_rows
  resolve_rows-Resolves cluster_id [] c = pure-Ensures _ (λ k id h. h, refl)
  resolve_rows-Resolves cluster_id (a ∷ rest) c =
      >>=-Ensures (resolve_row-Remembers cluster_id a c) λ one known.
        >>=-Ensures (resolve_rows-Resolves cluster_id rest one.1)
          λ more resolved. pure-Ensures _ (one_more a rest c one more known resolved)
