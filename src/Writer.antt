-- ===== src/Writer.antt =====
-- cmd/collector/writer.go: a cycle's rows are persisted in one transaction, behind the dimension rows
-- that they refer to. The database keeps its own state; here its statements, and the transaction of
-- internal/store/postgres/querier.go with the batch of allocation_repo.go.
pub mod Persist
pub mod Caches
pub mod Identity
pub mod Atomicity
mod Tests
use Prim.Native.String.{String}
use kubernetes_cost_analyzer.Common.{
  ℕ, suc, Option, none, some, List, [], ◌∷◌, Result, ok, err, if◌then◌else◌,
}
use kubernetes_cost_analyzer.Common.Int.{ℤ}
use kubernetes_cost_analyzer.Numeric.Decimal.{Decimal}
use kubernetes_cost_analyzer.Domain.{Node, Namespace, Pod, Workload}
use kubernetes_cost_analyzer.Domain.Allocation.{ContainerAllocation, AllocationError, validate}

pub record ClusterAttributes : Type 0 where
  pub name : String
  pub provider : String
  pub region : String
  pub account : String
  pub currency : String

pub record UpsertPodParams : Type 0 where
  pub cluster_id : ℤ
  pub pod : Pod
  pub namespace_id : ℤ
  pub workload_id : Option ℤ
  pub node_id : Option ℤ

-- The statements, each with its outcome and the database afterwards; `begin` and `commit` are those of a
-- transaction, the latter on the database before it and within it.
pub record Statements (D S E : Type 0) : Type 0 where
  pub upsert_cluster : ClusterAttributes → S → Result E ℤ × S
  pub upsert_node : ℤ → Node → S → Result E ℤ × S
  pub upsert_namespace : ℤ → Namespace → S → Result E ℤ × S
  pub upsert_workload : ℤ → ℤ → Workload → S → Result E ℤ × S
  pub upsert_pod : UpsertPodParams → S → Result E ℤ × S
  pub send_batch : List (ContainerAllocation D) → S → Result E (Unit {0}) × S
  pub begin : S → Option E
  pub commit : S → S → Option E × S

pub data WriteError (E : Type 0) : Type 0 where
  beginning : E → WriteError E
  committing : E → WriteError E
  upserting_cluster : E → WriteError E
  listing_nodes : E → WriteError E
  upserting_node : String → E → WriteError E
  listing_namespaces : E → WriteError E
  upserting_namespace : String → E → WriteError E
  vanished_namespace : String → E → WriteError E
  vanished_node : String → E → WriteError E
  upserting_workload : String → E → WriteError E
  upserting_pod : String → E → WriteError E
  invalid_allocation : ℕ → List AllocationError → WriteError E
  inserting : E → WriteError E

-- What runs within the transaction.
abbrev pub Tx : Type 0 → Type 0 → Type 0 → Type 0
Tx S E A = S → Result (WriteError E) A × S

module _ {S E : Type 0} where
  infixl 5 ◌>>=◌
  unfoldable pub ◌>>=◌ : {A B : Type 0} → Tx S E A → (A → Tx S E B) → Tx S E B
  ◌>>=◌ m k s = elim ((m s).0) [ ok a ↦ k a (m s).1 | err e ↦ (err e, (m s).1) ]

  abbrev pub pure : {A : Type 0} → A → Tx S E A
  pure a s = (ok a, s)

  abbrev pub fail : {A : Type 0} → WriteError E → Tx S E A
  fail e s = (err e, s)

  -- A statement, whose error is wrapped.
  abbrev pub wrapped : {A : Type 0} → (E → WriteError E) → (S → Result E A × S) → Tx S E A
  wrapped wrap m s = elim ((m s).0) [ ok a ↦ (ok a, (m s).1) | err e ↦ (err (wrap e), (m s).1) ]

-- The first row that is not valid, by its index.
unfoldable pub first_invalid :
    {D : Type 0} ⦃d : Decimal D⦄
    → ℕ
    → List (ContainerAllocation D)
    → Option (ℕ × List AllocationError)
first_invalid i [] = none
first_invalid i (a ∷ rest) = elim (validate a) [
  | [] ↦ first_invalid (suc i) rest
  | e ∷ es ↦ some (i, e ∷ es)
]

module _ {D S E : Type 0} ⦃d : Decimal D⦄ (db : Statements D S E) where
  -- `InsertBatch`: every row is validated before anything is sent.
  unfoldable pub insert_batch : List (ContainerAllocation D) → Tx S E (Unit {0})
  insert_batch [] = pure tt
  insert_batch (a ∷ rest) = elim (first_invalid 0 (a ∷ rest)) [
    | some (i, es) ↦ fail (invalid_allocation i es)
    | none ↦ wrapped inserting (db.send_batch (a ∷ rest))
  ]

  -- `InTx`: an error rolls back whatever was done.
  unfoldable pub in_tx : Tx S E (Unit {0}) → Tx S E (Unit {0})
  in_tx body s = elim (db.begin s) [
    | some e ↦ (err (beginning e), s)
    | none ↦ elim ((body s).0) [
      | err e ↦ (err e, s)
      | ok _ ↦ elim ((db.commit s (body s).1).0) [
        | some e ↦ (err (committing e), (db.commit s (body s).1).1)
        | none ↦ (ok tt, (db.commit s (body s).1).1)
      ]
    ]
  ]
