-- ===== src/Writer/Atomicity.antt =====
-- What a cycle leaves in the database.
use Prim.Native.String.{String}
use kubernetes_cost_analyzer.Common.{
  ◌≡◌, ◌⊎◌, inl, inr, refl, sym, ap, ◌∙◌, subst, Option, none, some, List, [], ◌∷◌, All, Result, ok,
  err, arith, Option-cases, Result-cases, ℕ, suc,
}
use kubernetes_cost_analyzer.Common.Int.{ℤ}
use kubernetes_cost_analyzer.Numeric.Decimal.{Decimal}
use kubernetes_cost_analyzer.Domain.Allocation.{ContainerAllocation, AllocationError, validate}
use kubernetes_cost_analyzer.Writer.{
  Statements, first_invalid, insert_batch, in_tx, committing, beginning, WriteError,
}
use kubernetes_cost_analyzer.Writer.Persist.{Writer, persist_all, write}
use kubernetes_cost_analyzer.Writer.Caches.{Yields, >>=-Yields, anything}
use kubernetes_cost_analyzer.Writer.Identity.{id_in, identified, resolve_rows-Resolves}

abbrev pub AreValid : {D : Type 0} ⦃d : Decimal D⦄ → List (ContainerAllocation D) → Type 0
AreValid rows = All (λ a. validate a ≡ []) rows

List-cases : {A : Type 0} (xs : List A) → (xs ≡ []) ⊎ ((x : A) × (rest : List A) × (xs ≡ x ∷ rest))
List-cases [] = inl refl
List-cases (x ∷ rest) = inr (x, rest, refl)

module _ {D S E : Type 0} ⦃d : Decimal D⦄ (db : Statements D S E) where
  validate-cases :
      (a : ContainerAllocation D)
      → (validate a ≡ [])
        ⊎ ((e : AllocationError) × (es : List AllocationError) × (validate a ≡ e ∷ es))
  validate-cases a = List-cases (validate a)

  first_invalid-AreValid :
      (i : ℕ) (rows : List (ContainerAllocation D)) → first_invalid i rows ≡ none → AreValid rows
  unfolding first_invalid
  first_invalid-AreValid i [] h = tt
  first_invalid-AreValid i (a ∷ rest) h = elim (validate-cases a) [
    | inl clean ↦ (clean, first_invalid-AreValid (suc i) rest (ground arith))
    | inr (e, es, found) ↦ absurd (ground arith)
  ]

  insert_batch-AreValid :
      (rows : List (ContainerAllocation D)) (s : S)
      → (insert_batch db rows s).0 ≡ ok tt
      → AreValid rows
  unfolding insert_batch
  insert_batch-AreValid [] s h = tt
  insert_batch-AreValid (a ∷ rest) s h = elim (Option-cases (first_invalid 0 (a ∷ rest))) [
    | inl clean ↦ first_invalid-AreValid 0 (a ∷ rest) clean
    | inr (bad, found) ↦ absurd (ground arith)
  ]

  -- Where the batch is accepted at last, with what it was sent.
  pub record Sent (rows : List (ContainerAllocation D)) (out : Result (WriteError E) (Unit {0}) × S)
      : Type 0 where
    pub ids : String → ℤ
    pub before : S
    pub sent : out ≡ insert_batch db (identified ids rows) before
    pub good : AreValid (identified ids rows)

  batch-Sent :
      (ids : String → ℤ) (rows sent : List (ContainerAllocation D))
      → sent ≡ identified ids rows
      → Yields (insert_batch db sent) (Sent rows)
  batch-Sent ids rows sent same = record {
    holds = λ s u h. record {
      ids = ids;
      before = s;
      sent = ap (λ x. insert_batch db x s) same;
      good =
          insert_batch-AreValid (identified ids rows) s
            (sym (ap (λ x. (insert_batch db x s).0) same) ∙ h);
    };
  }

  module _ (w : Writer E) where
    persist_all-Sent :
        (rows : List (ContainerAllocation D)) → Yields (persist_all db w rows) (Sent rows)
    unfolding persist_all
    persist_all-Sent rows = >>=-Yields (anything _) λ cluster_id _.
        >>=-Yields (anything _) λ nodes _. >>=-Yields (anything _) λ node_ids _.
          >>=-Yields (anything _) λ namespaces _. >>=-Yields (anything _) λ namespace_ids _.
            >>=-Yields (resolve_rows-Resolves db w cluster_id rows _)
              λ resolved (_, same). batch-Sent (id_in resolved.1.pod_ids) rows resolved.0 same

    -- The cycle is in the database: the rows that were sent, all of them valid, are the cycle's rows in
    -- their order with nothing but the pods' ids set, one id for each namespace and pod name.
    pub record IsWritten (rows : List (ContainerAllocation D)) (s s' : S) : Type 0 where
      pub ids : String → ℤ
      pub before : S
      pub after : S
      pub sent : insert_batch db (identified ids rows) before ≡ (ok tt, after)
      pub good : AreValid (identified ids rows)
      pub committed : db.commit s after ≡ (none, s')

    -- By how a call ended.
    abbrev pub Outcome :
        List (ContainerAllocation D) → S → Result (WriteError E) (Unit {0}) × S → Type 0
    Outcome rows s (ok _, s') = ((rows ≡ []) × (s' ≡ s)) ⊎ IsWritten rows s s'
    Outcome rows s (err (committing _), s') = Unit {0}
    Outcome rows s (err _, s') = s' ≡ s

    rolled_back :
        (rows : List (ContainerAllocation D)) (s : S) (e : WriteError E) → Outcome rows s (err e, s)
    rolled_back rows s (committing e) = tt
    rolled_back rows s e = refl

    written :
        (rows : List (ContainerAllocation D)) (s s' : S)
        → (persist_all db w rows s).0 ≡ ok tt
        → db.commit s (persist_all db w rows s).1 ≡ (none, s')
        → IsWritten rows s s'
    written rows s s' done committed =
        let last = (persist_all-Sent rows).holds s tt done in
        record {
          ids = last.ids;
          before = last.before;
          after = (persist_all db w rows s).1;
          sent = sym last.sent ∙ (λ i. (done i, (persist_all db w rows s).1));
          good = last.good;
          committed = committed;
        }

    committed-Outcome :
        (rows : List (ContainerAllocation D)) (s : S) (o : Option E × S)
        → (persist_all db w rows s).0 ≡ ok tt
        → db.commit s (persist_all db w rows s).1 ≡ o
        → in_tx db (persist_all db w rows) s
          ≡ elim (o.0) [ some e ↦ (err (committing e), o.1) | none ↦ (ok tt, o.1) ]
        → Outcome rows s (in_tx db (persist_all db w rows) s)
    committed-Outcome rows s (some e, s') done commit same = subst (Outcome rows s) (sym same) tt
    committed-Outcome rows s (none, s') done commit same =
        subst (Outcome rows s) (sym same) (inr (written rows s s' done commit))

    in_tx-Outcome :
        (rows : List (ContainerAllocation D)) (s : S)
        → Outcome rows s (in_tx db (persist_all db w rows) s)
    in_tx-Outcome rows s = elim (Option-cases (db.begin s)) [
      | inr (e, refused) ↦
          let same : in_tx db (persist_all db w rows) s ≡ (err (beginning e), s) =
            unfold in_tx in ground arith in
          subst (Outcome rows s) (sym same) refl
      | inl begun ↦ elim (Result-cases ((persist_all db w rows s).0)) [
        | inl (e, failed) ↦
            let same : in_tx db (persist_all db w rows) s ≡ (err e, s) =
              unfold in_tx in ground arith in
            subst (Outcome rows s) (sym same) (rolled_back rows s e)
        | inr (u, done) ↦
            committed-Outcome rows s (db.commit s (persist_all db w rows s).1) done refl
              (unfold in_tx in ground arith)
      ]
    ]

    -- A cycle is recorded as a whole or not at all. If `write` succeeds, there was nothing to write and
    -- the database is as before, or the transaction committed with every row of the cycle sent, all of
    -- them valid, in order and changed in nothing but the pod's id, which is one for each namespace and
    -- pod name. If it fails, the database is as before, unless it was the commit that failed.
    pub write-Outcome :
        (rows : List (ContainerAllocation D)) (s : S) → Outcome rows s (write db w rows s)
    unfolding write
    write-Outcome [] s = inl (refl, refl)
    write-Outcome (a ∷ rest) s = in_tx-Outcome (a ∷ rest) s
