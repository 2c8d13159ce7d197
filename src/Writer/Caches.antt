-- ===== src/Writer/Caches.antt =====
-- The caches of ids of cmd/collector/writer.go, and what a step that succeeds ensures.
use Prim.Native.String.{String}
use text.Mathlib.TextEquality.{eq_iff}
use kubernetes_cost_analyzer.Common.{
  ◌≡◌, refl, sym, ◌∙◌, subst, inl, inr, none, some, Result, ok, arith, Option-cases, Result-cases,
}
use kubernetes_cost_analyzer.Common.Int.{ℤ}
use kubernetes_cost_analyzer.Common.Maps.{Entries, lookup, insert, lookup-insert}
use kubernetes_cost_analyzer.Numeric.Decimal.{Decimal}
use kubernetes_cost_analyzer.Writer.{Statements, Tx, WriteError, ◌>>=◌, pure}
use kubernetes_cost_analyzer.Writer.Persist.{Writer, cached}

-- Every id of one cache is that of another.
abbrev pub Extends : Entries ℤ → Entries ℤ → Type 0
Extends ids ids' = (k : String) (id : ℤ) → lookup k ids ≡ some id → lookup k ids' ≡ some id

module _ {S E : Type 0} where
  -- What holds of every result of a step that succeeds.
  pub record Ensures {A : Type 0} (m : Tx S E A) (P : A → Type 0) : Type 0 where
    pub holds : (s : S) (a : A) → (m s).0 ≡ ok a → P a

  >>=-holds :
      {A B : Type 0} {Q : B → Type 0} (m : Tx S E A) (k : A → Tx S E B)
      → ((s : S) (a : A) → (m s).0 ≡ ok a → Ensures (k a) Q)
      → (s : S) (b : B) → ((m >>= k) s).0 ≡ ok b
      → Q b
  unfolding ◌>>=◌
  >>=-holds m k next s b h = elim (Result-cases ((m s).0)) [
    | inl (e, failed) ↦ absurd (ground arith)
    | inr (a, good) ↦ (next s a good).holds (m s).1 b (ground arith)
  ]

  pub >>=-Ensures :
      {A B : Type 0} {k : A → Tx S E B} {Q : B → Type 0} {m : Tx S E A} {P : A → Type 0}
      → Ensures m P
      → ((a : A) → P a → Ensures (k a) Q)
      → Ensures (m >>= k) Q
  >>=-Ensures {k = k} {m = m} first next = record {
    holds = >>=-holds m k (λ s a good. next a (first.holds s a good));
  }

  pub pure-Ensures : {A : Type 0} {P : A → Type 0} (a : A) → P a → Ensures {A = A} (pure a) P
  pure-Ensures {P = P} a p = record { holds = λ s b h. subst P (cc h) p }

  -- What holds of the outcome and the database of a step that succeeds.
  pub record Yields {A : Type 0} (m : Tx S E A) (Q : Result (WriteError E) A × S → Type 0)
      : Type 0 where
    pub holds : (s : S) (a : A) → (m s).0 ≡ ok a → Q (m s)

  then_yields :
      {A B : Type 0} {Q : Result (WriteError E) B × S → Type 0} (m : Tx S E A) (k : A → Tx S E B)
      → ((s : S) (a : A) → (m s).0 ≡ ok a → Yields (k a) Q)
      → (s : S) (b : B) → ((m >>= k) s).0 ≡ ok b
      → Q ((m >>= k) s)
  unfolding ◌>>=◌
  then_yields {Q = Q} m k next s b h = elim (Result-cases ((m s).0)) [
    | inl (e, failed) ↦ absurd (ground arith)
    | inr (a, good) ↦
        let same : (m >>= k) s ≡ k a (m s).1 = ground arith in
        subst Q (sym same) ((next s a good).holds (m s).1 b (ground arith))
  ]

  pub >>=-Yields :
      {A B : Type 0} {k : A → Tx S E B} {Q : Result (WriteError E) B × S → Type 0} {m : Tx S E A}
      {P : A → Type 0}
      → Ensures m P
      → ((a : A) → P a → Yields (k a) Q)
      → Yields (m >>= k) Q
  >>=-Yields {k = k} {m = m} first next = record {
    holds = then_yields m k (λ s a good. next a (first.holds s a good));
  }

  -- Nothing is asked of a step.
  pub anything : {A : Type 0} (m : Tx S E A) → Ensures m (λ _. Unit {0})
  anything m = record { holds = λ s a h. tt }

insert-Extends :
    (name : String) (id : ℤ) (ids : Entries ℤ)
    → lookup name ids ≡ none
    → Extends ids (insert name id ids)
insert-Extends name id ids absent k j found =
    ground (arith, lookup-insert name k id ids, eq_iff name k)

module _ {D S E : Type 0} ⦃d : Decimal D⦄ (db : Statements D S E) (w : Writer E) where
  cached-Extends :
      (name : String) (ids : Entries ℤ) (upsert : Tx S E ℤ) (s : S) {r : ℤ × Entries ℤ}
      → (cached db w name ids upsert s).0 ≡ ok r
      → Extends ids r.1 × (lookup name r.1 ≡ some r.0)
  unfolding cached ◌>>=◌
  cached-Extends name ids upsert s {r} h = elim (Option-cases (lookup name ids)) [
    | inl absent ↦ elim (Result-cases ((upsert s).0)) [
      | inl (e, failed) ↦ absurd (ground arith)
      | inr (id, made) ↦
          let same : (id, insert name id ids) ≡ r = ground arith in
          subst (λ x. Extends ids x.1 × (lookup name x.1 ≡ some x.0)) same
            (
              insert-Extends name id ids absent,
              lookup-insert name name id ids ∙ rw ((eq_iff name name).1 refl) refl,
            )
    ]
    | inr (id, found) ↦
        let same : (id, ids) ≡ r = ground arith in
        subst (λ x. Extends ids x.1 × (lookup name x.1 ≡ some x.0)) same (λ k j e. e, found)
  ]

  pub cached-Ensures :
      (name : String) (ids : Entries ℤ) (upsert : Tx S E ℤ)
      → Ensures (cached db w name ids upsert) (λ r. Extends ids r.1 × (lookup name r.1 ≡ some r.0))
  cached-Ensures name ids upsert = record { holds = λ s r h. cached-Extends name ids upsert s h }
