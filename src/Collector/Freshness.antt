-- ===== src/Collector/Freshness.antt =====
-- The loop: which cycles it runs, what ends it, and what the timestamp of the last success promises.
use kubernetes_cost_analyzer.Common.{
  ◌≡◌, ◌⊎◌, inl, inr, refl, ◌∙◌, Bool, true, false, Option, none, some, List, [], ◌∷◌, ok,
  Bool-cases,
}
use kubernetes_cost_analyzer.Numeric.Decimal.{Decimal}
use kubernetes_cost_analyzer.Clock.{Duration}
use kubernetes_cost_analyzer.Common.Int.{ℤ}
use kubernetes_cost_analyzer.Costing.Collect.{Collected}
use kubernetes_cost_analyzer.Writer.{Statements}
use kubernetes_cost_analyzer.Collector.{
  Metrics, Causes, Cycle, Event, tick, stop, unix_seconds, observe_cycle, run_cycle, loop_from,
  collect_loop,
}
use kubernetes_cost_analyzer.Collector.Cycles.{
  collected, AreWritten, Ends, interrupted, not_collected, not_written, complete, run_cycle-Ends,
}

module _ {D E : Type 0} where
  -- The cycles of the events before the first that stops the loop.
  abbrev pub ticks : List (Event D E) → List (Cycle D E)
  ticks [] = []
  ticks (tick c ∷ events) = c ∷ ticks events
  ticks (stop e ∷ events) = []

  abbrev pub due : Bool → Cycle D E → List (Event D E) → List (Cycle D E)
  due true first events = first ∷ ticks events
  due false first events = []

  pub data Among (c : Cycle D E) : List (Cycle D E) → Type 0 where
    here : {cs : List (Cycle D E)} → Among c (c ∷ cs)
    there : {c' : Cycle D E} {cs : List (Cycle D E)} → Among c cs → Among c (c' ∷ cs)

module _ {D S E : Type 0} ⦃d : Decimal D⦄ (causes : Causes E) (db : Statements D S E)
    (interval : Duration) where
  -- Cycles one after the other, each of which ends in one of its ways.
  pub data Ran : List (Cycle D E) → S → Metrics → S → Metrics → Type 0 where
    idle : (s : S) (m : Metrics) → Ran [] s m s m
    next :
        {c : Cycle D E} {cs : List (Cycle D E)} {s t u : S} {m n o : Metrics}
        → Ends causes db interval c s m t n
        → Ran cs t n u o
        → Ran (c ∷ cs) s m u o

  -- Everything of a cycle's window was collected and written.
  pub record IsClean (c : Cycle D E) (before after : S) : Type 0 where
    pub result : Collected D E
    pub collection : collected causes db interval c ≡ ok result
    pub no_errors : result.namespace_errors ≡ []
    pub in_database : AreWritten causes db interval c result before after

  -- The timestamp is what it was, or that of a clean cycle of these.
  abbrev pub IsTruthful : List (Cycle D E) → Option ℤ → Option ℤ → Type 0
  IsTruthful cs before after =
      (after ≡ before)
      ⊎ ((c : Cycle D E) × (s : S) × (s' : S) × Among c cs
          × (after ≡ some (unix_seconds c.finished))
          × IsClean c s s')

  List-cases :
      {A : Type 0} (xs : List A) → (xs ≡ []) ⊎ ((x : A) × (rest : List A) × (xs ≡ x ∷ rest))
  List-cases [] = inl refl
  List-cases (x ∷ rest) = inr (x, rest, refl)

  Ends-IsTruthful :
      {c : Cycle D E} {s s' : S} {m m' : Metrics}
      → Ends causes db interval c s m s' m'
      → (m'.last_success ≡ m.last_success)
        ⊎ ((m'.last_success ≡ some (unix_seconds c.finished)) × IsClean c s s')
  unfolding observe_cycle
  Ends-IsTruthful (interrupted e _ _) = inl refl
  Ends-IsTruthful (not_collected e _ _) = inl refl
  Ends-IsTruthful (not_written result e s' _ _ _) = inl refl
  Ends-IsTruthful (complete result s' done _ written) = elim (List-cases result.namespace_errors) [
    | inl clean ↦ inr (
      rw clean refl,
      record { result = result; collection = done; no_errors = clean; in_database = written },
    )
    | inr (e, es, partial) ↦ inl (rw partial refl)
  ]

  Ran-IsTruthful :
      {cs : List (Cycle D E)} {s s' : S} {m m' : Metrics}
      → Ran cs s m s' m'
      → IsTruthful cs m.last_success m'.last_success
  Ran-IsTruthful (idle s m) = inl refl
  Ran-IsTruthful (next {c = c} {s = s} {t = t} e r) = elim (Ran-IsTruthful r) [
    | inr (c', u, u', among, at, clean) ↦ inr (c', u, u', there among, at, clean)
    | inl same ↦ elim (Ends-IsTruthful e) [
      | inl still ↦ inl (same ∙ still)
      | inr (at, clean) ↦ inr (c, s, t, here, same ∙ at, clean)
    ]
  ]

  loop_from-Ran :
      (events : List (Event D E)) (w : S × Metrics)
      → let out = loop_from causes db interval events w in Ran (ticks events) w.0 w.1 out.1 out.2
  unfolding loop_from
  loop_from-Ran [] w = idle w.0 w.1
  loop_from-Ran (tick c ∷ events) w =
      next (run_cycle-Ends causes db interval c w.0 w.1)
        (loop_from-Ran events (run_cycle causes db interval c w))
  loop_from-Ran (stop e ∷ events) w = idle w.0 w.1

  -- How the loop ended: not yet, or at the first stop, whose error is kept unless it is a cancellation.
  abbrev pub IsEnd : List (Event D E) → Option (Option E) → Type 0
  IsEnd [] ended = ended ≡ none
  IsEnd (tick c ∷ events) ended = IsEnd events ended
  IsEnd (stop e ∷ events) ended =
      ((causes.is_canceled e ≡ true) × (ended ≡ some none))
      ⊎ ((causes.is_canceled e ≡ false) × (ended ≡ some (some e)))

  loop_from-IsEnd :
      (events : List (Event D E)) (w : S × Metrics)
      → IsEnd events (loop_from causes db interval events w).0
  unfolding loop_from
  loop_from-IsEnd [] w = refl
  loop_from-IsEnd (tick c ∷ events) w = loop_from-IsEnd events (run_cycle causes db interval c w)
  loop_from-IsEnd (stop e ∷ events) w = elim (Bool-cases (causes.is_canceled e)) [
    | inl shut ↦ inl (shut, rw shut refl)
    | inr broken ↦ inr (broken, rw broken refl)
  ]

  -- Once the caches are warm, the loop runs a cycle at once and one for each tick until the context ends,
  -- however the cycles before ended, and it ends with an error only if the context's is not a cancellation;
  -- without the caches it runs none. The timestamp of the last success is what it was before, or the Unix
  -- time of the end of one of these cycles that collected without an error of any namespace and has all its rows in the
  -- database.
  pub collect_loop-Ran :
      (synced : Bool) (first : Cycle D E) (events : List (Event D E)) (s : S) (m : Metrics)
      → let out = collect_loop causes db interval synced first events (s, m) in
        Ran (due synced first events) s m out.1 out.2
        × IsTruthful (due synced first events) m.last_success out.2.last_success
        × ((synced ≡ false) ⊎ IsEnd events out.0)
  unfolding collect_loop
  collect_loop-Ran true first events s m =
      let ran =
        next (run_cycle-Ends causes db interval first s m)
          (loop_from-Ran events (run_cycle causes db interval first (s, m))) in
      (
        ran,
        Ran-IsTruthful ran,
        inr (loop_from-IsEnd events (run_cycle causes db interval first (s, m))),
      )
  collect_loop-Ran false first events s m = (idle s m, inl refl, inl refl)
