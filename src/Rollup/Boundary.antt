-- ===== src/Rollup/Boundary.antt =====
-- `RollupRange` against a description by a run of the days one after the other: what is reported, and
-- where a cancelled run stops.
use Prim.Native.String.{String}
use mathlib.Core.List.{append-nil, append_assoc}
use kubernetes_cost_analyzer.Common.{
  ℕ, suc, ◌≡◌, refl, ap, sym, ◌∙◌, Bool, true, false, not, ◌||◌, subst, Option, none, some, List,
  [], ◌∷◌, ◌++◌, length, Result, ok, err, inl, inr, Option-cases, Result-cases, Bool-cases, arith,
}
use kubernetes_cost_analyzer.Common.Int.{ℤ, pos}
use kubernetes_cost_analyzer.Common.Word.{add64}
use kubernetes_cost_analyzer.Common.Maps.{Entries, insert}
use kubernetes_cost_analyzer.Rollup.Dates.{Date, before, date_string}
use kubernetes_cost_analyzer.Rollup.{
  DayResult, Store, RangeResult, RangeError, cancelled_after, cancelled_during, no_days, failed,
  with_failure, with_day, roll_days, rollup_range,
}

-- The days with what became of each.
abbrev pub Outcomes : Type 0 → Type 0
Outcomes E = List (Date × Result E DayResult)

-- A sum in int64 arithmetic.
abbrev pub sum64 : (DayResult → ℤ) → ℤ → List DayResult → ℤ
sum64 f acc [] = acc
sum64 f acc (r ∷ rs) = sum64 f (add64 acc (f r)) rs

module _ {E : Type 0} where
  abbrev pub extend : RangeResult E → Outcomes E → RangeResult E
  extend res [] = res
  extend res ((day, ok r) ∷ os) = extend (with_day r res) os
  extend res ((day, err e) ∷ os) = extend (with_failure day e res) os

  extend-cons :
      (res : RangeResult E) (day : Date) (o : Result E DayResult) (os : Outcomes E)
      → extend res ((day, o) ∷ os) ≡ extend (extend res ((day, o) ∷ [])) os
  extend-cons res day (ok r) os = refl
  extend-cons res day (err e) os = refl

  -- The days that succeeded.
  abbrev pub rolled_up : Outcomes E → List DayResult
  rolled_up [] = []
  rolled_up ((_, ok r) ∷ os) = r ∷ rolled_up os
  rolled_up ((_, err _) ∷ os) = rolled_up os

  abbrev pub all_ok : Outcomes E → Bool
  all_ok [] = true
  all_ok ((_, ok _) ∷ os) = all_ok os
  all_ok ((_, err _) ∷ os) = false

  pub record Reports (os : Outcomes E) (res : RangeResult E) : Type 0 where
    pub days_listed : res.days ≡ rolled_up os
    pub facts_summed : res.fact_rows ≡ sum64 (λ r. r.fact_rows) (pos 0) (rolled_up os)
    pub rows_summed : res.rollup_rows ≡ sum64 (λ r. r.rollup_rows) (pos 0) (rolled_up os)
    pub failures_seen : failed res ≡ not (all_ok os)

  extend-days :
      (os : Outcomes E) (res : RangeResult E) → (extend res os).days ≡ res.days ++ rolled_up os
  extend-days [] res = sym (append-nil res.days)
  extend-days ((day, ok r) ∷ os) res =
      extend-days os (with_day r res) ∙ append_assoc res.days (r ∷ []) (rolled_up os)
  extend-days ((day, err e) ∷ os) res = extend-days os (with_failure day e res)

  extend-fact_rows :
      (os : Outcomes E) (res : RangeResult E)
      → (extend res os).fact_rows ≡ sum64 (λ r. r.fact_rows) res.fact_rows (rolled_up os)
  extend-fact_rows [] res = refl
  extend-fact_rows ((day, ok r) ∷ os) res = extend-fact_rows os (with_day r res)
  extend-fact_rows ((day, err e) ∷ os) res = extend-fact_rows os (with_failure day e res)

  extend-rollup_rows :
      (os : Outcomes E) (res : RangeResult E)
      → (extend res os).rollup_rows ≡ sum64 (λ r. r.rollup_rows) res.rollup_rows (rolled_up os)
  extend-rollup_rows [] res = refl
  extend-rollup_rows ((day, ok r) ∷ os) res = extend-rollup_rows os (with_day r res)
  extend-rollup_rows ((day, err e) ∷ os) res = extend-rollup_rows os (with_failure day e res)

  -- A failure is seen, and stays in the report.
  failed-insert :
      (name : String) (e : E) (entries : Entries E) (res : RangeResult E)
      → failed (record res { failures = insert name e entries }) ≡ true
  unfolding insert
  failed-insert name e [] res = refl
  failed-insert name e (entry ∷ rest) res = ground arith

  failed-extend :
      (os : Outcomes E) (res : RangeResult E)
      → failed (extend res os) ≡ (failed res || not (all_ok os))
  failed-extend [] res = ground arith
  failed-extend ((day, ok r) ∷ os) res = failed-extend os (with_day r res)
  failed-extend ((day, err e) ∷ os) res =
      let seen = failed-insert (date_string day) e res.failures res in
      let later = failed-extend os (with_failure day e res) in ground (arith, seen, later)

  extend-Reports : (os : Outcomes E) → Reports os (extend no_days os)
  extend-Reports os = record {
    days_listed = extend-days os no_days;
    facts_summed = extend-fact_rows os no_days;
    rows_summed = extend-rollup_rows os no_days;
    failures_seen = failed-extend os no_days;
  }

module _ {S E : Type 0} (store : Store S E) where
  -- Every day in turn, whatever comes of it.
  abbrev pub runs : List Date → S → Outcomes E × S
  runs [] s = ([], s)
  runs (day ∷ days) s =
      let (outcome, s') = store.rollup_day day s in
      let (outcomes, s'') = runs days s' in ((day, outcome) ∷ outcomes, s'')

  -- Why a run stopped, with the days that are left and the database it left behind.
  abbrev pub Stop : (ℕ → Option E) → List Date → S → Option (RangeError E) → S → Type 0
  Stop ctx_err rest s none s' = (rest ≡ []) × (s' ≡ s)
  Stop ctx_err rest s (some (cancelled_after _ _ e)) s' =
      ((n : ℕ) × (ctx_err n ≡ some e)) × (s' ≡ s)
  Stop ctx_err rest s (some (cancelled_during day e)) s' =
      ((later : List Date) × (rest ≡ day ∷ later))
      × (store.rollup_day day s ≡ (err e, s'))
      × (store.is_cancellation e ≡ true)
  Stop ctx_err rest s (some _) s' = ⊥

  record Ran (ctx_err : ℕ → Option E) (days : List Date) (start : RangeResult E) (s : S)
      (out : RangeResult E × Option (RangeError E) × S) : Type 0 where
    pub done : List Date
    pub rest : List Date
    pub split : days ≡ done ++ rest
    pub reported : out.0 ≡ extend start (runs done s).0
    pub stopped : Stop ctx_err rest (runs done s).1 out.1 out.2

  -- A run of the later days, after a day that left `s'` and was entered in the report.
  later_run :
      (ctx_err : ℕ → Option E) (day : Date) (days : List Date) (start : RangeResult E) (s : S)
      (out : RangeResult E × Option (RangeError E) × S)
      → Ran ctx_err days
          (extend start ((day, (store.rollup_day day s).0) ∷ []))
          (store.rollup_day day s).1
          out
      → Ran ctx_err (day ∷ days) start s out
  later_run ctx_err day days start s out run = record {
    done = day ∷ run.done;
    rest = run.rest;
    split = ap (λ x. day ∷ x) run.split;
    reported =
        run.reported
        ∙ sym (
            extend-cons start day (store.rollup_day day s).0
              (runs run.done (store.rollup_day day s).1).0);
    stopped = run.stopped;
  }

  roll_days-Ran :
      (ctx_err : ℕ → Option E) (total i : ℕ) (days : List Date) (res : RangeResult E) (s : S)
      → Ran ctx_err days res s (roll_days store ctx_err total i days res s)
  unfolding roll_days
  roll_days-Ran ctx_err total i [] res s = record {
    done = [];
    rest = [];
    split = refl;
    reported = refl;
    stopped = (refl, refl);
  }
  roll_days-Ran ctx_err total i (day ∷ days) res s =
      let out = store.rollup_day day s in
      let step = λ (r : RangeResult E). roll_days-Ran ctx_err total (suc i) days r out.1 in
      elim (Option-cases (ctx_err i)) [
        | inr (e, gone) ↦
            rw (gone, roll_days)
              (record {
                done = [];
                rest = day ∷ days;
                split = refl;
                reported = refl;
                stopped = ((i, gone), refl);
              })
        | inl going ↦ elim (Result-cases out.0) [
          | inr (r, rolled) ↦
              rw (going, rolled, roll_days)
                (later_run ctx_err day days res s _ (rw rolled (step (with_day r res))))
          | inl (e, lost) ↦ elim (Bool-cases (store.is_cancellation e)) [
            | inl cancelled ↦
                rw (going, lost, cancelled, roll_days)
                  (record {
                    done = [];
                    rest = day ∷ days;
                    split = refl;
                    reported = refl;
                    stopped = ((days, refl), ap (λ o. (o, out.1)) lost, cancelled);
                  })
            | inr failing ↦
                rw (going, lost, failing, roll_days)
                  (later_run ctx_err day days res s _ (rw lost (step (with_failure day e res))))
          ]
        ]
      ]

  -- A run over some days: those that were done, in order and with nothing between them, what is
  -- reported of them, and why it stopped before the rest.
  pub record IsRun (ctx_err : ℕ → Option E) (days : List Date) (s : S)
      (out : RangeResult E × Option (RangeError E) × S) : Type 0 where
    pub done : List Date
    pub rest : List Date
    pub split : days ≡ done ++ rest
    pub reported : Reports (runs done s).0 out.0
    pub stopped : Stop ctx_err rest (runs done s).1 out.1 out.2

  -- A range that is not reversed and whose days can be read is rolled up day by day: the days done are
  -- a prefix of those with facts, all of them unless the run was cancelled; the report lists the days
  -- that succeeded in order, with the sums of their rows, and has a failure exactly if a day failed;
  -- and a cancelled run leaves the database of the last day that it entered.
  pub rollup_range-IsRun :
      (ctx_err : ℕ → Option E) (from to : Date) (s : S) (days : List Date)
      → before to from ≡ false
      → store.days_with_facts from to s ≡ ok days
      → IsRun ctx_err days s (rollup_range store ctx_err from to s)
  unfolding rollup_range
  rollup_range-IsRun ctx_err from to s days forward known =
      let run = roll_days-Ran ctx_err (length days) 0 days no_days s in
      rw (forward, known, rollup_range)
        (record {
          done = run.done;
          rest = run.rest;
          split = run.split;
          reported = subst (Reports (runs run.done s).0) (sym run.reported) (extend-Reports _);
          stopped = run.stopped;
        })
