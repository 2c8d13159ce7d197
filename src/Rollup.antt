-- ===== src/Rollup.antt =====
-- internal/rollup: the daily aggregation of the fact rows and the monthly statements. Here the store that
-- the job needs, which keeps its own state, and the job; the dates are in Dates.
pub mod Dates
pub mod Eras
pub mod Calendar
pub mod Ranges
pub mod Days
pub mod Boundary
pub mod Command
pub mod Exit
mod Tests
use Prim.Native.String.{String}
use kubernetes_cost_analyzer.Common.{
  ℕ, suc, Bool, ◌||◌, Option, none, some, List, [], ◌∷◌, ◌++◌, length, Result, ok, err,
  if◌then◌else◌,
}
use kubernetes_cost_analyzer.Common.Int.{ℤ, pos}
use kubernetes_cost_analyzer.Common.Word.{add64}
use kubernetes_cost_analyzer.Common.Maps.{Entries, insert}
use kubernetes_cost_analyzer.Clock.{Time}
use kubernetes_cost_analyzer.Rollup.Dates.{Date, Month, before, date_string}

pub record DayResult : Type 0 where
  pub day : Date
  pub fact_rows : ℤ
  pub rollup_rows : ℤ
  pub deleted : ℤ

pub record GenerateResult : Type 0 where
  pub month : Month
  pub written : ℤ
  pub skipped_finalised : ℤ

-- The interface `Store`: each call gives its outcome and the state of the database afterwards.
-- `is_cancellation` is `errors.Is` with context.Canceled or context.DeadlineExceeded.
pub record Store (S E : Type 0) : Type 0 where
  pub rollup_day : Date → S → Result E DayResult × S
  pub days_with_facts : Date → Date → S → Result E (List Date)
  pub generate_month : Month → S → Result E GenerateResult × S
  pub finalise_month : Month → Time → S → Result E ℤ × S
  pub is_cancellation : E → Bool

pub record RangeResult (E : Type 0) : Type 0 where
  pub days : List DayResult
  pub fact_rows : ℤ
  pub rollup_rows : ℤ
  pub failures : Entries E

pub data RangeError (E : Type 0) : Type 0 where
  reversed : Date → Date → RangeError E
  unknown_days : E → RangeError E
  cancelled_after : ℕ → ℕ → E → RangeError E
  cancelled_during : Date → E → RangeError E

module _ {E : Type 0} where
  abbrev pub no_days : RangeResult E
  no_days = record { days = []; fact_rows = pos 0; rollup_rows = pos 0; failures = [] }

  -- `Failed`.
  abbrev pub failed : RangeResult E → Bool
  failed res = elim res.failures [ [] ↦ Bool.false | _ ∷ _ ↦ Bool.true ]

  abbrev pub with_failure : Date → E → RangeResult E → RangeResult E
  with_failure day e res = record res { failures = insert (date_string day) e res.failures }

  abbrev pub with_day : DayResult → RangeResult E → RangeResult E
  with_day r res = record res {
    days = res.days ++ r ∷ [];
    fact_rows = add64 res.fact_rows r.fact_rows;
    rollup_rows = add64 res.rollup_rows r.rollup_rows;
  }

module _ {S E : Type 0} (store : Store S E) where
  -- The loop over the days. `ctx_err i` is what the context says before the i-th of them, and `total`
  -- is their number. The result, the error and the database afterwards.
  unfoldable pub roll_days :
      (ℕ → Option E)
      → ℕ
      → ℕ
      → List Date
      → RangeResult E
      → S
      → RangeResult E × Option (RangeError E) × S
  roll_days ctx_err total i [] res s = (res, none, s)
  roll_days ctx_err total i (day ∷ days) res s =
      let (outcome, s') = store.rollup_day day s in
      let next = λ (r : RangeResult E). roll_days ctx_err total (suc i) days r s' in
      elim (ctx_err i) [
        | some e ↦ (res, some (cancelled_after (length res.days) total e), s)
        | none ↦ elim outcome [
          | err e ↦
              if store.is_cancellation e
              then (res, some (cancelled_during day e), s')
              else next (with_failure day e res)
          | ok r ↦ next (with_day r res)
        ]
      ]

  unfoldable pub rollup_range :
      (ℕ → Option E) → Date → Date → S → RangeResult E × Option (RangeError E) × S
  rollup_range ctx_err from to s =
      if before to from
      then (no_days, some (reversed from to), s)
      else elim (store.days_with_facts from to s) [
        | err e ↦ (no_days, some (unknown_days e), s)
        | ok days ↦ roll_days ctx_err (length days) 0 days no_days s
      ]

pub record MonthResult : Type 0 where
  pub month : Month
  pub generated : Option GenerateResult
  pub finalised : ℤ

pub data MonthError (E : Type 0) : Type 0 where
  generating : Month → E → MonthError E
  finalising : Month → E → MonthError E

module _ {S E : Type 0} (store : Store S E) where
  -- `now` is what the job's clock shows when it closes the month.
  unfoldable pub run_month : Time → Month → Bool → S → MonthResult × Option (MonthError E) × S
  run_month now m finalise s =
      let res : MonthResult = record { month = m; generated = none; finalised = pos 0 } in
      let (generated, s') = store.generate_month m s in
      elim generated [
        | err e ↦ (res, some (generating m e), s')
        | ok gen ↦
            let written = record res { generated = some gen } in
            let (closed, s'') = store.finalise_month m now s' in
            if finalise
            then elim closed [
              | err e ↦ (written, some (finalising m e), s'')
              | ok n ↦ (record written { finalised = n }, none, s'')
            ]
            else (written, none, s')
      ]
