-- ===== src/Rollup/Exit.antt =====
-- What an exit code of zero says: nothing was left out, or another run holds the lock.
use Prim.Native.String.{String}
use text.Mathlib.Text.{◌==◌ as str_eq}
use kubernetes_cost_analyzer.Common.{ℕ, ◌≡◌, ◌⊎◌, true, false, Option, none, List, ok}
use kubernetes_cost_analyzer.Clock.{Time}
use kubernetes_cost_analyzer.Rollup.Dates.{Date, Month, before}
use kubernetes_cost_analyzer.Rollup.Ranges.{ParseLayout, parse_month, resolve_range}
use kubernetes_cost_analyzer.Rollup.{Store, rollup_range, run_month}
use kubernetes_cost_analyzer.Rollup.Boundary.{runs, all_ok}
use kubernetes_cost_analyzer.Rollup.Command.{LockResult, lock_taken, lock_held, JobOptions}

module _ {S E : Type 0} (parse : ParseLayout) (store : Store S E) where
  -- The statements of the month that is asked for, if any, were written, and closed if asked.
  abbrev pub MonthWritten : JobOptions → Time → S → Type 0
  MonthWritten o later s =
      (o.flags.month ≡ "")
      ⊎ ((m : Month) × (parse_month parse o.flags.month ≡ ok m)
          × ((run_month store later m o.close s).1 ≡ none))

  -- All the work that the options ask for, from the state in which it starts.
  pub record IsWhole (ctx_err : ℕ → Option E) (o : JobOptions) (now later : Time) (s : S)
      : Type 0 where
    pub from : Date
    pub to : Date
    pub resolved : resolve_range parse o.flags now ≡ ok (from, to)
    pub forward : before to from ≡ false
    pub days : List Date
    pub known : store.days_with_facts from to s ≡ ok days
    pub uninterrupted : (rollup_range store ctx_err from to s).1 ≡ none
    pub none_failed : all_ok (runs store days s).0 ≡ true
    pub month_written : MonthWritten o later (rollup_range store ctx_err from to s).2

  -- What no error says of the lock and the work.
  abbrev pub IsDone : LockResult E → (ℕ → Option E) → JobOptions → (now later : Time) → S → Type 0
  IsDone lock ctx_err o now later s =
      (lock ≡ lock_held) ⊎ ((lock ≡ lock_taken) × IsWhole ctx_err o now later s)
