-- ===== src/Rollup/Command.antt =====
-- cmd/rollup/main.go: `run`, which does the work of the command under the lock, and what it returns. The
-- configuration, the pool, the ping and the lock are given by how they come out, the three readings of the
-- clock as instants; -version, which ends the process, is left out.
use Prim.Native.String.{String}
use text.Mathlib.Text.{◌==◌ as str_eq}
use kubernetes_cost_analyzer.Common.{
  ℕ, ◌+◌, Bool, true, Option, none, some, length, ok, err, if◌then◌else◌,
}
use kubernetes_cost_analyzer.Clock.{Time}
use kubernetes_cost_analyzer.Rollup.Ranges.{
  Flags, FlagError, ParseLayout, month_of, previous, parse_month, resolve_range,
}
use kubernetes_cost_analyzer.Rollup.{
  Store, RangeResult, RangeError, failed, rollup_range, MonthError, run_month,
}

pub data JobError (E : Type 0) : Type 0 where
  config_failed pool_failed unreachable lock_failed : E → JobError E
  flags_failed : FlagError → JobError E
  range_failed : RangeError E → JobError E
  month_failed : MonthError E → JobError E
  days_failed : (failed total : ℕ) → JobError E

-- What `TryAdvisoryLock` comes to: the lock, ErrLockHeld, or another error.
pub data LockResult (E : Type 0) : Type 0 where
  lock_taken lock_held : LockResult E
  lock_error : E → LockResult E

-- What a run meets before its work.
pub record Launch (E : Type 0) : Type 0 where
  pub config_error : Option E
  pub pool_error : Option E
  pub ping_error : Option E
  pub lock : LockResult E

pub record JobOptions : Type 0 where
  pub flags : Flags
  pub close : Bool
  pub close_previous_month : Bool

-- -close-previous-month as the explicit flags that it stands for. The format is that of Go's `Format`.
abbrev pub effective : (String → Time → String) → JobOptions → Time → JobOptions
effective format o now =
    if o.close_previous_month
    then record o {
      flags = record o.flags { month = format "2006-01" (previous (month_of now)).start };
      close = true;
    }
    else o

-- The error of a partial run, after all the work that could be done.
unfoldable pub exit_error : {E : Type 0} → RangeResult E → Option (JobError E)
exit_error res =
    let failures = length res.failures in
    if failed res then some (days_failed failures (failures + length res.days)) else none

module _ {S E : Type 0} (parse : ParseLayout) (store : Store S E) where
  -- The month's statements, if a month is asked for, and then the error of the days.
  unfoldable pub finish_job : Time → JobOptions → RangeResult E → S → Option (JobError E) × S
  finish_job now o res s =
      if str_eq o.flags.month ""
      then (exit_error res, s)
      else elim (parse_month parse o.flags.month) [
        | err e ↦ (some (flags_failed e), s)
        | ok m ↦
            let (_, failure, s') = run_month store now m o.close s in
            elim failure [ some e ↦ (some (month_failed e), s') | none ↦ (exit_error res, s') ]
      ]

  -- The work under the lock.
  unfoldable pub locked_job :
      (ℕ → Option E) → JobOptions → Time → Time → S → Option (JobError E) × S
  locked_job ctx_err o now later s = elim (resolve_range parse o.flags now) [
    | err e ↦ (some (flags_failed e), s)
    | ok range ↦
        let (res, failure, s') = rollup_range store ctx_err range.0 range.1 s in
        elim failure [ some e ↦ (some (range_failed e), s') | none ↦ finish_job later o res s' ]
  ]

  -- A contended run returns no error: the holder is doing the work.
  abbrev pub under_lock :
      LockResult E
      → (String → Time → String)
      → (ℕ → Option E)
      → JobOptions
      → (first now later : Time) → S
      → Option (JobError E) × S
  under_lock lock_held format ctx_err o first now later s = (none, s)
  under_lock (lock_error e) format ctx_err o first now later s = (some (lock_failed e), s)
  under_lock lock_taken format ctx_err o first now later s =
      locked_job ctx_err (effective format o first) now later s

  unfoldable pub run_job :
      Launch E
      → (String → Time → String)
      → (ℕ → Option E)
      → JobOptions
      → (first now later : Time) → S
      → Option (JobError E) × S
  run_job launch format ctx_err o first now later s = elim launch.config_error [
    | some e ↦ (some (config_failed e), s)
    | none ↦ elim launch.pool_error [
      | some e ↦ (some (pool_failed e), s)
      | none ↦ elim launch.ping_error [
        | some e ↦ (some (unreachable e), s)
        | none ↦ under_lock launch.lock format ctx_err o first now later s
      ]
    ]
  ]
