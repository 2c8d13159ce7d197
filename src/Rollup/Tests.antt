-- ===== src/Rollup/Tests.antt =====
-- Three days of which one fails, in a database that counts the days it was asked for.
use Prim.Native.String.{String}
use kubernetes_cost_analyzer.Common.{
  ℕ, suc, ◌≡◌, refl, Bool, true, false, Option, none, some, [], ◌∷◌, ok, err, if◌then◌else◌, ◌==◌,
  ltb, arith, ◌+◌,
}
use kubernetes_cost_analyzer.Common.Int.{pos, pos_part, ◌+ℤ◌, ◌-ℤ◌, ◌*ℤ◌}
use kubernetes_cost_analyzer.Common.Word.{wrap64}
use kubernetes_cost_analyzer.Common.Maps.{insert}
use kubernetes_cost_analyzer.Clock.Floor.{floor_div, floor_mod}
use kubernetes_cost_analyzer.Rollup.Dates.{Date, day_number, date_time, before, date_string}
use kubernetes_cost_analyzer.Rollup.{
  DayResult, Store, cancelled_after, roll_days, rollup_range, run_month,
}
use kubernetes_cost_analyzer.Rollup.Boundary.{IsRun, rollup_range-IsRun}
use kubernetes_cost_analyzer.Rollup.Command.{
  run_job, locked_job, finish_job, exit_error, days_failed, lock_failed, JobError, LockResult,
  lock_taken, lock_held, lock_error, Launch, JobOptions,
}
use kubernetes_cost_analyzer.Common.{◌*◌}
use kubernetes_cost_analyzer.Clock.{Time, day_span}
use kubernetes_cost_analyzer.Rollup.Calendar.{civil}
use kubernetes_cost_analyzer.Rollup.Ranges.{
  Flags, ParseLayout, day_of, add_date, add_days, new_month, month_of, previous, next, parse_month,
  parse_day, resolve_range, to_without_from,
}
use kubernetes_cost_analyzer.Rollup.Days.{IsDayBefore, resolve_range_yesterday}

rollup_code : Unit {0}
unfolding day_number date_time before date_string roll_days rollup_range run_month exit_error
    finish_job locked_job run_job floor_div floor_mod insert wrap64 ◌+ℤ◌ ◌-ℤ◌ ◌*ℤ◌
rollup_code = tt

abbrev march : ℕ → Date
march n = record { year = pos 2024; month = pos 3; day = pos n }

abbrev day_result : Date → DayResult
day_result day = record { day = day; fact_rows = pos 288; rollup_rows = pos 12; deleted = pos 0 }

-- The second of the month fails if the flag says so; the database counts the days.
abbrev store : Bool → Store ℕ ℕ
store broken = record {
  rollup_day = λ day s. (
    if broken
        then if pos_part day.day == 2 then err 7 else ok (day_result day)
        else ok (day_result day),
    suc s,
  );
  days_with_facts = λ from to s. ok (march 1 ∷ march 2 ∷ march 3 ∷ []);
  generate_month =
      λ m s. (ok (record { month = m; written = pos 4; skipped_finalised = pos 0 }), s);
  finalise_month = λ m now s. (ok (pos 4), s);
  is_cancellation = λ e. e == 9;
}

abbrev running : ℕ → Option ℕ
running i = none

-- The context is cancelled before the third day.
abbrev stopping : ℕ → Option ℕ
stopping i = if ltb i 2 then none else some 9

partial : rollup_range (store true) running (march 1) (march 3) 0 ≡ (
  record {
    days = day_result (march 1) ∷ day_result (march 3) ∷ [];
    fact_rows = pos 576;
    rollup_rows = pos 24;
    failures = ("2024-03-02", 7) ∷ [];
  },
  none,
  3,
)
unfolding rollup_code
partial = refl

stopped :
    (rollup_range (store false) stopping (march 1) (march 3) 0).1 ≡ some (cancelled_after 2 3 9)
unfolding rollup_code
stopped = refl

forward : before (march 3) (march 1) ≡ false
unfolding rollup_code
forward = refl

rollup_range-IsRun_example :
    IsRun
      (store true)
      stopping
      (march 1 ∷ march 2 ∷ march 3 ∷ [])
      0
      (rollup_range (store true) stopping (march 1) (march 3) 0)
rollup_range-IsRun_example =
    rollup_range-IsRun (store true) stopping (march 1) (march 3) 0
      (march 1 ∷ march 2 ∷ march 3 ∷ []) forward refl

-- 2024 is a leap year.
two_days :
    day_number (march 1) -ℤ day_number (record (march 1) { month = pos 2; day = pos 28 }) ≡ pos 2
unfolding rollup_code
two_days = refl

-- The zero of the Unix clock, also as a month after December.
unix_zero :
    (day_number (record { year = pos 1970; month = pos 1; day = pos 1 }) ≡ pos 719_162)
    × (day_number (record { year = pos 1969; month = pos 13; day = pos 1 }) ≡ pos 719_162)
unfolding rollup_code
unix_zero = (refl, refl)

range_code : Unit {0}
unfolding rollup_code civil day_of add_date add_days new_month month_of previous next parse_month
    parse_day resolve_range
range_code = tt

-- The first of March 2024, as every text is read here.
abbrev on_march_1 : ParseLayout
on_march_1 layout s = some (pos (738_945 * day_span))

abbrev bare : Flags
bare = record { all = false; month = ""; from = ""; to = "" }

abbrev launch : LockResult ℕ → Launch ℕ
launch lock = record { config_error = none; pool_error = none; ping_error = none; lock = lock }

-- March up to its end, closed.
abbrev march_close : JobOptions
march_close = record {
  flags = record bare { month = "2024-03" };
  close = true;
  close_previous_month = false;
}

abbrev format : String → Time → String
format layout t = "2024-03"

abbrev job : Bool → LockResult ℕ → JobOptions → Option (JobError ℕ) × ℕ
job broken lock o =
    run_job on_march_1 (store broken) (launch lock) format running o (pos 0) (pos 0) (pos 0) 0

-- A day that fails, a job that is done, and one that another run keeps from its work.
exits :
    ((job true lock_taken march_close).0 ≡ some (days_failed 1 3))
    × (job false lock_taken march_close ≡ (none, 3))
    × (job true lock_held march_close ≡ (none, 0))
    × ((job false (lock_error 5) march_close).0 ≡ some (lock_failed 5))
unfolding range_code
exits = (refl, refl, refl, refl)

-- The previous month is worked out from the clock.
closes_previous :
    job false lock_taken (record march_close { flags = bare; close_previous_month = true })
    ≡ (none, 3)
unfolding range_code
closes_previous = refl

-- A month from its first day to its last, and the day before one in a leap year.
march_days :
    resolve_range on_march_1 (record bare { month = "2024-03" }) (pos 0) ≡ ok (march 1, march 31)
unfolding range_code
march_days = refl

leap_day :
    resolve_range on_march_1 bare (pos (738_945 * day_span + 5))
    ≡ ok (
      record { year = pos 2024; month = pos 2; day = pos 29 },
      record { year = pos 2024; month = pos 2; day = pos 29 },
    )
unfolding range_code
leap_day = refl

needs_from :
    resolve_range on_march_1 (record bare { to = "2024-03-01" }) (pos 0) ≡ err to_without_from
unfolding range_code
needs_from = refl

resolve_range_yesterday_example :
    (d : Date) × (resolve_range on_march_1 bare (pos (738_945 * day_span + 5)) ≡ ok (d, d))
    × IsDayBefore d (pos (738_945 * day_span + 5))
resolve_range_yesterday_example =
    resolve_range_yesterday on_march_1 bare (738_945 * day_span + 5) refl refl refl refl
      (omega arith)
