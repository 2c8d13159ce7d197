-- ===== src/Rollup/Days.antt =====
-- The days of a range as instants: which day an instant lies in, and the day before.
use kubernetes_cost_analyzer.Common.{
  ℕ, suc, ◌+◌, ◌-◌, ◌*◌, ◌/◌, ◌%◌, ◌<◌, ◌≤◌, ◌≡◌, refl, sym, ap, ◌∙◌, subst, false, ok, arith,
}
use kubernetes_cost_analyzer.Common.Int.{ℤ, pos, negsuc, ◌+ℤ◌, ◌*ℤ◌, ◌≤ℤ◌, ◌<ℤ◌, +ℤ_zero, int_laws}
use kubernetes_cost_analyzer.Clock.{Time, day_span}
use kubernetes_cost_analyzer.Clock.Floor.{floor_div, floor_mod}
use kubernetes_cost_analyzer.Rollup.Dates.{Date, day_number, date_time}
use kubernetes_cost_analyzer.Rollup.Calendar.{civil, day_number-civil}
use kubernetes_cost_analyzer.Rollup.Ranges.{
  Flags, ParseLayout, day_of, add_date, add_days, resolve_range,
}

day_of_at : (n r : ℕ) → r < day_span → day_of (pos (n * day_span + r)) ≡ civil (pos n)
unfolding day_of floor_div
day_of_at n r h = ap (λ x. civil (pos x)) (omega arith)

date_time_at : (d : Date) (n : ℕ) → day_number d ≡ pos n → date_time d ≡ pos (n * day_span)
unfolding date_time ◌*ℤ◌
date_time_at d n h = rw h (ground arith)

-- A day of the month more is a day more.
day_number_add :
    (d : Date) (n : ℤ)
    → day_number (record { year = d.year +ℤ pos 0; month = d.month +ℤ pos 0; day = d.day +ℤ n })
      ≡ day_number d +ℤ n
unfolding day_number
day_number_add d n = rw (+ℤ_zero d.year, +ℤ_zero d.month) (omega int_laws)

day_of_whole : (n : ℕ) → day_of (pos (n * day_span)) ≡ civil (pos n)
unfolding day_of floor_div
day_of_whole n = ap (λ x. civil (pos x)) (omega arith)

no_rest : (n : ℕ) → floor_mod (pos (n * day_span)) day_span ≡ 0
unfolding floor_mod
no_rest n = omega arith

add_date_at :
    (n b : ℕ) (k : ℤ)
    → pos n +ℤ k ≡ pos b
    → add_date (pos (n * day_span)) (pos 0) (pos 0) k ≡ pos (b * day_span)
unfolding add_date
add_date_at n b k h =
    rw (day_of_whole n, no_rest n)
      (+ℤ_zero _
        ∙ date_time_at _ b
            (day_number_add (civil (pos n)) k ∙ ap (λ x. x +ℤ k) (day_number-civil n) ∙ h))

add_days_at : (n b : ℕ) (k : ℤ) → pos n +ℤ k ≡ pos b → add_days (civil (pos n)) k ≡ civil (pos b)
unfolding add_days
add_days_at n b k h =
    ap (λ t. day_of (add_date t (pos 0) (pos 0) k))
      (date_time_at (civil (pos n)) n (day_number-civil n))
    ∙ ap day_of (add_date_at n b k h)
    ∙ day_of_whole b

-- The day is over, and the next one is not.
pub record IsDayBefore (d : Date) (now : Time) : Type 0 where
  pub over : date_time d +ℤ pos day_span ≤ℤ now
  pub latest : now <ℤ date_time d +ℤ pos (2 * day_span)

day_before : (n r : ℕ) → r < day_span → IsDayBefore (civil (pos n)) (pos (suc n * day_span + r))
day_before n r h =
    let midnight = date_time_at (civil (pos n)) n (day_number-civil n) in
    record { over = rw midnight (omega int_laws); latest = rw midnight (omega int_laws) }

before_suc : (n : ℕ) → pos (suc n) +ℤ negsuc 0 ≡ pos n
unfolding ◌+ℤ◌
before_suc n = ground arith

module _ (parse : ParseLayout) where
  -- Without a flag that chooses a range, at an instant from the second day of year 1 on, the range is one
  -- day: it is over, and it is the latest day that is.
  pub resolve_range_yesterday :
      (opts : Flags) (now : ℕ)
      → opts.all ≡ false
      → opts.month ≡ ""
      → opts.from ≡ ""
      → opts.to ≡ ""
      → day_span ≤ now
      → (d : Date) × (resolve_range parse opts (pos now) ≡ ok (d, d)) × IsDayBefore d (pos now)
  unfolding resolve_range
  resolve_range_yesterday opts now all month from to late =
      let n = now / day_span - 1 in
      let r = now % day_span in
      let split : suc n * day_span + r ≡ now = omega arith in
      let today : day_of (pos now) ≡ civil (pos (suc n)) =
        ap (λ t. day_of (pos t)) (sym split) ∙ day_of_at (suc n) r (omega arith) in
      (
        civil (pos n),
        rw (all, month, from, to, today, add_days_at (suc n) n (negsuc 0) (before_suc n)) refl,
        subst (λ t. IsDayBefore (civil (pos n)) (pos t)) split (day_before n r (omega arith)),
      )
