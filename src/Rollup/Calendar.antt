-- ===== src/Rollup/Calendar.antt =====
-- The calendar of Go's time package, as far as dates and months need it: the date of an instant in UTC.
use kubernetes_cost_analyzer.Common.{
  ℕ, suc, ◌+◌, ◌-◌, ◌*◌, ◌/◌, ◌%◌, ◌<◌, ◌≤◌, ◌≡◌, ltb, refl, Bool, List, [], ◌∷◌, arith,
  if◌then◌else◌, true, inl, inr, Bool-cases, length, ap, ◌∙◌,
}
use kubernetes_cost_analyzer.Common.Int.{ℤ, pos, ◌+ℤ◌, ◌-ℤ◌, ◌*ℤ◌, +ℤ_zero, int_laws}
use kubernetes_cost_analyzer.Clock.Floor.{floor_div, floor_mod}
use kubernetes_cost_analyzer.Rollup.Dates.{Date, is_leap, month_days, sum_first, day_number}
use kubernetes_cost_analyzer.Rollup.Eras.{
  centuries, cycles, years, centuries_rest, centuries_le, cycle_rest, year_rest, cycle_last, total,
}

-- The month and the day in it, both from zero, of a day of the year.
walk : ℕ → List ℕ → ℕ × ℕ
walk k [] = (0, k)
walk k (n ∷ ns) = let later = walk (k - n) ns in if ltb k n then (0, k) else (suc later.0, later.1)

walk_sum : (k : ℕ) (ns : List ℕ) → sum_first (walk k ns).0 ns + (walk k ns).1 ≡ k
unfolding walk sum_first
walk_sum k [] = omega arith
walk_sum k (n ∷ ns) = ground (arith, walk_sum (k - n) ns)

walk_lt : (k : ℕ) (ns : List ℕ) → k < sum_first (length ns) ns → (walk k ns).0 < length ns
unfolding walk sum_first
walk_lt k [] h = omega arith
walk_lt k (n ∷ ns) h = ground (arith, walk_lt (k - n) ns)

-- The date of a day, counted from the first of January of year 1.
unfoldable pub civil : ℤ → Date
unfolding walk
civil n =
    let r = floor_mod n 146097 in
    let in_century = r - centuries r * 36524 in
    let in_cycle = in_century - cycles in_century * 1461 in
    let in_year = in_cycle - years in_cycle * 365 in
    let year =
      floor_div n 146097 *ℤ pos 400
      +ℤ pos (centuries r * 100 + cycles in_century * 4 + years in_cycle)
      +ℤ pos 1 in
    let month = walk in_year (month_days (is_leap year)) in
    record { year = year; month = pos (month.0 + 1); day = pos (month.1 + 1) }

pred : (w : ℕ) → pos (w + 1) -ℤ pos 1 ≡ pos w
unfolding ◌-ℤ◌
pred w = ground arith

times : (a b : ℕ) → pos a *ℤ pos b ≡ pos (a * b)
unfolding ◌*ℤ◌
times a b = ground arith

in_days :
    (p a b c m k : ℕ)
    → b ≤ a
    → pos 365 *ℤ pos p +ℤ (pos a -ℤ pos b +ℤ pos c) +ℤ pos m +ℤ pos k
      ≡ pos (p * 365 + a - b + c + m + k)
in_days p a b c m k h = rw (times 365 p) (omega int_laws)

-- The days before a date of a year from 1 on, a month from zero and a day from zero.
day_number_of :
    (p w k : ℕ)
    → w < 12
    → day_number (record { year = pos (p + 1); month = pos (w + 1); day = pos (k + 1) })
      ≡ pos (
          p * 365
          + p / 4
          - p / 100
          + p / 400
          + sum_first w (month_days (is_leap (pos (p + 1))))
          + k)
unfolding day_number floor_div floor_mod
day_number_of p w k h =
    let small : w / 12 ≡ 0 = omega arith in
    let same : w % 12 ≡ w = omega arith in
    let year : pos (p + 1) +ℤ pos 0 ≡ pos (p + 1) = +ℤ_zero (pos (p + 1)) in
    rw (pred w, pred k, small, same, year, pred p)
      (in_days p (p / 4) (p / 100) (p / 400) (sum_first w (month_days (is_leap (pos (p + 1))))) k
        (omega arith))

-- The length of a year.
year_days :
    (p : ℕ)
    → sum_first 12 (month_days (is_leap (pos (p + 1))))
      ≡ (if is_leap (pos (p + 1)) then 366 else 365)
unfolding sum_first month_days
year_days p = elim (Bool-cases (is_leap (pos (p + 1)))) [ inl e ↦ rw e refl | inr e ↦ rw e refl ]

leap_if :
    (p : ℕ)
    → (p + 1) % 4 ≡ 0
    → ((p + 1) % 100 ≡ 0 → (p + 1) % 400 ≡ 0)
    → is_leap (pos (p + 1)) ≡ true
unfolding is_leap floor_mod
leap_if p h g = ground (arith, g)

-- Where the rest of a year is more than 365 days, the year is a leap year.
leap_rest :
    (e c q y : ℕ)
    → c ≤ 3
    → q ≤ 24
    → y ≡ 3
    → (q ≡ 24 → c ≡ 3)
    → is_leap (pos (e * 400 + (c * 100 + q * 4 + y) + 1)) ≡ true
leap_rest e c q y hc hq hy last =
    leap_if (e * 400 + (c * 100 + q * 4 + y)) (omega (arith, hy)) (λ h. ground arith)

month_lt :
    (leap : Bool) (k : ℕ) → k < sum_first 12 (month_days leap) → (walk k (month_days leap)).0 < 12
unfolding month_days
month_lt leap k h = walk_lt k (month_days leap) h

summed : (a m d k n : ℕ) → m + d ≡ k → a + k ≡ n → a + m + d ≡ n
summed a m d k n h g = omega arith

fits :
    (p k : ℕ)
    → k ≤ 365
    → (365 ≤ k → is_leap (pos (p + 1)) ≡ true)
    → k < sum_first 12 (month_days (is_leap (pos (p + 1))))
fits p k h g = ground (arith, year_days p, g)

in_era : (e m : ℕ) → pos e *ℤ pos 400 +ℤ pos m +ℤ pos 1 ≡ pos (e * 400 + m + 1)
in_era e m = rw (times e 400) (omega int_laws)

rest_lt :
    (e r : ℕ)
    → r < 146097
    → let s = r - centuries r * 36524 in
      let t = s - cycles s * 1461 in
      t - years t * 365
      < sum_first 12
          (month_days (is_leap (pos (e * 400 + (centuries r * 100 + cycles s * 4 + years t) + 1))))
rest_lt e r h =
    let s = r - centuries r * 36524 in
    let t = s - cycles s * 1461 in
    let p = e * 400 + (centuries r * 100 + cycles s * 4 + years t) in
    let (q_le, t_le) = cycle_rest s (centuries_rest r h) in
    let (rest_le, full) = year_rest t t_le in
    fits p (t - years t * 365) rest_le (λ g.
      leap_rest e (centuries r) (cycles s) (years t) (centuries_le r) q_le (full g).0
        (cycle_last r h (full g).1))

-- Days are counted as they are dated.
pub day_number-civil : (n : ℕ) → day_number (civil (pos n)) ≡ pos n
unfolding civil floor_div floor_mod
day_number-civil n =
    let e = n / 146097 in
    let r = n % 146097 in
    let s = r - centuries r * 36524 in
    let t = s - cycles s * 1461 in
    let k = t - years t * 365 in
    let p = e * 400 + (centuries r * 100 + cycles s * 4 + years t) in
    let ns = month_days (is_leap (pos (p + 1))) in
    let year : pos e *ℤ pos 400 +ℤ pos (centuries r * 100 + cycles s * 4 + years t) +ℤ pos 1
        ≡ pos (p + 1) =
      in_era e (centuries r * 100 + cycles s * 4 + years t) in
    rw year (
      day_number_of p (walk k ns).0 (walk k ns).1
        (month_lt (is_leap (pos (p + 1))) k (rest_lt e r (omega arith)))
      ∙ ap pos (
          summed (p * 365 + p / 4 - p / 100 + p / 400) (sum_first (walk k ns).0 ns) (walk k ns).1 k
            n (walk_sum k ns) (total e r (omega arith) ∙ omega arith)))
