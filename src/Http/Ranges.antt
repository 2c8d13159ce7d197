-- ===== src/Http/Ranges.antt =====
-- The range of a request that is not refused.
use kubernetes_cost_analyzer.Common.{◌*◌, ◌≡◌, Bool, true, false, ◌||◌, [], arith}
use kubernetes_cost_analyzer.Common.Int.{pos, ◌≤ℤ◌, ◌<ℤ◌, ◌+ℤ◌, ◌-ℤ◌, int_laws}
use kubernetes_cost_analyzer.Clock.{Time, Duration}
use kubernetes_cost_analyzer.Clock.Spans.{sub_time_bound}
use kubernetes_cost_analyzer.Http.{Query, clean_rest}
use kubernetes_cost_analyzer.Http.Params.{
  ParseTime, parse_bound, chosen_range, checked_range, time_range_default, max_range_days, day_span,
}

-- Half-open, not empty, and no longer than the maximum.
pub record IsBounded (from to : Time) : Type 0 where
  pub forward : from <ℤ to
  pub short : to ≤ℤ from +ℤ pos (max_range_days * day_span)

checked_range-IsBounded :
    (from to : Time) (r : Time × Time) → checked_range true (from, to) ≡ (r, []) → IsBounded r.0 r.1
unfolding checked_range
checked_range-IsBounded from to r h =
    ground (arith, sub_time_bound to from (pos (max_range_days * day_span)))

default-IsBounded :
    (now : Time) (span : Duration)
    → pos 1 ≤ℤ span
    → span ≤ℤ pos (max_range_days * day_span)
    → IsBounded (now -ℤ span) now
default-IsBounded now span low high = record { forward = omega int_laws; short = omega int_laws }

-- By which of the two bounds are given.
chosen-IsBounded :
    (now : Time) (span : Duration) (from to : Time × Bool) (r : Time × Time)
    → pos 1 ≤ℤ span
    → span ≤ℤ pos (max_range_days * day_span)
    → checked_range (from.1 || to.1) (chosen_range now span from to) ≡ (r, [])
    → IsBounded r.0 r.1
unfolding chosen_range
chosen-IsBounded now span (from, false) (to, false) r low high h =
    unfold checked_range in ground (arith, default-IsBounded now span low high)
chosen-IsBounded now span (from, true) (to, false) r low high h =
    checked_range-IsBounded from now r h
chosen-IsBounded now span (from, false) (to, true) r low high h =
    checked_range-IsBounded (to -ℤ span) to r h
chosen-IsBounded now span (from, true) (to, true) r low high h = checked_range-IsBounded from to r h

-- Whatever the query says, the range of a request that is not refused is not empty and spans at most 400
-- days, if the default span is positive and no longer.
pub time_range-IsBounded :
    (parse : ParseTime) (now : Time) (q : Query) (span : Duration) (r : Time × Time)
    → pos 1 ≤ℤ span
    → span ≤ℤ pos (max_range_days * day_span)
    → time_range_default parse now q span ≡ (r, [])
    → IsBounded r.0 r.1
unfolding time_range_default
time_range-IsBounded parse now q span r low high h =
    chosen-IsBounded now span (parse_bound parse q "from").0 (parse_bound parse q "to").0 r low high
      (clean_rest (parse_bound parse q "to").1 (clean_rest (parse_bound parse q "from").1 h))
