-- ===== src/Costing/Windows.antt =====
-- `AlignedWindow`: complete, aligned windows on which every process agrees, and that tile the time.
use kubernetes_cost_analyzer.Common.{◌<◌, ◌≡◌, refl, arith, sym, ap, ◌∙◌}
use kubernetes_cost_analyzer.Common.Int.{
  ℤ, ◌*ℤ◌, pos, negsuc, pos_part, neg_part, ◌+ℤ◌, ◌-ℤ◌, ◌≤ℤ◌, ◌<ℤ◌, int_laws,
}
use kubernetes_cost_analyzer.Clock.{Time, Duration, truncate}
use kubernetes_cost_analyzer.Clock.Floor.{
  floor_mod, floor_div, floor_mod_multiple, floor_mod-lt, floor_mod_agree,
}
use kubernetes_cost_analyzer.Costing.{Window, step_of, aligned_window}

step_of_pos : (interval : Duration) → pos 0 <ℤ step_of interval
step_of_pos interval = ground arith

-- The end of the window is the instant rounded down.
end_eq :
    (now : Time) (step : Duration)
    → pos 0 <ℤ step
    → truncate now step ≡ now -ℤ pos (floor_mod now (pos_part step))
unfolding truncate
end_eq now step h = ground arith

step_parts : (step : Duration) → pos 0 <ℤ step → (0 < pos_part step) × (neg_part step ≡ 0)
step_parts (pos n) h = omega arith
step_parts (negsuc n) h = absurd (omega arith)

pos_of_part : (step : ℤ) → neg_part step ≡ 0 → step ≡ pos (pos_part step)
pos_of_part (pos n) h = refl
pos_of_part (negsuc n) h = absurd (omega arith)

-- The window is the last complete one on the grid of steps from the zero time: it is one step long, ends
-- after a whole number of steps, at or before now and less than a step before it.
pub aligned_window_complete :
    (now : Time) (interval : Duration)
    → let w = aligned_window now interval in
      (w.end -ℤ w.start ≡ step_of interval)
      × ((q : ℤ) × (w.end ≡ q *ℤ step_of interval))
      × (w.end ≤ℤ now)
      × (now <ℤ w.end +ℤ step_of interval)
unfolding aligned_window
aligned_window_complete now interval =
    let step = step_of interval in
    let positive = step_of_pos interval in
    let (p, z) = step_parts step positive in
    let small = floor_mod-lt now (pos_part step) p in
    let q = floor_div now (pos_part step) in
    let whole : step ≡ pos (pos_part step) = pos_of_part step z in
    let on_grid : now -ℤ pos (floor_mod now (pos_part step)) ≡ q *ℤ step =
      floor_mod_multiple now (pos_part step) p ∙ ap (λ x. q *ℤ x) (sym whole) in
    rw (end_eq now step positive) (omega int_laws, (q, on_grid), omega int_laws, omega int_laws)

truncate_agree :
    (now other : Time) (step : Duration)
    → pos 0 <ℤ step
    → truncate now step ≤ℤ other
    → other <ℤ truncate now step +ℤ step
    → truncate other step ≡ truncate now step
truncate_agree now other step h lo hi =
    let (p, z) = step_parts step h in
    let k = pos_part step in
    let at_now = end_eq now step h in
    let lo' : now -ℤ pos (floor_mod now k) ≤ℤ other = rw at_now at lo in
    let hi' : other <ℤ now -ℤ pos (floor_mod now k) +ℤ step = rw at_now at hi in
    end_eq other step h ∙ floor_mod_agree now other k p lo' (omega int_laws) ∙ sym at_now

-- Any two processes whose clocks read instants of one step, from the end of the window up to a step after
-- it, compute the same window, so that a collection that is repeated has the same key.
pub aligned_window_agree :
    (now other : Time) (interval : Duration)
    → (aligned_window now interval).end ≤ℤ other
    → other <ℤ (aligned_window now interval).end +ℤ step_of interval
    → aligned_window other interval ≡ aligned_window now interval
unfolding aligned_window
aligned_window_agree now other interval lo hi =
    let step = step_of interval in
    let window_to : Time → Window = λ end. record { start = end -ℤ step; end = end } in
    ap window_to (truncate_agree now other step (step_of_pos interval) lo hi)
