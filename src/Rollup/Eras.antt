-- ===== src/Rollup/Eras.antt =====
-- The days of an era of 400 years: its centuries, its cycles of four years, its years, and what is left.
use kubernetes_cost_analyzer.Common.{
  ℕ, ◌+◌, ◌-◌, ◌*◌, ◌/◌, ◌<◌, ◌≤◌, ◌≡◌, ltb, arith, if◌then◌else◌,
}

abbrev capped : ℕ → ℕ → ℕ
capped most n = if ltb most n then most else n

-- The centuries, leap cycles and years in the days of an era of 400 years, and the days that are left.
abbrev pub centuries : ℕ → ℕ
centuries r = capped 3 (r / 36524)

abbrev pub cycles : ℕ → ℕ
cycles r = r / 1461

abbrev pub years : ℕ → ℕ
years r = capped 3 (r / 365)

pub centuries_rest : (r : ℕ) → r < 146097 → r - centuries r * 36524 ≤ 36524
centuries_rest r h = ground arith

pub centuries_le : (r : ℕ) → centuries r ≤ 3
centuries_le r = ground arith

centuries_sum : (r : ℕ) → centuries r * 36524 + (r - centuries r * 36524) ≡ r
centuries_sum r = ground arith

years_sum : (r : ℕ) → years r * 365 + (r - years r * 365) ≡ r
years_sum r = ground arith

-- The years before a year in the era.
leaps :
    (e c q y : ℕ)
    → c ≤ 3
    → q ≤ 24
    → y ≤ 3
    → let p = e * 400 + c * 100 + q * 4 + y in
      p * 365 + p / 4 + p / 400 ≡ e * 146097 + c * 36524 + q * 1461 + y * 365 + p / 100
leaps e c q y hc hq hy = omega arith

-- What is left of a cycle of four years, and of a year.
pub cycle_rest : (s : ℕ) → s ≤ 36524 → (cycles s ≤ 24) × (s - cycles s * 1461 ≤ 1460)
cycle_rest s h = (ground arith, ground arith)

pub year_rest :
    (s : ℕ)
    → s ≤ 1460
    → (s - years s * 365 ≤ 365) × (365 ≤ s - years s * 365 → (years s ≡ 3) × (s ≡ 1460))
year_rest s h = (ground arith, λ g. (ground arith, ground arith))

pub cycle_last :
    (r : ℕ)
    → r < 146097
    → let s = r - centuries r * 36524 in
      s - cycles s * 1461 ≡ 1460 → cycles s ≡ 24 → centuries r ≡ 3
cycle_last r h full last = ground arith

pub counted :
    (e r s t c q y k : ℕ)
    → c ≤ 3
    → q ≤ 24
    → y ≤ 3
    → c * 36524 + s ≡ r
    → q * 1461 + t ≡ s
    → y * 365 + k ≡ t
    → let p = e * 400 + (c * 100 + q * 4 + y) in
      p * 365 + p / 4 - p / 100 + p / 400 + k ≡ e * 146097 + r
counted e r s t c q y k hc hq hy hr hs ht = omega (arith, leaps e c q y hc hq hy)

-- The days from the start to an era's year and its rest.
pub total :
    (e r : ℕ)
    → r < 146097
    → let s = r - centuries r * 36524 in
      let t = s - cycles s * 1461 in
      let p = e * 400 + (centuries r * 100 + cycles s * 4 + years t) in
      p * 365 + p / 4 - p / 100 + p / 400 + (t - years t * 365) ≡ e * 146097 + r
total e r h =
    let s = r - centuries r * 36524 in
    let t = s - cycles s * 1461 in
    let (q_le, t_le) = cycle_rest s (centuries_rest r h) in
    counted e r s t (centuries r) (cycles s) (years t) (t - years t * 365) (centuries_le r) q_le
      (ground arith) (centuries_sum r) (ground arith) (years_sum t)
