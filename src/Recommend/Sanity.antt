-- ===== src/Recommend/Sanity.antt =====
-- What `NewEngine` promises of the thresholds that an engine runs with.
use kubernetes_cost_analyzer.Common.{
  refl, ℕ, ◌<◌, ◌≤◌, ◌^◌, ◌≡◌, ◌⊎◌, ◌||◌, true, false, if◌then◌else◌, arith,
}
use kubernetes_cost_analyzer.Common.Int.{pos, le_ℤ, lt_ℤ, ◌≤ℤ◌}
use kubernetes_cost_analyzer.Numeric.Float.{Float64, FloatLaws, OrderLaws, IsNan}
use kubernetes_cost_analyzer.Recommend.Engine.{Thresholds, new_engine}

module _ {F : Type 0} ⦃f : Float64 F⦄ where
  -- Neither at most 0 nor at least 1.
  abbrev PassesUnit : F → Type 0
  PassesUnit x = (f.fle x (f.lit 0 0) ≡ false) × (f.fle (f.lit 1 0) x ≡ false)

  -- Thresholds that pass every test of `NewEngine`; a test that is a comparison with NaN is false.
  record IsAccepted (t : Thresholds F) : Type 0 where
    pub windows_counted : pos 1 ≤ℤ t.min_windows
    pub span_counted : pos 1 ≤ℤ t.min_observation
    pub headroom_kept : f.flt t.headroom_factor (f.lit 1 0) ≡ false
    pub right_size_in_unit : PassesUnit t.right_size_max_utilisation
    pub saving_ratio_kept : f.flt t.min_saving_ratio (f.lit 0 0) ≡ false
    pub idle_cpu_counted : pos 1 ≤ℤ t.idle_cpu_millicores
    pub idle_memory_counted : pos 1 ≤ℤ t.idle_memory_bytes
    pub idle_span_counted : pos 1 ≤ℤ t.idle_min_observation
    pub replicas_kept : pos 1 ≤ℤ t.min_replicas_to_keep
    pub over_replication_in_unit : PassesUnit t.over_replication_max_utilisation

  -- Two literals with one exponent, the first less.
  module _ (laws : FloatLaws F) where
    open laws use {lit_scale, lit_lt, lt_not_le, lt_not_lt}

    headroom_default : f.flt (f.lit 12 1) (f.lit 1 0) ≡ false
    headroom_default =
        lt_not_lt _ _
          (rw (lit_scale 1 0) (lit_lt 10 12 1 (omega arith) (omega arith) (omega arith)))

    saving_default : f.flt (f.lit 10 2) (f.lit 0 0) ≡ false
    saving_default = lt_not_lt _ _ (
        rw (lit_scale 0 0, lit_scale 0 1) (lit_lt 0 10 2 (omega arith) (omega arith) (omega arith)))

    -- The default shares are tenths.
    tenths_default : (n : ℕ) → 0 < n → n < 10 → PassesUnit (f.lit n 1)
    tenths_default n h k = (
      lt_not_le _ _ (rw (lit_scale 0 0) (lit_lt 0 n 1 h (omega arith) (omega arith))),
      lt_not_le _ _ (rw (lit_scale 1 0) (lit_lt n 10 1 k (omega arith) (omega arith))),
    )

    defaults-IsAccepted : (t : Thresholds F) → IsAccepted (new_engine t).thresholds
    unfolding new_engine
    defaults-IsAccepted t = record {
      windows_counted = ground arith;
      span_counted = ground arith;
      headroom_kept = ground (arith, headroom_default);
      right_size_in_unit = ground (arith, tenths_default 5 (omega arith) (omega arith));
      saving_ratio_kept = ground (arith, saving_default);
      idle_cpu_counted = ground arith;
      idle_memory_counted = ground arith;
      idle_span_counted = ground arith;
      replicas_kept = ground arith;
      over_replication_in_unit = ground (arith, tenths_default 3 (omega arith) (omega arith));
    }

    accepted_kept : (t : Thresholds F) → IsAccepted t → new_engine t ≡ record { thresholds = t }
    unfolding new_engine
    accepted_kept t sane =
        let a : le_ℤ t.min_windows (pos 0) ≡ false = ground (arith, sane.windows_counted) in
        let b : le_ℤ t.min_observation (pos 0) ≡ false = ground (arith, sane.span_counted) in
        let c : le_ℤ t.idle_cpu_millicores (pos 0) ≡ false =
          ground (arith, sane.idle_cpu_counted) in
        let e : le_ℤ t.idle_memory_bytes (pos 0) ≡ false =
          ground (arith, sane.idle_memory_counted) in
        let g : le_ℤ t.idle_min_observation (pos 0) ≡ false =
          ground (arith, sane.idle_span_counted) in
        let h : lt_ℤ t.min_replicas_to_keep (pos 1) ≡ false = ground (arith, sane.replicas_kept) in
        let (i, j) = sane.right_size_in_unit in
        let (k, l) = sane.over_replication_in_unit in
        simp (a, b, c, e, g, h, i, j, k, l, sane.headroom_kept, sane.saving_ratio_kept) refl

module _ {F : Type 0} ⦃f : Float64 F⦄ where
  -- The share in force is strictly between 0 and 1, unless the given one is NaN.
  abbrev pub IsShare : (given share : F) → Type 0
  IsShare given share =
      IsNan given ⊎ ((f.flt (f.lit 0 0) share ≡ true) × (f.flt share (f.lit 1 0) ≡ true))

  -- The thresholds that an engine runs with, of those that it is given.
  pub record IsSane (given t : Thresholds F) : Type 0 where
    pub windows_counted : pos 1 ≤ℤ t.min_windows
    pub span_counted : pos 1 ≤ℤ t.min_observation
    pub headroom_kept : IsNan given.headroom_factor ⊎ (f.fle (f.lit 1 0) t.headroom_factor ≡ true)
    pub right_size_share : IsShare given.right_size_max_utilisation t.right_size_max_utilisation
    pub saving_ratio_kept :
        IsNan given.min_saving_ratio ⊎ (f.fle (f.lit 0 0) t.min_saving_ratio ≡ true)
    pub idle_cpu_counted : pos 1 ≤ℤ t.idle_cpu_millicores
    pub idle_memory_counted : pos 1 ≤ℤ t.idle_memory_bytes
    pub idle_span_counted : pos 1 ≤ℤ t.idle_min_observation
    pub replicas_kept : pos 1 ≤ℤ t.min_replicas_to_keep
    pub over_replication_share :
        IsShare given.over_replication_max_utilisation t.over_replication_max_utilisation

  module _ (laws : FloatLaws F) (order : OrderLaws F) where
    -- A literal of the defaults, or a given number that passed the test.
    least_lem :
        (given low default : F)
        → f.fle low low ≡ true
        → f.fle low default ≡ true
        → IsNan given ⊎ (f.fle low (if f.flt given low then default else given) ≡ true)
    least_lem given low default number above = ground (arith, order.le_of_not_lt given low)

    share_lem :
        (given : F) (n : ℕ)
        → 0 < n
        → n < 10
        → IsShare given
            (if f.fle given (f.lit 0 0) || f.fle (f.lit 1 0) given then f.lit n 1 else given)
    share_lem given n h k =
        let low : f.flt (f.lit 0 0) (f.lit n 1) ≡ true =
          rw (laws.lit_scale 0 0) (laws.lit_lt 0 n 1 h (omega arith) (omega arith)) in
        let high : f.flt (f.lit n 1) (f.lit 1 0) ≡ true =
          rw (laws.lit_scale 1 0) (laws.lit_lt n 10 1 k (omega arith) (omega arith)) in
        ground (
          arith,
          order.lit_number 0 0,
          order.lit_number 1 0,
          order.lt_of_not_le given (f.lit 0 0),
          order.lt_of_not_le (f.lit 1 0) given,
        )

    least_default : (a b e : ℕ) → a < b → b < 10 ^ 15 → e ≤ 3 → f.fle (f.lit a e) (f.lit b e) ≡ true
    least_default a b e h k l =
        order.le_of_not_lt (f.lit b e) (f.lit a e) (order.lit_number b e) (order.lit_number a e)
          (laws.lt_not_lt _ _ (laws.lit_lt a b e h k l))

    engine-IsSane : (t : Thresholds F) → IsSane t (new_engine t).thresholds
    unfolding new_engine
    engine-IsSane t = record {
      windows_counted = ground arith;
      span_counted = ground arith;
      headroom_kept = least_lem t.headroom_factor (f.lit 1 0) (f.lit 12 1) (order.lit_number 1 0) (
          rw (laws.lit_scale 1 0)
            (least_default 10 12 1 (omega arith) (omega arith) (omega arith)));
      right_size_share = share_lem t.right_size_max_utilisation 5 (omega arith) (omega arith);
      saving_ratio_kept =
          least_lem t.min_saving_ratio (f.lit 0 0) (f.lit 10 2) (order.lit_number 0 0) (
            rw (laws.lit_scale 0 0, laws.lit_scale 0 1)
              (least_default 0 10 2 (omega arith) (omega arith) (omega arith)));
      idle_cpu_counted = ground arith;
      idle_memory_counted = ground arith;
      idle_span_counted = ground arith;
      replicas_kept = ground arith;
      over_replication_share =
          share_lem t.over_replication_max_utilisation 3 (omega arith) (omega arith);
    }

    -- Whatever thresholds it is given, the engine runs with a positive number and span of windows, positive
    -- idle floors and span, and at least one replica kept; with a headroom of at least 1, shares strictly
    -- between 0 and 1 and a least saving that is not negative, each unless the one that it was given is
    -- NaN; and it takes the thresholds that an engine runs with as they are.
    pub new_engine-IsSane :
        (t : Thresholds F)
        → IsSane t (new_engine t).thresholds × (new_engine (new_engine t).thresholds ≡ new_engine t)
    new_engine-IsSane t =
        (engine-IsSane t, accepted_kept laws (new_engine t).thresholds (defaults-IsAccepted laws t))
