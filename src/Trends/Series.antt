-- ===== src/Trends/Series.antt =====
-- What `scanTrend` makes of rows, of which those of one group stand together.
use Prim.Native.String.{String}
use text.Mathlib.Text.{◌==◌ as str_eq}
use mathlib.Core.List.{append_assoc, append-nil}
use kubernetes_cost_analyzer.Common.{
  ◌≡◌, ◌⊎◌, inl, inr, refl, sym, ap, ◌∙◌, subst, true, false, ◌&&◌, some, List, [], ◌∷◌, ◌++◌, map,
  length, length-append, All, arith, Result, ok, map_err, >>=-eq-ok, map_err-eq-ok, ok-injective,
  Bool-cases,
}
use kubernetes_cost_analyzer.Common.Int.{ℤ, pos, ◌≤ℤ◌, ◌<ℤ◌, lt_ℤ, le_ℤ}
use kubernetes_cost_analyzer.Numeric.Decimal.{Decimal}
use kubernetes_cost_analyzer.Http.Requests.{TrendParams}
use kubernetes_cost_analyzer.Trends.{
  TrendRow, TrendSeries, group_map, joined_values, add_point, scan_from, scan_trend, TrendQuery,
  TrendSource, querying, trend_query, trend,
}

abbrev pub key_of : {D : Type 0} → TrendRow D → String
key_of row = joined_values row.group_values

-- The first of some rows, if any, is of another group.
abbrev pub Apart : {D : Type 0} → String → List (TrendRow D) → Type 0
Apart key [] = Unit
Apart key (row ∷ rows) = str_eq (key_of row) key ≡ false

module _ {D : Type 0} ⦃d : Decimal D⦄ where
  -- The points' costs, added up in order.
  abbrev pub total_from : D → List (TrendRow D) → D
  total_from sum [] = sum
  total_from sum (row ∷ rows) = total_from (d.add sum row.point.total_cost) rows

  module _ (columns : List String) where
    -- The series of a group: its rows' points in order, and the sum of their costs.
    abbrev pub series_of : TrendRow D → List (TrendRow D) → TrendSeries D
    series_of first more = record {
      group = group_map columns first.group_values;
      points = map (λ r. r.point) (first ∷ more);
      total_cost = total_from d.nought (first ∷ more);
    }

    -- Rows fold into series, one for each stretch of rows of one group; `left` is what comes after.
    pub data IsFold (left : List (TrendRow D))
        : List (TrendSeries D) → List (TrendRow D) → Type 0 where
      nothing : IsFold left [] []
      stretch :
          (first : TrendRow D) (more rest : List (TrendRow D)) {ss : List (TrendSeries D)}
          → All (λ r. str_eq (key_of r) (key_of first) ≡ true) more
          → Apart (key_of first) (rest ++ left)
          → IsFold left ss rest
          → IsFold left (series_of first more ∷ ss) (first ∷ more ++ rest)

    total-append :
        (sum : D) (xs : List (TrendRow D)) (row : TrendRow D)
        → total_from sum (xs ++ row ∷ []) ≡ d.add (total_from sum xs) row.point.total_cost
    total-append sum [] row = refl
    total-append sum (x ∷ xs) row = total-append (d.add sum x.point.total_cost) xs row

    points-append :
        (xs : List (TrendRow D)) (row : TrendRow D)
        → map (λ r. r.point) (xs ++ row ∷ []) ≡ map (λ r. r.point) xs ++ row.point ∷ []
    points-append [] row = refl
    points-append (x ∷ xs) row = ap (λ ps. x.point ∷ ps) (points-append xs row)

    series-append :
        (first : TrendRow D) (more : List (TrendRow D)) (row : TrendRow D)
        → series_of first (more ++ row ∷ []) ≡ add_point row.point (series_of first more)
    series-append first more row i = record {
      group = group_map columns first.group_values;
      points = points-append (first ∷ more) row i;
      total_cost = total-append d.nought (first ∷ more) row i;
    }

    module _ (limit : ℤ) where
      -- Nothing is left out, or there are as many series as asked for.
      abbrev pub IsCut : List (TrendRow D) → List (TrendSeries D) → Type 0
      IsCut left ss = (left ≡ []) ⊎ ((pos 0 <ℤ limit) × (limit ≤ℤ pos (length ss)))

      record Rest (out : List (TrendSeries D)) (first : TrendRow D) (more rows : List (TrendRow D))
          (result : List (TrendSeries D)) : Type 0 where
        same : List (TrendRow D)
        taken : List (TrendRow D)
        left : List (TrendRow D)
        ss : List (TrendSeries D)
        rows_are : rows ≡ same ++ (taken ++ left)
        together : All (λ r. str_eq (key_of r) (key_of first) ≡ true) same
        apart : Apart (key_of first) (taken ++ left)
        result_is : result ≡ out ++ (series_of first (more ++ same) ∷ ss)
        folds : IsFold left ss taken
        cut : IsCut left result
        within : pos 0 <ℤ limit → pos (length result) ≤ℤ limit

      -- The series that are finished leave room for the current one.
      abbrev HasRoom : List (TrendSeries D) → Type 0
      HasRoom out = pos 0 <ℤ limit → pos (length out) <ℤ limit

      room_for_one :
          (out : List (TrendSeries D)) (s : TrendSeries D)
          → HasRoom out
          → pos 0 <ℤ limit
          → pos (length (out ++ s ∷ [])) ≤ℤ limit
      room_for_one out s room h = omega (arith, room h, length-append out (s ∷ []))

      -- The rows end with the current group.
      finished :
          (out : List (TrendSeries D)) (first : TrendRow D) (more left : List (TrendRow D))
          → HasRoom out
          → Apart (key_of first) left
          → IsCut left (out ++ series_of first more ∷ [])
          → Rest out first more left (out ++ series_of first more ∷ [])
      finished out first more left room apart cut = record {
        same = [];
        taken = [];
        left = left;
        ss = [];
        rows_are = refl;
        together = tt;
        apart = apart;
        result_is = ap (λ xs. out ++ series_of first xs ∷ []) (sym (append-nil more));
        folds = nothing;
        cut = cut;
        within = room_for_one out (series_of first more) room;
      }

      continued :
          (out : List (TrendSeries D)) (first row : TrendRow D) (more rows : List (TrendRow D))
          {result : List (TrendSeries D)}
          → str_eq (key_of row) (key_of first) ≡ true
          → Rest out first (more ++ row ∷ []) rows result
          → Rest out first more (row ∷ rows) result
      continued out first row more rows here r = record {
        same = row ∷ r.same;
        taken = r.taken;
        left = r.left;
        ss = r.ss;
        rows_are = ap (λ xs. row ∷ xs) r.rows_are;
        together = (here, r.together);
        apart = r.apart;
        result_is =
            r.result_is
            ∙ ap (λ xs. out ++ (series_of first xs ∷ r.ss)) (append_assoc more (row ∷ []) r.same);
        folds = r.folds;
        cut = r.cut;
        within = r.within;
      }

      changed :
          (out : List (TrendSeries D)) (first row : TrendRow D) (more rows : List (TrendRow D))
          {result : List (TrendSeries D)}
          → str_eq (key_of row) (key_of first) ≡ false
          → Rest (out ++ series_of first more ∷ []) row [] rows result
          → Rest out first more (row ∷ rows) result
      changed out first row more rows other r = record {
        same = [];
        taken = row ∷ r.same ++ r.taken;
        left = r.left;
        ss = series_of row r.same ∷ r.ss;
        rows_are = ap (λ xs. row ∷ xs) (r.rows_are ∙ sym (append_assoc r.same r.taken r.left));
        together = tt;
        apart = other;
        result_is =
            r.result_is
            ∙ append_assoc out (series_of first more ∷ []) (series_of row r.same ∷ r.ss)
            ∙ ap (λ xs. out ++ (series_of first xs ∷ series_of row r.same ∷ r.ss))
                (sym (append-nil more));
        folds = stretch row r.same r.taken r.together r.apart r.folds;
        cut = r.cut;
        within = r.within;
      }

      scan_from-Rest :
          (out : List (TrendSeries D)) (first : TrendRow D) (more rows : List (TrendRow D))
          → HasRoom out
          → Rest out first more rows
              (scan_from columns limit out (some (key_of first, series_of first more)) rows)
      unfolding scan_from
      scan_from-Rest out first more [] room = finished out first more [] room tt (inl refl)
      scan_from-Rest out first more (row ∷ rows) room =
          let s = series_of first more in
          let full = lt_ℤ (pos 0) limit && le_ℤ limit (pos (length (out ++ s ∷ []))) in
          elim (Bool-cases (str_eq (key_of row) (key_of first))) [
            | inl here ↦ rw here (
                continued out first row more rows here (
                  subst
                    (λ x.
                      Rest out first (more ++ row ∷ []) rows
                        (scan_from columns limit out (some (key_of first, x)) rows))
                    (series-append first more row)
                    (scan_from-Rest out first (more ++ row ∷ []) rows room)))
            | inr other ↦ elim (Bool-cases full) [
              | inl stop ↦
                  rw (other, stop)
                    (finished out first more (row ∷ rows) room other (inr (ground arith)))
              | inr go ↦
                  rw (other, go)
                    (changed out first row more rows other
                      (scan_from-Rest (out ++ s ∷ []) row [] rows (λ h. ground arith)))
            ]
          ]

      -- The rows up to a group's end fold into the series, of which there are no more than the limit.
      pub record Scanned (rows : List (TrendRow D)) (ss : List (TrendSeries D)) : Type 0 where
        pub taken : List (TrendRow D)
        pub left : List (TrendRow D)
        pub rows_are : rows ≡ taken ++ left
        pub folds : IsFold left ss taken
        pub cut : IsCut left ss
        pub within : pos 0 <ℤ limit → pos (length ss) ≤ℤ limit

      scan_trend-Scanned : (rows : List (TrendRow D)) → Scanned rows (scan_trend columns limit rows)
      unfolding scan_trend scan_from
      scan_trend-Scanned [] = record {
        taken = [];
        left = [];
        rows_are = refl;
        folds = nothing;
        cut = inl refl;
        within = λ h. ground arith;
      }
      scan_trend-Scanned (row ∷ rows) =
          let r = scan_from-Rest [] row [] rows (λ h. h) in
          record {
            taken = row ∷ r.same ++ r.taken;
            left = r.left;
            rows_are = ap (λ xs. row ∷ xs) (r.rows_are ∙ sym (append_assoc r.same r.taken r.left));
            folds =
                subst (λ ss. IsFold r.left ss (row ∷ r.same ++ r.taken)) (sym r.result_is)
                  (stretch row r.same r.taken r.together r.apart r.folds);
            cut = r.cut;
            within = r.within;
          }

  -- A trend is made of the rows that the database answers its query with: each stretch of rows of one group
  -- is one series, with the group's values, the rows' points in order and the sum of their costs, and
  -- neighbouring series are of different groups. A positive limit bounds the number of series; rows are
  -- left out only from where a group begins, and only if there are as many series as the limit.
  pub trend-Scanned :
      {E : Type 0} (run : TrendQuery → Result E (List (TrendRow D))) (p : TrendParams)
      (ss : List (TrendSeries D)) (source : TrendSource)
      → trend run p ≡ ok (ss, source)
      → (q : TrendQuery) × (rows : List (TrendRow D)) × (trend_query {E = E} p ≡ ok q)
        × (run q ≡ ok rows)
        × (q.source ≡ source)
        × Scanned q.columns p.limit rows ss
  unfolding trend
  trend-Scanned run p ss source h =
      let (q, asked, h1) = >>=-eq-ok (trend_query p) _ h in
      let (rows, answer, h2) = >>=-eq-ok (map_err (querying q.source) (run q)) _ h1 in
      let result = ok-injective h2 in
      (
        q,
        rows,
        asked,
        map_err-eq-ok (querying q.source) (run q) answer,
        ap (λ r. r.1) result,
        subst (Scanned q.columns p.limit rows) (ap (λ r. r.0) result)
            (scan_trend-Scanned q.columns p.limit rows),
      )
