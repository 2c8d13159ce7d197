-- ===== src/Handlers/Totals.antt =====
-- The totals of costs.go and recommendations.go are the sums of what is returned.
use kubernetes_cost_analyzer.Common.{
  ◌≡◌, ◌∙◌, refl, sym, ap, Bool, true, false, not, ◌&&◌, ◌||◌, List, [], ◌∷◌, map, length,
  if◌then◌else◌,
}
use kubernetes_cost_analyzer.Common.Int.{ℤ, pos, lt_ℤ, le_ℤ}
use kubernetes_cost_analyzer.Common.Sort.{keep}
use kubernetes_cost_analyzer.Numeric.Decimal.{Decimal}
use kubernetes_cost_analyzer.Recommend.{Recommendation}
use kubernetes_cost_analyzer.Handlers.Advice.{
  AdviceSums, no_advice, add_advice, advice_from, advice_totals,
}
use kubernetes_cost_analyzer.Handlers.Costs.{
  CostSummaryRow, Sums, no_sums, add_row, rendered, sums_from, totals,
}

abbrev pub is_any {ℓ} : {A : Type ℓ} → (A → Bool) → List A → Bool
is_any p [] = false
is_any p (x ∷ xs) = p x || is_any p xs

or_nothing : (b : Bool) → (b || false) ≡ b
or_nothing true = refl
or_nothing false = refl

or_next : (b c r : Bool) → ((if b then true else c) || r) ≡ (c || (b || r))
or_next true true r = refl
or_next true false r = refl
or_next false c r = refl

module _ {D : Type 0} ⦃d : Decimal D⦄ where
  abbrev pub added : D → List D → D
  added sum [] = sum
  added sum (x ∷ xs) = added (d.add sum x) xs

  -- The sum of a column, from the first row to the last.
  abbrev pub sum_of : {A : Type 0} → (A → D) → List A → D
  sum_of field xs = added d.nought (map field xs)

  -- What a sum becomes by an element that is taken, or passed over, under a condition.
  taken :
      {A : Type 0} (b : Bool) (sum : D) (field : A → D) (x : A) (xs : List A)
      → added (if b then d.add sum (field x) else sum) (map field xs)
        ≡ added sum (map field (if b then x ∷ xs else xs))
  taken true sum field x xs = refl
  taken false sum field x xs = refl

  passed_over :
      {A : Type 0} (b : Bool) (sum : D) (field : A → D) (x : A) (xs : List A)
      → added (if b then sum else d.add sum (field x)) (map field xs)
        ≡ added sum (map field (if not b then x ∷ xs else xs))
  passed_over true sum field x xs = refl
  passed_over false sum field x xs = refl

  -- Every column added to a sum.
  abbrev columns : Sums D → List (CostSummaryRow D) → Bool → Sums D
  columns s rows estimated = record {
    total = added s.total (map (λ r. r.total_cost) rows);
    cpu = added s.cpu (map (λ r. r.cpu_cost) rows);
    mem = added s.mem (map (λ r. r.memory_cost) rows);
    cpu_hours = added s.cpu_hours (map (λ r. r.cpu_core_hours) rows);
    mem_hours = added s.mem_hours (map (λ r. r.mem_gib_hours) rows);
    wasted_cpu = added s.wasted_cpu (map (λ r. r.wasted_cpu_core_hours) rows);
    wasted_mem = added s.wasted_mem (map (λ r. r.wasted_mem_gib_hours) rows);
    estimated = estimated;
  }

  sums_from-columns :
      (s : Sums D) (rows : List (CostSummaryRow D))
      → sums_from s rows ≡ columns s rows (s.estimated || is_any (λ r. r.estimated_rates) rows)
  unfolding sums_from
  sums_from-columns s [] = ap (columns s []) (sym (or_nothing s.estimated))
  sums_from-columns s (row ∷ rows) =
      sums_from-columns (add_row s row) rows
      ∙ ap (columns (add_row s row) rows)
          (or_next row.estimated_rates s.estimated (is_any (λ r. r.estimated_rates) rows))

  -- The totals of a summary are, column by column, the sums of the rows that it returns; the rates are
  -- estimated if those of any row are; and the summary is truncated if there is a positive limit that the
  -- rows reach.
  pub totals-sums :
      (rows : List (CostSummaryRow D)) (limit : ℤ)
      → totals rows limit ≡ record {
        total_cost = d.to_string (sum_of (λ r. r.total_cost) rows);
        cpu_cost = d.to_string (sum_of (λ r. r.cpu_cost) rows);
        mem_cost = d.to_string (sum_of (λ r. r.memory_cost) rows);
        estimated_rates = is_any (λ r. r.estimated_rates) rows;
        truncated = lt_ℤ (pos 0) limit && le_ℤ limit (pos (length rows));
        cpu_core_hours = d.to_string (sum_of (λ r. r.cpu_core_hours) rows);
        mem_gib_hours = d.to_string (sum_of (λ r. r.mem_gib_hours) rows);
        wasted_cpu_core_hours = d.to_string (sum_of (λ r. r.wasted_cpu_core_hours) rows);
        wasted_mem_gib_hours = d.to_string (sum_of (λ r. r.wasted_mem_gib_hours) rows);
      }
  unfolding totals
  totals-sums rows limit =
      ap (rendered (lt_ℤ (pos 0) limit && le_ℤ limit (pos (length rows))))
        (sums_from-columns no_sums rows)

  module _ {F : Type 0} where
    abbrev pub saves : Recommendation D F → Bool
    saves r = not (d.is_negative r.estimated_monthly_saving)

    abbrev pub costs_more : Recommendation D F → Bool
    costs_more r = d.is_negative r.estimated_monthly_saving

    advice_from-sums :
        (s : AdviceSums D) (rs : List (Recommendation D F))
        → ((advice_from s rs).saving
            ≡ added s.saving (map (λ r. r.estimated_monthly_saving) (keep saves rs)))
          × ((advice_from s rs).increase
              ≡ added s.increase (map (λ r. d.neg r.estimated_monthly_saving) (keep costs_more rs)))
          × ((advice_from s rs).estimated ≡ (s.estimated || is_any (λ r. r.estimated_rates) rs))
    unfolding advice_from
    advice_from-sums s [] = (refl, refl, sym (or_nothing s.estimated))
    advice_from-sums s (r ∷ rs) =
        let (saving, increase, estimated) = advice_from-sums (add_advice s r) rs in
        let any =
          estimated ∙ or_next r.estimated_rates s.estimated (is_any (λ r. r.estimated_rates) rs) in
        let worse = d.is_negative r.estimated_monthly_saving in
        (
          saving ∙ passed_over worse s.saving (λ r'. r'.estimated_monthly_saving) r (keep saves rs),
          increase
              ∙ taken worse s.increase (λ r'. d.neg r'.estimated_monthly_saving) r
                  (keep costs_more rs),
          any,
        )

    -- The totals of the advice: the saving is the sum of the savings that are not negative, and the increase
    -- that of the negative ones turned round; neither is set off against the other. The rates are estimated
    -- if those of any finding are.
    pub advice_totals-sums :
        (rs : List (Recommendation D F))
        → ((advice_totals rs).potential_monthly_saving
            ≡ d.string_fixed (sum_of (λ r. r.estimated_monthly_saving) (keep saves rs)) 4)
          × ((advice_totals rs).required_monthly_increase
              ≡ d.string_fixed
                  (sum_of (λ r. d.neg r.estimated_monthly_saving) (keep costs_more rs))
                  4)
          × ((advice_totals rs).estimated_rates ≡ is_any (λ r. r.estimated_rates) rs)
    unfolding advice_totals
    advice_totals-sums rs =
        let (saving, increase, estimated) = advice_from-sums no_advice rs in
        (ap (λ x. d.string_fixed x 4) saving, ap (λ x. d.string_fixed x 4) increase, estimated)
