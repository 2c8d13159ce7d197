-- ===== src/Http/Limits.antt =====
-- The parameters that bound a response: the number of rows, and the names that filter.
use Prim.Native.String.{String}
use text.Mathlib.Text.{◌==◌ as str_eq}
use text.Mathlib.TextEquality.{eq_iff}
use kubernetes_cost_analyzer.Common.{
  ◌≤◌, ◌≡◌, ◌≢◌, ◌↔◌, ◌⊎◌, inl, inr, some, [], arith, Option-cases, Bool-cases, sym, ap, ◌∙◌, subst,
  ltb,
}
use kubernetes_cost_analyzer.Common.Int.{ℤ, pos, ◌≤ℤ◌}
use kubernetes_cost_analyzer.Common.Text.{trim_space, chars, byte_length}
use kubernetes_cost_analyzer.Common.Numerals.{parse_int}
use kubernetes_cost_analyzer.Http.{Query, clean_rest}
use kubernetes_cost_analyzer.Http.Params.{
  limit_param, get_name, get_flag, checked_capacity, filters, Filters,
}

-- `limitParam` accepts exactly a blank parameter, which means the default, and a number from 1 to the
-- maximum, which it returns: it never clamps.
pub limit_param_iff :
    (q : Query) (key : String) (default max n : ℤ)
    → (limit_param q key default max ≡ (n, [])) ↔ (
        ((trim_space (q key) ≡ "") × (n ≡ default))
        ⊎ ((trim_space (q key) ≢ "")
            × (parse_int (trim_space (q key)) ≡ some n)
            × (pos 1 ≤ℤ n)
            × (n ≤ℤ max)))
unfolding limit_param
limit_param_iff q key default max n =
    let raw = trim_space (q key) in
    elim (Option-cases (parse_int raw)) [
      | inl bad ↦ ground (arith, eq_iff raw "")
      | inr (k, good) ↦ ground (arith, eq_iff raw "")
    ]

pub limit_param_bounds :
    (q : Query) (key : String) (default max n : ℤ)
    → pos 1 ≤ℤ default
    → default ≤ℤ max
    → limit_param q key default max ≡ (n, [])
    → (pos 1 ≤ℤ n) × (n ≤ℤ max)
limit_param_bounds q key default max n low high h =
    ground (arith, limit_param_iff q key default max n)

-- A name that Kubernetes could have given.
abbrev pub IsName : String → Type 0
IsName s = byte_length (chars s) ≤ 253

get_name-IsName : (q : Query) (key : String) → IsName (get_name q key).0
unfolding get_name
get_name-IsName q key =
    let raw = trim_space (q key) in
    elim (Bool-cases (str_eq raw "")) [
      | inl empty ↦ rw empty (omega arith)
      | inr full ↦ elim (Bool-cases (ltb 253 (byte_length (chars raw)))) [
        | inl long ↦ rw (full, long) (omega arith)
        | inr short ↦ rw (full, short) (ground arith)
      ]
    ]

-- What the filters of a request that is not refused are.
pub record IsNamed (f : Filters) : Type 0 where
  pub cluster : IsName f.cluster
  pub namespace : IsName f.namespace
  pub team : IsName f.team
  pub environment : IsName f.environment
  pub cost_centre : IsName f.cost_centre
  pub workload_kind : IsName f.workload_kind
  pub workload_name : IsName f.workload_name
  pub node : IsName f.node
  pub instance_type : IsName f.instance_type

pub record IsFiltered (f : Filters) : Type 0 where
  pub names : IsNamed f
  pub capacity :
      (f.capacity_type ≡ "") ⊎ (f.capacity_type ≡ "spot") ⊎ (f.capacity_type ≡ "on-demand")

checked_capacity_value : (f : Filters) → (checked_capacity f).0 ≡ f
unfolding checked_capacity
checked_capacity_value f = ground arith

checked_capacity_known :
    (f : Filters)
    → (checked_capacity f).1 ≡ []
    → (f.capacity_type ≡ "") ⊎ (f.capacity_type ≡ "spot") ⊎ (f.capacity_type ≡ "on-demand")
unfolding checked_capacity
checked_capacity_known f h = ground (
  arith,
  eq_iff f.capacity_type "",
  eq_iff f.capacity_type "spot",
  eq_iff f.capacity_type "on-demand",
)

checked_capacity-IsFiltered :
    (f g : Filters) → IsNamed f → checked_capacity f ≡ (g, []) → IsFiltered g
checked_capacity-IsFiltered f g names h =
    let same : f ≡ g = sym (checked_capacity_value f) ∙ ap (λ x. x.0) h in
    subst IsFiltered same
      (record { names = names; capacity = checked_capacity_known f (ap (λ x. x.1) h) })

pub filters-IsFiltered : (q : Query) (f : Filters) → filters q ≡ (f, []) → IsFiltered f
unfolding filters
filters-IsFiltered q f h =
    checked_capacity-IsFiltered
      (record {
        cluster = (get_name q "cluster").0;
        namespace = (get_name q "namespace").0;
        team = (get_name q "team").0;
        environment = (get_name q "environment").0;
        cost_centre = (get_name q "cost_centre").0;
        workload_kind = (get_name q "workload_kind").0;
        workload_name = (get_name q "workload_name").0;
        node = (get_name q "node").0;
        instance_type = (get_name q "instance_type").0;
        capacity_type = (get_name q "capacity_type").0;
        estimated_only = (get_flag q "estimated_only").0;
      })
      f
      (record {
        cluster = get_name-IsName q "cluster";
        namespace = get_name-IsName q "namespace";
        team = get_name-IsName q "team";
        environment = get_name-IsName q "environment";
        cost_centre = get_name-IsName q "cost_centre";
        workload_kind = get_name-IsName q "workload_kind";
        workload_name = get_name-IsName q "workload_name";
        node = get_name-IsName q "node";
        instance_type = get_name-IsName q "instance_type";
      })
      (clean_rest (get_flag q "estimated_only").1 (
        clean_rest (get_name q "capacity_type").1 (
          clean_rest (get_name q "instance_type").1 (
            clean_rest (get_name q "node").1 (
              clean_rest (get_name q "workload_name").1 (
                clean_rest (get_name q "workload_kind").1 (
                  clean_rest (get_name q "cost_centre").1 (
                    clean_rest (get_name q "environment").1 (
                      clean_rest (get_name q "team").1 (
                        clean_rest (get_name q "namespace").1
                          (clean_rest (get_name q "cluster").1 h)))))))))))
