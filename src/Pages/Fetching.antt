-- ===== src/Pages/Fetching.antt =====
-- `Allocations` of internal/store/postgres/allocations_page.go, with the filters of report_repo.go.
use Prim.Native.String.{String}
use text.Mathlib.Text.{◌==◌ as str_eq}
use kubernetes_cost_analyzer.Common.{
  ℕ, zero, suc, ◌-◌, Option, none, some, List, [], ◌∷◌, ◌++◌, map, length, ltb, Result, ok, err,
  ◌>>=◌, map_err, if◌then◌else◌,
}
use kubernetes_cost_analyzer.Common.Int.{ℤ, pos, pos_part, lt_ℤ, le_ℤ}
use kubernetes_cost_analyzer.Common.Maps.{Entries, lookup}
use kubernetes_cost_analyzer.Http.Params.{Filters}
use kubernetes_cost_analyzer.Http.Requests.{AllocationsParams}
use kubernetes_cost_analyzer.Pages.{
  Cursor, Codec, encode, Scanned, AllocationsPage, key, Condition, since, until, equals,
  is_estimated, before_key,
}

abbrev pub max_page_size : ℤ
max_page_size = pos 500

abbrev pub default_page_size : ℤ
default_page_size = pos 100

abbrev pub filter_columns : Entries String
filter_columns =
    ("cluster", "cluster_name")
    ∷ ("namespace", "namespace_name")
    ∷ ("team", "team")
    ∷ ("environment", "environment")
    ∷ ("cost_centre", "cost_centre")
    ∷ ("workload_kind", "workload_kind")
    ∷ ("workload_name", "workload_name")
    ∷ ("node", "node_name")
    ∷ ("instance_type", "instance_type")
    ∷ ("capacity_type", "capacity_type")
    ∷ []

-- The pairs whose value is not empty.
abbrev pub nonempty : Entries String → Entries String
nonempty [] = []
nonempty (p ∷ ps) = let rest = nonempty ps in if str_eq p.1 "" then rest else p ∷ rest

abbrev pub filter_pairs : Filters → Entries String
filter_pairs f =
    ("cluster", f.cluster)
    ∷ ("namespace", f.namespace)
    ∷ ("team", f.team)
    ∷ ("environment", f.environment)
    ∷ ("cost_centre", f.cost_centre)
    ∷ ("workload_kind", f.workload_kind)
    ∷ ("workload_name", f.workload_name)
    ∷ ("node", f.node)
    ∷ ("instance_type", f.instance_type)
    ∷ ("capacity_type", f.capacity_type)
    ∷ []

-- `Filters.values`.
unfoldable pub filter_values : Filters → Entries String
filter_values f = nonempty (filter_pairs f)

pub data PageError (E : Type 0) : Type 0 where
  unknown_filter : String → PageError E
  querying : E → PageError E
  encoding : E → PageError E

-- The loop that adds the filters.
unfoldable pub filter_conditions :
    {E : Type 0} → Entries String → Result (PageError E) (List Condition)
filter_conditions [] = ok []
filter_conditions (p ∷ ps) = elim (lookup p.0 filter_columns) [
  | none ↦ err (unknown_filter p.0)
  | some column ↦ filter_conditions ps >>= λ rest. ok (equals column p.1 ∷ rest)
]

abbrev pub cursor_condition : Option Cursor → List Condition
cursor_condition none = []
cursor_condition (some c) = before_key c ∷ []

unfoldable pub conditions :
    {E : Type 0} → AllocationsParams Cursor → Result (PageError E) (List Condition)
conditions p = do
  filtered ← filter_conditions (filter_values p.filters)
  ok (
      (since p.from ∷ until p.to ∷ filtered)
      ++ (if p.filters.estimated_only then is_estimated ∷ [] else [])
      ++ cursor_condition p.cursor)

unfoldable pub page_size : ℤ → ℤ
page_size limit =
    let wanted = if le_ℤ limit (pos 0) then default_page_size else limit in
    if lt_ℤ max_page_size wanted then max_page_size else wanted

module _ {ℓ} {A : Type ℓ} where
  -- `rows[:n]`.
  abbrev pub take : ℕ → List A → List A
  take zero xs = []
  take (suc n) [] = []
  take (suc n) (x ∷ xs) = x ∷ take n xs

  abbrev pub get_elem? : List A → ℕ → Option A
  get_elem? [] i = none
  get_elem? (x ∷ xs) zero = some x
  get_elem? (x ∷ xs) (suc i) = get_elem? xs i

-- The database: the rows of a query in the order of its keys, as many as asked for at most.
pub record Database (D E : Type 0) : Type 0 where
  pub run : List Condition → ℕ → Result E (List (Scanned D))

module _ {D E : Type 0} (codec : Codec E) where
  -- What is made of the rows: the spare one says that there is a next page, and is dropped.
  unfoldable pub page_of : ℕ → List (Scanned D) → Result (PageError E) (AllocationsPage D)
  page_of limit scanned =
      if ltb limit (length scanned)
      then elim (get_elem? (take limit scanned) (limit - 1)) [
        | none ↦ ok (record { rows = map (λ s. s.row) (take limit scanned); next_cursor = "" })
        | some last ↦ map_err encoding (encode codec (key last)) >>= λ text.
            ok (record { rows = map (λ s. s.row) (take limit scanned); next_cursor = text })
      ]
      else ok (record { rows = map (λ s. s.row) scanned; next_cursor = "" })

  unfoldable pub allocations :
      Database D E → AllocationsParams Cursor → Result (PageError E) (AllocationsPage D)
  allocations db p = do
    let limit = pos_part (page_size p.limit)
    where_clause ← conditions p
    scanned ← map_err querying (db.run where_clause (suc limit))
    page_of limit scanned
