-- ===== src/Pages.antt =====
-- internal/store/postgres/allocations_page.go: the fact rows page by page, newest first. The database
-- answers a query of conditions and a number of rows; JSON and base64 are a codec. Both are parameters.
pub mod Cursors
pub mod Fetching
pub mod Suffixes
pub mod Paging
pub mod Walk
mod Tests
use Prim.Native.String.{String}
use text.Mathlib.Text.{◌==◌ as str_eq}
use kubernetes_cost_analyzer.Common.{
  ℕ, zero, suc, ◌||◌, Option, none, some, List, [], ◌∷◌, Result, ok, err, ◌>>=◌, map_err,
  if◌then◌else◌,
}
use kubernetes_cost_analyzer.Common.Int.{ℤ}
use kubernetes_cost_analyzer.Clock.{Time, is_zero}

pub record Cursor : Type 0 where
  pub window_start : Time
  pub pod_id : ℤ
  pub container_name : String

-- `json.Marshal` and `Unmarshal` of a cursor, and `base64.RawURLEncoding`; a JSON text is a string.
pub record Codec (E : Type 0) : Type 0 where
  pub marshal : Cursor → Result E String
  pub unmarshal : String → Result E Cursor
  pub to_base64 : String → String
  pub from_base64 : String → Result E String

pub data CursorError (E : Type 0) : Type 0 where
  not_base64 : E → CursorError E
  not_a_cursor : E → CursorError E
  incomplete : CursorError E

module _ {E : Type 0} (codec : Codec E) where
  unfoldable pub encode : Cursor → Result E String
  encode c = do raw ← codec.marshal c; ok (codec.to_base64 raw)

  unfoldable pub decode_cursor : String → Result (CursorError E) Cursor
  decode_cursor s = do
    raw ← map_err not_base64 (codec.from_base64 s)
    c ← map_err not_a_cursor (codec.unmarshal raw)
    if is_zero c.window_start || str_eq c.container_name "" then err incomplete else ok c

-- A row as the API returns it; `D` is the type of decimals.
pub record AllocationRow (D : Type 0) : Type 0 where
  pub window_start : Time
  pub window_end : Time
  pub namespace : String
  pub pod_name : String
  pub container : String
  pub workload_kind : String
  pub workload_name : String
  pub node : String
  pub team : String
  pub cost_centre : String
  pub environment : String
  pub instance_type : String
  pub capacity_type : String
  pub zone : String
  pub qos_class : String
  pub cpu_millicores_requested : ℤ
  pub cpu_millicores_used : ℤ
  pub cpu_millicores_billable : ℤ
  pub memory_bytes_requested : ℤ
  pub memory_bytes_used : ℤ
  pub memory_bytes_billable : ℤ
  pub cpu_cost : D
  pub memory_cost : D
  pub total_cost : D
  pub rate_source : String

-- A row as it is scanned, with the pod's id, which is not returned.
pub record Scanned (D : Type 0) : Type 0 where
  pub row : AllocationRow D
  pub pod_id : ℤ

pub record AllocationsPage (D : Type 0) : Type 0 where
  pub rows : List (AllocationRow D)
  pub next_cursor : String

abbrev pub key : {D : Type 0} → Scanned D → Cursor
key s = record {
  window_start = s.row.window_start;
  pod_id = s.pod_id;
  container_name = s.row.container;
}

-- What the statement asks for: the conjuncts of its WHERE clause with their arguments.
pub data Condition : Type 0 where
  since : Time → Condition
  until : Time → Condition
  equals : String → String → Condition
  is_estimated : Condition
  before_key : Cursor → Condition
